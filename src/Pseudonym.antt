-- ===== src/Pseudonym.antt =====
-- hire-core/src/pseudonym.rs: the identity that one consumer sees of one root identity. The key
-- derivation function of the `hkdf` and `sha2` crates is a parameter.
pub mod Apart
use project_persona.Prelude.{◌++◌}
use project_persona.Text.{Bytes, codes}
use project_persona.Text.Hex.{hex}
use project_persona.SpiffeId.{TrustDomain, show_domain, SpiffeId, uri, pseudonymous}
use project_persona.Consumer.{ConsumerIdentity, selector_key}

-- HKDF-SHA256 to 32 bytes: salt, key material, info.
abbrev pub Hkdf : Type 0
Hkdf = Bytes → Bytes → Bytes → Bytes

abbrev pub hkdf_scheme : Bytes
hkdf_scheme = codes "hire-pseudonym-v1:"

module _ (hkdf : Hkdf) where
  unfoldable pub derive_pseudonym : Bytes → TrustDomain → ConsumerIdentity → Bytes
  derive_pseudonym ikm trust_domain consumer =
      hkdf (show_domain trust_domain) ikm (hkdf_scheme ++ selector_key consumer)

  unfoldable pub derive_pseudonymous_id : Bytes → SpiffeId → ConsumerIdentity → SpiffeId
  unfolding derive_pseudonym
  derive_pseudonymous_id ikm root consumer =
      let material = ikm ++ uri root in
      let okm = derive_pseudonym material root.trust_domain consumer in
      pseudonymous root.trust_domain (hex okm)
