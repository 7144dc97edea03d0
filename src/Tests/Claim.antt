-- ===== src/Tests/Claim.antt =====
-- hire-attestors/src/claim.rs at the inputs of its tests.
use mathlib.Core.List.{Memᴰ}
use project_persona.Prelude.{◌≡◌, ◌↔◌, refl, false, some, List, [], ◌∷◌, ◌⊎◌}
use project_persona.Text.{Bytes, codes, same}
use project_persona.Assurance.{
  IdentityAssurance, hardware, assurance_rank, presence_rank, max_assurance, presence_gt,
}
use project_persona.SpiffeId.{org_oidc}
use project_persona.Claim.{
  SystemTime, Candidate, ssh_local, new_candidate, candidate_spiffe_id, VerifiedToken, Evidence,
  possession, idp_verified, hardware_presence, tier, binds_to, Claim, bound, fold_tier, fold_tiers,
  raise_iaa3, anchor, claim_of, derive_bound, derive,
}
use project_persona.Claim.Domain.{derive-anchor}
use project_persona.Claim.Fold.{Outranks, SameObservation}
use project_persona.Claim.Levels.{
  Counts, Touched, Vouched, claim_tier, derive-latest_presence, derive-assurance,
}

abbrev ssh_key : Candidate
ssh_key = new_candidate (codes "ssh-agent") ssh_local (codes "ssh/ab") (codes "a key")

abbrev signature : Bytes → SystemTime → Evidence
signature challenge t = possession record {
  assertion = record { bytes = []; format = codes "ssh-ed25519" };
  challenge = challenge;
  observed_at = t;
}

abbrev token : Evidence
token = idp_verified record { issuer_domain = codes "corp.example"; authenticated_at = 20 }

abbrev touch : Evidence
touch = hardware_presence record { touched_at = 10 }

abbrev asked : Bytes
asked = codes "asked"

abbrev shown : List Evidence
shown = signature asked 30 ∷ token ∷ touch ∷ signature (codes "replayed") 40 ∷ []

abbrev proven : Claim
proven = record {
  source = codes "ssh-agent";
  assurance = IdentityAssurance.iaa3;
  presence = hardware;
  spiffe_id = record { trust_domain = org_oidc (codes "corp.example"); path = codes "ssh/ab" };
  display_name = codes "a key";
  attested_at = 10;
}

derive-shown : derive ssh_key asked shown ≡ some proven
unfolding derive derive_bound bound binds_to claim_of fold_tiers fold_tier tier raise_iaa3 anchor
    assurance_rank presence_rank max_assurance presence_gt same new_candidate
derive-shown = refl

replayed-unbound : binds_to ssh_key asked (signature (codes "replayed") 40) ≡ false
unfolding binds_to same
replayed-unbound = refl

derive-latest_presence_example :
    ((e : Evidence) × Counts ssh_key asked shown e × SameObservation (claim_tier proven) (tier e))
    × ((e : Evidence) → Counts ssh_key asked shown e → Outranks (tier e) (claim_tier proven))
derive-latest_presence_example = derive-latest_presence ssh_key asked shown proven derive-shown

derive-assurance_example :
    ((proven.assurance ≡ IdentityAssurance.iaa3) ↔ (Touched shown × Vouched ssh_key asked shown))
    × ((proven.assurance ≡ IdentityAssurance.iaa1) ↔ ¬ Vouched ssh_key asked shown)
derive-assurance_example = derive-assurance ssh_key asked shown proven derive-shown

derive-anchor_example :
    (proven.spiffe_id.path ≡ ssh_key.path)
    × (((t : VerifiedToken) × Memᴰ (idp_verified t) shown
          × (proven.spiffe_id.trust_domain ≡ org_oidc t.issuer_domain))
        ⊎ ((proven.spiffe_id ≡ candidate_spiffe_id ssh_key)
            × ((t : VerifiedToken) → ¬ Memᴰ (idp_verified t) shown)))
derive-anchor_example = derive-anchor ssh_key asked shown proven derive-shown
