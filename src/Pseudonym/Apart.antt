-- ===== src/Pseudonym/Apart.antt =====
-- Of hire-core/src/pseudonym.rs: when two derivations meet, and the form of a pseudonym.
use mathlib.Core.Path.{ap₂}
use mathlib.Core.List.{append_cancel_left}
use project_persona.Prelude.{◌≡◌, refl, sym, ap, ◌∙◌, [], ◌∷◌, ◌++◌, arith, length, All, ok}
use project_persona.Text.{Bytes, codes}
use project_persona.Text.Hex.{IsByte, hex-injective}
use project_persona.SpiffeId.{SpiffeId, show_domain, uri, pseudonymous, is_empty, parse}
use project_persona.SpiffeId.Domain.{IsNamed}
use project_persona.SpiffeId.Uri.{IsNameable, parse-uri, uri-injective}
use project_persona.Consumer.{ConsumerIdentity, selector_key}
use project_persona.Consumer.Keys.{IsNamedApart, selector_key-injective}
use project_persona.Pseudonym.{Hkdf, hkdf_scheme, derive_pseudonym, derive_pseudonymous_id}

append-split : (a b x y : Bytes) → length a ≡ length b → a ++ x ≡ b ++ y → (a ≡ b) × (x ≡ y)
append-split [] [] x y n h = (refl, h)
append-split [] (c ∷ b) x y n h = absurd (omega (arith, n))
append-split (c ∷ a) [] x y n h = absurd (omega (arith, n))
append-split (c ∷ a) (d ∷ b) x y n h =
    let head : c ≡ d = cc in
    let tail : a ++ x ≡ b ++ y = cc in
    let (p, q) = append-split a b x y (omega (arith, n)) tail in (ap₂ ◌∷◌ head p, q)

-- HKDF returns bytes.
abbrev pub ReturnsBytes : Hkdf → Type 0
ReturnsBytes hkdf = (salt ikm info : Bytes) → All IsByte (hkdf salt ikm info)

-- The function does not collide on the two derivations: where its results agree, so do the key
-- material and the info.
abbrev pub Apart :
    Hkdf → Bytes × SpiffeId × ConsumerIdentity → Bytes × SpiffeId × ConsumerIdentity → Type 0
Apart hkdf (k, r, c) (l, s, d) =
    hkdf (show_domain r.trust_domain) (k ++ uri r) (hkdf_scheme ++ selector_key c)
      ≡ hkdf (show_domain s.trust_domain) (l ++ uri s) (hkdf_scheme ++ selector_key d)
    → ((k ++ uri r) ≡ (l ++ uri s))
      × ((hkdf_scheme ++ selector_key c) ≡ (hkdf_scheme ++ selector_key d))

-- Under one function that returns bytes and does not collide on the two derivations, two pseudonyms
-- are equal only for the same key, the same root and the same consumer. The keys have 32 bytes,
-- the roots are identifiers that a URI can name, and the consumers are told apart by their keys.
pub derive_pseudonymous_id-injective :
    (hkdf : Hkdf)
    → ReturnsBytes hkdf
    → (k l : Bytes) (r s : SpiffeId) (c d : ConsumerIdentity) → length k ≡ 32
    → length l ≡ 32
    → IsNameable r
    → IsNameable s
    → IsNamedApart c
    → IsNamedApart d
    → Apart hkdf (k, r, c) (l, s, d)
    → derive_pseudonymous_id hkdf k r c ≡ derive_pseudonymous_id hkdf l s d
    → (k ≡ l) × (r ≡ s) × (c ≡ d)
unfolding derive_pseudonymous_id derive_pseudonym pseudonymous
derive_pseudonymous_id-injective hkdf bytes k l r s c d nk nl hr hs hc hd apart h =
    let path = append_cancel_left (codes "pseudonym/") _ _ (ap (λ z. z.path) h) in
    let (material, info) = apart (hex-injective _ _ (bytes _ _ _) (bytes _ _ _) path) in
    let (key, root) = append-split k l (uri r) (uri s) (nk ∙ sym nl) material in
    (
      key,
      uri-injective r s hr hs root,
      selector_key-injective c d hc hd (append_cancel_left hkdf_scheme _ _ info),
    )

-- The pseudonym of a root with a well-formed domain is an identifier of that domain which its URI
-- gives back.
pub derive_pseudonymous_id-parse :
    (hkdf : Hkdf) (key : Bytes) (root : SpiffeId) (consumer : ConsumerIdentity)
    → IsNamed root.trust_domain
    → (parse (uri (derive_pseudonymous_id hkdf key root consumer))
        ≡ ok (derive_pseudonymous_id hkdf key root consumer))
      × ((derive_pseudonymous_id hkdf key root consumer).trust_domain ≡ root.trust_domain)
unfolding derive_pseudonymous_id pseudonymous is_empty
derive_pseudonymous_id-parse hkdf key root consumer h =
    (parse-uri (derive_pseudonymous_id hkdf key root consumer) (h, refl), refl)
