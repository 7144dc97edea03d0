-- ===== src/SpiffeId/Uri.antt =====
-- Of hire-core/src/spiffe_id.rs: `uri` and `FromStr for SpiffeId` side by side.
use project_persona.Prelude.{
  ℕ, ◌==◌, ◌≡◌, refl, sym, ap, ◌∙◌, ◌↔◌, true, false, inl, inr, [], ◌∷◌, ◌++◌, arith, Bool-cases,
  &&_parts, Option-cases, ok, >>=-eq-ok, ok-injective,
}
use mathlib.Core.Path.{ap₂}
use project_persona.Text.{Bytes, codes}
use project_persona.Text.Split.{
  Lacks, Lacks-by, Lacks-append, strip_prefix, strip_prefix-append, strip_prefix-eq-some,
  split_once, split_once-append, split_once-eq-some,
}
use project_persona.SpiffeId.{
  TrustDomain, SpiffeId, tailscale, org_oidc, personal_did, piv_issuer, ssh_local, pgp_local,
  show_domain, is_domain_byte, all_domain_bytes, is_empty, parse_domain, parse_halves, parse,
  scheme, uri,
}
use project_persona.SpiffeId.Domain.{IsNamed, parse_domain-show, parse_domain-eq-ok}

is_domain_byte-ne : (b : ℕ) → is_domain_byte b ≡ true → (b == b'/') ≡ false
unfolding is_domain_byte
is_domain_byte-ne b h = ground arith

domain_bytes-Lacks : (s : Bytes) → all_domain_bytes s ≡ true → Lacks b'/' s
unfolding all_domain_bytes
domain_bytes-Lacks [] h = tt
domain_bytes-Lacks (b ∷ s) h =
    let (here, there) = &&_parts (is_domain_byte b) (all_domain_bytes s) h in
    (is_domain_byte-ne b here, domain_bytes-Lacks s there)

show_domain-Lacks : (d : TrustDomain) → IsNamed d → Lacks b'/' (show_domain d)
unfolding show_domain
show_domain-Lacks tailscale h = Lacks-by b'/' (codes "tailscale") refl
show_domain-Lacks ssh_local h = Lacks-by b'/' (codes "ssh.local") refl
show_domain-Lacks pgp_local h = Lacks-by b'/' (codes "pgp.local") refl
show_domain-Lacks (org_oidc d) h =
    Lacks-append b'/' (codes "oidc.") d (Lacks-by b'/' (codes "oidc.") refl)
      (domain_bytes-Lacks d h.1)
show_domain-Lacks (personal_did d) h =
    Lacks-append b'/' (codes "personal.") d (Lacks-by b'/' (codes "personal.") refl)
      (domain_bytes-Lacks d h.1)
show_domain-Lacks (piv_issuer d) h =
    Lacks-append b'/' (codes "piv.") d (Lacks-by b'/' (codes "piv.") refl)
      (domain_bytes-Lacks d h.1)

show_domain-not-empty : (d : TrustDomain) → is_empty (show_domain d) ≡ false
unfolding show_domain is_empty
show_domain-not-empty tailscale = refl
show_domain-not-empty d = refl

-- An identifier that a URI can name: its domain is named, and it has a path.
abbrev pub IsNameable : SpiffeId → Type 0
IsNameable id = IsNamed id.trust_domain × (is_empty id.path ≡ false)

-- Every such identifier is read back from its URI.
pub parse-uri : (id : SpiffeId) → IsNameable id → parse (uri id) ≡ ok id
unfolding parse uri parse_halves
parse-uri id h = rw (
  strip_prefix-append scheme (show_domain id.trust_domain ++ b'/' ∷ id.path),
  split_once-append b'/' (show_domain id.trust_domain) id.path
      (show_domain-Lacks id.trust_domain h.0),
  show_domain-not-empty id.trust_domain,
  h.1,
  parse_domain-show id.trust_domain h.0,
)

parse_halves-eq-ok :
    (td_str path : Bytes) {id : SpiffeId}
    → parse_halves td_str path ≡ ok id
    → (td_str ≡ show_domain id.trust_domain) × (path ≡ id.path) × IsNameable id
unfolding parse_halves
parse_halves-eq-ok td_str path {id} h = elim (Bool-cases (is_empty td_str)) [
  | inl e ↦ absurd (cc (rw e at h))
  | inr e ↦ elim (Bool-cases (is_empty path)) [
    | inl k ↦ absurd (cc (rw (e, k) at h))
    | inr k ↦
        let (d, at_d, done) = >>=-eq-ok (parse_domain td_str) (λ d. ok _) (rw (e, k) at h) in
        let (shown, named) = parse_domain-eq-ok td_str at_d in
        rw (← ok-injective done) (sym shown, refl, (named, k))
  ]
]

-- Only the URI of such an identifier parses, and as that identifier.
pub parse-eq-ok : (s : Bytes) {id : SpiffeId} → parse s ≡ ok id → (s ≡ uri id) × IsNameable id
unfolding parse uri
parse-eq-ok s {id} h = elim (Option-cases (strip_prefix scheme s)) [
  | inl m ↦ absurd (cc (rw m at h))
  | inr (rest, m) ↦ elim (Option-cases (split_once b'/' rest)) [
    | inl k ↦ absurd (cc (rw (m, k) at h))
    | inr ((td_str, path), k) ↦
        let (shown, tail, named) = parse_halves-eq-ok td_str path (rw (m, k) at h) in
        (
          strip_prefix-eq-some scheme s m
              ∙ ap (◌++◌ scheme)
                  ((split_once-eq-some b'/' rest k).0 ∙ ap₂ (λ a b. a ++ b'/' ∷ b) shown tail),
          named,
        )
  ]
]

-- A string parses as an identifier exactly when it is the URI of that identifier, whose domain has a
-- well-formed name and whose path is not empty.
pub parse_iff : (s : Bytes) (id : SpiffeId) → (parse s ≡ ok id) ↔ ((s ≡ uri id) × IsNameable id)
parse_iff s id = (parse-eq-ok s, λ w. ap parse w.0 ∙ parse-uri id w.1)

-- Two such identifiers with one URI are one.
pub uri-injective : (a b : SpiffeId) → IsNameable a → IsNameable b → uri a ≡ uri b → a ≡ b
uri-injective a b ha hb h = ok-injective (sym (parse-uri a ha) ∙ ap parse h ∙ parse-uri b hb)
