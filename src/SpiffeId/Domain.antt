-- ===== src/SpiffeId/Domain.antt =====
-- Of hire-core/src/spiffe_id.rs: `Display` and `FromStr` of a trust domain side by side.
use project_persona.Prelude.{
  ℕ, ◌+◌, ◌*◌, ◌≡◌, inl, inr, refl, ap, true, false, [], ◌∷◌, ◌++◌, arith, &&_parts, Bool-cases,
  Option-cases, ok,
}
use mathlib.Core.List.{append_cancel_left}
use project_persona.Text.{Bytes, codes, same, same_iff}
use project_persona.Text.Split.{split_once, split_once-eq-some}
use project_persona.SpiffeId.{
  TrustDomain, tailscale, org_oidc, personal_did, piv_issuer, ssh_local, pgp_local, show_domain,
  is_domain_byte, all_domain_bytes, is_empty, labelled, named_domain, parse_domain,
}

-- The text behind a namespace: not empty, and of the bytes that a SPIFFE trust domain may hold.
abbrev pub IsName : Bytes → Type 0
IsName s = (is_empty s ≡ false) × (all_domain_bytes s ≡ true)

-- A trust domain that the daemon can name in a URI.
abbrev pub IsNamed : TrustDomain → Type 0
IsNamed (org_oidc d) = IsName d
IsNamed (personal_did d) = IsName d
IsNamed (piv_issuer d) = IsName d
IsNamed _ = Unit

-- Every named trust domain is read back from its string form.
pub parse_domain-show : (d : TrustDomain) → IsNamed d → parse_domain (show_domain d) ≡ ok d
unfolding parse_domain show_domain named_domain labelled is_empty all_domain_bytes is_domain_byte
    same split_once
parse_domain-show tailscale h = refl
parse_domain-show ssh_local h = refl
parse_domain-show pgp_local h = refl
parse_domain-show (org_oidc d) h = rw (h.1, labelled, h.0)
parse_domain-show (personal_did d) h = rw (h.1, labelled, h.0)
parse_domain-show (piv_issuer d) h = rw (h.1, labelled, h.0)

-- The first two bytes tell the six forms apart.
abbrev first_two : Bytes → ℕ
first_two [] = 0
first_two (x ∷ []) = 0
first_two (x ∷ y ∷ s) = x * 256 + y

-- No two trust domains share a string form, whatever text they hold.
pub show_domain-injective : (d e : TrustDomain) → show_domain d ≡ show_domain e → d ≡ e
unfolding show_domain
show_domain-injective (org_oidc d) (org_oidc e) h =
    ap org_oidc (append_cancel_left (codes "oidc.") d e h)
show_domain-injective (personal_did d) (personal_did e) h =
    ap personal_did (append_cancel_left (codes "personal.") d e h)
show_domain-injective (piv_issuer d) (piv_issuer e) h =
    ap piv_issuer (append_cancel_left (codes "piv.") d e h)
show_domain-injective tailscale tailscale h = refl
show_domain-injective ssh_local ssh_local h = refl
show_domain-injective pgp_local pgp_local h = refl
show_domain-injective d e h = absurd (omega (arith, ap first_two h))

all_domain_bytes-append :
    (a b : Bytes) → all_domain_bytes (a ++ b) ≡ true → all_domain_bytes b ≡ true
unfolding all_domain_bytes
all_domain_bytes-append [] b h = h
all_domain_bytes-append (x ∷ a) b h =
    all_domain_bytes-append a b (&&_parts (is_domain_byte x) (all_domain_bytes (a ++ b)) h).1

all_domain_bytes-behind :
    (a : Bytes) (c : ℕ) (b : Bytes)
    → all_domain_bytes (a ++ c ∷ b) ≡ true
    → all_domain_bytes b ≡ true
unfolding all_domain_bytes
all_domain_bytes-behind a c b h =
    (&&_parts (is_domain_byte c) (all_domain_bytes b) (all_domain_bytes-append a (c ∷ b) h)).1

labelled-eq-ok :
    (s label rest : Bytes) {d : TrustDomain}
    → labelled s label rest ≡ ok d
    → all_domain_bytes rest ≡ true
    → (show_domain d ≡ label ++ b'.' ∷ rest) × IsNamed d
unfolding labelled show_domain
labelled-eq-ok s label rest h all = ground (
  arith,
  same_iff label (codes "personal"),
  same_iff label (codes "piv"),
  same_iff label (codes "oidc"),
)

named_domain-eq-ok :
    (s : Bytes) {d : TrustDomain}
    → named_domain s ≡ ok d
    → all_domain_bytes s ≡ true
    → (show_domain d ≡ s) × IsNamed d
unfolding named_domain show_domain
named_domain-eq-ok s h all = elim (Bool-cases (same s (codes "tailscale"))) [
  | inl e ↦ ground (arith, same_iff s (codes "tailscale"))
  | inr e ↦ elim (Bool-cases (same s (codes "ssh.local"))) [
    | inl k ↦ ground (arith, same_iff s (codes "ssh.local"))
    | inr k ↦ elim (Bool-cases (same s (codes "pgp.local"))) [
      | inl l ↦ ground (arith, same_iff s (codes "pgp.local"))
      | inr l ↦ elim (Option-cases (split_once b'.' s)) [
        | inl m ↦ absurd (cc (rw (e, k, l, m, named_domain) at h))
        | inr ((label, rest), m) ↦
            let whole = split_once-eq-some b'.' s m in
            rw whole.0 (
              labelled-eq-ok s label rest (rw (e, k, l, named_domain, m) at h)
                (all_domain_bytes-behind label b'.' rest (rw whole.0 at all)))
      ]
    ]
  ]
]

-- Only the string form of a named trust domain parses.
pub parse_domain-eq-ok :
    (s : Bytes) {d : TrustDomain} → parse_domain s ≡ ok d → (show_domain d ≡ s) × IsNamed d
unfolding parse_domain
parse_domain-eq-ok s h = elim (Bool-cases (is_empty s)) [
  | inl e ↦ absurd (cc (rw e at h))
  | inr e ↦ elim (Bool-cases (all_domain_bytes s)) [
    | inl k ↦ named_domain-eq-ok s (rw (e, k) at h) k
    | inr k ↦ absurd (cc (rw (e, k) at h))
  ]
]
