-- ===== src/Claim/Domain.antt =====
-- Of `Claim::derive`: which authority a claim is anchored in.
use mathlib.Core.List.{Memᴰ}
use mathlib.Core.List.Memᴰ
use project_persona.Prelude.{
  ◌≡◌, refl, sym, ap, ◌∙◌, inl, inr, ◌⊎◌, some, some-injective, List, [], ◌∷◌,
}
use project_persona.Text.{Bytes}
use project_persona.SpiffeId.{org_oidc}
use project_persona.Claim.{
  Candidate, to_trust_domain, candidate_spiffe_id, Evidence, idp_verified, possession,
  hardware_presence, platform_assertion, daemon_assertion, VerifiedToken, tier, binds_to, Claim,
  bound, fold_tiers, anchor, claim_of, derive_bound, derive,
}
use project_persona.Claim.Bound.{bound-Memᴰ, Memᴰ-bound}

-- A claim that was made of a non-empty list of evidence.
abbrev pub MadeOf : Candidate → List Evidence → Claim → Type 0
MadeOf c b k =
    (x : Evidence) × (rest : List Evidence) × (b ≡ x ∷ rest)
    × (k ≡ claim_of c (x ∷ rest) (fold_tiers (tier x) rest))

derive_bound-MadeOf :
    (c : Candidate) (b : List Evidence) (k : Claim) → derive_bound c b ≡ some k → MadeOf c b k
unfolding derive_bound
derive_bound-MadeOf c [] k h = absurd cc
derive_bound-MadeOf c (x ∷ rest) k h = (x, rest, refl, sym (some-injective h))

pub derive-MadeOf :
    (c : Candidate) (challenge : Bytes) (es : List Evidence) (k : Claim)
    → derive c challenge es ≡ some k
    → MadeOf c (bound c challenge es) k
unfolding derive
derive-MadeOf c challenge es k h = derive_bound-MadeOf c (bound c challenge es) k h

-- The anchor is the issuer of a token, or there is no token and it is the candidate's own domain.
abbrev Anchored : Candidate → List Evidence → Type 0
Anchored c es =
    ((t : VerifiedToken) × Memᴰ (idp_verified t) es × (anchor c es ≡ org_oidc t.issuer_domain))
    ⊎ ((anchor c es ≡ to_trust_domain c.domain)
        × ((t : VerifiedToken) → ¬ Memᴰ (idp_verified t) es))

Anchored-cons :
    (c : Candidate) (e : Evidence) (es : List Evidence)
    → anchor c (e ∷ es) ≡ anchor c es
    → ((t : VerifiedToken) → ¬ (idp_verified t ≡ e))
    → Anchored c es
    → Anchored c (e ∷ es)
Anchored-cons c e es q other (inl (t, m, a)) = inl (t, Memᴰ.tail m, q ∙ a)
Anchored-cons c e es q other (inr (a, no_token)) =
    inr (q ∙ a, λ t m. elim (Memᴰ.cases_cons m) [ inl p ↦ other t p | inr l ↦ no_token t l ])

anchor-Anchored : (c : Candidate) (es : List Evidence) → Anchored c es
unfolding anchor
anchor-Anchored c [] = inr (refl, λ t m. elim m [ ])
anchor-Anchored c (idp_verified t ∷ es) = inl (t, Memᴰ.head refl, refl)
anchor-Anchored c (possession s ∷ es) =
    Anchored-cons c (possession s) es refl (λ t q. cc) (anchor-Anchored c es)
anchor-Anchored c (hardware_presence s ∷ es) =
    Anchored-cons c (hardware_presence s) es refl (λ t q. cc) (anchor-Anchored c es)
anchor-Anchored c (platform_assertion s ∷ es) =
    Anchored-cons c (platform_assertion s) es refl (λ t q. cc) (anchor-Anchored c es)
anchor-Anchored c (daemon_assertion s ∷ es) =
    Anchored-cons c (daemon_assertion s) es refl (λ t q. cc) (anchor-Anchored c es)

-- A claim keeps the candidate's path. It is anchored in the issuer of a token in evidence, or there
-- is no token in evidence and the identity is the one that the candidate asserted of itself.
pub derive-anchor :
    (c : Candidate) (challenge : Bytes) (es : List Evidence) (k : Claim)
    → derive c challenge es ≡ some k
    → (k.spiffe_id.path ≡ c.path)
      × (((t : VerifiedToken) × Memᴰ (idp_verified t) es
            × (k.spiffe_id.trust_domain ≡ org_oidc t.issuer_domain))
          ⊎ ((k.spiffe_id ≡ candidate_spiffe_id c)
              × ((t : VerifiedToken) → ¬ Memᴰ (idp_verified t) es)))
unfolding claim_of candidate_spiffe_id binds_to
derive-anchor c challenge es k h =
    let (x, rest, q, made) = derive-MadeOf c challenge es k h in
    let id = ap (λ z. z.spiffe_id) made in
    let b = bound c challenge es in
    (
      ap (λ i. i.path) id,
      elim (anchor-Anchored c (x ∷ rest)) [
        | inl (t, m, a) ↦ inl (
          t,
          (bound-Memᴰ c challenge es (idp_verified t) (rw q m)).0,
          ap (λ i. i.trust_domain) id ∙ a,
        )
        | inr (a, no_token) ↦ inr (
          id ∙ ap (λ d. record { trust_domain = d; path = c.path }) a,
          λ t m. no_token t (rw (sym q) (Memᴰ-bound c challenge es (idp_verified t) m refl)),
        )
      ],
    )
