-- ===== src/Claim/Levels.antt =====
-- Of `Claim::derive`: the presence and the assurance of a claim.
use mathlib.Core.List.{Memᴰ}
use mathlib.Core.List.Memᴰ
use project_persona.Prelude.{
  ◌≤◌, ◌≡◌, ◌↔◌, refl, sym, ◌∙◌, subst, true, inl, inr, some, List, ◌∷◌, arith,
}
use project_persona.Text.{Bytes}
use project_persona.Assurance.{
  IdentityAssurance, PresenceLevel, hardware, presence_rank, assurance_rank,
}
use project_persona.Claim.{
  Candidate, Evidence, HardwareTouch, possession, idp_verified, hardware_presence,
  platform_assertion, daemon_assertion, Tier, tier, binds_to, Claim, bound, SystemTime, fold_tiers,
  raise_iaa3, claim_of, derive,
}
use project_persona.Claim.Bound.{bound-Memᴰ, Memᴰ-bound}
use project_persona.Claim.Domain.{derive-MadeOf}
use project_persona.Claim.Fold.{
  Outranks, SameObservation, fold_tiers-Outranks, fold_tiers-assurance,
}

-- What a claim asserts of presence, as a tier.
abbrev pub claim_tier : Claim → Tier
claim_tier k = record {
  assurance = k.assurance;
  presence = k.presence;
  attested_at = k.attested_at;
}

-- Evidence that was handed in and that binds.
abbrev pub Counts : Candidate → Bytes → List Evidence → Evidence → Type 0
Counts c challenge es e = Memᴰ e es × (binds_to c challenge e ≡ true)

Memᴰ-Counts :
    (c : Candidate) (challenge : Bytes) (es : List Evidence) (x e : Evidence) (rest : List Evidence)
    → bound c challenge es ≡ x ∷ rest
    → Memᴰ e (x ∷ rest)
    → Counts c challenge es e
Memᴰ-Counts c challenge es x e rest q m = bound-Memᴰ c challenge es e (rw q m)

-- What holds of the first piece that counts and of the rest holds of every piece that counts.
Counts-all :
    (c : Candidate) (challenge : Bytes) (es : List Evidence) (x : Evidence) (rest : List Evidence)
    (P : Evidence → Type 0)
    → bound c challenge es ≡ x ∷ rest
    → P x
    → ((e : Evidence) → Memᴰ e rest → P e)
    → (e : Evidence) → Counts c challenge es e
    → P e
Counts-all c challenge es x rest P q first later e (m, b) =
    let kept : Memᴰ e (x ∷ rest) = rw (sym q) (Memᴰ-bound c challenge es e m b) in
    elim (Memᴰ.cases_cons kept) [ inl p ↦ subst P (sym p) first | inr l ↦ later e l ]

-- The presence and the instant of a claim are those of one piece of evidence that counts, both
-- together; and every piece that counts speaks of a lower presence, or of the same one no later.
pub derive-latest_presence :
    (c : Candidate) (challenge : Bytes) (es : List Evidence) (k : Claim)
    → derive c challenge es ≡ some k
    → ((e : Evidence) × Counts c challenge es e × SameObservation (claim_tier k) (tier e))
      × ((e : Evidence) → Counts c challenge es e → Outranks (tier e) (claim_tier k))
unfolding claim_of
derive-latest_presence c challenge es k h =
    let (x, rest, q, made) = derive-MadeOf c challenge es k h in
    let (over, over_all, origin) = fold_tiers-Outranks (tier x) rest in
    rw made (
      (elim origin [
        | inl s ↦ (x, Memᴰ-Counts c challenge es x x rest q (Memᴰ.head refl), s)
        | inr (e, m, s) ↦ (e, Memᴰ-Counts c challenge es x e rest q (Memᴰ.tail m), s)
      ]),
      Counts-all c challenge es x rest (λ e. Outranks (tier e) (fold_tiers (tier x) rest)) q over
          over_all,
    )

-- Whom a piece of evidence rests on: a token rests on the identity provider that signed it, and an
-- answer of a daemon on that daemon. A key, a touch and an account vouch for themselves.
abbrev pub IsVouched : Evidence → Type 0
IsVouched (possession s) = ⊥
IsVouched (idp_verified t) = Unit
IsVouched (hardware_presence t) = ⊥
IsVouched (platform_assertion p) = ⊥
IsVouched (daemon_assertion d) = Unit

-- Evidence that some identity provider, or some daemon, stood behind.
abbrev pub Vouched : Candidate → Bytes → List Evidence → Type 0
Vouched c challenge es = (e : Evidence) × Counts c challenge es e × IsVouched e

tier-IsVouched : (e : Evidence) → ((tier e).assurance ≡ IdentityAssurance.iaa2) ↔ IsVouched e
unfolding tier
tier-IsVouched (possession s) = (λ h. absurd cc, λ v. absurd v)
tier-IsVouched (idp_verified t) = (λ h. tt, λ v. refl)
tier-IsVouched (hardware_presence t) = (λ h. absurd cc, λ v. absurd v)
tier-IsVouched (platform_assertion p) = (λ h. absurd cc, λ v. absurd v)
tier-IsVouched (daemon_assertion d) = (λ h. tt, λ v. refl)

abbrev pub Touched : List Evidence → Type 0
Touched es = (h : HardwareTouch) × Memᴰ (hardware_presence h) es

tier-iaa3 : (e : Evidence) → ¬ ((tier e).assurance ≡ IdentityAssurance.iaa3)
unfolding tier
tier-iaa3 (possession s) h = cc
tier-iaa3 (idp_verified t) h = cc
tier-iaa3 (hardware_presence t) h = cc
tier-iaa3 (platform_assertion p) h = cc
tier-iaa3 (daemon_assertion d) h = cc

tier-hardware :
    (e : Evidence) → (tier e).presence ≡ hardware → (h : HardwareTouch) × (e ≡ hardware_presence h)
unfolding tier
tier-hardware (possession s) h = absurd cc
tier-hardware (idp_verified t) h = absurd cc
tier-hardware (hardware_presence t) h = (t, refl)
tier-hardware (platform_assertion p) h = absurd cc
tier-hardware (daemon_assertion d) h = absurd cc

abbrev tier_at : IdentityAssurance → PresenceLevel → SystemTime → Tier
tier_at a p t = record { assurance = a; presence = p; attested_at = t }

-- What the rule over the fold makes of a tier below the third.
raise_iaa3-cases :
    (a : IdentityAssurance) (p : PresenceLevel) (t : SystemTime)
    → ¬ (a ≡ IdentityAssurance.iaa3)
    → ((raise_iaa3 (tier_at a p t) ≡ IdentityAssurance.iaa3)
        ↔ ((p ≡ hardware) × (a ≡ IdentityAssurance.iaa2)))
      × ((raise_iaa3 (tier_at a p t) ≡ IdentityAssurance.iaa1) ↔ (a ≡ IdentityAssurance.iaa1))
unfolding raise_iaa3 presence_rank assurance_rank
raise_iaa3-cases a p t h = ground arith

fold-below :
    (x : Evidence) (rest : List Evidence)
    → ¬ ((fold_tiers (tier x) rest).assurance ≡ IdentityAssurance.iaa3)
fold-below x rest h = elim (fold_tiers-assurance (tier x) rest).2 [
  | inl q ↦ tier-iaa3 x (sym q ∙ h)
  | inr (e, m, q) ↦ tier-iaa3 e (sym q ∙ h)
]

assurance_rank-iaa2 :
    (a b : IdentityAssurance)
    → a ≡ IdentityAssurance.iaa2
    → assurance_rank a ≤ assurance_rank b
    → ¬ (b ≡ IdentityAssurance.iaa3)
    → b ≡ IdentityAssurance.iaa2
unfolding assurance_rank
assurance_rank-iaa2 a b h k l = ground arith

Outranks-hardware : (s t : Tier) → s.presence ≡ hardware → Outranks s t → t.presence ≡ hardware
unfolding presence_rank
Outranks-hardware s t h k = ground arith

fold-Vouched :
    (c : Candidate) (challenge : Bytes) (es : List Evidence) (x : Evidence) (rest : List Evidence)
    → bound c challenge es ≡ x ∷ rest
    → ((fold_tiers (tier x) rest).assurance ≡ IdentityAssurance.iaa2) ↔ Vouched c challenge es
fold-Vouched c challenge es x rest q =
    let (over, over_all, origin) = fold_tiers-assurance (tier x) rest in
    (
      (λ h. elim origin [
        | inl s ↦ (
          x,
          Memᴰ-Counts c challenge es x x rest q (Memᴰ.head refl),
          (tier-IsVouched x).0 (sym s ∙ h),
        )
        | inr (e, m, s) ↦ (
          e,
          Memᴰ-Counts c challenge es x e rest q (Memᴰ.tail m),
          (tier-IsVouched e).0 (sym s ∙ h),
        )
      ]),
      λ (e, n, v).
          assurance_rank-iaa2 (tier e).assurance (fold_tiers (tier x) rest).assurance
            ((tier-IsVouched e).1 v)
            (Counts-all c challenge es x rest
              (λ e.
                assurance_rank (tier e).assurance
                ≤ assurance_rank (fold_tiers (tier x) rest).assurance)
              q over over_all e n)
            (fold-below x rest),
    )

fold-Touched :
    (c : Candidate) (challenge : Bytes) (es : List Evidence) (x : Evidence) (rest : List Evidence)
    → bound c challenge es ≡ x ∷ rest
    → ((fold_tiers (tier x) rest).presence ≡ hardware) ↔ Touched es
unfolding binds_to tier
fold-Touched c challenge es x rest q =
    let (over, over_all, origin) = fold_tiers-Outranks (tier x) rest in
    (
      (λ h. elim origin [
        | inl s ↦ touch x (Memᴰ-Counts c challenge es x x rest q (Memᴰ.head refl)).0 (sym s.0 ∙ h)
        | inr (e, m, s) ↦
            touch e (Memᴰ-Counts c challenge es x e rest q (Memᴰ.tail m)).0 (sym s.0 ∙ h)
      ]),
      λ (t, m). Outranks-hardware (tier (hardware_presence t)) (fold_tiers (tier x) rest) refl (
          Counts-all c challenge es x rest (λ e. Outranks (tier e) (fold_tiers (tier x) rest)) q
            over over_all (hardware_presence t) (m, refl)),
    )
  where
    touch : (e : Evidence) → Memᴰ e es → (tier e).presence ≡ hardware → Touched es
    touch e m h = let (t, p) = tier-hardware e h in (t, rw (sym p) m)

-- A claim is of the third tier exactly when a hardware touch is in evidence and some evidence that
-- counts was vouched for by an identity provider or a daemon; and it is of the first tier exactly
-- when nothing that counts was vouched for.
pub derive-assurance :
    (c : Candidate) (challenge : Bytes) (es : List Evidence) (k : Claim)
    → derive c challenge es ≡ some k
    → ((k.assurance ≡ IdentityAssurance.iaa3) ↔ (Touched es × Vouched c challenge es))
      × ((k.assurance ≡ IdentityAssurance.iaa1) ↔ ¬ Vouched c challenge es)
unfolding claim_of
derive-assurance c challenge es k h =
    let (x, rest, q, made) = derive-MadeOf c challenge es k h in
    let t = fold_tiers (tier x) rest in
    let below = fold-below x rest in
    let (third, first) = raise_iaa3-cases t.assurance t.presence t.attested_at below in
    let vouched = fold-Vouched c challenge es x rest q in
    let touched = fold-Touched c challenge es x rest q in
    rw made (
      (
        λ z. let (p, a) = third.0 z in (touched.0 p, vouched.0 a),
        λ (p, a). third.1 (touched.1 p, vouched.1 a),
      ),
      (
        λ z v. assurance-split t.assurance (first.0 z) (vouched.1 v),
        λ n. first.1 (assurance-first t.assurance below (λ a. n (vouched.0 a))),
      ),
    )
  where
    assurance-split :
        (a : IdentityAssurance) → a ≡ IdentityAssurance.iaa1 → ¬ (a ≡ IdentityAssurance.iaa2)
    assurance-split a p q = cc

    assurance-first :
        (a : IdentityAssurance)
        → ¬ (a ≡ IdentityAssurance.iaa3)
        → ¬ (a ≡ IdentityAssurance.iaa2)
        → a ≡ IdentityAssurance.iaa1
    assurance-first a p q = ground arith
