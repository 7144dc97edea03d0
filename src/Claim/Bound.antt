-- ===== src/Claim/Bound.antt =====
-- Of `Claim::derive`: the filter for the evidence that binds.
use mathlib.Core.List.{Memᴰ}
use mathlib.Core.List.Memᴰ
use project_persona.Prelude.{
  ◌≡◌, ◌↔◌, refl, true, false, inl, inr, none, List, [], ◌∷◌, ◌++◌, Bool-cases, All,
}
use project_persona.Text.{Bytes}
use project_persona.Claim.{Candidate, Evidence, binds_to, bound, derive_bound, derive}

module _ (c : Candidate) (challenge : Bytes) where
  -- The evidence that survives is the evidence that binds.
  pub bound-Memᴰ :
      (es : List Evidence) (e : Evidence)
      → Memᴰ e (bound c challenge es)
      → Memᴰ e es × (binds_to c challenge e ≡ true)
  unfolding bound
  bound-Memᴰ [] e m = elim m [ ]
  bound-Memᴰ (x ∷ es) e m = elim (Bool-cases (binds_to c challenge x)) [
    | inl b ↦ elim (Memᴰ.cases_cons (rw b at m)) [
      | inl q ↦ (Memᴰ.head q, rw q b)
      | inr later ↦ let (there, k) = bound-Memᴰ es e later in (Memᴰ.tail there, k)
    ]
    | inr b ↦ let (there, k) = bound-Memᴰ es e (rw b at m) in (Memᴰ.tail there, k)
  ]

  pub Memᴰ-bound :
      (es : List Evidence) (e : Evidence)
      → Memᴰ e es
      → binds_to c challenge e ≡ true
      → Memᴰ e (bound c challenge es)
  unfolding bound
  Memᴰ-bound [] e m k = elim m [ ]
  Memᴰ-bound (x ∷ es) e (Memᴰ.head q) k = rw (rw q at k) (Memᴰ.head q)
  Memᴰ-bound (x ∷ es) e (Memᴰ.tail m) k = elim (Bool-cases (binds_to c challenge x)) [
    | inl b ↦ rw b (Memᴰ.tail (Memᴰ-bound es e m k))
    | inr b ↦ rw b (Memᴰ-bound es e m k)
  ]

  bound-append :
      (xs ys : List Evidence)
      → bound c challenge (xs ++ ys) ≡ bound c challenge xs ++ bound c challenge ys
  unfolding bound
  bound-append [] ys = refl
  bound-append (x ∷ xs) ys = elim (Bool-cases (binds_to c challenge x)) [
    | inl b ↦ rw (b, bound-append xs ys)
    | inr b ↦ rw (b, bound-append xs ys)
  ]

  bound-skip :
      (e : Evidence) (es : List Evidence)
      → binds_to c challenge e ≡ false
      → bound c challenge (e ∷ es) ≡ bound c challenge es
  unfolding bound
  bound-skip e es h = rw h

  -- A piece of evidence that does not bind, a replay or a statement about another subject, changes
  -- nothing of the claim wherever it stands.
  pub derive-skip :
      (xs ys : List Evidence) (e : Evidence)
      → binds_to c challenge e ≡ false
      → derive c challenge (xs ++ e ∷ ys) ≡ derive c challenge (xs ++ ys)
  unfolding derive
  derive-skip xs ys e h = rw (bound-append xs (e ∷ ys), bound-append xs ys, bound-skip e ys h)

  bound-nil :
      (es : List Evidence)
      → bound c challenge es ≡ []
      → All (λ e. binds_to c challenge e ≡ false) es
  unfolding bound
  bound-nil [] h = tt
  bound-nil (x ∷ es) h = elim (Bool-cases (binds_to c challenge x)) [
    | inl b ↦ absurd (cc (rw b at h))
    | inr b ↦ (b, bound-nil es (rw b at h))
  ]

  nil-bound :
      (es : List Evidence)
      → All (λ e. binds_to c challenge e ≡ false) es
      → bound c challenge es ≡ []
  nil-bound [] h = unfold bound in refl
  nil-bound (x ∷ es) h = rw (bound-skip x es h.0) (nil-bound es h.1)

  derive_bound-none : (es : List Evidence) → derive_bound c es ≡ none → es ≡ []
  unfolding derive_bound
  derive_bound-none [] h = refl
  derive_bound-none (e ∷ es) h = cc

  -- There is no claim exactly when no evidence binds: discovery alone entitles to nothing.
  pub derive-none_iff :
      (es : List Evidence)
      → (derive c challenge es ≡ none) ↔ All (λ e. binds_to c challenge e ≡ false) es
  unfolding derive
  derive-none_iff es = (
    λ h. bound-nil es (derive_bound-none (bound c challenge es) h),
    λ h. rw (nil-bound es h) (unfold derive_bound in refl),
  )
