-- ===== src/Claim/Fold.antt =====
-- The fold over the tiers: the latest observation at the highest presence, and the highest
-- assurance.
use mathlib.Core.List.{Memᴰ}
use project_persona.Prelude.{◌≤◌, ◌<◌, ◌≡◌, refl, ◌∙◌, ◌⊎◌, inl, inr, List, [], ◌∷◌, arith}
use project_persona.Assurance.{presence_rank, assurance_rank}
use project_persona.Assurance.Order.{max_assurance_lub}
use project_persona.Claim.{Evidence, Tier, tier, fold_tier, fold_tiers}

-- The second observation outranks the first: a higher presence, or the same one and no earlier.
abbrev pub Outranks : Tier → Tier → Type 0
Outranks s t =
    (presence_rank s.presence < presence_rank t.presence)
    ⊎ ((presence_rank s.presence ≡ presence_rank t.presence) × (s.attested_at ≤ t.attested_at))

-- The presence and the instant of a tier are those of another one, both together.
abbrev pub SameObservation : Tier → Tier → Type 0
SameObservation s t = (s.presence ≡ t.presence) × (s.attested_at ≡ t.attested_at)

fold_tier-Outranks :
    (s t : Tier)
    → Outranks s (fold_tier s t)
      × Outranks t (fold_tier s t)
      × (SameObservation (fold_tier s t) s ⊎ SameObservation (fold_tier s t) t)
unfolding fold_tier
fold_tier-Outranks s t = ground arith

fold_tier-assurance :
    (s t : Tier)
    → (assurance_rank s.assurance ≤ assurance_rank (fold_tier s t).assurance)
      × (assurance_rank t.assurance ≤ assurance_rank (fold_tier s t).assurance)
      × (((fold_tier s t).assurance ≡ s.assurance) ⊎ ((fold_tier s t).assurance ≡ t.assurance))
unfolding fold_tier
fold_tier-assurance s t = ground (arith, max_assurance_lub s.assurance t.assurance)

Outranks-trans : (s t u : Tier) → Outranks s t → Outranks t u → Outranks s u
Outranks-trans s t u h k = ground arith

Outranks-same : (s t u : Tier) → SameObservation u t → Outranks s t → Outranks s u
Outranks-same s t u (p, q) h = rw (p, q) h

-- The result of the fold outranks everything that went in, and is one of the observations.
pub fold_tiers-Outranks :
    (acc : Tier) (es : List Evidence)
    → Outranks acc (fold_tiers acc es)
      × ((e : Evidence) → Memᴰ e es → Outranks (tier e) (fold_tiers acc es))
      × (SameObservation (fold_tiers acc es) acc
          ⊎ ((e : Evidence) × Memᴰ e es × SameObservation (fold_tiers acc es) (tier e)))
unfolding fold_tiers
fold_tiers-Outranks acc [] = (inr (refl, omega arith), (λ e m. elim m [ ]), inl (refl, refl))
fold_tiers-Outranks acc (x ∷ es) =
    let next = fold_tier acc (tier x) in
    let (from_acc, from_x, made) = fold_tier-Outranks acc (tier x) in
    let (over, over_all, origin) = fold_tiers-Outranks next es in
    (
      Outranks-trans acc next (fold_tiers next es) from_acc over,
      (λ e m. over_member acc x es from_x over over_all e m),
      origin_of acc x es made origin,
    )
  where
    over_member :
        (acc : Tier) (x : Evidence) (es : List Evidence)
        → Outranks (tier x) (fold_tier acc (tier x))
        → Outranks (fold_tier acc (tier x)) (fold_tiers (fold_tier acc (tier x)) es)
        → ((e : Evidence) → Memᴰ e es → Outranks (tier e) (fold_tiers (fold_tier acc (tier x)) es))
        → (e : Evidence) → Memᴰ e (x ∷ es)
        → Outranks (tier e) (fold_tiers (fold_tier acc (tier x)) es)
    over_member acc x es a b all e (Memᴰ.head q) = rw q (
        Outranks-trans (tier x) (fold_tier acc (tier x)) (fold_tiers (fold_tier acc (tier x)) es) a
          b)
    over_member acc x es a b all e (Memᴰ.tail m) = all e m

    origin_of :
        (acc : Tier) (x : Evidence) (es : List Evidence)
        → (SameObservation (fold_tier acc (tier x)) acc
            ⊎ SameObservation (fold_tier acc (tier x)) (tier x))
        → (SameObservation (fold_tiers (fold_tier acc (tier x)) es) (fold_tier acc (tier x))
            ⊎ ((e : Evidence) × Memᴰ e es
                × SameObservation (fold_tiers (fold_tier acc (tier x)) es) (tier e)))
        → SameObservation (fold_tiers (fold_tier acc (tier x)) es) acc
          ⊎ ((e : Evidence) × Memᴰ e (x ∷ es)
              × SameObservation (fold_tiers (fold_tier acc (tier x)) es) (tier e))
    origin_of acc x es made (inr (e, m, s)) = inr (e, Memᴰ.tail m, s)
    origin_of acc x es (inl a) (inl b) = inl (b.0 ∙ a.0, b.1 ∙ a.1)
    origin_of acc x es (inr a) (inl b) = inr (x, Memᴰ.head refl, (b.0 ∙ a.0, b.1 ∙ a.1))

-- The assurance of the fold bounds every tier that went in, and is that of one of them.
pub fold_tiers-assurance :
    (acc : Tier) (es : List Evidence)
    → (assurance_rank acc.assurance ≤ assurance_rank (fold_tiers acc es).assurance)
      × ((e : Evidence)
          → Memᴰ e es
          → assurance_rank (tier e).assurance ≤ assurance_rank (fold_tiers acc es).assurance)
      × (((fold_tiers acc es).assurance ≡ acc.assurance)
          ⊎ ((e : Evidence) × Memᴰ e es × ((fold_tiers acc es).assurance ≡ (tier e).assurance)))
unfolding fold_tiers
fold_tiers-assurance acc [] = (omega arith, (λ e m. elim m [ ]), inl refl)
fold_tiers-assurance acc (x ∷ es) =
    let next = fold_tier acc (tier x) in
    let (from_acc, from_x, made) = fold_tier-assurance acc (tier x) in
    let (over, over_all, origin) = fold_tiers-assurance next es in
    (
      omega arith,
      (λ e m. over_member acc x es from_x over over_all e m),
      origin_of acc x es made origin,
    )
  where
    over_member :
        (acc : Tier) (x : Evidence) (es : List Evidence)
        → assurance_rank (tier x).assurance ≤ assurance_rank (fold_tier acc (tier x)).assurance
        → assurance_rank (fold_tier acc (tier x)).assurance
          ≤ assurance_rank (fold_tiers (fold_tier acc (tier x)) es).assurance
        → ((e : Evidence)
            → Memᴰ e es
            → assurance_rank (tier e).assurance
              ≤ assurance_rank (fold_tiers (fold_tier acc (tier x)) es).assurance)
        → (e : Evidence) → Memᴰ e (x ∷ es)
        → assurance_rank (tier e).assurance
          ≤ assurance_rank (fold_tiers (fold_tier acc (tier x)) es).assurance
    over_member acc x es a b all e (Memᴰ.head q) = rw q (omega arith)
    over_member acc x es a b all e (Memᴰ.tail m) = all e m

    origin_of :
        (acc : Tier) (x : Evidence) (es : List Evidence)
        → (((fold_tier acc (tier x)).assurance ≡ acc.assurance)
            ⊎ ((fold_tier acc (tier x)).assurance ≡ (tier x).assurance))
        → (((fold_tiers (fold_tier acc (tier x)) es).assurance ≡ (fold_tier acc (tier x)).assurance)
            ⊎ ((e : Evidence) × Memᴰ e es
                × ((fold_tiers (fold_tier acc (tier x)) es).assurance ≡ (tier e).assurance)))
        → ((fold_tiers (fold_tier acc (tier x)) es).assurance ≡ acc.assurance)
          ⊎ ((e : Evidence) × Memᴰ e (x ∷ es)
              × ((fold_tiers (fold_tier acc (tier x)) es).assurance ≡ (tier e).assurance))
    origin_of acc x es made (inr (e, m, s)) = inr (e, Memᴰ.tail m, s)
    origin_of acc x es (inl a) (inl b) = inl (b ∙ a)
    origin_of acc x es (inr a) (inl b) = inr (x, Memᴰ.head refl, b ∙ a)
