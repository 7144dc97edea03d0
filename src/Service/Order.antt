-- ===== src/Service/Order.antt =====
-- Of `fetch_jwtsvid`: the sort and the deduplication of a request that names no identity.
use mathlib.Core.List.{Memᴰ}
use project_persona.Prelude.{
  ◌≤◌, ◌≡◌, ◌⊎◌, refl, sym, ap, subst, ◌∙◌, true, false, List, [], ◌∷◌, arith, leb, All, All-map,
  Bool-cases, inl, inr,
}
use project_persona.Text.{Bytes, same, same_iff, same_refl}
use project_persona.Assurance.{assurance_rank}
use project_persona.SpiffeId.{uri}
use project_persona.Claim.{Claim}
use project_persona.Service.{insert_claim, sort_claims, contains, retain_unseen}

-- No earlier claim has a lower assurance than a later one.
abbrev pub Descending : List Claim → Type 0
Descending [] = Unit
Descending (k ∷ ks) =
    All (λ l. assurance_rank l.assurance ≤ assurance_rank k.assurance) ks × Descending ks

-- No two claims are of one identity.
abbrev pub Distinct : List Claim → Type 0
Distinct [] = Unit
Distinct (k ∷ ks) = All (λ l. ¬ (uri l.spiffe_id ≡ uri k.spiffe_id)) ks × Distinct ks

insert_claim-All :
    (P : Claim → Type 0) (k : Claim) (ks : List Claim) → P k → All P ks → All P (insert_claim k ks)
unfolding insert_claim
insert_claim-All P k [] p h = (p, tt)
insert_claim-All P k (x ∷ xs) p h =
    elim (Bool-cases (leb (assurance_rank x.assurance) (assurance_rank k.assurance))) [
      | inl e ↦ rw (e, insert_claim) (p, h)
      | inr e ↦ rw (e, insert_claim) (h.0, insert_claim-All P k xs p h.1)
    ]

insert_claim-Descending :
    (k : Claim) (ks : List Claim) → Descending ks → Descending (insert_claim k ks)
unfolding insert_claim
insert_claim-Descending k [] h = (tt, tt)
insert_claim-Descending k (x ∷ xs) h =
    elim (Bool-cases (leb (assurance_rank x.assurance) (assurance_rank k.assurance))) [
      | inl e ↦
          let above : assurance_rank x.assurance ≤ assurance_rank k.assurance = ground arith in
          rw (e, insert_claim) ((above, All-map (λ l p. omega arith) xs h.0), h)
      | inr e ↦
          let below : assurance_rank k.assurance ≤ assurance_rank x.assurance = ground arith in
          rw (e, insert_claim)
            (
              insert_claim-All (λ l. assurance_rank l.assurance ≤ assurance_rank x.assurance) k xs
                  below h.0,
              insert_claim-Descending k xs h.1,
            )
    ]

sort_claims-Descending : (ks : List Claim) → Descending (sort_claims ks)
unfolding sort_claims
sort_claims-Descending [] = tt
sort_claims-Descending (k ∷ ks) =
    insert_claim-Descending k (sort_claims ks) (sort_claims-Descending ks)

Memᴰ-insert_claim :
    (k l : Claim) (ks : List Claim) → (l ≡ k) ⊎ Memᴰ l ks → Memᴰ l (insert_claim k ks)
unfolding insert_claim
Memᴰ-insert_claim k l [] (inl q) = Memᴰ.head q
Memᴰ-insert_claim k l [] (inr m) = elim m [ ]
Memᴰ-insert_claim k l (x ∷ xs) (inl q) =
    elim (Bool-cases (leb (assurance_rank x.assurance) (assurance_rank k.assurance))) [
      | inl e ↦ rw (e, insert_claim) (Memᴰ.head q)
      | inr e ↦ rw (e, insert_claim) (Memᴰ.tail (Memᴰ-insert_claim k l xs (inl q)))
    ]
Memᴰ-insert_claim k l (x ∷ xs) (inr (Memᴰ.head q)) =
    elim (Bool-cases (leb (assurance_rank x.assurance) (assurance_rank k.assurance))) [
      | inl e ↦ rw (e, insert_claim) (Memᴰ.tail (Memᴰ.head q))
      | inr e ↦ rw (e, insert_claim) (Memᴰ.head q)
    ]
Memᴰ-insert_claim k l (x ∷ xs) (inr (Memᴰ.tail n)) =
    elim (Bool-cases (leb (assurance_rank x.assurance) (assurance_rank k.assurance))) [
      | inl e ↦ rw (e, insert_claim) (Memᴰ.tail (Memᴰ.tail n))
      | inr e ↦ rw (e, insert_claim) (Memᴰ.tail (Memᴰ-insert_claim k l xs (inr n)))
    ]

Memᴰ-sort_claims : (l : Claim) (ks : List Claim) → Memᴰ l ks → Memᴰ l (sort_claims ks)
unfolding sort_claims
Memᴰ-sort_claims l [] m = elim m [ ]
Memᴰ-sort_claims l (k ∷ ks) (Memᴰ.head q) = Memᴰ-insert_claim k l (sort_claims ks) (inl q)
Memᴰ-sort_claims l (k ∷ ks) (Memᴰ.tail m) =
    Memᴰ-insert_claim k l (sort_claims ks) (inr (Memᴰ-sort_claims l ks m))

pub sort_claims-All : (P : Claim → Type 0) (ks : List Claim) → All P ks → All P (sort_claims ks)
unfolding sort_claims
sort_claims-All P [] h = tt
sort_claims-All P (k ∷ ks) h = insert_claim-All P k (sort_claims ks) h.0 (sort_claims-All P ks h.1)

pub retain_unseen-All :
    (P : Claim → Type 0) (seen : List Bytes) (ks : List Claim)
    → All P ks
    → All P (retain_unseen seen ks)
unfolding retain_unseen
retain_unseen-All P seen [] h = tt
retain_unseen-All P seen (k ∷ ks) h = elim (Bool-cases (contains seen (uri k.spiffe_id))) [
  | inl e ↦ rw (e, retain_unseen) (retain_unseen-All P seen ks h.1)
  | inr e ↦ rw (e, retain_unseen) (h.0, retain_unseen-All P (uri k.spiffe_id ∷ seen) ks h.1)
]

retain_unseen-fresh :
    (seen : List Bytes) (ks : List Claim)
    → All (λ l. contains seen (uri l.spiffe_id) ≡ false) (retain_unseen seen ks)
unfolding retain_unseen contains
retain_unseen-fresh seen [] = tt
retain_unseen-fresh seen (k ∷ ks) = elim (Bool-cases (contains seen (uri k.spiffe_id))) [
  | inl e ↦ rw (e, retain_unseen) (retain_unseen-fresh seen ks)
  | inr e ↦
      rw (e, retain_unseen)
        (
          e,
          All-map (λ l h. ground arith) (retain_unseen (uri k.spiffe_id ∷ seen) ks)
              (retain_unseen-fresh (uri k.spiffe_id ∷ seen) ks),
        )
]

contains-head : (s t : Bytes) (seen : List Bytes) → contains (s ∷ seen) t ≡ false → ¬ (t ≡ s)
unfolding contains
contains-head s t seen h q = absurd (cc (rw (q, contains, same_refl) at h))

retain_unseen-Distinct : (seen : List Bytes) (ks : List Claim) → Distinct (retain_unseen seen ks)
unfolding retain_unseen
retain_unseen-Distinct seen [] = tt
retain_unseen-Distinct seen (k ∷ ks) = elim (Bool-cases (contains seen (uri k.spiffe_id))) [
  | inl e ↦ rw (e, retain_unseen) (retain_unseen-Distinct seen ks)
  | inr e ↦
      rw (e, retain_unseen)
        (
          All-map (λ l h. contains-head (uri k.spiffe_id) (uri l.spiffe_id) seen h)
              (retain_unseen (uri k.spiffe_id ∷ seen) ks)
              (retain_unseen-fresh (uri k.spiffe_id ∷ seen) ks),
          retain_unseen-Distinct (uri k.spiffe_id ∷ seen) ks,
        )
]

retain_unseen-Descending :
    (seen : List Bytes) (ks : List Claim) → Descending ks → Descending (retain_unseen seen ks)
unfolding retain_unseen
retain_unseen-Descending seen [] h = tt
retain_unseen-Descending seen (k ∷ ks) h = elim (Bool-cases (contains seen (uri k.spiffe_id))) [
  | inl e ↦ rw (e, retain_unseen) (retain_unseen-Descending seen ks h.1)
  | inr e ↦
      rw (e, retain_unseen)
        (
          retain_unseen-All _ (uri k.spiffe_id ∷ seen) ks h.0,
          retain_unseen-Descending (uri k.spiffe_id ∷ seen) ks h.1,
        )
]

-- Some claim of the list is of the same identity, with at least the assurance.
abbrev pub Covered : List Claim → Claim → Type 0
Covered ks l =
    (k : Claim) × Memᴰ k ks
    × (uri k.spiffe_id ≡ uri l.spiffe_id)
    × (assurance_rank l.assurance ≤ assurance_rank k.assurance)

All-Memᴰ : (P : Claim → Type 0) (ks : List Claim) (l : Claim) → All P ks → Memᴰ l ks → P l
All-Memᴰ P [] l h m = elim m [ ]
All-Memᴰ P (k ∷ ks) l h (Memᴰ.head q) = subst P (sym q) h.0
All-Memᴰ P (k ∷ ks) l h (Memᴰ.tail m) = All-Memᴰ P ks l h.1 m

Covered-cons : (k l : Claim) (ks : List Claim) → Covered ks l → Covered (k ∷ ks) l
Covered-cons k l ks (x, m, p, r) = (x, Memᴰ.tail m, p, r)

contains-cons :
    (s t : Bytes) (seen : List Bytes)
    → contains (s ∷ seen) t ≡ true
    → (s ≡ t) ⊎ (contains seen t ≡ true)
unfolding contains
contains-cons s t seen h = elim (Bool-cases (same s t)) [
  | inl e ↦ inl ((same_iff s t).0 e)
  | inr e ↦ inr (rw e at h)
]

retain_unseen-Covered :
    (seen : List Bytes) (ks : List Claim) (l : Claim)
    → Descending ks
    → Memᴰ l ks
    → (contains seen (uri l.spiffe_id) ≡ true) ⊎ Covered (retain_unseen seen ks) l
unfolding retain_unseen
retain_unseen-Covered seen [] l d m = elim m [ ]
retain_unseen-Covered seen (k ∷ ks) l d (Memᴰ.head q) =
    elim (Bool-cases (contains seen (uri k.spiffe_id))) [
      | inl e ↦ inl (ap (λ x. contains seen (uri x.spiffe_id)) q ∙ e)
      | inr e ↦
          rw (e, retain_unseen)
            (inr (k, Memᴰ.head refl, ap (λ x. uri x.spiffe_id) (sym q), rw q (omega arith)))
    ]
retain_unseen-Covered seen (k ∷ ks) l d (Memᴰ.tail m) =
    elim (Bool-cases (contains seen (uri k.spiffe_id))) [
      | inl e ↦ rw (e, retain_unseen) (retain_unseen-Covered seen ks l d.1 m)
      | inr e ↦
          rw (e, retain_unseen)
            (elim (retain_unseen-Covered (uri k.spiffe_id ∷ seen) ks l d.1 m) [
              | inr covered ↦ inr (Covered-cons k l _ covered)
              | inl h ↦ elim (contains-cons (uri k.spiffe_id) (uri l.spiffe_id) seen h) [
                | inl p ↦ inr (k, Memᴰ.head refl, p, All-Memᴰ _ ks l d.0 m)
                | inr old ↦ inl old
              ]
            ])
    ]

-- The claims of an unnamed request, whatever was proven: none comes before one of a higher
-- assurance, no two are of one identity, each was proven, and each that was proven is of the
-- identity of one of them, which has at least its assurance.
pub best_first :
    (proven : List Claim)
    → Descending (retain_unseen [] (sort_claims proven))
      × Distinct (retain_unseen [] (sort_claims proven))
      × ((P : Claim → Type 0) → All P proven → All P (retain_unseen [] (sort_claims proven)))
      × ((l : Claim) → Memᴰ l proven → Covered (retain_unseen [] (sort_claims proven)) l)
unfolding contains
best_first proven = (
  retain_unseen-Descending [] (sort_claims proven) (sort_claims-Descending proven),
  retain_unseen-Distinct [] (sort_claims proven),
  (λ P h. retain_unseen-All P [] (sort_claims proven) (sort_claims-All P proven h)),
  λ l m.
      elim (retain_unseen-Covered [] (sort_claims proven) l (sort_claims-Descending proven)
        (Memᴰ-sort_claims l proven m)) [ inl h ↦ absurd cc | inr covered ↦ covered ],
)
