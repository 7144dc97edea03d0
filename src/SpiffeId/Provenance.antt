-- ===== src/SpiffeId/Provenance.antt =====
-- The source that a path names in its `via/{source}` tail.
use project_persona.Prelude.{
  ℕ, ◌==◌, ◌≡◌, refl, sym, ap, ◌∙◌, true, ◌⊎◌, ◌↔◌, inl, inr, none, some, [], ◌∷◌, ◌++◌, arith,
  Bool-cases, Option-cases, some-injective, ==_iff,
}
use mathlib.Core.List.{append_assoc}
use mathlib.Core.Path.{ap₂}
use project_persona.Text.{Bytes, codes, same, same_iff, same_refl}
use project_persona.Text.Split.{Lacks}
use project_persona.SpiffeId.{SpiffeId, rsplit_once, ends_with, provenance}

rsplit_once-Lacks : (c : ℕ) (s : Bytes) → Lacks c s → rsplit_once c s ≡ none
unfolding rsplit_once
rsplit_once-Lacks c [] h = refl
rsplit_once-Lacks c (x ∷ s) h = rw (rsplit_once-Lacks c s h.1, h.0)

rsplit_once-append : (c : ℕ) (a b : Bytes) → Lacks c b → rsplit_once c (a ++ c ∷ b) ≡ some (a, b)
unfolding rsplit_once
rsplit_once-append c [] b h = rw (rsplit_once-Lacks c b h) (ground arith)
rsplit_once-append c (x ∷ a) b h = rw (rsplit_once-append c a b h)

rsplit_once-eq-none : (c : ℕ) (s : Bytes) → rsplit_once c s ≡ none → Lacks c s
unfolding rsplit_once
rsplit_once-eq-none c [] h = tt
rsplit_once-eq-none c (x ∷ s) h = elim (Option-cases (rsplit_once c s)) [
  | inl e ↦ elim (Bool-cases (x == c)) [
    | inl k ↦ absurd (cc (rw (e, k) at h))
    | inr k ↦ (k, rsplit_once-eq-none c s e)
  ]
  | inr ((a, b), e) ↦ absurd (cc (rw e at h))
]

-- The cut is at the last such byte.
rsplit_once-eq-some :
    (c : ℕ) (s : Bytes) {a b : Bytes} → rsplit_once c s ≡ some (a, b) → (s ≡ a ++ c ∷ b) × Lacks c b
unfolding rsplit_once
rsplit_once-eq-some c [] h = cc
rsplit_once-eq-some c (x ∷ s) {a} {b} h = elim (Option-cases (rsplit_once c s)) [
  | inl e ↦ elim (Bool-cases (x == c)) [
    | inl k ↦
        let cut : some ([], s) ≡ some (a, b) = rw (e, k) at h in
        let front : a ≡ [] = ground arith in
        let back : b ≡ s = ground arith in
        (rw (front, back) (ap (λ y. y ∷ s) ((==_iff x c).0 k)), rw back (rsplit_once-eq-none c s e))
    | inr k ↦ absurd (cc (rw (e, k) at h))
  ]
  | inr ((a', b'), e) ↦
      let cut : some (x ∷ a', b') ≡ some (a, b) = rw e at h in
      let front : a ≡ x ∷ a' = ground arith in
      let back : b ≡ b' = ground arith in
      let (whole, lack) = rsplit_once-eq-some c s e in
      (rw (front, back) (ap (◌∷◌ x) whole), rw back lack)
]

ends_with-append : (a s : Bytes) → ends_with s (a ++ s) ≡ true
unfolding ends_with
ends_with-append [] [] = same_refl []
ends_with-append [] (x ∷ s) = rw same_refl
ends_with-append (x ∷ a) s = rw (ends_with-append a s) (ground arith)

ends_with-eq-true : (s t : Bytes) → ends_with s t ≡ true → (a : Bytes) × (t ≡ a ++ s)
unfolding ends_with
ends_with-eq-true s [] h = ([], sym ((same_iff s []).0 h))
ends_with-eq-true s (x ∷ t) h = elim (Bool-cases (same s (x ∷ t))) [
  | inl e ↦ ([], sym ((same_iff s (x ∷ t)).0 e))
  | inr e ↦ let (a, whole) = ends_with-eq-true s t (rw e at h) in (x ∷ a, ap (◌∷◌ x) whole)
]

abbrev IsTail : Bytes → Bytes → Type 0
IsTail path source =
    (path ≡ codes "via/" ++ source)
    ⊎ ((front : Bytes) × (path ≡ front ++ (codes "/via/" ++ source)))

provenance_sound :
    (id : SpiffeId) (source : Bytes)
    → provenance id ≡ some source
    → Lacks b'/' source × IsTail id.path source
unfolding provenance
provenance_sound id source h = elim (Option-cases (rsplit_once b'/' id.path)) [
  | inl e ↦ absurd (cc (rw (e, provenance) at h))
  | inr ((prefix, last), e) ↦
      let (whole, lack) = rsplit_once-eq-some b'/' id.path e in
      elim (Bool-cases (same prefix (codes "via"))) [
        | inl k ↦
            let named : last ≡ source = some-injective (rw (e, provenance, k) at h) in
            (
              rw (← named) lack,
              inl (whole ∙ ap₂ (λ a b. a ++ b'/' ∷ b) ((same_iff prefix (codes "via")).0 k) named),
            )
        | inr k ↦ elim (Bool-cases (ends_with (codes "/via") prefix)) [
          | inl l ↦
              let named : last ≡ source = some-injective (rw (e, provenance, k, l) at h) in
              let (front, at_end) = ends_with-eq-true (codes "/via") prefix l in
              (
                rw (← named) lack,
                inr (
                  front,
                  whole
                      ∙ ap₂ (λ a b. a ++ b'/' ∷ b) at_end named
                      ∙ append_assoc front (codes "/via") (b'/' ∷ source),
                ),
              )
          | inr l ↦ absurd (cc (rw (e, provenance, k, l) at h))
        ]
      ]
]

provenance_complete :
    (id : SpiffeId) (source : Bytes)
    → Lacks b'/' source
    → IsTail id.path source
    → provenance id ≡ some source
unfolding provenance
provenance_complete id source lack (inl e) =
    let cut : rsplit_once b'/' id.path ≡ some (codes "via", source) =
      rw e (rsplit_once-append b'/' (codes "via") source lack) in
    rw (cut, provenance, same_refl)
provenance_complete id source lack (inr (front, e)) =
    let cut : rsplit_once b'/' id.path ≡ some (front ++ codes "/via", source) =
      rw (e ∙ sym (append_assoc front (codes "/via") (b'/' ∷ source)))
        (rsplit_once-append b'/' (front ++ codes "/via") source lack) in
    rw (cut, provenance, ends_with-append front (codes "/via")) (ground arith)

-- A path has the provenance `source` exactly when it is `via/source`, or ends in `/via/source`,
-- with no `/` in the source: `via` has to be a whole segment, and the source the last one.
pub provenance_iff :
    (id : SpiffeId) (source : Bytes)
    → (provenance id ≡ some source) ↔ (
        Lacks b'/' source
        × ((id.path ≡ codes "via/" ++ source)
            ⊎ ((front : Bytes) × (id.path ≡ front ++ (codes "/via/" ++ source)))))
provenance_iff id source = (provenance_sound id source, λ w. provenance_complete id source w.0 w.1)
