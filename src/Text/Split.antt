-- ===== src/Text/Split.antt =====
-- Splitting text at a byte: `str::split`, `str::split_once`, `str::strip_prefix` and `join`.
use project_persona.Prelude.{
  ℕ, ◌≡◌, refl, ap, ◌∙◌, ◌≢◌, Bool, true, false, ◌&&◌, Option, none, some, List, [], ◌∷◌, ◌++◌,
  arith, ◌==◌, if◌then◌else◌, inl, inr, All, Bool-cases,
}
use project_persona.Text.{Bytes}

-- The byte does not stand in the text.
abbrev pub Lacks : ℕ → Bytes → Type 0
Lacks c [] = Unit
Lacks c (x ∷ xs) = ((x == c) ≡ false) × Lacks c xs

abbrev pub lacks : ℕ → Bytes → Bool
lacks c [] = true
lacks c (x ∷ xs) = if x == c then false else lacks c xs

-- For a text that is written out: by evaluation.
pub Lacks-by : (c : ℕ) (s : Bytes) → lacks c s ≡ true → Lacks c s
Lacks-by c [] h = tt
Lacks-by c (x ∷ xs) h = elim (Bool-cases (x == c)) [
  | inl e ↦ absurd (cc (rw e at h))
  | inr e ↦ (e, Lacks-by c xs (rw e at h))
]

unfoldable pub strip_prefix : Bytes → Bytes → Option Bytes
strip_prefix [] s = some s
strip_prefix (p ∷ ps) [] = none
strip_prefix (p ∷ ps) (x ∷ xs) = let rest = strip_prefix ps xs in if x == p then rest else none

unfoldable pub starts_with : Bytes → Bytes → Bool
starts_with [] s = true
starts_with (p ∷ ps) [] = false
starts_with (p ∷ ps) (x ∷ xs) = x == p && starts_with ps xs

abbrev prepend : ℕ → Option (Bytes × Bytes) → Option (Bytes × Bytes)
prepend x none = none
prepend x (some (a, b)) = some (x ∷ a, b)

unfoldable pub split_once : ℕ → Bytes → Option (Bytes × Bytes)
split_once c [] = none
split_once c (x ∷ xs) = if x == c then some ([], xs) else prepend x (split_once c xs)

abbrev push_head : ℕ → List Bytes → List Bytes
push_head x [] = (x ∷ []) ∷ []
push_head x (p ∷ ps) = (x ∷ p) ∷ ps

unfoldable pub split : ℕ → Bytes → List Bytes
split c [] = [] ∷ []
split c (x ∷ xs) = if x == c then [] ∷ split c xs else push_head x (split c xs)

unfoldable pub join : ℕ → List Bytes → Bytes
join c [] = []
join c (p ∷ []) = p
join c (p ∷ q ∷ ps) = p ++ c ∷ join c (q ∷ ps)

pub Lacks-append : (c : ℕ) (a b : Bytes) → Lacks c a → Lacks c b → Lacks c (a ++ b)
Lacks-append c [] b ha hb = hb
Lacks-append c (x ∷ a) b ha hb = (ha.0, Lacks-append c a b ha.1 hb)

pub strip_prefix-append : (p s : Bytes) → strip_prefix p (p ++ s) ≡ some s
unfolding strip_prefix
strip_prefix-append [] s = refl
strip_prefix-append (x ∷ p) s = ground (arith, strip_prefix-append p s)

pub strip_prefix-eq-some : (p s : Bytes) {r : Bytes} → strip_prefix p s ≡ some r → s ≡ p ++ r
unfolding strip_prefix
strip_prefix-eq-some [] s h = ground arith
strip_prefix-eq-some (x ∷ p) [] h = ground arith
strip_prefix-eq-some (x ∷ p) (y ∷ s) {r} h = elim (Bool-cases (y == x)) [
  | inl e ↦ ground (arith, strip_prefix-eq-some p s (rw (e, if◌then◌else◌) at h))
  | inr e ↦ ground arith
]

pub split_once-append : (c : ℕ) (k v : Bytes) → Lacks c k → split_once c (k ++ c ∷ v) ≡ some (k, v)
unfolding split_once
split_once-append c [] v h = ground arith
split_once-append c (x ∷ k) v h = ground (arith, split_once-append c k v h.1)

pub split_once-Lacks : (c : ℕ) (k : Bytes) → Lacks c k → split_once c k ≡ none
unfolding split_once
split_once-Lacks c [] h = refl
split_once-Lacks c (x ∷ k) h = ground (arith, split_once-Lacks c k h.1)

prepend-eq-some :
    (x : ℕ) (o : Option (Bytes × Bytes)) {k v : Bytes}
    → prepend x o ≡ some (k, v)
    → (t : Bytes) × (o ≡ some (t, v)) × (k ≡ x ∷ t)
prepend-eq-some x none h = cc
prepend-eq-some x (some (a, b)) h = (a, ground arith, ground arith)

prepend-eq-none : (x : ℕ) (o : Option (Bytes × Bytes)) → prepend x o ≡ none → o ≡ none
prepend-eq-none x none h = refl
prepend-eq-none x (some (a, b)) h = cc

-- The cut is at the first such byte, and loses nothing else.
pub split_once-eq-some :
    (c : ℕ) (s : Bytes) {k v : Bytes} → split_once c s ≡ some (k, v) → (s ≡ k ++ c ∷ v) × Lacks c k
unfolding split_once
split_once-eq-some c [] h = cc
split_once-eq-some c (x ∷ s) {k} {v} h = elim (Bool-cases (x == c)) [
  | inl e ↦
      let here : some ([], s) ≡ some (k, v) = rw e at h in
      (ground (arith, here), ground (arith, here))
  | inr e ↦
      let (t, later, front) = prepend-eq-some x (split_once c s) (rw e at h) in
      let (whole, lack) = split_once-eq-some c s later in (rw (front, whole), rw front (e, lack))
]

pub split-Lacks_id : (c : ℕ) (p : Bytes) → Lacks c p → split c p ≡ p ∷ []
unfolding split
split-Lacks_id c [] h = refl
split-Lacks_id c (x ∷ p) h = ground (arith, split-Lacks_id c p h.1)

pub split-append : (c : ℕ) (p rest : Bytes) → Lacks c p → split c (p ++ c ∷ rest) ≡ p ∷ split c rest
unfolding split
split-append c [] rest h = ground arith
split-append c (x ∷ p) rest h = ground (arith, split-append c p rest h.1)

split-parts : (c : ℕ) (s : Bytes) → (p : Bytes) × (ps : List Bytes) × (split c s ≡ p ∷ ps)
unfolding split
split-parts c [] = ([], [], refl)
split-parts c (x ∷ s) = elim (Bool-cases (x == c)) [
  | inl e ↦ ([], split c s, rw e)
  | inr e ↦ let (p, ps, h) = split-parts c s in (x ∷ p, ps, rw (e, h))
]

push_head-Lacks :
    (c x : ℕ) (ps : List Bytes)
    → (x == c) ≡ false
    → All (Lacks c) ps
    → All (Lacks c) (push_head x ps)
push_head-Lacks c x [] e h = ((e, tt), tt)
push_head-Lacks c x (p ∷ ps) e h = ((e, h.0), h.1)

-- No part of a split holds the separator.
pub split-Lacks : (c : ℕ) (s : Bytes) → All (Lacks c) (split c s)
unfolding split
split-Lacks c [] = (tt, tt)
split-Lacks c (x ∷ s) = elim (Bool-cases (x == c)) [
  | inl e ↦ rw e (tt, split-Lacks c s)
  | inr e ↦ rw e (push_head-Lacks c x (split c s) e (split-Lacks c s))
]

-- Splitting takes a join of separator-free parts apart again.
pub split-join :
    (c : ℕ) (p : Bytes) (ps : List Bytes)
    → All (Lacks c) (p ∷ ps)
    → split c (join c (p ∷ ps)) ≡ p ∷ ps
unfolding join
split-join c p [] h = split-Lacks_id c p h.0
split-join c p (q ∷ ps) h =
    split-append c p (join c (q ∷ ps)) h.0 ∙ ap (◌∷◌ p) (split-join c q ps h.1)

-- `.filter(|s| !s.is_empty())`.
unfoldable pub non_empty : List Bytes → List Bytes
non_empty [] = []
non_empty ([] ∷ ps) = non_empty ps
non_empty ((x ∷ p) ∷ ps) = (x ∷ p) ∷ non_empty ps

pub split_once-eq-none : (c : ℕ) (s : Bytes) → split_once c s ≡ none → Lacks c s
unfolding split_once
split_once-eq-none c [] h = tt
split_once-eq-none c (x ∷ s) h = elim (Bool-cases (x == c)) [
  | inl e ↦ absurd (cc (rw e at h))
  | inr e ↦ (e, split_once-eq-none c s (prepend-eq-none x (split_once c s) (rw e at h)))
]

-- The parts that are left have the property of all parts, and are not empty.
pub All-non_empty :
    (P : Bytes → Type 0) (ps : List Bytes) → All P ps → All (λ p. P p × (p ≢ [])) (non_empty ps)
unfolding non_empty
All-non_empty P [] h = tt
All-non_empty P ([] ∷ ps) h = All-non_empty P ps h.1
All-non_empty P ((x ∷ p) ∷ ps) h = ((h.0, λ e. cc), All-non_empty P ps h.1)

pub non_empty_id : (ps : List Bytes) → All (λ p. p ≢ []) ps → non_empty ps ≡ ps
unfolding non_empty
non_empty_id [] h = refl
non_empty_id ([] ∷ ps) h = absurd (h.0 refl)
non_empty_id ((x ∷ p) ∷ ps) h = ap (◌∷◌ (x ∷ p)) (non_empty_id ps h.1)
