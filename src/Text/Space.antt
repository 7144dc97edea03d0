-- ===== src/Text/Space.antt =====
-- White space, case and lines: `str::trim`, `str::lines`, `to_ascii_lowercase`, `str::contains`.
use project_persona.Prelude.{
  ℕ, zero, suc, ◌+◌, Bool, false, ◌&&◌, ◌||◌, Option, none, some, List, [], ◌∷◌, ◌++◌, leb, ◌==◌,
  if◌then◌else◌, ◌≡◌, refl, ap, Option-cases, inl, inr, some-injective, subst,
}
use project_persona.Text.{Bytes}
use project_persona.Text.Split.{
  starts_with, strip_prefix, strip_prefix-eq-some, split, non_empty, Lacks,
}

abbrev between : ℕ → ℕ → ℕ → Bool
between low b high = leb low b && leb b high

-- The characters of `char::is_whitespace` in UTF-8: in one byte, in two, and in three.
abbrev is_space_1 : ℕ → Bool
is_space_1 a = between 9 a 13 || a == 32

abbrev is_space_2 : ℕ → ℕ → Bool
is_space_2 a b = a == 194 && (b == 133 || b == 160)

abbrev is_space_3 : ℕ → ℕ → ℕ → Bool
is_space_3 a b c =
    (a == 225 && (b == 154 && c == 128))
    || (a == 226 && (b == 128 && (between 128 c 138 || (c == 168 || (c == 169 || c == 175)))))
    || (a == 226 && (b == 129 && c == 159))
    || (a == 227 && (b == 128 && c == 128))

-- How many bytes the white space takes that a text starts with, or that a reversed text starts with.
space_width : Bytes → ℕ
space_width [] = 0
space_width (a ∷ []) = if is_space_1 a then 1 else 0
space_width (a ∷ b ∷ []) = if is_space_1 a then 1 else (if is_space_2 a b then 2 else 0)
space_width (a ∷ b ∷ c ∷ rest) =
    if is_space_1 a then 1 else (if is_space_2 a b then 2 else (if is_space_3 a b c then 3 else 0))

space_width_back : Bytes → ℕ
space_width_back [] = 0
space_width_back (a ∷ []) = if is_space_1 a then 1 else 0
space_width_back (a ∷ b ∷ []) = if is_space_1 a then 1 else (if is_space_2 b a then 2 else 0)
space_width_back (a ∷ b ∷ c ∷ rest) =
    if is_space_1 a then 1 else (if is_space_2 b a then 2 else (if is_space_3 c b a then 3 else 0))

-- The text behind its white space; the number is how much of one character is still to skip.
skip_space : (Bytes → ℕ) → ℕ → Bytes → Bytes
skip_space width skip [] = []
skip_space width (suc skip) (b ∷ bs) = skip_space width skip bs
skip_space width zero (b ∷ bs) = elim (width (b ∷ bs)) [
  | zero ↦ b ∷ bs
  | suc more ↦ skip_space width more bs
]

abbrev reverse_onto : Bytes → Bytes → Bytes
reverse_onto acc [] = acc
reverse_onto acc (b ∷ bs) = reverse_onto (b ∷ acc) bs

unfoldable pub trim : Bytes → Bytes
unfolding skip_space space_width space_width_back
trim s =
    reverse_onto [] (skip_space space_width_back 0 (reverse_onto [] (skip_space space_width 0 s)))

unfoldable pub to_ascii_lowercase : Bytes → Bytes
to_ascii_lowercase [] = []
to_ascii_lowercase (b ∷ bs) = (if between 65 b 90 then b + 32 else b) ∷ to_ascii_lowercase bs

-- `str::contains`, for a text that is not empty.
unfoldable pub contains_text : Bytes → Bytes → Bool
contains_text pattern [] = false
contains_text pattern (b ∷ bs) = starts_with pattern (b ∷ bs) || contains_text pattern bs

-- The text before the first place where the pattern stands, and the text behind it:
-- `windows(n).position(|w| w == pattern)`.
abbrev prepend : ℕ → Option (Bytes × Bytes) → Option (Bytes × Bytes)
prepend b none = none
prepend b (some (before, behind)) = some (b ∷ before, behind)

unfoldable pub split_at : Bytes → Bytes → Option (Bytes × Bytes)
split_at pattern [] = none
split_at pattern (b ∷ bs) =
    let later = split_at pattern bs in
    elim (strip_prefix pattern (b ∷ bs)) [
      | some behind ↦ some ([], behind)
      | none ↦ prepend b later
    ]

abbrev without_cr : Bytes → Bytes
without_cr [] = []
without_cr (b ∷ []) = if b == 13 then [] else b ∷ []
without_cr (b ∷ c ∷ s) = b ∷ without_cr (c ∷ s)

-- The pieces between line feeds, the last one only if it is not empty, each without its `\r`.
abbrev lines_of : List Bytes → List Bytes
lines_of [] = []
lines_of ([] ∷ []) = []
lines_of ((b ∷ s) ∷ []) = (b ∷ s) ∷ []
lines_of (l ∷ m ∷ rest) = without_cr l ∷ lines_of (m ∷ rest)

unfoldable pub lines : Bytes → List Bytes
lines s = lines_of (split 10 s)

pub split_at-eq-some :
    (pattern s : Bytes) {before behind : Bytes}
    → split_at pattern s ≡ some (before, behind)
    → s ≡ before ++ (pattern ++ behind)
unfolding split_at
split_at-eq-some pattern [] h = absurd cc
split_at-eq-some pattern (b ∷ bs) {before} {behind} h =
    elim (Option-cases (strip_prefix pattern (b ∷ bs))) [
      | inr (rest, e) ↦
          subst (λ p. b ∷ bs ≡ p.0 ++ (pattern ++ p.1)) (some-injective (rw (e, split_at) at h))
            (strip_prefix-eq-some pattern (b ∷ bs) e)
      | inl e ↦ elim (Option-cases (split_at pattern bs)) [
        | inl none_later ↦ absurd (cc (rw (e, split_at, none_later) at h))
        | inr ((x, y), later) ↦
            subst (λ p. b ∷ bs ≡ p.0 ++ (pattern ++ p.1))
              (some-injective (rw (e, split_at, later) at h))
              (ap (◌∷◌ b) (split_at-eq-some pattern bs later))
      ]
    ]

crlf_apart : (b : ℕ) (s : Bytes) → (b == 13) ≡ false → strip_prefix (13 ∷ 10 ∷ []) (b ∷ s) ≡ none
unfolding strip_prefix
crlf_apart b s h = rw (h, strip_prefix) refl

-- The first end of a line, where no carriage return stands before it.
pub split_at-crlf :
    (line rest : Bytes)
    → Lacks 13 line
    → split_at (13 ∷ 10 ∷ []) (line ++ 13 ∷ 10 ∷ rest) ≡ some (line, rest)
unfolding split_at strip_prefix
split_at-crlf [] rest h = refl
split_at-crlf (b ∷ line) rest h =
    rw (crlf_apart b (line ++ 13 ∷ 10 ∷ rest) h.0, split_at, split_at-crlf line rest h.1) refl

abbrev push_head : ℕ → List Bytes → List Bytes
push_head b [] = (b ∷ []) ∷ []
push_head b (word ∷ words) = (b ∷ word) ∷ words

-- The pieces between white space, with the empty ones; the number is as in `skip_space`.
pieces : ℕ → Bytes → List Bytes
unfolding space_width
pieces skip [] = [] ∷ []
pieces (suc skip) (b ∷ bs) = pieces skip bs
pieces zero (b ∷ bs) = elim (space_width (b ∷ bs)) [
  | zero ↦ push_head b (pieces zero bs)
  | suc more ↦ [] ∷ pieces more bs
]

unfoldable pub split_whitespace : Bytes → List Bytes
unfolding pieces space_width
split_whitespace s = non_empty (pieces 0 s)
