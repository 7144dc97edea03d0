-- ===== src/Text/Decimal.antt =====
-- Numbers in decimal: `Display for u64`, and `u64::from_str`, which takes one leading `+`, leading
-- zeros, and refuses every number past `u64::MAX`.
use project_persona.Prelude.{
  ℕ, zero, suc, ◌+◌, ◌-◌, ◌*◌, ◌/◌, ◌%◌, ◌^◌, ◌≤◌, ◌<◌, ◌≡◌, refl, sym, ap, ◌∙◌, ◌&&◌, Option, none,
  some, [], ◌∷◌, ◌++◌, arith, ◌==◌, leb, ltb, if◌then◌else◌, ◌⊎◌, inl, inr, All, All-append,
  Bool-cases, Option-cases, ltb→lt, ◌≢◌,
}
use mathlib.Core.Path.{fun_ext}
use mathlib.Core.List.{concat-ne-nil}
use project_persona.Text.{Bytes}
use project_persona.Text.Split.{Lacks}

abbrev pub u64_max : ℕ
u64_max = 2 ^ 64 - 1

-- The digits of a number, the last one cut off in each round.
show_digits : ℕ → ℕ → Bytes
show_digits zero n = []
show_digits (suc f) n =
    let rest = show_digits f (n / 10) ++ (48 + n % 10) ∷ [] in
    if ltb n 10 then (48 + n) ∷ [] else rest

-- A number has fewer digits than its value plus one, so the fuel is enough.
unfoldable pub show_u64 : ℕ → Bytes
unfolding show_digits
show_u64 n = show_digits (suc n) n

-- One digit, with the checked multiplication and addition of the standard library.
digit_step : ℕ → ℕ → Option ℕ
digit_step n c =
    if leb 48 c && leb c 57
    then (if leb (n * 10 + (c - 48)) u64_max then some (n * 10 + (c - 48)) else none)
    else none

abbrev then_digits : (ℕ → Option ℕ) → Option ℕ → Option ℕ
then_digits f none = none
then_digits f (some m) = f m

parse_digits : Bytes → ℕ → Option ℕ
parse_digits [] n = some n
parse_digits (c ∷ cs) n = then_digits (parse_digits cs) (digit_step n c)

unfoldable pub parse_u64 : Bytes → Option ℕ
unfolding parse_digits digit_step
parse_u64 [] = none
parse_u64 (c ∷ []) = parse_digits (c ∷ []) 0
parse_u64 (c ∷ d ∷ cs) = if c == b'+' then parse_digits (d ∷ cs) 0 else parse_digits (c ∷ d ∷ cs) 0

then_digits_assoc :
    (f g : ℕ → Option ℕ) (o : Option ℕ)
    → then_digits (λ m. then_digits g (f m)) o ≡ then_digits g (then_digits f o)
then_digits_assoc f g none = refl
then_digits_assoc f g (some m) = refl

parse_digits-append :
    (a b : Bytes) (n : ℕ)
    → parse_digits (a ++ b) n ≡ then_digits (parse_digits b) (parse_digits a n)
unfolding parse_digits
parse_digits-append [] b n = refl
parse_digits-append (c ∷ a) b n =
    ap (λ (f : ℕ → Option ℕ). then_digits f (digit_step n c)) (fun_ext (parse_digits-append a b))
    ∙ then_digits_assoc (parse_digits a) (parse_digits b) (digit_step n c)

digit_step_lem :
    (n d : ℕ) → d < 10 → n * 10 + d < 2 ^ 64 → digit_step n (48 + d) ≡ some (n * 10 + d)
unfolding digit_step
digit_step_lem n d h k = ground arith

parse_digits_one :
    (n d m : ℕ) → d < 10 → m ≡ n * 10 + d → m < 2 ^ 64 → parse_digits ((48 + d) ∷ []) n ≡ some m
unfolding parse_digits
parse_digits_one n d m h e k = rw (digit_step_lem n d h (omega arith)) (ap some (sym e))

parse_digits-show : (f n : ℕ) → n < f → n < 2 ^ 64 → parse_digits (show_digits f n) 0 ≡ some n
unfolding show_digits
parse_digits-show zero n h k = absurd (omega arith)
parse_digits-show (suc f) n h k = elim (Bool-cases (ltb n 10)) [
  | inl e ↦ rw e (parse_digits_one 0 n n (ltb→lt n 10 e) (omega arith) k)
  | inr e ↦
      let more : 10 ≤ n = ground arith in
      rw (e, parse_digits-append, parse_digits-show f (n / 10) (omega arith) (omega arith))
        (parse_digits_one (n / 10) (n % 10) n (omega arith) (omega arith) k)
]

abbrev IsDigit : ℕ → Type 0
IsDigit c = (48 ≤ c) × (c ≤ 57)

show_digits-IsDigit : (f n : ℕ) → All IsDigit (show_digits f n)
unfolding show_digits
show_digits-IsDigit zero n = tt
show_digits-IsDigit (suc f) n = elim (Bool-cases (ltb n 10)) [
  | inl e ↦ rw e ((omega arith, omega (arith, ltb→lt n 10 e)), tt)
  | inr e ↦ rw e (
      All-append IsDigit (show_digits f (n / 10)) _ (show_digits-IsDigit f (n / 10))
        ((omega arith, omega arith), tt))
]

IsDigit-Lacks : (c : ℕ) (s : Bytes) → (c < 48) ⊎ (57 < c) → All IsDigit s → Lacks c s
IsDigit-Lacks c [] h d = tt
IsDigit-Lacks c (x ∷ s) h d = (ground arith, IsDigit-Lacks c s h d.1)

-- No separator byte stands in a printed number.
pub show_u64-Lacks : (c n : ℕ) → (c < 48) ⊎ (57 < c) → Lacks c (show_u64 n)
unfolding show_u64
show_u64-Lacks c n h = IsDigit-Lacks c (show_digits (suc n) n) h (show_digits-IsDigit (suc n) n)

parse_u64-digits :
    (s : Bytes) {n : ℕ} → All IsDigit s → s ≢ [] → parse_digits s 0 ≡ some n → parse_u64 s ≡ some n
unfolding parse_u64
parse_u64-digits [] d ne h = absurd (ne refl)
parse_u64-digits (c ∷ []) d ne h = h
parse_u64-digits (c ∷ e ∷ s) d ne h = ground arith

show_digits-ne-nil : (f n : ℕ) → show_digits (suc f) n ≢ []
unfolding show_digits
show_digits-ne-nil f n h = elim (Bool-cases (ltb n 10)) [
  | inl e ↦ cc (rw e at h)
  | inr e ↦ concat-ne-nil (48 + n % 10) (show_digits f (n / 10)) (rw e at h)
]

-- Every number of 64 bits is read back from its decimal form.
pub parse_u64-show_u64 : (n : ℕ) → n < 2 ^ 64 → parse_u64 (show_u64 n) ≡ some n
unfolding show_u64
parse_u64-show_u64 n h =
    parse_u64-digits (show_digits (suc n) n) (show_digits-IsDigit (suc n) n)
      (show_digits-ne-nil n n) (parse_digits-show (suc n) n (omega arith) h)

digit_step-le : (n c : ℕ) {m : ℕ} → digit_step n c ≡ some m → m < 2 ^ 64
unfolding digit_step
digit_step-le n c h = ground arith

parse_digits-le : (s : Bytes) (n : ℕ) {m : ℕ} → n < 2 ^ 64 → parse_digits s n ≡ some m → m < 2 ^ 64
unfolding parse_digits
parse_digits-le [] n h e = ground arith
parse_digits-le (c ∷ s) n h e = elim (Option-cases (digit_step n c)) [
  | inl none_at ↦ cc (rw none_at at e)
  | inr (k, at_k) ↦ parse_digits-le s k (digit_step-le n c at_k) (rw at_k at e)
]

-- Whatever is accepted fits in 64 bits.
pub parse_u64-le : (s : Bytes) {n : ℕ} → parse_u64 s ≡ some n → n < 2 ^ 64
unfolding parse_u64
parse_u64-le [] h = cc
parse_u64-le (c ∷ []) h = parse_digits-le (c ∷ []) 0 (omega arith) h
parse_u64-le (c ∷ d ∷ s) h = elim (Bool-cases (c == b'+')) [
  | inl e ↦ parse_digits-le (d ∷ s) 0 (omega arith) (rw e at h)
  | inr e ↦ parse_digits-le (c ∷ d ∷ s) 0 (omega arith) (rw e at h)
]
