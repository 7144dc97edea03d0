-- ===== src/Agent/Framing.antt =====
-- Of hire-attestors/src/ssh.rs: `read_string` and `push_string` side by side.
use mathlib.Core.Path.{ap₂}
use mathlib.Core.List.{append_assoc}
use project_persona.Prelude.{
  ℕ, zero, suc, false, length-append, if◌then◌else◌, ◌/◌, ◌%◌, ◌^◌, ◌≤◌, ◌<◌, ◌≡◌, refl, sym, ap,
  ◌∙◌, some, some-injective, [], ◌∷◌, ◌++◌, arith, ltb, Bool-cases, length, take, drop, take-append,
  drop-append, All, inl, inr,
}
use project_persona.Text.{Bytes}
use project_persona.Text.Hex.{IsByte}
use project_persona.Agent.{to_be_bytes, from_be_bytes, read_exact, read_string, push_string}

from_be_bytes-to_be_bytes :
    (n : ℕ)
    → n < 2 ^ 32
    → from_be_bytes (n / 2 ^ 24 % 256) (n / 2 ^ 16 % 256) (n / 2 ^ 8 % 256) (n % 256) ≡ n
unfolding from_be_bytes
from_be_bytes-to_be_bytes n h = omega arith

ltb-false : (a b : ℕ) → b ≤ a → ltb a b ≡ false
ltb-false a b h = ground arith

pub read_exact-append : (s rest : Bytes) → read_exact (length s) (s ++ rest) ≡ some (s, rest)
unfolding read_exact
read_exact-append s rest =
    let enough : ltb (length (s ++ rest)) (length s) ≡ false =
      ltb-false (length (s ++ rest)) (length s) (omega (arith, length-append s rest)) in
    rw (enough, if◌then◌else◌, take-append s rest, drop-append s rest) refl

take-drop : (n : ℕ) (s : Bytes) → take n s ++ drop n s ≡ s
take-drop zero s = refl
take-drop (suc n) [] = refl
take-drop (suc n) (x ∷ s) = ap (◌∷◌ x) (take-drop n s)

length-take : (n : ℕ) (s : Bytes) → n ≤ length s → length (take n s) ≡ n
length-take zero s h = refl
length-take (suc n) [] h = absurd (omega (arith, h))
length-take (suc n) (x ∷ s) h = ap suc (length-take n s (omega (arith, h)))

pub read_exact-eq-some :
    (n : ℕ) (buf : Bytes) {s rest : Bytes}
    → read_exact n buf ≡ some (s, rest)
    → (buf ≡ s ++ rest) × (length s ≡ n)
unfolding read_exact
read_exact-eq-some n buf h = elim (Bool-cases (ltb (length buf) n)) [
  | inl e ↦ absurd (cc (rw e at h))
  | inr e ↦
      let parts = some-injective (rw e at h) in
      let enough : n ≤ length buf = ground arith in
      (
        sym (take-drop n buf) ∙ ap (λ p. p.0 ++ p.1) parts,
        sym (ap (λ p. length p.0) parts) ∙ length-take n buf enough,
      )
]

to_be_bytes-from_be_bytes :
    (a b c d : ℕ)
    → IsByte a
    → IsByte b
    → IsByte c
    → IsByte d
    → to_be_bytes (from_be_bytes a b c d) ≡ a ∷ b ∷ c ∷ d ∷ []
unfolding to_be_bytes from_be_bytes
to_be_bytes-from_be_bytes a b c d ha hb hc hd =
    ap₂ ◌∷◌ (omega arith)
      (ap₂ ◌∷◌ (omega arith) (ap₂ ◌∷◌ (omega arith) (ap₂ ◌∷◌ (omega arith) refl)))

-- A string that was pushed is read back, with what stands behind it.
pub read_string-push_string :
    (s rest : Bytes) → length s < 2 ^ 32 → read_string (push_string [] s ++ rest) ≡ some (s, rest)
unfolding read_string push_string to_be_bytes
read_string-push_string s rest h =
    rw (from_be_bytes-to_be_bytes (length s) h) (read_exact-append s rest)

-- In a buffer of bytes, what is read is what was pushed.
pub read_string-eq-some :
    (buf : Bytes) {s rest : Bytes}
    → All IsByte buf
    → read_string buf ≡ some (s, rest)
    → buf ≡ push_string [] s ++ rest
unfolding read_string push_string
read_string-eq-some (a ∷ b ∷ c ∷ d ∷ more) {s} {rest} (ha, (hb, (hc, (hd, _)))) h =
    let (whole, size) = read_exact-eq-some (from_be_bytes a b c d) more h in
    ap₂ ◌++◌ (sym (ap to_be_bytes size ∙ to_be_bytes-from_be_bytes a b c d ha hb hc hd)) whole
    ∙ sym (append_assoc (to_be_bytes (length s)) s rest)
read_string-eq-some [] k h = absurd cc
read_string-eq-some (a ∷ []) k h = absurd cc
read_string-eq-some (a ∷ b ∷ []) k h = absurd cc
read_string-eq-some (a ∷ b ∷ c ∷ []) k h = absurd cc

-- Two strings pushed one after the other.
pub push_string-push_string :
    (s t : Bytes) → push_string [] s ++ push_string [] t ≡ push_string (push_string [] s) t
unfolding push_string
push_string-push_string s t = refl

-- What stands behind in a buffer of bytes is bytes.
pub IsByte-behind : (front rest : Bytes) → All IsByte (front ++ rest) → All IsByte rest
IsByte-behind [] rest h = h
IsByte-behind (x ∷ front) rest h = IsByte-behind front rest h.1
