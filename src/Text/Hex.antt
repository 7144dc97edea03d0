-- ===== src/Text/Hex.antt =====
-- Bytes in lowercase hex, two digits each: the `{b:02x}` folds of consumer.rs, pseudonym.rs and
-- did_key.rs.
use mathlib.Core.Path.{ap₂}
use project_persona.Prelude.{
  Bool, true, Bool-cases, ltb→lt, inl, inr, ℕ, ◌+◌, ◌/◌, ◌%◌, ◌<◌, ◌≡◌, refl, false, [], ◌∷◌, arith,
  ltb, ◌==◌, if◌then◌else◌, All, ◌⊎◌,
}
use project_persona.Text.{Bytes}
use project_persona.Text.Split.{Lacks}

unfoldable pub hex_digit : ℕ → ℕ
hex_digit d = if ltb d 10 then 48 + d else 87 + d

unfoldable pub hex : Bytes → Bytes
hex [] = []
hex (b ∷ bs) = hex_digit (b / 16) ∷ hex_digit (b % 16) ∷ hex bs

abbrev pub IsByte : ℕ → Type 0
IsByte b = b < 256

abbrev pub are_bytes : Bytes → Bool
are_bytes [] = true
are_bytes (b ∷ s) = if ltb b 256 then are_bytes s else false

-- For a text that is written out: by evaluation.
pub IsByte-by : (s : Bytes) → are_bytes s ≡ true → All IsByte s
IsByte-by [] h = tt
IsByte-by (b ∷ s) h = elim (Bool-cases (ltb b 256)) [
  | inl e ↦ (ltb→lt b 256 e, IsByte-by s (rw e at h))
  | inr e ↦ absurd (cc (rw e at h))
]

hex_digit-injective : (a b : ℕ) → a < 16 → b < 16 → hex_digit a ≡ hex_digit b → a ≡ b
unfolding hex_digit
hex_digit-injective a b ha hb h = ground arith

-- Two byte strings with the same hex form are one.
pub hex-injective : (a b : Bytes) → All IsByte a → All IsByte b → hex a ≡ hex b → a ≡ b
unfolding hex
hex-injective [] [] ha hb h = refl
hex-injective [] (y ∷ b) ha hb h = cc
hex-injective (x ∷ a) [] ha hb h = cc
hex-injective (x ∷ a) (y ∷ b) (hx, ha) (hy, hb) h =
    let high : x / 16 ≡ y / 16 =
      hex_digit-injective (x / 16) (y / 16) (omega arith) (omega arith) (cc) in
    let low : x % 16 ≡ y % 16 =
      hex_digit-injective (x % 16) (y % 16) (omega arith) (omega arith) (cc) in
    ap₂ ◌∷◌ (omega arith) (hex-injective a b ha hb (cc))

hex_digit-ne : (c d : ℕ) → d < 16 → (c < 48) ⊎ ((57 < c) × (c < 97)) → (hex_digit d == c) ≡ false
unfolding hex_digit
hex_digit-ne c d h k = ground arith

-- No separator byte stands in a hex form.
pub hex-Lacks :
    (c : ℕ) (s : Bytes) → (c < 48) ⊎ ((57 < c) × (c < 97)) → All IsByte s → Lacks c (hex s)
unfolding hex
hex-Lacks c [] h k = tt
hex-Lacks c (b ∷ s) h k = (
  hex_digit-ne c (b / 16) (omega (arith, k.0)) h,
  (hex_digit-ne c (b % 16) (omega arith) h, hex-Lacks c s h k.1),
)
