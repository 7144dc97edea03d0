-- ===== src/Nmh/Frames.antt =====
-- Of hire-nmh/src/main.rs: `read_message` and `write_message` side by side.
use mathlib.Core.Path.{ap₂}
use mathlib.Core.List.{append_assoc}
use project_persona.Prelude.{
  ℕ, ◌+◌, ◌/◌, ◌%◌, ◌^◌, ◌≤◌, ◌<◌, ◌≡◌, refl, sym, ap, ◌∙◌, All, inl, inr, Bool, true, false, none,
  some, List, [], ◌∷◌, ◌++◌, arith, ltb, if◌then◌else◌, Bool-cases, Option-cases, le→ltb, ◌≢◌,
  length, length-append, ok, ok-injective,
}
use project_persona.Text.{Bytes}
use project_persona.Text.Hex.{IsByte}
use project_persona.Agent.{read_exact}
use project_persona.Agent.Framing.{read_exact-append, read_exact-eq-some}
use project_persona.Nmh.{
  Stdin, Stdout, max_request, max_response, to_le_bytes, from_le_bytes, no_length, read_body,
  read_frame, read_message, write_all, write_message,
}

-- A message as it stands on the wire.
unfoldable pub frame : Bytes → Bytes
frame m = to_le_bytes (length m) ++ m

unfoldable pub frames : List Bytes → Bytes
frames [] = []
frames (m ∷ ms) = frame m ++ frames ms

abbrev pub stdin : Bytes → Bool → Stdin
stdin bytes broken = record { bytes = bytes; broken = broken }

abbrev pub stdout : Bytes → Stdout
stdout sent = record { sent = sent; broken = false }

from_le_bytes-to_le_bytes :
    (n : ℕ)
    → n < 2 ^ 32
    → from_le_bytes (n % 256) (n / 2 ^ 8 % 256) (n / 2 ^ 16 % 256) (n / 2 ^ 24 % 256) ≡ n
unfolding from_le_bytes
from_le_bytes-to_le_bytes n h = omega arith

read_body-append :
    (m rest : Bytes) (broken : Bool)
    → length m ≤ max_request
    → read_body (length m) (m ++ rest) broken ≡ ok (some (m, stdin rest broken))
unfolding read_body
read_body-append m rest broken h =
    rw (le→ltb max_request (length m) h, if◌then◌else◌, read_exact-append m rest) refl

pub read_message-frame :
    (m rest : Bytes) (broken : Bool)
    → length m ≤ max_request
    → read_message (stdin (frame m ++ rest) broken) ≡ ok (some (m, stdin rest broken))
unfolding read_message read_frame frame to_le_bytes
read_message-frame m rest broken h =
    rw (from_le_bytes-to_le_bytes (length m) (omega (arith, h)), read_body-append m rest broken h)
      refl

pub write_message-frame :
    (sent m : Bytes)
    → length m ≤ max_response
    → write_message (stdout sent) m ≡ ok (stdout (sent ++ frame m))
unfolding write_message write_all frame
write_message-frame sent m h =
    rw (le→ltb max_response (length m) h, if◌then◌else◌)
      (ap (λ s. ok (stdout s)) (append_assoc sent (to_le_bytes (length m)) m))

pub write_message-eq-ok :
    (sent m : Bytes) (out : Stdout)
    → write_message (stdout sent) m ≡ ok out
    → (length m ≤ max_response) × (out ≡ stdout (sent ++ frame m))
unfolding write_message
write_message-eq-ok sent m out h = elim (Bool-cases (ltb max_response (length m))) [
  | inl e ↦ absurd (cc (rw (e, if◌then◌else◌) at h))
  | inr e ↦
      let fits : length m ≤ max_response = ground arith in
      (fits, ok-injective (sym h ∙ write_message-frame sent m fits))
]

to_le_bytes-from_le_bytes :
    (a b c d : ℕ)
    → IsByte a
    → IsByte b
    → IsByte c
    → IsByte d
    → to_le_bytes (from_le_bytes a b c d) ≡ a ∷ b ∷ c ∷ d ∷ []
unfolding to_le_bytes from_le_bytes
to_le_bytes-from_le_bytes a b c d ha hb hc hd =
    ap₂ ◌∷◌ (omega arith)
      (ap₂ ◌∷◌ (omega arith) (ap₂ ◌∷◌ (omega arith) (ap₂ ◌∷◌ (omega arith) refl)))

read_body-eq-some :
    (len : ℕ) (bytes : Bytes) (broken : Bool) (m : Bytes) (rest : Stdin)
    → read_body len bytes broken ≡ ok (some (m, rest))
    → (length m ≤ max_request) × (length m ≡ len) × (bytes ≡ m ++ rest.bytes)
unfolding read_body
read_body-eq-some len bytes broken m rest h = elim (Bool-cases (ltb max_request len)) [
  | inl e ↦ absurd (cc (rw (e, if◌then◌else◌) at h))
  | inr e ↦ elim (Option-cases (read_exact len bytes)) [
    | inl q ↦ absurd (cc (rw (e, if◌then◌else◌, q) at h))
    | inr ((buf, more), q) ↦
        let same_buf : buf ≡ m = cc (rw (e, if◌then◌else◌, q) at h) in
        let same_rest : stdin more broken ≡ rest = cc (rw (e, if◌then◌else◌, q) at h) in
        let (whole, size) = read_exact-eq-some len bytes q in
        let fits : len ≤ max_request = ground arith in
        (
          omega (arith, fits, size, ap length same_buf),
          sym (ap length same_buf) ∙ size,
          whole ∙ ap₂ ◌++◌ same_buf (ap (λ s. s.bytes) same_rest),
        )
  ]
]

no_length-ends : (broken : Bool) (p : Bytes × Stdin) → no_length broken ≢ ok (some p)
unfolding no_length
no_length-ends true p h = absurd cc
no_length-ends false p h = absurd cc

read_frame-eq-some :
    (bytes : Bytes) (broken : Bool) (m : Bytes) (rest : Stdin)
    → All IsByte bytes
    → read_frame bytes broken ≡ ok (some (m, rest))
    → (length m ≤ max_request) × (bytes ≡ frame m ++ rest.bytes)
unfolding read_frame frame
read_frame-eq-some [] broken m rest k h = absurd (no_length-ends broken (m, rest) h)
read_frame-eq-some (a ∷ []) broken m rest k h = absurd (no_length-ends broken (m, rest) h)
read_frame-eq-some (a ∷ b ∷ []) broken m rest k h = absurd (no_length-ends broken (m, rest) h)
read_frame-eq-some (a ∷ b ∷ c ∷ []) broken m rest k h = absurd (no_length-ends broken (m, rest) h)
read_frame-eq-some (a ∷ b ∷ c ∷ d ∷ bytes) broken m rest (ha, (hb, (hc, (hd, _)))) h =
    let (fits, size, whole) = read_body-eq-some (from_le_bytes a b c d) bytes broken m rest h in
    (
      fits,
      ap₂ ◌++◌ (sym (ap to_le_bytes size ∙ to_le_bytes-from_le_bytes a b c d ha hb hc hd)) whole
          ∙ sym (append_assoc (to_le_bytes (length m)) m rest.bytes),
    )

-- A message that is read stood at the front, and is gone from there.
pub read_message-eq-some :
    (input : Stdin) (m : Bytes) (rest : Stdin)
    → All IsByte input.bytes
    → read_message input ≡ ok (some (m, rest))
    → (length m ≤ max_request) × (input.bytes ≡ frame m ++ rest.bytes)
unfolding read_message
read_message-eq-some input m rest k h = read_frame-eq-some input.bytes input.broken m rest k h

read_frame-eq-none :
    (bytes : Bytes) (broken : Bool) → read_frame bytes broken ≡ ok none → length bytes < 4
unfolding read_frame read_body
read_frame-eq-none [] broken h = omega arith
read_frame-eq-none (a ∷ []) broken h = omega arith
read_frame-eq-none (a ∷ b ∷ []) broken h = omega arith
read_frame-eq-none (a ∷ b ∷ c ∷ []) broken h = omega arith
read_frame-eq-none (a ∷ b ∷ c ∷ d ∷ bytes) broken h =
    elim (Bool-cases (ltb max_request (from_le_bytes a b c d))) [
      | inl e ↦ absurd (cc (rw (e, if◌then◌else◌) at h))
      | inr e ↦ elim (Option-cases (read_exact (from_le_bytes a b c d) bytes)) [
        | inl q ↦ absurd (cc (rw (e, if◌then◌else◌, q) at h))
        | inr (p, q) ↦ absurd (cc (rw (e, if◌then◌else◌, q) at h))
      ]
    ]

pub read_message-eq-none : (input : Stdin) → read_message input ≡ ok none → length input.bytes < 4
unfolding read_message
read_message-eq-none input h = read_frame-eq-none input.bytes input.broken h

pub length-frame : (m rest : Bytes) → length (frame m ++ rest) ≡ 4 + (length m + length rest)
unfolding frame to_le_bytes
length-frame m rest = omega (arith, length-append m rest)

-- Fewer than four bytes, and then the end of the stream.
pub read_message-end :
    (bytes : Bytes) → length bytes < 4 → read_message (stdin bytes false) ≡ ok none
unfolding read_message read_frame no_length
read_message-end [] h = refl
read_message-end (a ∷ []) h = refl
read_message-end (a ∷ b ∷ []) h = refl
read_message-end (a ∷ b ∷ c ∷ []) h = refl
read_message-end (a ∷ b ∷ c ∷ d ∷ bytes) h = absurd (omega (arith, h))
