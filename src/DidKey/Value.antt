-- ===== src/DidKey/Value.antt =====
-- Of `ed25519_point` in hire-attestors/src/did_key.rs: the number that the decoder computes.
use mathlib.Core.Path.{ap₂}
use mathlib.Core.List.{append-nil}
use project_persona.Prelude.{
  ℕ, zero, suc, ◌+◌, ◌*◌, ◌/◌, ◌≡◌, refl, sym, ap, subst, ◌∙◌, some, some-injective, [], ◌∷◌, ◌++◌,
  arith, ◌==◌, ==_iff, Bool-cases, Option-cases, take, drop, length, inl, inr,
}
use project_persona.Text.{Bytes, codes, same, same_iff}
use project_persona.Text.Split.{strip_prefix, strip_prefix-eq-some, strip_prefix-append}
use project_persona.DidKey.{
  base58btc, ed25519_multicodec, position, times_58, decode, zeros, backwards, key_of_decoded,
  ed25519_point,
}

-- The number of a buffer that is listed from its last byte to its first.
abbrev pub number : Bytes → ℕ
number [] = 0
number (b ∷ bytes) = b + 256 * number bytes

-- The text writes the number, in base 58 behind what was read before.
abbrev pub Writes : Bytes → ℕ → ℕ → Type 0
Writes [] before n = before ≡ n
Writes (c ∷ text) before n =
    (digit : ℕ) × (position c base58btc ≡ some digit) × Writes text (58 * before + digit) n

times_58-number :
    (bytes : Bytes) (carry : ℕ)
    → (times_58 bytes carry).1 ≡ 0
    → number (times_58 bytes carry).0 ≡ 58 * number bytes + carry
unfolding times_58
times_58-number [] carry h = omega (arith, h)
times_58-number (b ∷ bytes) carry h =
    let rest = times_58-number bytes ((carry + 58 * b) / 256) h in omega (arith, rest)

decode-Writes :
    (buffer text : Bytes) {decoded : Bytes}
    → decode buffer text ≡ some decoded
    → Writes text (number buffer) (number decoded)
unfolding decode
decode-Writes buffer [] h = ap number (some-injective h)
decode-Writes buffer (c ∷ text) {decoded} h = elim (Option-cases (position c base58btc)) [
  | inl e ↦ absurd (cc (rw (e, decode) at h))
  | inr (digit, e) ↦ elim (Bool-cases ((times_58 buffer digit).1 == 0)) [
    | inr k ↦ absurd (cc (rw (e, decode, k) at h))
    | inl k ↦
        let carried = (==_iff (times_58 buffer digit).1 0).0 k in
        (
          digit,
          e,
          subst (λ n. Writes text n (number decoded)) (times_58-number buffer digit carried)
              (decode-Writes (times_58 buffer digit).0 text (rw (e, decode, k) at h)),
        )
  ]
]

times_58-length : (bytes : Bytes) (carry : ℕ) → length (times_58 bytes carry).0 ≡ length bytes
unfolding times_58
times_58-length [] carry = refl
times_58-length (b ∷ bytes) carry = ap suc (times_58-length bytes ((carry + 58 * b) / 256))

decode-length :
    (buffer text : Bytes) {decoded : Bytes}
    → decode buffer text ≡ some decoded
    → length decoded ≡ length buffer
unfolding decode
decode-length buffer [] h = ap length (sym (some-injective h))
decode-length buffer (c ∷ text) {decoded} h = elim (Option-cases (position c base58btc)) [
  | inl e ↦ absurd (cc (rw (e, decode) at h))
  | inr (digit, e) ↦ elim (Bool-cases ((times_58 buffer digit).1 == 0)) [
    | inr k ↦ absurd (cc (rw (e, decode, k) at h))
    | inl k ↦
        decode-length (times_58 buffer digit).0 text (rw (e, decode, k) at h)
        ∙ times_58-length buffer digit
  ]
]

backwards-backwards : (xs ys zs : Bytes) → backwards (backwards xs ys) zs ≡ backwards ys (xs ++ zs)
unfolding backwards
backwards-backwards [] ys zs = refl
backwards-backwards (x ∷ xs) ys zs = backwards-backwards xs (x ∷ ys) zs

length-backwards : (xs ys : Bytes) → length (backwards xs ys) ≡ length xs + length ys
unfolding backwards
length-backwards [] ys = omega arith
length-backwards (x ∷ xs) ys = omega (arith, length-backwards xs (x ∷ ys))

take-drop : (n : ℕ) (s : Bytes) → s ≡ take n s ++ drop n s
take-drop zero s = refl
take-drop (suc n) [] = refl
take-drop (suc n) (x ∷ s) = ap (◌∷◌ x) (take-drop n s)

key_of_decoded-eq-some :
    (decoded : Bytes) {key : Bytes}
    → key_of_decoded decoded ≡ some key
    → decoded ≡ ed25519_multicodec ++ key
unfolding key_of_decoded
key_of_decoded-eq-some decoded h = elim (Bool-cases (same (take 2 decoded) ed25519_multicodec)) [
  | inr e ↦ absurd (cc (rw e at h))
  | inl e ↦
      take-drop 2 decoded
      ∙ ap₂ ◌++◌ ((same_iff (take 2 decoded) ed25519_multicodec).0 e) (some-injective (rw e at h))
]

length-zeros : length zeros ≡ 34
length-zeros = refl

-- The buffer that a key was taken from is the codec and the key, from the last byte to the first.
buffer_of :
    (decoded key : Bytes)
    → backwards decoded [] ≡ ed25519_multicodec ++ key
    → length decoded ≡ 34
    → (decoded ≡ backwards (ed25519_multicodec ++ key) []) × (length key ≡ 32)
unfolding backwards
buffer_of decoded key h size = (
  sym (backwards-backwards decoded [] [] ∙ append-nil decoded) ∙ ap (λ b. backwards b []) h,
  omega (arith, size, length-backwards decoded [], ap length h),
)

-- A string that names a key is `did:key:z` and a text in base 58, and the text writes the number
-- whose 34 bytes are the codec of ed25519 and the 32 bytes of that key.
pub ed25519_point-Writes :
    (did : Bytes) {key : Bytes}
    → ed25519_point did ≡ some key
    → (length key ≡ 32)
      × ((text : Bytes) × (did ≡ codes "did:key:z" ++ text)
          × Writes text 0 (number (backwards (ed25519_multicodec ++ key) [])))
unfolding ed25519_point
ed25519_point-Writes did {key} h = elim (Option-cases (strip_prefix (codes "did:key:z") did)) [
  | inl e ↦ absurd (cc (rw (e, ed25519_point) at h))
  | inr (text, e) ↦ elim (Option-cases (decode zeros text)) [
    | inl k ↦ absurd (cc (rw (e, ed25519_point, k) at h))
    | inr (decoded, k) ↦
        let whole = key_of_decoded-eq-some (backwards decoded []) (rw (e, ed25519_point, k) at h) in
        let (buffer, size) =
          buffer_of decoded key whole (decode-length zeros text k ∙ length-zeros) in
        (
          size,
          (
            text,
            strip_prefix-eq-some (codes "did:key:z") did e,
            subst (λ b. Writes text 0 (number b)) buffer (decode-Writes zeros text k),
          ),
        )
  ]
]

-- The digit `1` in front of the text of a did:key changes nothing of the key that it names.
pub ed25519_point-leading :
    (text : Bytes)
    → ed25519_point (codes "did:key:z1" ++ text) ≡ ed25519_point (codes "did:key:z" ++ text)
unfolding ed25519_point decode position times_58
ed25519_point-leading text =
    rw
      (
        strip_prefix-append (codes "did:key:z") (b'1' ∷ text),
        strip_prefix-append (codes "did:key:z") text,
        ed25519_point,
      )
      refl
