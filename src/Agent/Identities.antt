-- ===== src/Agent/Identities.antt =====
-- Of hire-attestors/src/ssh.rs: the loop over the keys that an agent announces.
use mathlib.Core.List.{append_assoc}
use project_persona.Prelude.{
  ℕ, zero, suc, ◌^◌, ◌<◌, ◌≡◌, ◌⊎◌, refl, sym, ap, ◌∙◌, subst, some, some-injective, List, [], ◌∷◌,
  ◌++◌, arith, length, All, Option-cases, inl, inr,
}
use project_persona.Text.{Bytes}
use project_persona.Text.Hex.{IsByte}
use project_persona.Agent.{read_string, push_string, read_keys}
use project_persona.Agent.Framing.{read_string-push_string, read_string-eq-some, IsByte-behind}

-- The keys and comments as the agent writes them.
abbrev pub keys_wire : List (Bytes × Bytes) → Bytes
keys_wire [] = []
keys_wire ((blob, comment) ∷ ks) = push_string [] blob ++ (push_string [] comment ++ keys_wire ks)

abbrev pub decoded : (Bytes → Bytes) → List (Bytes × Bytes) → List (Bytes × Bytes)
decoded from_utf8_lossy [] = []
decoded from_utf8_lossy ((blob, comment) ∷ ks) =
    (blob, from_utf8_lossy comment) ∷ decoded from_utf8_lossy ks

-- Both strings of a key have a length that 32 bits hold.
abbrev pub IsShort : Bytes × Bytes → Type 0
IsShort (blob, comment) = (length blob < 2 ^ 32) × (length comment < 2 ^ 32)

-- The keys that an agent writes, with their number announced, are read back, whatever stands behind
-- them; every string has fewer than 2 ^ 32 bytes.
read_keys-keys_wire :
    (from_utf8_lossy : Bytes → Bytes) (ks : List (Bytes × Bytes)) (rest : Bytes)
    → All IsShort ks
    → read_keys from_utf8_lossy (length ks) (keys_wire ks ++ rest) ≡ decoded from_utf8_lossy ks
unfolding read_keys
read_keys-keys_wire lossy [] rest h = refl
read_keys-keys_wire lossy ((blob, comment) ∷ ks) rest (short, shorts) =
    let behind = push_string [] comment ++ keys_wire ks in
    let first =
      ap read_string (append_assoc (push_string [] blob) behind rest)
      ∙ read_string-push_string blob (behind ++ rest) short.0 in
    let second =
      ap read_string (append_assoc (push_string [] comment) (keys_wire ks) rest)
      ∙ read_string-push_string comment (keys_wire ks ++ rest) short.1 in
    rw (first, read_keys, second)
      (ap (◌∷◌ (blob, lossy comment)) (read_keys-keys_wire lossy ks rest shorts))

-- A key that stands whole at the front of a buffer.
abbrev pub AtFront : Bytes → Type 0
AtFront cur =
    (blob : Bytes) × (after : Bytes) × (comment : Bytes) × (more : Bytes) × (read_string cur
      ≡ some (blob, after))
    × (read_string after ≡ some (comment, more))

-- Whatever number is announced, the keys that are listed stand one after another at the front of
-- the buffer; there are no more of them than announced, and fewer only if no whole key is left.
pub read_keys-prefix :
    (from_utf8_lossy : Bytes → Bytes) (n : ℕ) (cur : Bytes)
    → All IsByte cur
    → (ks : List (Bytes × Bytes)) × (rest : Bytes) × (read_keys from_utf8_lossy n cur
        ≡ decoded from_utf8_lossy ks)
      × (cur ≡ keys_wire ks ++ rest)
      × ((length ks ≡ n) ⊎ ((length ks < n) × ¬ AtFront rest))
unfolding read_keys
read_keys-prefix lossy zero cur bytes = ([], cur, refl, refl, inl refl)
read_keys-prefix lossy (suc n) cur bytes = elim (Option-cases (read_string cur)) [
  | inl e ↦ (
    [],
    cur,
    rw (e, read_keys) refl,
    refl,
    inr (omega arith, λ (blob, after, comment, more, p, q). absurd (cc (rw e at p))),
  )
  | inr ((blob, after), e) ↦ elim (Option-cases (read_string after)) [
    | inl k ↦ (
      [],
      cur,
      rw (e, read_keys, k) refl,
      refl,
      inr (
        omega arith,
        λ (b, a, comment, more, p, q).
            let same_after : after ≡ a = ap (λ x. x.1) (some-injective (sym e ∙ p)) in absurd cc,
      ),
    )
    | inr ((comment, more), k) ↦
        let first = read_string-eq-some cur bytes e in
        let after_bytes =
          IsByte-behind (push_string [] blob) after (subst (All IsByte) first bytes) in
        let second = read_string-eq-some after after_bytes k in
        let more_bytes =
          IsByte-behind (push_string [] comment) more (subst (All IsByte) second after_bytes) in
        let (ks, rest, read, whole, count) = read_keys-prefix lossy n more more_bytes in
        (
          (blob, comment) ∷ ks,
          rest,
          rw (e, read_keys, k) (ap (◌∷◌ (blob, lossy comment)) read),
          first
              ∙ ap (◌++◌ (push_string [] blob)) (
                  second
                  ∙ ap (◌++◌ (push_string [] comment)) whole
                  ∙ sym (append_assoc (push_string [] comment) (keys_wire ks) rest))
              ∙ sym (
                  append_assoc (push_string [] blob) (push_string [] comment ++ keys_wire ks) rest),
          elim count [
            | inl q ↦ inl (ap suc q)
            | inr (fewer, ended) ↦ inr (omega (arith, fewer), ended)
          ],
        )
  ]
]
