-- ===== src/Agent/Signing.antt =====
-- Of hire-attestors/src/ssh.rs: the answer with a signature, and the blob of an ed25519 key.
use mathlib.Core.Path.{ap₂}
use mathlib.Core.List.{append-nil}
use project_persona.Prelude.{
  ◌^◌, ◌<◌, ◌≡◌, ◌↔◌, refl, sym, ap, subst, ◌∙◌, true, ◌&&◌, &&_parts, some, some-injective, [],
  ◌∷◌, ◌++◌, arith, ◌==◌, ==_iff, Bool-cases, Option-cases, length, All, ok, ok-injective, inl, inr,
}
use project_persona.Text.{Bytes, same, same_iff, same_refl}
use project_persona.Text.Hex.{IsByte}
use project_persona.SpiffeId.{is_empty}
use project_persona.Agent.{
  sign_response, ssh_agent_failure, ssh_ed25519, read_string, push_string, point_of,
  ed25519_point_of, read_signature,
}
use project_persona.Agent.Framing.{
  read_string-push_string, read_string-eq-some, push_string-push_string, IsByte-behind,
}

is_empty-eq-true : (s : Bytes) → is_empty s ≡ true → s ≡ []
unfolding is_empty
is_empty-eq-true [] h = refl
is_empty-eq-true (x ∷ s) h = absurd cc

-- What is read with nothing behind it is the whole.
read_whole :
    (buf : Bytes) {s trailing : Bytes}
    → All IsByte buf
    → read_string buf ≡ some (s, trailing)
    → is_empty trailing ≡ true
    → buf ≡ push_string [] s
read_whole buf {s} bytes h none_left =
    read_string-eq-some buf bytes h
    ∙ ap (◌++◌ (push_string [] s)) (is_empty-eq-true _ none_left)
    ∙ append-nil (push_string [] s)

read_string-whole : (s : Bytes) → length s < 2 ^ 32 → read_string (push_string [] s) ≡ some (s, [])
read_string-whole s h =
    ap read_string (sym (append-nil (push_string [] s))) ∙ read_string-push_string s [] h

signature_sound :
    (subject resp signature : Bytes)
    → All IsByte resp
    → read_signature subject resp ≡ ok signature
    → resp ≡ sign_response ∷ push_string [] signature
unfolding read_signature
signature_sound subject [] signature bytes h = absurd cc
signature_sound subject (t ∷ body) signature bytes h = elim (Bool-cases (t == sign_response)) [
  | inl e ↦ elim (Option-cases (read_string body)) [
    | inl k ↦ absurd (cc (rw (e, k) at h))
    | inr ((s, trailing), k) ↦ elim (Bool-cases (is_empty trailing)) [
      | inr l ↦ absurd (cc (rw (e, k, l) at h))
      | inl l ↦
          let is_signature : s ≡ signature = ok-injective (rw (e, k, l) at h) in
          ap₂ ◌∷◌ ((==_iff t sign_response).0 e)
            (read_whole body bytes.1 k l ∙ ap (push_string []) is_signature)
    ]
  ]
  | inr e ↦ elim (Bool-cases (t == ssh_agent_failure)) [
    | inl k ↦ absurd (cc (rw (e, k) at h))
    | inr k ↦ absurd (cc (rw (e, k) at h))
  ]
]

-- An answer of bytes is accepted with a signature exactly when it is a response that holds that
-- signature and nothing else; the signature has fewer than 2 ^ 32 bytes.
pub read_signature_iff :
    (subject resp signature : Bytes)
    → All IsByte resp
    → length signature < 2 ^ 32
    → (read_signature subject resp ≡ ok signature)
      ↔ (resp ≡ sign_response ∷ push_string [] signature)
unfolding read_signature is_empty
read_signature_iff subject resp signature bytes short = (
  signature_sound subject resp signature bytes,
  λ e. rw (e, read_signature, read_string-whole signature short) refl,
)

point_of-eq-some :
    (algorithm point rest : Bytes) {p : Bytes}
    → point_of algorithm point rest ≡ some p
    → (algorithm ≡ ssh_ed25519) × (is_empty rest ≡ true) × (point ≡ p) × (length p ≡ 32)
unfolding point_of
point_of-eq-some algorithm point rest {p} h =
    elim (Bool-cases (same algorithm ssh_ed25519 && is_empty rest && length point == 32)) [
      | inr e ↦ absurd (cc (rw e at h))
      | inl e ↦
          let named : point ≡ p = some-injective (rw e at h) in
          let (front, size) =
            &&_parts (same algorithm ssh_ed25519 && is_empty rest) (length point == 32) e in
          let (alg, done) = &&_parts (same algorithm ssh_ed25519) (is_empty rest) front in
          (
            (same_iff algorithm ssh_ed25519).0 alg,
            done,
            named,
            sym (ap length named) ∙ (==_iff (length point) 32).0 size,
          )
    ]

ed25519_sound :
    (blob point : Bytes)
    → All IsByte blob
    → ed25519_point_of blob ≡ some point
    → (blob ≡ push_string (push_string [] ssh_ed25519) point) × (length point ≡ 32)
unfolding ed25519_point_of
ed25519_sound blob point bytes h = elim (Option-cases (read_string blob)) [
  | inl e ↦ absurd (cc (rw (e, ed25519_point_of) at h))
  | inr ((algorithm, rest), e) ↦ elim (Option-cases (read_string rest)) [
    | inl k ↦ absurd (cc (rw (e, ed25519_point_of, k) at h))
    | inr ((p, trailing), k) ↦
        let (alg, done, named, size) =
          point_of-eq-some algorithm p trailing (rw (e, ed25519_point_of, k) at h) in
        let whole = read_string-eq-some blob bytes e in
        (
          whole
              ∙ ap₂ (λ a r. push_string [] a ++ r) alg
                  (read_whole rest
                      (IsByte-behind (push_string [] algorithm) rest
                        (subst (All IsByte) whole bytes))
                      k done
                    ∙ ap (push_string []) named)
              ∙ push_string-push_string ssh_ed25519 point,
          size,
        )
  ]
]

ed25519_complete :
    (blob point : Bytes)
    → blob ≡ push_string (push_string [] ssh_ed25519) point
    → length point ≡ 32
    → ed25519_point_of blob ≡ some point
unfolding ed25519_point_of point_of is_empty
ed25519_complete blob point e size =
    let first : read_string blob ≡ some (ssh_ed25519, push_string [] point) =
      ap read_string (e ∙ sym (push_string-push_string ssh_ed25519 point))
      ∙ read_string-push_string ssh_ed25519 (push_string [] point) (omega arith) in
    let second = read_string-whole point (omega (arith, size)) in
    let sized = (==_iff (length point) 32).1 size in
    rw (first, ed25519_point_of, second, point_of, same_refl, sized) refl

-- A blob of bytes is an ed25519 key with a point exactly when it is the algorithm's name and those
-- 32 bytes, each with its length, and nothing else.
pub ed25519_point_of_iff :
    (blob point : Bytes)
    → All IsByte blob
    → (ed25519_point_of blob ≡ some point)
      ↔ ((blob ≡ push_string (push_string [] ssh_ed25519) point) × (length point ≡ 32))
ed25519_point_of_iff blob point bytes =
    (ed25519_sound blob point bytes, λ w. ed25519_complete blob point w.0 w.1)
