-- ===== src/Tailscale/Chunks.antt =====
-- `dechunk` ends on every body, and gives back what was written in chunks.
use mathlib.Core.List.{append_assoc}
use project_persona.Prelude.{
  ℕ, zero, suc, ◌≤◌, ◌<◌, ◌≡◌, ◌≢◌, refl, ap, ◌∙◌, ◌⊎◌, inl, inr, false, Option, none, some, List,
  [], ◌∷◌, ◌++◌, ltb, length, drop, length-append, take-append, drop-append, Result, ok, err, arith,
  append_nil, All, Bool-cases, Option-cases, le→ltb,
}
use project_persona.Text.{Bytes}
use project_persona.Text.Split.{Lacks, strip_prefix, strip_prefix-eq-some}
use project_persona.Text.Space.{split_at, split_at-eq-some, split_at-crlf}
use project_persona.Agent.{AttestorError}
use project_persona.Tailscale.Body.{
  Render, chunk_length, crlf, skip_crlf, Round, fails, ends, goes_on, take_chunk, behind_header,
  round_on, round, dechunk_loop, dechunk,
}

Round-cases :
    (r : Round)
    → ((e : AttestorError) × (r ≡ fails e))
      ⊎ ((r ≡ ends) ⊎ ((chunk : Bytes) × (rest : Bytes) × (r ≡ goes_on chunk rest)))
Round-cases (fails e) = inl (e, refl)
Round-cases ends = inr (inl refl)
Round-cases (goes_on chunk rest) = inr (inr (chunk, rest, refl))

goes_on-injective : {a b r s : Bytes} → goes_on a r ≡ goes_on b s → r ≡ s
goes_on-injective h = cc

length-drop : (n : ℕ) (s : Bytes) → length (drop n s) ≤ length s
length-drop zero s = omega arith
length-drop (suc n) [] = omega arith
length-drop (suc n) (x ∷ s) = omega (arith, length-drop n s)

length-skip_crlf : (s : Bytes) → length (skip_crlf s) ≤ length s
unfolding skip_crlf
length-skip_crlf s = elim (Option-cases (strip_prefix crlf s)) [
  | inl e ↦ rw (e, skip_crlf) (omega arith)
  | inr (behind, e) ↦ rw (e, skip_crlf) (omega (arith, ap length (strip_prefix-eq-some crlf s e)))
]

take_chunk-shorter :
    (n : ℕ) (rest chunk more : Bytes)
    → take_chunk n rest ≡ goes_on chunk more
    → length more ≤ length rest
unfolding take_chunk
take_chunk-shorter zero rest chunk more h = absurd cc
take_chunk-shorter (suc n) rest chunk more h = elim (Bool-cases (ltb (length rest) (suc n))) [
  | inl e ↦ absurd (cc (rw (e, take_chunk) at h))
  | inr e ↦
      let q : skip_crlf (drop (suc n) rest) ≡ more = goes_on-injective (rw (e, take_chunk) at h) in
      omega (arith, ap length q, length-skip_crlf (drop (suc n) rest), length-drop (suc n) rest)
]

behind_header-shorter :
    (render : Render) (line : Bytes) (o : Option ℕ) (rest chunk more : Bytes)
    → behind_header render line o rest ≡ goes_on chunk more
    → length more ≤ length rest
unfolding behind_header
behind_header-shorter render line none rest chunk more h = absurd cc
behind_header-shorter render line (some n) rest chunk more h =
    take_chunk-shorter n rest chunk more h

-- A round that goes on has taken a header off.
round-shorter :
    (render : Render) (body chunk more : Bytes)
    → round render body ≡ goes_on chunk more
    → length more < length body
unfolding round round_on
round-shorter render body chunk more h = elim (Option-cases (split_at crlf body)) [
  | inl e ↦ absurd (cc (rw (e, round_on) at h))
  | inr ((line, rest), e) ↦
      let less =
        behind_header-shorter render line (chunk_length render line) rest chunk more
          (rw (e, round_on) at h) in
      omega
        (arith, less, ap length (split_at-eq-some crlf body e), length-append line (crlf ++ rest))
]

dechunk_loop-total :
    (rounds : ℕ) (render : Render) (out body : Bytes)
    → length body < rounds
    → (r : Result AttestorError Bytes) × (dechunk_loop rounds render out body ≡ some r)
unfolding dechunk_loop
dechunk_loop-total zero render out body h = absurd (omega (arith, h))
dechunk_loop-total (suc rounds) render out body h = elim (Round-cases (round render body)) [
  | inl (e, q) ↦ (err e, rw (q, dechunk_loop) refl)
  | inr (inl q) ↦ (ok out, rw (q, dechunk_loop) refl)
  | inr (inr (chunk, rest, q)) ↦
      let (r, done) =
        dechunk_loop-total rounds render (out ++ chunk) rest
          (omega (arith, h, round-shorter render body chunk rest q)) in
      (r, rw (q, dechunk_loop) done)
]

-- `dechunk` returns on every body.
pub dechunk-total :
    (render : Render) (body : Bytes)
    → (r : Result AttestorError Bytes) × (dechunk render body ≡ some r)
unfolding dechunk
dechunk-total render body = dechunk_loop-total (suc (length body)) render [] body (omega arith)

-- A body as a server writes it: the header and the data of each chunk, each with its end of line,
-- and then a last header and what follows it.
abbrev pub written : List (Bytes × Bytes) → Bytes → Bytes → Bytes
written [] last trailer = last ++ 13 ∷ 10 ∷ trailer
written ((line, chunk) ∷ chunks) last trailer =
    line ++ 13 ∷ 10 ∷ (chunk ++ 13 ∷ 10 ∷ written chunks last trailer)

abbrev pub contents : List (Bytes × Bytes) → Bytes
contents [] = []
contents ((line, chunk) ∷ chunks) = chunk ++ contents chunks

-- A chunk with data whose header is one line and says how many bytes it has.
abbrev pub IsChunk : Render → Bytes × Bytes → Type 0
IsChunk render (line, chunk) =
    Lacks 13 line × (chunk ≢ []) × (chunk_length render line ≡ some (length chunk))

abbrev pub IsLast : Render → Bytes → Type 0
IsLast render line = Lacks 13 line × (chunk_length render line ≡ some 0)

take_chunk-append :
    (chunk rest : Bytes)
    → chunk ≢ []
    → take_chunk (length chunk) (chunk ++ 13 ∷ 10 ∷ rest) ≡ goes_on chunk rest
unfolding take_chunk skip_crlf strip_prefix
take_chunk-append [] rest h = absurd (h refl)
take_chunk-append (b ∷ chunk) rest h =
    let behind = 13 ∷ 10 ∷ rest in
    let room : ltb (length ((b ∷ chunk) ++ behind)) (length (b ∷ chunk)) ≡ false =
      le→ltb _ _ (omega (arith, length-append (b ∷ chunk) behind)) in
    rw (room, take_chunk, take-append (b ∷ chunk) behind, drop-append (b ∷ chunk) behind, skip_crlf)
      refl

round-chunk :
    (render : Render) (line chunk rest : Bytes)
    → IsChunk render (line, chunk)
    → round render (line ++ 13 ∷ 10 ∷ (chunk ++ 13 ∷ 10 ∷ rest)) ≡ goes_on chunk rest
unfolding round round_on behind_header
round-chunk render line chunk rest (one, data_in, says) =
    ap (round_on render) (split_at-crlf line (chunk ++ 13 ∷ 10 ∷ rest) one)
    ∙ ap (λ o. behind_header render line o (chunk ++ 13 ∷ 10 ∷ rest)) says
    ∙ take_chunk-append chunk rest data_in

round-last :
    (render : Render) (line rest : Bytes)
    → IsLast render line
    → round render (line ++ 13 ∷ 10 ∷ rest) ≡ ends
unfolding round round_on behind_header take_chunk
round-last render line rest (one, says) =
    rw (split_at-crlf line rest one, round_on, says, behind_header, take_chunk) refl

length-written :
    (chunks : List (Bytes × Bytes)) (last trailer : Bytes)
    → length chunks < length (written chunks last trailer)
length-written [] last trailer = omega (arith, length-append last (13 ∷ 10 ∷ trailer))
length-written ((line, chunk) ∷ chunks) last trailer = omega (
  arith,
  length-written chunks last trailer,
  length-append line (13 ∷ 10 ∷ (chunk ++ 13 ∷ 10 ∷ written chunks last trailer)),
  length-append chunk (13 ∷ 10 ∷ written chunks last trailer),
)

dechunk_loop-written :
    (rounds : ℕ) (render : Render) (out : Bytes) (chunks : List (Bytes × Bytes))
    (last trailer : Bytes)
    → length chunks < rounds
    → All (IsChunk render) chunks
    → IsLast render last
    → dechunk_loop rounds render out (written chunks last trailer)
      ≡ some (ok (out ++ contents chunks))
unfolding dechunk_loop
dechunk_loop-written zero render out chunks last trailer enough fine final =
    absurd (omega (arith, enough))
dechunk_loop-written (suc rounds) render out [] last trailer enough fine final =
    rw (round-last render last trailer final, dechunk_loop, append_nil out) refl
dechunk_loop-written (suc rounds) render out ((line, chunk) ∷ chunks) last trailer enough fine
      final =
    rw (round-chunk render line chunk (written chunks last trailer) fine.0, dechunk_loop)
      (dechunk_loop-written rounds render (out ++ chunk) chunks last trailer (omega (arith, enough))
          fine.1 final
        ∙ ap (λ s. some (ok s)) (append_assoc out chunk (contents chunks)))

-- Data that is written in chunks, each with a header of one line that the reader reads as the number
-- of its bytes, and a last header that it reads as 0, is given back whole, whatever follows.
pub dechunk-written :
    (render : Render) (chunks : List (Bytes × Bytes)) (last trailer : Bytes)
    → All (IsChunk render) chunks
    → IsLast render last
    → dechunk render (written chunks last trailer) ≡ some (ok (contents chunks))
unfolding dechunk
dechunk-written render chunks last trailer fine final =
    dechunk_loop-written _ render [] chunks last trailer
      (omega (arith, length-written chunks last trailer)) fine final
