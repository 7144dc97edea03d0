-- ===== src/Nmh/Answers.antt =====
-- Of hire-nmh/src/main.rs: what `main` writes for what it reads.
use mathlib.Core.List.{append_assoc}
use project_persona.Prelude.{
  ℕ, zero, suc, ◌≤◌, ◌<◌, ◌≡◌, ◌≢◌, refl, sym, ap, ◌∙◌, ◌⊎◌, inl, inr, subst, false, Option, none,
  some, List, [], ◌∷◌, ◌++◌, arith, Option-cases, Result-cases, append_nil, All, length, ok, ok_or,
}
use project_persona.Text.{Bytes}
use project_persona.Text.Hex.{IsByte}
use project_persona.Agent.Framing.{IsByte-behind}
use project_persona.Nmh.{
  HostError, Exit, finished, failed, Stdin, Stdout, Host, Daemon, BrowserResponse, max_request,
  max_response, send_response, respond_to, read_message, serve, main,
}
use project_persona.Nmh.Frames.{
  frame, frames, stdin, stdout, read_message-frame, write_message-frame, write_message-eq-ok,
  read_message-eq-some, read_message-eq-none, read_message-end, length-frame,
}

-- The texts `rs` are the responses to the requests `ms`, the first of which has the number `turn`.
unfoldable pub Answers : Host → (ℕ → Daemon) → ℕ → List Bytes → List Bytes → Type 0
Answers host daemon turn [] rs = rs ≡ []
Answers host daemon turn (m ∷ ms) rs =
    (r : Bytes) × (later : List Bytes) × (rs ≡ r ∷ later)
    × (host.to_vec (respond_to host (daemon turn) m) ≡ some r)
    × (length r ≤ max_response)
    × Answers host daemon (suc turn) ms later

module _ (host : Host) (daemon : ℕ → Daemon) where
  send_response-frame :
      (sent r : Bytes) (resp : BrowserResponse)
      → host.to_vec resp ≡ some r
      → length r ≤ max_response
      → send_response host (stdout sent) resp ≡ ok (stdout (sent ++ frame r))
  unfolding send_response
  send_response-frame sent r resp e fits = rw (e, ok_or) (write_message-frame sent r fits)

  send_response-eq-ok :
      (sent : Bytes) (resp : BrowserResponse) (out : Stdout)
      → send_response host (stdout sent) resp ≡ ok out
      → (r : Bytes) × (host.to_vec resp ≡ some r)
        × (length r ≤ max_response)
        × (out ≡ stdout (sent ++ frame r))
  unfolding send_response
  send_response-eq-ok sent resp out h = elim (Option-cases (host.to_vec resp)) [
    | inl e ↦ absurd (cc (rw (e, ok_or) at h))
    | inr (r, e) ↦
        let (fits, same_out) = write_message-eq-ok sent r out (rw (e, ok_or) at h) in
        (r, e, fits, same_out)
  ]

  serve-answers :
      (fuel turn : ℕ) (ms rs : List Bytes) (tail sent : Bytes)
      → length ms < fuel
      → All (λ m. length m ≤ max_request) ms
      → Answers host daemon turn ms rs
      → length tail < 4
      → serve fuel host daemon turn (stdin (frames ms ++ tail) false) (stdout sent)
        ≡ some (finished, stdout (sent ++ frames rs))
  unfolding serve Answers frames
  serve-answers zero turn ms rs tail sent h small a short = absurd (omega (arith, h))
  serve-answers (suc fuel) turn [] rs tail sent h small a short =
      rw (read_message-end tail short, serve)
        (ap (λ s. some (finished, stdout s)) (sym (ap (λ l. sent ++ frames l) a ∙ append_nil sent)))
  serve-answers (suc fuel) turn (m ∷ ms) rs tail sent h small (r, later, e, q, fits, a) short =
      let rest : Bytes = frames ms ++ tail in
      let read =
        ap (λ s. read_message (stdin s false)) (append_assoc (frame m) (frames ms) tail)
        ∙ read_message-frame m rest false small.0 in
      let written = send_response-frame sent r (respond_to host (daemon turn) m) q fits in
      rw (read, serve, written)
        (serve-answers fuel (suc turn) ms later tail (sent ++ frame r) (omega (arith, h)) small.1 a
            short
          ∙ ap (λ s. some (finished, stdout s))
              (append_assoc sent (frame r) (frames later) ∙ ap (λ l. sent ++ frames l) (sym e)))

-- The requests `ms` stand at the front of `bytes` and are answered, in order, after `sent`; what is
-- behind them is not, and only less than a length ends the host without an error.
unfoldable pub Run : Host → (ℕ → Daemon) → ℕ → Bytes → Bytes → Option (Exit × Stdout) → Type 0
Run host daemon turn bytes sent o =
    (exit : Exit) × (ms : List Bytes) × (rs : List Bytes) × (rest : Bytes) × (o
      ≡ some (exit, stdout (sent ++ frames rs)))
    × (bytes ≡ frames ms ++ rest)
    × All (λ m. length m ≤ max_request) ms
    × Answers host daemon turn ms rs
    × ((exit ≢ finished) ⊎ (length rest < 4))

failed-differs : (e : HostError) → failed e ≢ finished
failed-differs e h = absurd cc

module _ (host : Host) (daemon : ℕ → Daemon) where
  -- The host stops before it answers anything.
  stops-Run :
      (turn : ℕ) (bytes sent : Bytes) (exit : Exit)
      → (exit ≢ finished) ⊎ (length bytes < 4)
      → Run host daemon turn bytes sent (some (exit, stdout sent))
  unfolding Run Answers frames
  stops-Run turn bytes sent exit why = (
    exit,
    [],
    [],
    bytes,
    ap (λ s. some (exit, stdout s)) (sym (append_nil sent)),
    refl,
    tt,
    refl,
    why,
  )

  -- One more request before a run.
  step-Run :
      (turn : ℕ) (bytes rest sent m r : Bytes) (o : Option (Exit × Stdout))
      → bytes ≡ frame m ++ rest
      → length m ≤ max_request
      → host.to_vec (respond_to host (daemon turn) m) ≡ some r
      → length r ≤ max_response
      → Run host daemon (suc turn) rest (sent ++ frame r) o
      → Run host daemon turn bytes sent o
  unfolding Run Answers frames
  step-Run turn bytes rest sent m r o e small q fits (exit, ms, rs, tail, h, whole, all, a, why) = (
    exit,
    m ∷ ms,
    r ∷ rs,
    tail,
    h ∙ ap (λ s. some (exit, stdout s)) (append_assoc sent (frame r) (frames rs)),
    e ∙ ap (λ s. frame m ++ s) whole ∙ sym (append_assoc (frame m) (frames ms) tail),
    (small, all),
    (r, rs, refl, q, fits, a),
    why,
  )

  serve-Run :
      (fuel turn : ℕ) (input : Stdin) (sent : Bytes)
      → length input.bytes < fuel
      → All IsByte input.bytes
      → Run host daemon turn input.bytes sent (serve fuel host daemon turn input (stdout sent))
  unfolding serve
  serve-Run zero turn input sent h k = absurd (omega (arith, h))
  serve-Run (suc fuel) turn input sent h k = elim (Result-cases (read_message input)) [
    | inr (e, q) ↦
        rw (q, serve) (stops-Run turn input.bytes sent (failed e) (inl (failed-differs e)))
    | inl (none, q) ↦
        rw (q, serve)
          (stops-Run turn input.bytes sent finished (inr (read_message-eq-none input q)))
    | inl (some (m, rest), q) ↦
        elim (Result-cases (send_response host (stdout sent) (respond_to host (daemon turn) m))) [
          | inr (e, w) ↦
              rw (q, serve, w) (stops-Run turn input.bytes sent (failed e) (inl (failed-differs e)))
          | inl (out, w) ↦
              let (small, whole) = read_message-eq-some input m rest k q in
              let (r, text, fits, same_out) =
                send_response-eq-ok host daemon sent (respond_to host (daemon turn) m) out w in
              let bytes_left : All IsByte rest.bytes =
                IsByte-behind (frame m) rest.bytes (subst (All IsByte) whole k) in
              let less : length rest.bytes < fuel =
                omega (arith, h, ap length whole, length-frame m rest.bytes) in
              rw (q, serve, w, same_out)
                (step-Run turn input.bytes rest.bytes sent m r
                  (serve fuel host daemon (suc turn) rest (stdout (sent ++ frame r))) whole small
                  text fits (serve-Run fuel (suc turn) rest (sent ++ frame r) less bytes_left))
        ]
  ]

-- Whatever stands on the standard input, the host ends. What it has written then are the responses,
-- in order and each in a frame of at most 1 MiB, to requests of at most 64 KiB that stand framed at
-- the front of the input; and it ends without an error only if less than a length is left behind
-- them. The elements of the input are bytes, and the standard output does not break.
pub main-Run :
    (host : Host) (daemon : ℕ → Daemon) (input : Stdin)
    → All IsByte input.bytes
    → Run host daemon 0 input.bytes [] (main host daemon input)
unfolding main
main-Run host daemon input k =
    serve-Run host daemon (suc (length input.bytes)) 0 input [] (omega arith) k

length-frames : (ms : List Bytes) (tail : Bytes) → length ms ≤ length (frames ms ++ tail)
unfolding frames
length-frames [] tail = omega arith
length-frames (m ∷ ms) tail = omega (
  arith,
  length-frames ms tail,
  ap length (append_assoc (frame m) (frames ms) tail),
  length-frame m (frames ms ++ tail),
)

-- Of requests of at most 64 KiB each, framed one after another, with less than a length behind them
-- when the browser closes the stream, every one is answered, in order and with the daemon as it is
-- found then, and the host ends without an error, if each response has a text of at most 1 MiB. The
-- standard output does not break.
pub main-answers :
    (host : Host) (daemon : ℕ → Daemon) (ms rs : List Bytes) (tail : Bytes)
    → All (λ m. length m ≤ max_request) ms
    → Answers host daemon 0 ms rs
    → length tail < 4
    → main host daemon (stdin (frames ms ++ tail) false) ≡ some (finished, stdout (frames rs))
unfolding main
main-answers host daemon ms rs tail small a short =
    serve-answers host daemon (suc (length (frames ms ++ tail))) 0 ms rs tail []
      (omega (arith, length-frames ms tail)) small a short
