-- ===== src/Tests/Nmh.antt =====
-- Frames of the repository's own tests, and a host whose JSON is one letter for each request and
-- response.
use project_persona.Prelude.{
  ℕ, zero, suc, ◌==◌, if◌then◌else◌, ◌≡◌, refl, true, false, Option, some, none, ok, err, List, [],
  ◌∷◌, ◌++◌, Result, arith,
}
use project_persona.Text.{Bytes, codes}
use project_persona.Text.Hex.{IsByte-by}
use project_persona.Agent.{read_exact}
use project_persona.Nmh.{
  BrowserRequest, fetch, ask_status, BrowserResponse, jwt, status, error, finished, failed,
  request_too_long, Host, Daemon, to_le_bytes, from_le_bytes, no_length, read_body, read_frame,
  read_message, write_all, write_message, send_response, first_svid, fetch_jwt, answer_of,
  handle_request, respond_to, serve, main,
}
use project_persona.Nmh.Frames.{frames, stdin, stdout}
use project_persona.Nmh.Answers.{Answers, Run, main-Run, main-answers}

write_message-hi :
    write_message (stdout []) (codes "hi") ≡ ok (stdout (2 ∷ 0 ∷ 0 ∷ 0 ∷ 104 ∷ 105 ∷ []))
unfolding write_message write_all to_le_bytes
write_message-hi = refl

read_message-refused :
    read_message (stdin (255 ∷ 255 ∷ 255 ∷ 255 ∷ []) false) ≡ err (request_too_long 4294967295)
unfolding read_message read_frame read_body from_le_bytes
read_message-refused = refl

read_message-closed : read_message (stdin [] false) ≡ ok none
unfolding read_message read_frame no_length
read_message-closed = refl

abbrev read_json : Bytes → Result Bytes BrowserRequest
read_json [] = err []
read_json (letter ∷ audience) =
    if letter == 115
    then ok ask_status
    else if letter == 102
    then ok (fetch (audience ∷ []))
    else err (letter ∷ audience)

abbrev write_json : BrowserResponse → Option Bytes
write_json (jwt svid spiffe_id) = some (106 ∷ svid)
write_json (status running version) = some (115 ∷ version)
write_json (error message) = some (101 ∷ message)

abbrev host : Host
host = record { from_slice = read_json; to_vec = write_json; version = codes "0.1" }

-- At the first request the daemon has a token, and then it is gone.
abbrev daemon : ℕ → Daemon
daemon zero = record {
  exists = true;
  connects = true;
  call = λ audience spiffe_id. some (record { spiffe_id = []; svid = codes "tok" } ∷ []);
}
daemon (suc turn) = record { exists = false; connects = false; call = λ audience spiffe_id. none }

abbrev requests : List Bytes
requests = codes "fa" ∷ codes "fa" ∷ codes "s" ∷ codes "x" ∷ []

abbrev responses : List Bytes
responses =
    codes "jtok" ∷ codes "econnect to hired" ∷ codes "s0.1" ∷ codes "einvalid request: x" ∷ []

responses-Answers : Answers host daemon 0 requests responses
unfolding Answers respond_to handle_request answer_of fetch_jwt first_svid
responses-Answers = (
  codes "jtok",
  _,
  refl,
  refl,
  omega arith,
  (
    codes "econnect to hired",
    _,
    refl,
    refl,
    omega arith,
    (
      codes "s0.1",
      _,
      refl,
      refl,
      omega arith,
      (codes "einvalid request: x", _, refl, refl, omega arith, refl),
    ),
  ),
)

main-answers_example :
    main host daemon (stdin (frames requests ++ (1 ∷ 0 ∷ [])) false)
    ≡ some (finished, stdout (frames responses))
main-answers_example =
    main-answers host daemon requests responses (1 ∷ 0 ∷ [])
      (omega arith, (omega arith, (omega arith, (omega arith, tt)))) responses-Answers (omega arith)

-- A status request, and a length that is refused behind it.
abbrev refused : Bytes
refused = 1 ∷ 0 ∷ 0 ∷ 0 ∷ 115 ∷ 255 ∷ 255 ∷ 255 ∷ 255 ∷ []

main-Run_example : Run host daemon 0 refused [] (main host daemon (stdin refused false))
main-Run_example = main-Run host daemon (stdin refused false) (IsByte-by refused refl)

main-refused :
    main host daemon (stdin refused false)
    ≡ some (failed (request_too_long 4294967295), stdout (4 ∷ 0 ∷ 0 ∷ 0 ∷ codes "s0.1"))
unfolding main serve read_message read_frame read_body read_exact from_le_bytes send_response
    write_message write_all to_le_bytes respond_to handle_request
main-refused = refl
