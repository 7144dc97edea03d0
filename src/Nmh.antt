-- ===== src/Nmh.antt =====
-- hire-nmh/src/main.rs: the native messaging host between the browser's extension and the daemon.
-- The JSON library and what the host finds of the daemon at each request are parameters.
pub mod Frames
pub mod Answers
use project_persona.Prelude.{
  ℕ, zero, suc, ◌+◌, ◌*◌, ◌/◌, ◌%◌, ◌^◌, Bool, true, false, Option, none, some, List, [], ◌∷◌, ◌++◌,
  ltb, if◌then◌else◌, length, Result, ok, err, ◌>>=◌, ok_or,
}
use project_persona.Text.{Bytes, codes}
use project_persona.Agent.{read_exact}

pub data BrowserRequest : Type 0 where
  fetch : (audience : List Bytes) → BrowserRequest
  ask_status : BrowserRequest

pub data BrowserResponse : Type 0 where
  jwt : (svid spiffe_id : Bytes) → BrowserResponse
  status : (running : Bool) (version : Bytes) → BrowserResponse
  error : (message : Bytes) → BrowserResponse

-- What `main` ends with.
pub data HostError : Type 0 where
  io not_json : HostError
  request_too_long response_too_long : ℕ → HostError

pub data Exit : Type 0 where
  finished : Exit
  failed : HostError → Exit

-- The bytes that are still to come; then the stream ends, or breaks with another error.
pub record Stdin : Type 0 where
  pub bytes : Bytes
  pub broken : Bool

-- The bytes that were written; a write to a broken stream fails.
pub record Stdout : Type 0 where
  pub sent : Bytes
  pub broken : Bool

-- `serde_json`, whose errors are their text, and the version of the crate.
pub record Host : Type 0 where
  pub from_slice : Bytes → Result Bytes BrowserRequest
  pub to_vec : BrowserResponse → Option Bytes
  pub version : Bytes

pub record JwtSvid : Type 0 where
  pub spiffe_id : Bytes
  pub svid : Bytes

-- The daemon as one request finds it: `call audience spiffe_id` is `FetchJWTSVID`.
pub record Daemon : Type 0 where
  pub exists : Bool
  pub connects : Bool
  pub call : List Bytes → Bytes → Option (List JwtSvid)

abbrev pub max_request : ℕ
max_request = 64 * 1024

abbrev pub max_response : ℕ
max_response = 1024 * 1024

-- `(n as u32).to_le_bytes()`, and `u32::from_le_bytes`.
unfoldable pub to_le_bytes : ℕ → Bytes
to_le_bytes n = n % 256 ∷ n / 2 ^ 8 % 256 ∷ n / 2 ^ 16 % 256 ∷ n / 2 ^ 24 % 256 ∷ []

unfoldable pub from_le_bytes : ℕ → ℕ → ℕ → ℕ → ℕ
from_le_bytes a b c d = a + b * 2 ^ 8 + c * 2 ^ 16 + d * 2 ^ 24

-- A stream that ends within the length reads as one that was closed.
unfoldable pub no_length : Bool → Result HostError (Option (Bytes × Stdin))
no_length true = err io
no_length false = ok none

unfoldable pub read_body : ℕ → Bytes → Bool → Result HostError (Option (Bytes × Stdin))
read_body len bytes broken =
    if ltb max_request len then err (request_too_long len) else elim (read_exact len bytes) [
      | none ↦ err io
      | some (buf, rest) ↦ ok (some (buf, record { bytes = rest; broken = broken }))
    ]

unfoldable pub read_frame : Bytes → Bool → Result HostError (Option (Bytes × Stdin))
read_frame (a ∷ b ∷ c ∷ d ∷ rest) broken = read_body (from_le_bytes a b c d) rest broken
read_frame bytes broken = no_length broken

unfoldable pub read_message : Stdin → Result HostError (Option (Bytes × Stdin))
read_message input = read_frame input.bytes input.broken

unfoldable pub write_all : Stdout → Bytes → Result HostError Stdout
write_all output bytes =
    if output.broken
    then err io
    else ok (record { sent = output.sent ++ bytes; broken = output.broken })

unfoldable pub write_message : Stdout → Bytes → Result HostError Stdout
write_message output msg =
    if ltb max_response (length msg)
    then err (response_too_long (length msg))
    else write_all output (to_le_bytes (length msg)) >>= λ out. write_all out msg

unfoldable pub send_response : Host → Stdout → BrowserResponse → Result HostError Stdout
send_response host output resp = ok_or not_json (host.to_vec resp) >>= write_message output

unfoldable pub first_svid : List JwtSvid → Result Bytes (Bytes × Bytes)
first_svid [] = err (codes "no SVIDs returned")
first_svid (svid ∷ svids) = ok (svid.svid, svid.spiffe_id)

-- An error shows its outermost context only.
unfoldable pub fetch_jwt : Daemon → List Bytes → Result Bytes (Bytes × Bytes)
fetch_jwt daemon audience =
    if daemon.connects
    then ok_or (codes "FetchJWTSVID failed") (daemon.call audience []) >>= first_svid
    else err (codes "connect to hired")

unfoldable pub answer_of : Result Bytes (Bytes × Bytes) → BrowserResponse
answer_of (ok (svid, spiffe_id)) = jwt svid spiffe_id
answer_of (err message) = error message

unfoldable pub handle_request : Host → Daemon → BrowserRequest → BrowserResponse
handle_request host daemon ask_status = status daemon.exists host.version
handle_request host daemon (fetch audience) = answer_of (fetch_jwt daemon audience)

-- The body of the loop, up to the response.
unfoldable pub respond_to : Host → Daemon → Bytes → BrowserResponse
respond_to host daemon msg = elim (host.from_slice msg) [
  | ok request ↦ handle_request host daemon request
  | err e ↦ error (codes "invalid request: " ++ e)
]

-- The loop of `main`, on fuel, from the request numbered `turn`.
unfoldable pub serve :
    (fuel : ℕ) → Host → (ℕ → Daemon) → (turn : ℕ) → Stdin → Stdout → Option (Exit × Stdout)
serve zero host daemon turn input output = none
serve (suc fuel) host daemon turn input output = elim (read_message input) [
  | err e ↦ some (failed e, output)
  | ok none ↦ some (finished, output)
  | ok (some (msg, rest)) ↦ elim (send_response host output (respond_to host (daemon turn) msg)) [
    | err e ↦ some (failed e, output)
    | ok sent ↦ serve fuel host daemon (suc turn) rest sent
  ]
]

-- Each request takes four bytes or more.
unfoldable pub main : Host → (ℕ → Daemon) → Stdin → Option (Exit × Stdout)
main host daemon input =
    serve (suc (length input.bytes)) host daemon 0 input (record { sent = []; broken = false })
