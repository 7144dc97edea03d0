-- ===== src/Agent.antt =====
-- hire-attestors/src/ssh.rs: the messages of the SSH agent protocol. What the agent writes back is a
-- parameter, and so is the decoding of a comment that is not UTF-8.
pub mod Framing
pub mod Identities
pub mod Signing
use project_persona.Prelude.{
  ℕ, zero, suc, ◌+◌, ◌*◌, ◌/◌, ◌%◌, ◌^◌, Bool, true, false, ◌&&◌, Option, none, some, List, [], ◌∷◌,
  ◌++◌, ltb, leb, ◌==◌, if◌then◌else◌, length, take, drop, Result, ok, err, ◌>>=◌, ok_or,
}
use project_persona.Text.{Bytes, codes, same}
use project_persona.SpiffeId.{is_empty}

pub data AttestorError : Type 0 where
  unavailable challenge_failed : Bytes → AttestorError
  io : AttestorError

abbrev pub ssh_agent_failure : ℕ
ssh_agent_failure = 5

abbrev pub request_identities : ℕ
request_identities = 11

abbrev pub identities_answer : ℕ
identities_answer = 12

abbrev pub sign_request : ℕ
sign_request = 13

abbrev pub sign_response : ℕ
sign_response = 14

abbrev pub ssh_ed25519 : Bytes
ssh_ed25519 = codes "ssh-ed25519"

abbrev pub max_agent_reply : ℕ
max_agent_reply = 256 * 1024

-- `(n as u32).to_be_bytes()`, and `u32::from_be_bytes`.
unfoldable pub to_be_bytes : ℕ → Bytes
to_be_bytes n = n / 2 ^ 24 % 256 ∷ n / 2 ^ 16 % 256 ∷ n / 2 ^ 8 % 256 ∷ n % 256 ∷ []

unfoldable pub from_be_bytes : ℕ → ℕ → ℕ → ℕ → ℕ
from_be_bytes a b c d = a * 2 ^ 24 + b * 2 ^ 16 + c * 2 ^ 8 + d

-- The cut of the first `n` bytes off, where there are so many: `read_exact`.
unfoldable pub read_exact : ℕ → Bytes → Option (Bytes × Bytes)
read_exact n buf = if ltb (length buf) n then none else some (take n buf, drop n buf)

unfoldable pub read_string : Bytes → Option (Bytes × Bytes)
read_string (a ∷ b ∷ c ∷ d ∷ rest) = read_exact (from_be_bytes a b c d) rest
read_string buf = none

unfoldable pub push_string : Bytes → Bytes → Bytes
push_string buf s = buf ++ (to_be_bytes (length s) ++ s)

-- `agent_roundtrip`, over the bytes that the agent writes for the bytes it was sent.
unfoldable pub request_frame : ℕ → Bytes → Bytes
request_frame msg_type payload = to_be_bytes (1 + length payload) ++ msg_type ∷ payload

unfoldable pub read_reply : Bytes → Result AttestorError Bytes
read_reply (a ∷ b ∷ c ∷ d ∷ rest) =
    if ltb max_agent_reply (from_be_bytes a b c d)
    then err (unavailable (codes "ssh-agent reply too large"))
    else elim (read_exact (from_be_bytes a b c d) rest) [
      | none ↦ err io
      | some (resp, more) ↦ ok resp
    ]
read_reply buf = err io

unfoldable pub agent_roundtrip : (Bytes → Bytes) → ℕ → Bytes → Result AttestorError Bytes
agent_roundtrip agent msg_type payload = read_reply (agent (request_frame msg_type payload))

-- The point of an ed25519 key blob, and nothing for any other blob.
unfoldable pub point_of : Bytes → Bytes → Bytes → Option Bytes
point_of algorithm point rest =
    if same algorithm ssh_ed25519 && is_empty rest && length point == 32 then some point else none

unfoldable pub ed25519_point_of : Bytes → Option Bytes
ed25519_point_of key_blob = elim (read_string key_blob) [
  | none ↦ none
  | some (algorithm, rest) ↦ elim (read_string rest) [
    | none ↦ none
    | some (point, trailing) ↦ point_of algorithm point trailing
  ]
]

-- The loop over the announced keys, which stops at the first that is not there.
unfoldable pub read_keys : (Bytes → Bytes) → ℕ → Bytes → List (Bytes × Bytes)
read_keys from_utf8_lossy zero cur = []
read_keys from_utf8_lossy (suc nkeys) cur = elim (read_string cur) [
  | none ↦ []
  | some (key_blob, rest) ↦ elim (read_string rest) [
    | none ↦ []
    | some (comment, more) ↦
        (key_blob, from_utf8_lossy comment) ∷ read_keys from_utf8_lossy nkeys more
  ]
]

unfoldable pub read_identities :
    (Bytes → Bytes) → Bytes → Result AttestorError (List (Bytes × Bytes))
read_identities from_utf8_lossy (t ∷ a ∷ b ∷ c ∷ d ∷ cur) =
    if t == identities_answer
    then ok (read_keys from_utf8_lossy (from_be_bytes a b c d) cur)
    else err (unavailable (codes "unexpected response from SSH agent"))
read_identities from_utf8_lossy (t ∷ cur) =
    if t == identities_answer
    then ok []
    else err (unavailable (codes "unexpected response from SSH agent"))
read_identities from_utf8_lossy [] = err (unavailable (codes "unexpected response from SSH agent"))

unfoldable pub list_identities :
    (Bytes → Bytes) → (Bytes → Bytes) → Result AttestorError (List (Bytes × Bytes))
list_identities from_utf8_lossy agent = do
  resp ← agent_roundtrip agent request_identities []
  read_identities from_utf8_lossy resp

-- What a reply to a request for a signature says.
unfoldable pub read_signature : Bytes → Bytes → Result AttestorError Bytes
read_signature subject [] =
    err (challenge_failed (codes "unexpected response to ssh-agent sign request"))
read_signature subject (t ∷ body) =
    if t == sign_response
    then elim (read_string body) [
      | none ↦ err (challenge_failed (codes "malformed SIGN_RESPONSE from ssh-agent"))
      | some (signature, trailing) ↦
          if is_empty trailing
          then ok signature
          else err (challenge_failed (codes "trailing bytes after ssh-agent signature"))
    ]
    else if t == ssh_agent_failure
    then err (challenge_failed (codes "ssh-agent declined to sign for " ++ subject))
    else err (challenge_failed (codes "unexpected response to ssh-agent sign request"))

unfoldable pub sign_payload : Bytes → Bytes → Bytes
sign_payload key_blob challenge = push_string (push_string [] key_blob) challenge ++ to_be_bytes 0

unfoldable pub sign : (Bytes → Bytes) → Bytes → Bytes → Bytes → Result AttestorError Bytes
sign agent key_blob challenge subject = do
  resp ← agent_roundtrip agent sign_request (sign_payload key_blob challenge)
  read_signature subject resp
