-- ===== src/Tailscale/Status.antt =====
-- hire-attestors/src/tailscale.rs: asking tailscaled for its status, and the source that is made of
-- the answer. The socket and the JSON library are records of functions.
use project_persona.Prelude.{
  ℕ, Bool, true, false, Option, none, some, List, [], ◌∷◌, ◌++◌, ◌==◌, if◌then◌else◌, Result, ok,
  err, ◌>>=◌, ok_or, map_err,
}
use project_persona.Text.{Bytes, codes, same}
use project_persona.Text.Decimal.{show_u64}
use project_persona.Text.Space.{split_at}
use project_persona.Claim.{
  Candidate, new_candidate, with_attainable, with_proof_cost, tailscale, AttainableAssurance,
  silent, SystemTime, Evidence, daemon_assertion,
}
use project_persona.Agent.{AttestorError, unavailable, challenge_failed}
use project_persona.Tailscale.Body.{Render, crlf, header_says_chunked, dechunk}

-- `serde_json`: parsing, `value[key]`, `as_u64` and `as_str`.
pub record Json {ℓ} (V : Type ℓ) : Type ℓ where
  pub from_slice : Bytes → Result Bytes V
  pub at_key : V → Bytes → V
  pub as_u64 : V → Option ℕ
  pub as_str : V → Option Bytes

-- The socket of tailscaled: whether it is there, and all that is read after the request, or the
-- error of connecting, writing or reading.
pub record Socket : Type 0 where
  pub exists : Bool
  pub response : Result AttestorError Bytes

-- The headers, with the empty line that ends them, and the body.
unfoldable pub split_response : Bytes → Result AttestorError (Bytes × Bytes)
split_response response = elim (split_at (13 ∷ 10 ∷ crlf) response) [
  | none ↦ err (unavailable (codes "no HTTP body"))
  | some (headers, body) ↦ ok (headers ++ (13 ∷ 10 ∷ crlf), body)
]

-- `none` when `dechunk` has not returned.
unfoldable pub body_of : Render → Bytes → Bytes → Option (Result AttestorError Bytes)
body_of render headers body = elim (header_says_chunked render headers) [
  | true ↦ dechunk render body
  | false ↦ some (ok body)
]

abbrev pub parsed {ℓ} :
    {V : Type ℓ} → Json V → Option (Result AttestorError Bytes) → Option (Result AttestorError V)
parsed json none = none
parsed json (some (err e)) = some (err e)
parsed json (some (ok body)) = some (map_err unavailable (json.from_slice body))

abbrev pub status_of {ℓ} :
    {V : Type ℓ}
    → Render
    → Json V
    → Result AttestorError (Bytes × Bytes)
    → Option (Result AttestorError V)
status_of render json (err e) = some (err e)
status_of render json (ok (headers, body)) = parsed json (body_of render headers body)

unfoldable pub fetch_status {ℓ} :
    {V : Type ℓ} → Render → Json V → Socket → Option (Result AttestorError V)
fetch_status render json socket =
    status_of render json (do response ← socket.response; split_response response)

-- `trim_end_matches('.')`.
abbrev keep_unless_dot : ℕ → Bytes → Bytes
keep_unless_dot b [] = if b == b'.' then [] else b ∷ []
keep_unless_dot b (c ∷ s) = b ∷ c ∷ s

unfoldable pub trim_end_dots : Bytes → Bytes
trim_end_dots [] = []
trim_end_dots (b ∷ s) = keep_unless_dot b (trim_end_dots s)

abbrev or_else : Option Bytes → Option Bytes → Option Bytes
or_else none other = other
or_else (some s) other = some s

abbrev mapped : (Bytes → Bytes) → Option Bytes → Option Bytes
mapped f none = none
mapped f (some s) = some (f s)

abbrev unwrap_or : Bytes → Option Bytes → Bytes
unwrap_or default none = default
unwrap_or default (some s) = s

unfoldable pub node_name_of {ℓ} : {V : Type ℓ} → Json V → V → Bytes
node_name_of json self_node = unwrap_or (codes "unknown") (
    or_else (mapped trim_end_dots (json.as_str (json.at_key self_node (codes "DNSName"))))
      (json.as_str (json.at_key self_node (codes "HostName"))))

-- The path and the display name.
unfoldable pub identity_of {ℓ} : {V : Type ℓ} → Json V → V → Result AttestorError (Bytes × Bytes)
identity_of json status = do
  let self_node = json.at_key status (codes "Self")
  user_id ←
      ok_or (unavailable (codes "missing Self.UserID"))
        (json.as_u64 (json.at_key self_node (codes "UserID")))
  let user = json.at_key (json.at_key status (codes "User")) (show_u64 user_id)
  login_name ←
      ok_or (unavailable (codes "no User entry for " ++ show_u64 user_id))
        (json.as_str (json.at_key user (codes "LoginName")))
  ok (
    codes "user/" ++ (login_name ++ (codes "/node/" ++ node_name_of json self_node)),
    unwrap_or login_name (json.as_str (json.at_key user (codes "DisplayName"))),
  )

-- What both calls of the source start with.
abbrev pub identified {ℓ} :
    {V : Type ℓ}
    → Json V
    → Option (Result AttestorError V)
    → Option (Result AttestorError (Bytes × Bytes))
identified json none = none
identified json (some (err e)) = some (err e)
identified json (some (ok status)) = some (identity_of json status)

unfoldable pub ask {ℓ} :
    {V : Type ℓ} → Render → Json V → Socket → Option (Result AttestorError (Bytes × Bytes))
ask render json socket = identified json (fetch_status render json socket)

unfoldable pub candidate_of : Bytes × Bytes → Candidate
candidate_of (path, display) =
    with_proof_cost
      (with_attainable (new_candidate (codes "tailscale") tailscale path display)
        AttainableAssurance.iaa2)
      silent

abbrev listed :
    Option (Result AttestorError (Bytes × Bytes)) → Option (Result AttestorError (List Candidate))
listed none = none
listed (some (err e)) = some (err e)
listed (some (ok identity)) = some (ok (candidate_of identity ∷ []))

unfoldable pub enumerate {ℓ} :
    {V : Type ℓ} → Render → Json V → Socket → Option (Result AttestorError (List Candidate))
enumerate render json socket = elim socket.exists [
  | false ↦ some (ok [])
  | true ↦ listed (ask render json socket)
]

abbrev pub moved : Bytes → AttestorError
moved path = challenge_failed (codes "tailscaled no longer reports " ++ path)

-- `prove`, behind the second question, with the reading of the clock.
unfoldable pub same_login : SystemTime → Candidate → Bytes → Result AttestorError (List Evidence)
same_login now c path = elim (same path c.path) [
  | true ↦ ok (daemon_assertion (record { subject = path; asked_at = now }) ∷ [])
  | false ↦ err (moved c.path)
]

abbrev pub proved :
    SystemTime
    → Candidate
    → Option (Result AttestorError (Bytes × Bytes))
    → Option (Result AttestorError (List Evidence))
proved now c none = none
proved now c (some (err e)) = some (err e)
proved now c (some (ok identity)) = some (same_login now c identity.0)

unfoldable pub prove {ℓ} :
    {V : Type ℓ}
    → Render
    → Json V
    → Socket
    → SystemTime
    → Candidate
    → Option (Result AttestorError (List Evidence))
prove render json socket now c = proved now c (ask render json socket)
