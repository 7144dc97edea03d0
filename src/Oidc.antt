-- ===== src/Oidc.antt =====
-- hire-attestors/src/oidc.rs: candidates from the tokens that other tools have cached. The files,
-- base64 and the JSON library are parameters.
pub mod Cached
pub mod Listing
pub mod Tokens
use project_persona.Prelude.{
  ℕ, ◌/◌, ◌*◌, ◌^◌, Bool, true, false, Option, none, some, List, [], ◌∷◌, ◌++◌, map, ltb,
  if◌then◌else◌, Result, ok, err, ◌>>=◌,
}
use project_persona.Text.{Bytes, codes, same}
use project_persona.Text.Split.{split_once}
use project_persona.Assurance.{PresenceLevel}
use project_persona.Claim.{
  Candidate, Evidence, ssh_local, silent, AttainableAssurance, SystemTime, duration_since,
  new_candidate, with_attainable, with_proof_cost,
}
use project_persona.Agent.{AttestorError, unavailable, challenge_failed}

pub data FreshnessResult : Type 0 where
  fresh : FreshnessResult
  stale : PresenceLevel → FreshnessResult
  gone : FreshnessResult

-- `serde_json::Value` as the type `V`, and `URL_SAFE_NO_PAD.decode`; `values` are the values of an
-- object, in its order.
pub record Json {ℓ} (V : Type ℓ) : Type ℓ where
  pub decode : Bytes → Option Bytes
  pub from_slice : Bytes → Option V
  pub from_str : Bytes → Option V
  pub get : V → Bytes → Option V
  pub as_str : V → Option Bytes
  pub as_u64 : V → Option ℕ
  pub values : V → Option (List V)
  pub as_array : V → Option (List V)

-- What a scan finds: the home directory, the texts of the files, and the message of a panic.
pub record Caches : Type 0 where
  pub home : Option Bytes
  pub read_to_string : Bytes → Option Bytes
  pub panicked : Option Bytes

abbrev pub oidc_cached : Bytes
oidc_cached = codes "oidc-cached"

abbrev pub user_path : Bytes → Bytes
user_path sub = codes "user/" ++ (sub ++ codes "/via/oidc-cached")

abbrev pub gcloud_adc : Bytes → Bytes
gcloud_adc home = home ++ codes "/.config/gcloud/application_default_credentials.json"

abbrev pub msal_cache : Bytes → Bytes
msal_cache home = home ++ codes "/.azure/msal_token_cache.json"

abbrev pub access_tokens : Bytes → Bytes
access_tokens home = home ++ codes "/.azure/accessTokens.json"

-- `Option::and_then`.
abbrev pub and_then {ℓ κ} : {A : Type ℓ} {B : Type κ} → Option A → (A → Option B) → Option B
and_then none f = none
and_then (some a) f = f a

-- `duration_since(UNIX_EPOCH)` in seconds, and zero before it.
unfoldable pub now_unix : (now epoch : SystemTime) → ℕ
now_unix now epoch = elim (duration_since now epoch) [ none ↦ 0 | some d ↦ d / 10 ^ 9 ]

-- The trait's own `prove`, which the source keeps: it declines.
unfoldable pub prove : Candidate → Bytes → Result AttestorError (List Evidence)
prove candidate challenge = err (challenge_failed (oidc_cached ++ codes " cannot produce evidence"))

module _ {ℓ} {V : Type ℓ} (json : Json V) where
  -- The middle of three parts: `splitn(3, '.')`.
  unfoldable pub parse_jwt_payload : Bytes → Option V
  parse_jwt_payload token = and_then (split_once b'.' token) λ head.
      and_then (split_once b'.' (head.1)) λ body. and_then (json.decode body.0) json.from_slice

  unfoldable pub text_at : Bytes → V → Option Bytes
  text_at key v = and_then (json.get v key) json.as_str

  unfoldable pub u64_at : Bytes → V → Option ℕ
  u64_at key v = and_then (json.get v key) json.as_u64

  unfoldable pub is_after : ℕ → Option ℕ → Bool
  is_after now none = false
  is_after now (some exp) = ltb now exp

  unfoldable pub token_is_unexpired : ℕ → Bytes → Bool
  token_is_unexpired now raw_token =
      is_after now (and_then (parse_jwt_payload raw_token) (u64_at (codes "exp")))

  -- An `email` that is no text hides the `preferred_username`.
  unfoldable pub display_name_of : V → Bytes → Bytes
  display_name_of payload sub =
      let named : Option V = elim (json.get payload (codes "email")) [
        | none ↦ json.get payload (codes "preferred_username")
        | some v ↦ some v
      ] in
      elim (and_then named json.as_str) [ none ↦ sub | some name ↦ name ]

  unfoldable pub candidate_named : V → Bytes → Candidate
  candidate_named payload sub =
      with_proof_cost
        (with_attainable
          (new_candidate oidc_cached ssh_local (user_path sub) (display_name_of payload sub))
          AttainableAssurance.iaa2)
        silent

  unfoldable pub candidate_from_jwt : Bytes → Option Candidate
  candidate_from_jwt raw_token =
      and_then (parse_jwt_payload raw_token) λ payload.
        and_then (text_at (codes "sub") payload) λ sub. some (candidate_named payload sub)

  unfoldable pub push_token : List (Candidate × Bytes) → Option Bytes → List (Candidate × Bytes)
  push_token out none = out
  push_token out (some token) = elim (candidate_from_jwt token) [
    | none ↦ out
    | some c ↦ out ++ (c, token) ∷ []
  ]

  unfoldable pub push_each : Bytes → List V → List (Candidate × Bytes) → List (Candidate × Bytes)
  push_each key [] out = out
  push_each key (entry ∷ entries) out = push_each key entries (push_token out (text_at key entry))

  unfoldable pub collect_azure_tokens : V → List (Candidate × Bytes) → List (Candidate × Bytes)
  collect_azure_tokens v out = elim (and_then (json.get v (codes "IdToken")) json.values) [
    | some entries ↦ push_each (codes "secret") entries out
    | none ↦ elim (json.as_array v) [ none ↦ out | some arr ↦ push_each (codes "idToken") arr out ]
  ]

  unfoldable pub read_json : Caches → Bytes → Option V
  read_json caches path = and_then (caches.read_to_string path) json.from_str

  unfoldable pub push_gcloud : Option V → List (Candidate × Bytes)
  push_gcloud none = []
  push_gcloud (some v) = push_token [] (text_at (codes "id_token") v)

  unfoldable pub push_azure : Option V → List (Candidate × Bytes) → List (Candidate × Bytes)
  push_azure none out = out
  push_azure (some v) out = collect_azure_tokens v out

  unfoldable pub scan_home : Caches → Option Bytes → List (Candidate × Bytes)
  scan_home caches none = []
  scan_home caches (some home) = push_azure (read_json caches (access_tokens home)) (
      push_azure (read_json caches (msal_cache home))
        (push_gcloud (read_json caches (gcloud_adc home))))

  unfoldable pub scan_token_caches : Caches → List (Candidate × Bytes)
  scan_token_caches caches = scan_home caches caches.home

  unfoldable pub scan_token_caches_off_reactor :
      Caches → Result AttestorError (List (Candidate × Bytes))
  scan_token_caches_off_reactor caches = elim caches.panicked [
    | none ↦ ok (scan_token_caches caches)
    | some e ↦ err (unavailable (codes "token cache scan failed: " ++ e))
  ]

  unfoldable pub enumerate : Caches → Result AttestorError (List Candidate)
  enumerate caches = scan_token_caches_off_reactor caches >>= λ pairs. ok (map (λ p. p.0) pairs)

  unfoldable pub find_path : Bytes → List (Candidate × Bytes) → Option Bytes
  find_path path [] = none
  find_path path ((c, raw) ∷ pairs) = elim (same c.path path) [
    | true ↦ some raw
    | false ↦ find_path path pairs
  ]

  unfoldable pub judge : ℕ → Option Bytes → FreshnessResult
  judge now none = gone
  judge now (some raw) = if token_is_unexpired now raw then fresh else stale PresenceLevel.none

  unfoldable pub freshness :
      Caches → (now epoch : SystemTime) → Candidate → Result AttestorError FreshnessResult
  freshness caches now epoch candidate = scan_token_caches_off_reactor caches >>= λ pairs.
      ok (judge (now_unix now epoch) (find_path candidate.path pairs))
