-- ===== src/Sources/Did.antt =====
-- hire-attestors/src/did_key.rs: `DidKeyAttestor`.
use project_persona.Prelude.{
  Bool, false, ◌||◌, Option, none, some, List, [], ◌∷◌, ◌++◌, map, if◌then◌else◌, Result, ok, err,
  ◌>>=◌, ok_or,
}
use project_persona.Text.{Bytes, codes, same}
use project_persona.Text.Split.{starts_with}
use project_persona.Text.Space.{split_whitespace}
use project_persona.Claim.{
  Candidate, new_candidate, with_attainable, with_proof_cost, ssh_local, AttainableAssurance,
  interactive, SystemTime, Evidence, possession,
}
use project_persona.Agent.{AttestorError, challenge_failed, list_identities, sign, ed25519_point_of}
use project_persona.DidKey.{ed25519_point}
use project_persona.DidKey
use project_persona.Possession.{Crypto, verify_did_key_ed25519}
use project_persona.Sources.Ssh.{Connection, Environment, connect, find_blob, Proof}

abbrev names_did_key : Bytes → Bool
names_did_key s = starts_with (codes "did:key:") s

abbrev any_did_key : List Bytes → Bool
any_did_key [] = false
any_did_key (s ∷ rest) = names_did_key s || any_did_key rest

-- `is_available`, over HIRE_DID_KEYS.
unfoldable pub is_available : Option Bytes → Bool
is_available none = false
is_available (some v) = any_did_key (split_whitespace v)

abbrev only_did_keys : List Bytes → List Bytes
only_did_keys [] = []
only_did_keys (s ∷ rest) = if names_did_key s then s ∷ only_did_keys rest else only_did_keys rest

unfoldable pub parse_did_keys_from : Bytes → List Bytes
parse_did_keys_from raw = only_did_keys (split_whitespace raw)

unfoldable pub parse_did_keys : Option Bytes → List Bytes
parse_did_keys none = parse_did_keys_from []
parse_did_keys (some raw) = parse_did_keys_from raw

unfoldable pub candidate_of : Crypto → Bytes → Candidate
candidate_of crypto did =
    with_proof_cost
      (with_attainable
        (new_candidate (codes "did:key") ssh_local (DidKey.spiffe_path crypto.sha256 did) did)
        AttainableAssurance.iaa1)
      interactive

-- `enumerate`, which cannot fail.
unfoldable pub enumerate : Crypto → Option Bytes → List Candidate
enumerate crypto hire_did_keys = map (candidate_of crypto) (parse_did_keys hire_did_keys)

unfoldable pub find_did : (Bytes → Bool) → List Bytes → Option Bytes
find_did wanted [] = none
find_did wanted (did ∷ dids) =
    let later = find_did wanted dids in if wanted did then some did else later

unfoldable pub is_point_of : Bytes → Option Bytes → Bool
is_point_of point none = false
is_point_of point (some other) = same other point

-- What is settled before the agent is asked for a signature.
pub record Chosen : Type 0 where
  pub agent : Connection
  pub did : Bytes
  pub key_blob : Bytes

unfoldable pub chosen_key :
    Crypto → Environment → Option Bytes → Candidate → Result AttestorError Chosen
chosen_key crypto env hire_did_keys c = do
  did ← ok_or (challenge_failed (codes "HIRE_DID_KEYS no longer names " ++ c.path)) (
      find_did (λ did. same (DidKey.spiffe_path crypto.sha256 did) c.path)
        (parse_did_keys hire_did_keys))
  point ←
      ok_or (challenge_failed (did ++ codes " does not name an ed25519 key")) (ed25519_point did)
  agent ← connect env
  keys ← list_identities crypto.from_utf8_lossy agent.first
  key_blob ←
      ok_or (challenge_failed (codes "no local agent holds the key " ++ (did ++ codes " names")))
        (find_blob (λ blob. is_point_of point (ed25519_point_of blob)) keys)
  ok (record { agent = agent; did = did; key_blob = key_blob })

unfoldable pub signed_by :
    Crypto → SystemTime → Candidate → Bytes → Chosen → Result AttestorError (List Evidence)
signed_by crypto now c challenge chosen = do
  signature ← sign chosen.agent.second chosen.key_blob challenge c.path
  evidence ← verify_did_key_ed25519 crypto now c challenge chosen.did signature
  ok (possession evidence ∷ [])

unfoldable pub prove : Crypto → Environment → Option Bytes → SystemTime → Candidate → Bytes → Proof
prove crypto env hire_did_keys now c challenge = elim (chosen_key crypto env hire_did_keys c) [
  | err e ↦ record { asked = []; result = err e }
  | ok chosen ↦ record {
    asked = chosen.key_blob ∷ [];
    result = signed_by crypto now c challenge chosen;
  }
]
