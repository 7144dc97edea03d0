-- ===== src/Sources/Ssh.antt =====
-- hire-attestors/src/ssh.rs: `SshAgentAttestor`.
use project_persona.Prelude.{
  Bool, false, Option, none, some, List, [], ◌∷◌, ◌++◌, map, if◌then◌else◌, Result, ok, err, ◌>>=◌,
  ok_or, map_err,
}
use project_persona.Text.{Bytes, codes, same}
use project_persona.Claim.{
  Candidate, new_candidate, with_attainable, with_proof_cost, ssh_local, AttainableAssurance,
  interactive, SystemTime, Evidence, possession,
}
use project_persona.Agent.{
  AttestorError, unavailable, challenge_failed, ssh_ed25519, read_string, list_identities, sign,
}
use project_persona.Possession.{Crypto, spiffe_path, verify_ssh_ed25519}

-- A connection to the agent: what it writes back to the first request, and to the second.
pub record Connection : Type 0 where
  pub first : Bytes → Bytes
  pub second : Bytes → Bytes

-- `SSH_AUTH_SOCK`, whether something stands at a path, and connecting, with the text of its error.
pub record Environment : Type 0 where
  pub ssh_auth_sock : Option Bytes
  pub exists : Bytes → Bool
  pub connect_to : Bytes → Result Bytes Connection

unfoldable pub is_available : Environment → Bool
is_available env = elim env.ssh_auth_sock [ none ↦ false | some path ↦ env.exists path ]

unfoldable pub connect : Environment → Result AttestorError Connection
connect env = do
  sock_path ← ok_or (unavailable (codes "SSH_AUTH_SOCK not set")) env.ssh_auth_sock
  map_err (λ e. unavailable (codes "cannot connect to SSH agent: " ++ e)) (env.connect_to sock_path)

unfoldable pub candidate_of : Crypto → Bytes × Bytes → Candidate
candidate_of crypto (key_blob, display_name) =
    with_proof_cost
      (with_attainable
        (new_candidate (codes "ssh-agent") ssh_local (spiffe_path crypto key_blob) display_name)
        AttainableAssurance.iaa1)
      interactive

unfoldable pub enumerate : Crypto → Environment → Result AttestorError (List Candidate)
enumerate crypto env = do
  agent ← connect env
  keys ← list_identities crypto.from_utf8_lossy agent.first
  ok (map (candidate_of crypto) keys)

-- `into_iter().map(|(blob, _)| blob).find(..)`.
unfoldable pub find_blob : (Bytes → Bool) → List (Bytes × Bytes) → Option Bytes
find_blob wanted [] = none
find_blob wanted ((blob, comment) ∷ keys) =
    let later = find_blob wanted keys in if wanted blob then some blob else later

unfoldable pub check_algorithm : Crypto → Candidate → Bytes → Result AttestorError Bytes
check_algorithm crypto c key_blob = elim (read_string key_blob) [
  | none ↦ err (challenge_failed (codes "malformed key blob from ssh-agent"))
  | some (algorithm, rest) ↦
      if same algorithm ssh_ed25519
      then ok key_blob
      else err (
          challenge_failed (
            codes "ssh-agent key "
            ++ (c.path
                ++ (codes " is "
                    ++ (crypto.from_utf8_lossy algorithm
                        ++ codes "; hire proves ssh-ed25519 keys only")))))
]

-- What is settled before the agent is asked for a signature: the connection and the key.
unfoldable pub chosen_key :
    Crypto → Environment → Candidate → Result AttestorError (Connection × Bytes)
chosen_key crypto env c = do
  agent ← connect env
  keys ← list_identities crypto.from_utf8_lossy agent.first
  key_blob ←
      ok_or (challenge_failed (codes "ssh-agent no longer holds " ++ c.path))
        (find_blob (λ blob. same (spiffe_path crypto blob) c.path) keys)
  supported ← check_algorithm crypto c key_blob
  ok (agent, supported)

-- A proof: the keys that the agent was asked to sign with, and the evidence.
pub record Proof : Type 0 where
  pub asked : List Bytes
  pub result : Result AttestorError (List Evidence)

unfoldable pub signed_by :
    Crypto
    → SystemTime
    → Candidate
    → Bytes
    → Connection × Bytes
    → Result AttestorError (List Evidence)
signed_by crypto now c challenge (agent, key_blob) = do
  signature ← sign agent.second key_blob challenge c.path
  evidence ← verify_ssh_ed25519 crypto now c challenge key_blob signature
  ok (possession evidence ∷ [])

unfoldable pub prove : Crypto → Environment → SystemTime → Candidate → Bytes → Proof
prove crypto env now c challenge = elim (chosen_key crypto env c) [
  | err e ↦ record { asked = []; result = err e }
  | ok chosen ↦ record { asked = chosen.1 ∷ []; result = signed_by crypto now c challenge chosen }
]
