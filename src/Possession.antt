-- ===== src/Possession.antt =====
-- hire-attestors/src/claim.rs: the verifying constructors of possession evidence over ed25519 keys,
-- with the path functions of ssh.rs and did_key.rs that they check the candidate by.
pub mod Sound
use project_persona.Prelude.{
  ℕ, Bool, true, false, not, ◌&&◌, ◌||◌, Option, none, some, List, [], ◌∷◌, ◌++◌, ◌==◌,
  if◌then◌else◌, length, Result, ok, err, ◌>>=◌, ok_or,
}
use project_persona.Text.{Bytes, codes, same}
use project_persona.SpiffeId.{is_empty}
use project_persona.Claim.{SystemTime, Candidate, ChallengeSignature}
use project_persona.Agent.{AttestorError, challenge_failed, ssh_ed25519, read_string}
use project_persona.DidKey.{ed25519_point}
use project_persona.DidKey

-- What libraries do: SHA-256, unpadded base64, text with its bad bytes replaced, whether 32 bytes are
-- a point, and whether a signature by a point covers a message.
pub record Crypto : Type 0 where
  pub sha256 : Bytes → Bytes
  pub encode_base64 : Bytes → Bytes
  pub from_utf8_lossy : Bytes → Bytes
  pub is_point : Bytes → Bool
  pub verify_strict : Bytes → Bytes → Bytes → Bool

-- `ssh::spiffe_path`.
unfoldable pub spiffe_path : Crypto → Bytes → Bytes
spiffe_path crypto key_blob = codes "key/" ++ crypto.encode_base64 (crypto.sha256 key_blob)

abbrev pub refuse {ℓ} : {A : Type ℓ} → Bytes → Result AttestorError A
refuse message = err (challenge_failed message)

abbrev pub malformed : AttestorError
malformed = challenge_failed (codes "malformed ssh-agent blob")

-- A blob of two strings, as far as it goes: the first, the second, and what is behind.
unfoldable pub read_pair : Bytes → Result AttestorError (Bytes × (Bytes × Bytes))
read_pair blob = do
  (first, rest) ← ok_or malformed (read_string blob)
  (second, trailing) ← ok_or malformed (read_string rest)
  ok (first, (second, trailing))

unfoldable pub checked_point : Crypto → Bytes → Bytes → Result AttestorError Bytes
checked_point crypto no_point point = if crypto.is_point point then ok point else refuse no_point

-- The key of an ssh key blob.
unfoldable pub key_point : Crypto → Bytes → Bytes × (Bytes × Bytes) → Result AttestorError Bytes
key_point crypto no_point (algorithm, (point, trailing)) =
    if not (same algorithm ssh_ed25519) || not (is_empty trailing)
    then refuse (codes "unsupported ssh key type " ++ crypto.from_utf8_lossy algorithm)
    else if not (length point == 32)
    then err malformed
    else checked_point crypto no_point point

-- The 64 bytes of a framed signature.
unfoldable pub signature_bytes : Bytes × (Bytes × Bytes) → Result AttestorError Bytes
signature_bytes (algorithm, (sig_bytes, trailing)) =
    if not (same algorithm ssh_ed25519) || not (is_empty trailing)
    then err malformed
    else if length sig_bytes == 64
    then ok sig_bytes
    else err malformed

-- The signature over the challenge, and the evidence.
unfoldable pub signed_over :
    Crypto
    → Bytes
    → Bytes
    → Bytes
    → SystemTime
    → Bytes
    → Bytes
    → Result AttestorError ChallengeSignature
signed_over crypto format no_match challenge now point sig_bytes =
    if crypto.verify_strict point challenge sig_bytes
    then ok (record {
      assertion = record { bytes = sig_bytes; format = format };
      challenge = challenge;
      observed_at = now;
    })
    else refuse no_match

unfoldable pub verify_ssh_ed25519 :
    Crypto
    → SystemTime
    → Candidate
    → Bytes
    → Bytes
    → Bytes
    → Result AttestorError ChallengeSignature
verify_ssh_ed25519 crypto now candidate challenge key_blob signature =
    if not (same (spiffe_path crypto key_blob) candidate.path)
    then refuse (codes "ssh-agent signed with a key the candidate does not name")
    else do
      key ← read_pair key_blob
      point ← key_point crypto (codes "ssh-agent key is not a valid ed25519 point") key
      framed ← read_pair signature
      sig_bytes ← signature_bytes framed
      signed_over crypto (codes "application/vnd.hire.ssh-ed25519-signature")
          (codes "ssh-agent signature does not verify over the challenge") challenge now point
          sig_bytes

unfoldable pub verify_did_key_ed25519 :
    Crypto
    → SystemTime
    → Candidate
    → Bytes
    → Bytes
    → Bytes
    → Result AttestorError ChallengeSignature
verify_did_key_ed25519 crypto now candidate challenge did signature =
    if not (same (DidKey.spiffe_path crypto.sha256 did) candidate.path)
    then refuse (codes "did:key signature is for a DID the candidate does not name")
    else do
      named ←
          ok_or (challenge_failed (did ++ codes " does not encode an ed25519 key"))
            (ed25519_point did)
      point ← checked_point crypto (codes "did:key does not encode a valid ed25519 point") named
      framed ← read_pair signature
      sig_bytes ← signature_bytes framed
      signed_over crypto (codes "application/vnd.hire.did-key-ed25519-signature")
          (codes "did:key signature does not verify over the challenge") challenge now point
          sig_bytes
