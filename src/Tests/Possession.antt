-- ===== src/Tests/Possession.antt =====
-- Possession evidence, with stand-ins for the cryptographic crates.
use project_persona.Prelude.{◌≡◌, refl, true, [], ◌∷◌, ◌++◌, length, ok}
use project_persona.Text.{Bytes, codes, same}
use project_persona.Text.Hex.{hex, hex_digit}
use project_persona.Text.Split.{strip_prefix}
use project_persona.SpiffeId.{is_empty}
use project_persona.Claim.{Candidate, ssh_local, personal_did, new_candidate, ChallengeSignature}
use project_persona.Agent.{ssh_ed25519, read_string, read_exact, from_be_bytes}
use project_persona.DidKey.{ed25519_point, decode, position, times_58, backwards, key_of_decoded}
use project_persona.DidKey
use project_persona.Possession.{
  Crypto, spiffe_path, read_pair, checked_point, key_point, signature_bytes, signed_over,
  verify_ssh_ed25519, verify_did_key_ed25519,
}

-- A digest that is a length, and a signature that is the point twice.
abbrev pub crypto : Crypto
crypto = record {
  sha256 = λ s. length s ∷ [];
  encode_base64 = hex;
  from_utf8_lossy = λ s. s;
  is_point = λ p. true;
  verify_strict = λ point message sig. same sig (point ++ point);
}

abbrev point : Bytes
point =
    0 ∷ 1 ∷ 2 ∷ 3 ∷ 4 ∷ 5 ∷ 6 ∷ 7 ∷ 8 ∷ 9 ∷ 10 ∷ 11 ∷ 12 ∷ 13 ∷ 14 ∷ 15 ∷ 16 ∷ 17 ∷ 18 ∷ 19 ∷ 20
    ∷ 21 ∷ 22 ∷ 23 ∷ 24 ∷ 25 ∷ 26 ∷ 27 ∷ 28 ∷ 29 ∷ 30 ∷ 31 ∷ []

abbrev pub did : Bytes
did = codes "did:key:z6MkeTGwHmLmuCmgg4ABYhzWVh6ZX7hTwWt8gguAretUfc9c"

abbrev pub key_blob : Bytes
key_blob = 0 ∷ 0 ∷ 0 ∷ 11 ∷ ssh_ed25519 ++ 0 ∷ 0 ∷ 0 ∷ 32 ∷ point

abbrev pub signature : Bytes
signature = 0 ∷ 0 ∷ 0 ∷ 11 ∷ ssh_ed25519 ++ 0 ∷ 0 ∷ 0 ∷ 64 ∷ point ++ point

abbrev pub ssh_key : Candidate
ssh_key = new_candidate (codes "ssh-agent") ssh_local (codes "key/33") (codes "a key")

abbrev pub did_key : Candidate
did_key = new_candidate (codes "did") (personal_did did) (codes "did/38") (codes "a DID")

abbrev shown : Bytes → ChallengeSignature
shown format = record {
  assertion = record { bytes = point ++ point; format = format };
  challenge = codes "asked";
  observed_at = 9;
}

abbrev pub ssh_shown : ChallengeSignature
ssh_shown = shown (codes "application/vnd.hire.ssh-ed25519-signature")

abbrev pub did_shown : ChallengeSignature
did_shown = shown (codes "application/vnd.hire.did-key-ed25519-signature")

verify-ssh_key :
    verify_ssh_ed25519 crypto 9 ssh_key (codes "asked") key_blob signature ≡ ok ssh_shown
unfolding verify_ssh_ed25519 spiffe_path read_pair checked_point key_point signature_bytes
    signed_over read_string read_exact from_be_bytes same is_empty hex hex_digit new_candidate
verify-ssh_key = refl

verify-did_key :
    verify_did_key_ed25519 crypto 9 did_key (codes "asked") did signature ≡ ok did_shown
unfolding verify_did_key_ed25519 DidKey.spiffe_path DidKey.did_id read_pair checked_point
    signature_bytes signed_over read_string read_exact from_be_bytes same is_empty hex hex_digit
    new_candidate ed25519_point decode position times_58 backwards key_of_decoded strip_prefix
verify-did_key = refl
