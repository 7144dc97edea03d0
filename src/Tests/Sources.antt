-- ===== src/Tests/Sources.antt =====
-- An agent that holds one ed25519 key and signs with it, asked by both sources.
use project_persona.Prelude.{◌≡◌, refl, true, some, ok, [], ◌∷◌, ◌++◌}
use project_persona.Text.{Bytes, codes, same}
use project_persona.Text.Hex.{hex, hex_digit}
use project_persona.Text.Split.{strip_prefix, starts_with, non_empty}
use project_persona.Text.Space.{split_whitespace}
use project_persona.SpiffeId.{is_empty}
use project_persona.Claim.{new_candidate, possession}
use project_persona.Agent.{
  read_string, read_exact, from_be_bytes, read_reply, agent_roundtrip, read_keys, read_identities,
  list_identities, read_signature, sign, ed25519_point_of, point_of,
}
use project_persona.DidKey.{ed25519_point, decode, position, times_58, backwards, key_of_decoded}
use project_persona.DidKey
use project_persona.Possession.{
  spiffe_path, read_pair, checked_point, key_point, signature_bytes, signed_over,
  verify_ssh_ed25519, verify_did_key_ed25519,
}
use project_persona.Sources.Ssh.{
  Connection, Environment, connect, find_blob, check_algorithm, chosen_key, signed_by, prove,
}
use project_persona.Sources.Did.{find_did, is_point_of, parse_did_keys, parse_did_keys_from}
use project_persona.Sources.Did
use project_persona.Sources.Asked.{Eligible, Configured}
use project_persona.Sources.Sound.{Shows, prove-Shows, did_prove-Shows}
use project_persona.Tests.Possession.{
  crypto, did, key_blob, signature, ssh_key, did_key, ssh_shown, did_shown,
}

abbrev agent : Connection
agent = record {
  first = λ request.
      0 ∷ 0 ∷ 0 ∷ 65 ∷ 12 ∷ 0 ∷ 0 ∷ 0 ∷ 1 ∷ 0 ∷ 0 ∷ 0 ∷ 51 ∷ key_blob ++ 0 ∷ 0 ∷ 0 ∷ 1 ∷ 97 ∷ [];
  second = λ request. 0 ∷ 0 ∷ 0 ∷ 88 ∷ 14 ∷ 0 ∷ 0 ∷ 0 ∷ 83 ∷ signature;
}

abbrev env : Environment
env = record {
  ssh_auth_sock = some (codes "/run/agent");
  exists = λ path. true;
  connect_to = λ path. ok agent;
}

prove-ssh_key : (prove crypto env 9 ssh_key (codes "asked")).result ≡ ok (possession ssh_shown ∷ [])
unfolding prove chosen_key connect list_identities agent_roundtrip read_reply read_identities
    read_keys find_blob check_algorithm signed_by sign read_signature verify_ssh_ed25519 spiffe_path
    read_pair checked_point key_point signature_bytes signed_over read_string read_exact
    from_be_bytes same is_empty hex hex_digit new_candidate
prove-ssh_key = refl

prove-Shows_example :
    (key : Bytes) × Eligible crypto env ssh_key key
    × (p : Bytes) × (ed25519_point_of key ≡ some p)
    × Shows crypto 9 ssh_key (codes "asked") p (possession ssh_shown ∷ [])
prove-Shows_example =
    prove-Shows crypto env 9 ssh_key (codes "asked") (possession ssh_shown ∷ []) prove-ssh_key

abbrev raw : Bytes
raw = codes " did:web:example.com  " ++ did

prove-did_key :
    (Did.prove crypto env (some raw) 9 did_key (codes "asked")).result
    ≡ ok (possession did_shown ∷ [])
unfolding Did.prove Did.chosen_key connect list_identities agent_roundtrip read_reply
    read_identities read_keys find_blob find_did is_point_of parse_did_keys parse_did_keys_from
    split_whitespace starts_with non_empty Did.signed_by sign read_signature verify_did_key_ed25519
    DidKey.spiffe_path DidKey.did_id ed25519_point_of point_of read_pair checked_point
    signature_bytes signed_over read_string read_exact from_be_bytes same is_empty hex hex_digit
    new_candidate ed25519_point decode position times_58 backwards key_of_decoded strip_prefix
prove-did_key = refl

did_prove-Shows_example :
    (named : Bytes) × (key : Bytes) × Configured crypto env (some raw) did_key named key
    × (p : Bytes) × (ed25519_point named ≡ some p)
    × Shows crypto 9 did_key (codes "asked") p (possession did_shown ∷ [])
did_prove-Shows_example =
    did_prove-Shows crypto env (some raw) 9 did_key (codes "asked") (possession did_shown ∷ [])
      prove-did_key
