-- ===== src/Tests/Agent.antt =====
-- hire-attestors/src/ssh.rs at short messages.
use project_persona.Prelude.{
  ◌<◌, ◌≡◌, ◌↔◌, ◌⊎◌, refl, arith, some, ok, List, [], ◌∷◌, ◌++◌, length, All,
}
use project_persona.Text.{Bytes, codes, same}
use project_persona.Text.Hex.{IsByte, IsByte-by}
use project_persona.SpiffeId.{is_empty}
use project_persona.Agent.{
  sign_response, ssh_ed25519, from_be_bytes, read_exact, read_string, push_string, point_of,
  ed25519_point_of, read_keys, read_signature,
}
use project_persona.Agent.Signing.{read_signature_iff}
use project_persona.Agent.Identities.{keys_wire, decoded, AtFront, read_keys-prefix}

-- Comments of the tests are UTF-8, which decoding leaves alone.
abbrev as_is : Bytes → Bytes
as_is s = s

abbrev two_keys : List (Bytes × Bytes)
two_keys = (codes "k", codes "work") ∷ (codes "l", []) ∷ []

abbrev one_key : Bytes
one_key = 0 ∷ 0 ∷ 0 ∷ 1 ∷ 7 ∷ 0 ∷ 0 ∷ 0 ∷ 0 ∷ 9 ∷ []

one_key-bytes : All IsByte one_key
one_key-bytes = IsByte-by one_key refl

-- A count of a thousand, and one key.
read_keys-prefix_example :
    (ks : List (Bytes × Bytes)) × (rest : Bytes) × (read_keys as_is 1000 one_key ≡ decoded as_is ks)
    × (one_key ≡ keys_wire ks ++ rest)
    × ((length ks ≡ 1000) ⊎ ((length ks < 1000) × ¬ AtFront rest))
read_keys-prefix_example = read_keys-prefix as_is 1000 one_key one_key-bytes

abbrev answer : Bytes
answer = 14 ∷ 0 ∷ 0 ∷ 0 ∷ 1 ∷ 7 ∷ []

answer-bytes : All IsByte answer
answer-bytes = IsByte-by answer refl

read_signature_iff_example :
    (read_signature (codes "a key") answer ≡ ok (7 ∷ []))
    ↔ (answer ≡ sign_response ∷ push_string [] (7 ∷ []))
read_signature_iff_example =
    read_signature_iff (codes "a key") answer (7 ∷ []) answer-bytes (omega arith)

abbrev point : Bytes
point = codes "0123456789abcdef0123456789abcdef"

abbrev key_blob : Bytes
key_blob = 0 ∷ 0 ∷ 0 ∷ 11 ∷ ssh_ed25519 ++ 0 ∷ 0 ∷ 0 ∷ 32 ∷ point

ed25519_point_of-key_blob : ed25519_point_of key_blob ≡ some point
unfolding ed25519_point_of read_string read_exact from_be_bytes point_of same is_empty
ed25519_point_of-key_blob = refl
