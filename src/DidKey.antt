-- ===== src/DidKey.antt =====
-- hire-attestors/src/did_key.rs: the key that a did:key names, and the path that a DID maps to. The
-- digest of the `sha2` crate is a parameter.
pub mod Value
use project_persona.Prelude.{
  ℕ, ◌+◌, ◌*◌, ◌/◌, ◌%◌, Option, none, some, List, [], ◌∷◌, ◌++◌, ◌==◌, if◌then◌else◌, take, drop,
}
use project_persona.Text.{Bytes, codes, same}
use project_persona.Text.Hex.{hex}
use project_persona.Text.Split.{strip_prefix}

abbrev pub base58btc : Bytes
base58btc = codes "123456789ABCDEFGHJKLMNPQRSTUVWXYZabcdefghijkmnopqrstuvwxyz"

abbrev pub ed25519_multicodec : Bytes
ed25519_multicodec = 237 ∷ 1 ∷ []

-- `BASE58BTC.iter().position(|&a| a == c)`.
abbrev place_behind : Option ℕ → Option ℕ
place_behind none = none
place_behind (some n) = some (1 + n)

unfoldable pub position : ℕ → Bytes → Option ℕ
position c [] = none
position c (a ∷ alphabet) =
    let rest = position c alphabet in if a == c then some 0 else place_behind rest

-- The inner loop, over the buffer from its last byte to its first: times 58, plus the carry.
unfoldable pub times_58 : Bytes → ℕ → Bytes × ℕ
times_58 [] carry = ([], carry)
times_58 (byte ∷ bytes) carry =
    let sum = carry + 58 * byte in
    let rest = times_58 bytes (sum / 256) in (sum % 256 ∷ rest.0, rest.1)

-- The outer loop, over the characters.
unfoldable pub decode : Bytes → Bytes → Option Bytes
decode decoded [] = some decoded
decode decoded (c ∷ suffix) = elim (position c base58btc) [
  | none ↦ none
  | some digit ↦
      let (next, carry) = times_58 decoded digit in
      let rest = decode next suffix in if carry == 0 then rest else none
]

-- `[0u8; ED25519_DID_LEN]`.
abbrev pub zeros : Bytes
zeros =
    0 ∷ 0 ∷ 0 ∷ 0 ∷ 0 ∷ 0 ∷ 0 ∷ 0 ∷ 0 ∷ 0 ∷ 0 ∷ 0 ∷ 0 ∷ 0 ∷ 0 ∷ 0 ∷ 0 ∷ 0 ∷ 0 ∷ 0 ∷ 0 ∷ 0 ∷ 0 ∷ 0
    ∷ 0 ∷ 0 ∷ 0 ∷ 0 ∷ 0 ∷ 0 ∷ 0 ∷ 0 ∷ 0 ∷ 0 ∷ []

-- The buffer in the order of the array.
unfoldable pub backwards : Bytes → Bytes → Bytes
backwards [] done = done
backwards (b ∷ bytes) done = backwards bytes (b ∷ done)

-- The prefix decides, and the key is what stands behind it.
unfoldable pub key_of_decoded : Bytes → Option Bytes
key_of_decoded decoded =
    if same (take 2 decoded) ed25519_multicodec then some (drop 2 decoded) else none

unfoldable pub ed25519_point : Bytes → Option Bytes
ed25519_point did = elim (strip_prefix (codes "did:key:z") did) [
  | none ↦ none
  | some suffix ↦ elim (decode zeros suffix) [
    | none ↦ none
    | some decoded ↦ key_of_decoded (backwards decoded [])
  ]
]

module _ (sha256 : Bytes → Bytes) where
  unfoldable pub did_id : Bytes → Bytes
  did_id did = hex (sha256 did)

  unfoldable pub spiffe_path : Bytes → Bytes
  unfolding did_id
  spiffe_path did = codes "did/" ++ did_id did
