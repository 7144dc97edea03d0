-- ===== src/Tests/DidKey.antt =====
-- hire-attestors/src/did_key.rs at the key whose bytes count from 0 to 31.
use project_persona.Prelude.{◌≡◌, refl, some, [], ◌∷◌, ◌++◌, length}
use project_persona.Text.{Bytes, codes, same}
use project_persona.Text.Split.{strip_prefix}
use project_persona.DidKey.{
  ed25519_multicodec, position, times_58, decode, backwards, key_of_decoded, ed25519_point,
}
use project_persona.DidKey.Value.{number, Writes, ed25519_point-Writes}

abbrev counting_key : Bytes
counting_key =
    0 ∷ 1 ∷ 2 ∷ 3 ∷ 4 ∷ 5 ∷ 6 ∷ 7 ∷ 8 ∷ 9 ∷ 10 ∷ 11 ∷ 12 ∷ 13 ∷ 14 ∷ 15 ∷ 16 ∷ 17 ∷ 18 ∷ 19 ∷ 20
    ∷ 21 ∷ 22 ∷ 23 ∷ 24 ∷ 25 ∷ 26 ∷ 27 ∷ 28 ∷ 29 ∷ 30 ∷ 31 ∷ []

abbrev counting_text : Bytes
counting_text = codes "6MkeTGwHmLmuCmgg4ABYhzWVh6ZX7hTwWt8gguAretUfc9c"

ed25519_point-counting : ed25519_point (codes "did:key:z" ++ counting_text) ≡ some counting_key
unfolding ed25519_point strip_prefix decode position times_58 backwards key_of_decoded same
ed25519_point-counting = refl

ed25519_point-Writes_example :
    (length counting_key ≡ 32)
    × ((text : Bytes) × (codes "did:key:z" ++ counting_text ≡ codes "did:key:z" ++ text)
        × Writes text 0 (number (backwards (ed25519_multicodec ++ counting_key) [])))
ed25519_point-Writes_example =
    ed25519_point-Writes (codes "did:key:z" ++ counting_text) ed25519_point-counting
