-- ===== src/Tests/Signer.antt =====
-- A signer whose point is the numbers from 0 to 64, under libraries that change nothing.
use project_persona.Prelude.{
  ◌≡◌, refl, none, some, ok, err, [], ◌∷◌, if◌then◌else◌, ◌++◌, List, Option,
}
use project_persona.Text.{Bytes, codes, same}
use project_persona.SpiffeId.{ssh_local}
use project_persona.Json.{Json, string, array, object, item, no_item, member, no_member}
use project_persona.Bundle.{Jwk, TokenLibrary, jwt_decoding_key}
use project_persona.Signer.{
  SigningKey, KeyLibrary, KeyedSigner, key_gen, uncompressed, from_signing_key, kid, local_bundle,
  canonical,
}
use project_persona.Signer.Published.{p256_key, jwt_decoding_key-local}

abbrev half : Bytes
half = codes "0123456789abcdef0123456789abcdef"

abbrev signing_key : SigningKey
signing_key = record {
  to_pkcs8_der = ok (codes "der");
  encoded_point = 4 ∷ half ++ half;
  try_sign = λ message. ok message;
}

abbrev keys : KeyLibrary
keys = record { sha256 = λ s. s; encode_base64 = λ s. s }

abbrev signer : KeyedSigner
signer = record {
  signing_key = signing_key;
  public_key_sec1 = 4 ∷ half ++ half;
  encoding_key = codes "der";
  pseudonym_ikm = [];
}

-- Reads the key sets of one key that have the members of RFC 7517 in this order.
abbrev read_key_set : Json → Option (List Jwk)
read_key_set
      (object (
        member _
          (array (
            item
              (object (
                member _ _ (
                  member _ _ (
                    member _ _ (
                      member _ _ (
                        member _
                          (string name)
                          (member _ (string x) (member _ (string y) no_member))))))))
              no_item))
          no_member)) =
    some (p256_key name x y ∷ [])
read_key_set v = none

abbrev tokens : TokenLibrary
tokens = record {
  read_jwks = read_key_set;
  decode_base64 = λ text. some text;
  from_jwk = λ k. some k.x;
  insecure_decode = λ svid. none;
  decode = λ svid key validation. none;
  as_f64 = λ text. none;
}

from_signing_key-signer : from_signing_key signing_key (ok []) ≡ ok signer
unfolding from_signing_key uncompressed
from_signing_key-signer = refl

-- A compressed point is refused when the key is set up.
from_signing_key-short :
    from_signing_key (record signing_key { encoded_point = 2 ∷ half }) (ok [])
    ≡ err (key_gen (codes "public key is not an uncompressed P-256 point"))
unfolding from_signing_key uncompressed
from_signing_key-short = refl

jwt_decoding_key-local_example :
    jwt_decoding_key tokens (local_bundle keys ssh_local signer) (codes "another") ≡ (
      if same (kid keys signer) (codes "another")
      then tokens.from_jwk (p256_key (kid keys signer) half half)
      else none)
jwt_decoding_key-local_example =
    jwt_decoding_key-local keys tokens signing_key (ok []) signer ssh_local (codes "another") 4 half
      half (λ kid x y. refl) (λ s. refl) (refl, refl, refl) from_signing_key-signer

-- The text that is digested, with `x` and `y` of one byte.
canonical-ab :
    canonical (codes "a") (codes "b")
    ≡ codes "{\"crv\":\"P-256\",\"kty\":\"EC\",\"x\":\"a\",\"y\":\"b\"}"
unfolding canonical
canonical-ab = refl
