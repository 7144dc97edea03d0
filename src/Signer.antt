-- ===== src/Signer.antt =====
-- hire-core/src/signer.rs: the key that a signer holds, how it is published, and the identifier that
-- its tokens carry. The curve, the digest and base64 are a record of functions.
pub mod Published
use project_persona.Prelude.{
  ℕ, Bool, true, false, Option, none, some, List, [], ◌∷◌, ◌++◌, ◌==◌, if◌then◌else◌, length, take,
  drop, Result, ok, err, ◌>>=◌, map_err,
}
use project_persona.Text.{Bytes, codes}
use project_persona.SpiffeId.{TrustDomain}
use project_persona.Json.{Json, string, array, object, item, no_item, member, no_member}
use project_persona.Bundle.{TrustBundle, local}

-- `SignerError`; the errors of the libraries are kept as their text.
pub data SignerError : Type 0 where
  key_gen sign jwt not_implemented : Bytes → SignerError

-- A signing key of the curve library is what it answers with.
pub record SigningKey : Type 0 where
  pub to_pkcs8_der : Result Bytes Bytes
  pub encoded_point : Bytes
  pub try_sign : Bytes → Result Bytes Bytes

pub record KeyLibrary : Type 0 where
  pub sha256 : Bytes → Bytes
  pub encode_base64 : Bytes → Bytes

pub record KeyedSigner : Type 0 where
  pub signing_key : SigningKey
  pub public_key_sec1 : Bytes
  pub encoding_key : Bytes
  pub pseudonym_ikm : Bytes

-- `try_into` an array of 65 bytes.
unfoldable pub uncompressed : Bytes → Result SignerError Bytes
uncompressed point =
    if length point == 65
    then ok point
    else err (key_gen (codes "public key is not an uncompressed P-256 point"))

-- `from_signing_key`, with what the random generator answers.
unfoldable pub from_signing_key : SigningKey → Result Bytes Bytes → Result SignerError KeyedSigner
from_signing_key signing_key random = do
  encoding_key ← map_err key_gen signing_key.to_pkcs8_der
  public_key_sec1 ← uncompressed signing_key.encoded_point
  pseudonym_ikm ← map_err key_gen random
  ok (record {
    signing_key = signing_key;
    public_key_sec1 = public_key_sec1;
    encoding_key = encoding_key;
    pseudonym_ikm = pseudonym_ikm;
  })

-- base64url of bytes 1 to 32, and of bytes 33 to 64.
unfoldable pub public_x : KeyLibrary → KeyedSigner → Bytes
public_x lib signer = lib.encode_base64 (take 32 (drop 1 signer.public_key_sec1))

unfoldable pub public_y : KeyLibrary → KeyedSigner → Bytes
public_y lib signer = lib.encode_base64 (take 32 (drop 33 signer.public_key_sec1))

-- The JSON text of RFC 7638.
unfoldable pub canonical : Bytes → Bytes → Bytes
canonical x y =
    codes "{\"crv\":\"P-256\",\"kty\":\"EC\",\"x\":\""
    ++ (x ++ (codes "\",\"y\":\"" ++ (y ++ codes "\"}")))

unfoldable pub jwk_thumbprint : KeyLibrary → Bytes → Bytes → Bytes
jwk_thumbprint lib x y = lib.encode_base64 (lib.sha256 (canonical x y))

unfoldable pub kid : KeyLibrary → KeyedSigner → Bytes
kid lib signer = jwk_thumbprint lib (public_x lib signer) (public_y lib signer)

-- The object that `json!` writes for one key.
unfoldable pub jwk : KeyLibrary → Bytes → Bytes → Json
jwk lib x y = object (
    member (codes "kty") (string (codes "EC")) (
      member (codes "crv") (string (codes "P-256")) (
        member (codes "alg") (string (codes "ES256")) (
          member (codes "use") (string (codes "sig")) (
            member (codes "kid") (string (jwk_thumbprint lib x y))
              (member (codes "x") (string x) (member (codes "y") (string y) no_member)))))))

unfoldable pub jwks : KeyLibrary → KeyedSigner → Json
jwks lib signer = object (
    member (codes "keys")
      (array (item (jwk lib (public_x lib signer) (public_y lib signer)) no_item)) no_member)

-- `TrustBundle::local` of a signer.
unfoldable pub local_bundle : KeyLibrary → TrustDomain → KeyedSigner → TrustBundle
local_bundle lib trust_domain signer = local trust_domain (jwks lib signer)

unfoldable pub sign_x509_svid : KeyedSigner → Bytes → Result SignerError Bytes
sign_x509_svid signer spiffe_id = err (not_implemented (codes "x509_svid"))

unfoldable pub sign_raw : KeyedSigner → Bytes → Result SignerError Bytes
sign_raw signer message = map_err sign (signer.signing_key.try_sign message)
