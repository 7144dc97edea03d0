-- ===== src/Tests/Bundle.antt =====
-- A store with one bundle, and a token of one claim.
use project_persona.Prelude.{◌≡◌, refl, true, some, none, [], ◌∷◌, ok, if◌then◌else◌, length}
use project_persona.Text.{Bytes, codes, same}
use project_persona.Text.Split.{split_once, strip_prefix}
use project_persona.SpiffeId.{TrustDomain, ssh_local, tailscale, show_domain, uri}
use project_persona.SpiffeId
use project_persona.Service.{same_domain}
use project_persona.Json.{
  Json, string, number, array, object, item, no_item, member, no_member, Fields, field, no_field,
  string_value, number_value, list_value, value, no_value, as_str, find_member, number_of,
  json_to_protobuf, claims_struct,
}
use project_persona.Json
use project_persona.Bundle.{
  TrustBundle, local, TokenLibrary, names, find_jwk, is_coordinate, key_of_jwk, jwt_decoding_key,
  TrustBundleStore, insert, lookup, upsert, get, ValidateJwtsvidRequest, spiffe_id_of, chosen_key,
  checked_back, verify, validate_jwtsvid,
}
use project_persona.Bundle.Validate.{Verified, validate_jwtsvid-Verified}

abbrev coordinate : Bytes
coordinate = codes "0123456789abcdef0123456789abcdef"

-- The claims of the repository's test of `claims_struct`, with an identifier of this store.
abbrev claims : Json
claims = object (
    member (codes "spiffe_id") (string (codes "spiffe://ssh.local/pseudonym/ab")) (
      member (codes "exp") (number (codes "17"))
        (member (codes "aud") (array (item (string (codes "one")) no_item)) no_member)))

abbrev claims_fields : Fields
claims_fields = field (codes "spiffe_id") (string_value (codes "spiffe://ssh.local/pseudonym/ab")) (
    field (codes "exp") (number_value 2)
      (field (codes "aud") (list_value (value (string_value (codes "one")) no_value)) no_field))

-- A stand-in for the libraries: a token that is its key's identifier, and a number whose double is
-- the length of its text.
abbrev library : TokenLibrary
library = record {
  read_jwks = λ jwks.
      some
        (record { kid = as_str (some jwks); is_p256 = true; x = coordinate; y = coordinate } ∷ []);
  decode_base64 = λ text. some text;
  from_jwk = λ k. k.kid;
  insecure_decode = λ svid. some (some svid, claims);
  decode = λ svid key validation. if same svid key then some claims else none;
  as_f64 = λ text. some (length text);
}

abbrev bundle : TrustBundle
bundle = local ssh_local (string (codes "kid"))

abbrev store : TrustBundleStore
store = upsert [] bundle

abbrev request : ValidateJwtsvidRequest
request = record { audience = codes "https://a"; svid = codes "kid" }

validate-request :
    validate_jwtsvid library store request
    ≡ ok (record {
      spiffe_id = codes "spiffe://ssh.local/pseudonym/ab";
      claims = some claims_fields;
    })
unfolding as_str Json.get find_member claims_struct json_to_protobuf number_of validate_jwtsvid
    verify checked_back chosen_key spiffe_id_of get upsert lookup insert jwt_decoding_key key_of_jwk
    is_coordinate find_jwk names local show_domain uri same_domain same SpiffeId.parse
    SpiffeId.parse_halves SpiffeId.parse_domain SpiffeId.named_domain SpiffeId.is_empty
    SpiffeId.all_domain_bytes SpiffeId.is_domain_byte split_once strip_prefix
validate-request = refl

validate_jwtsvid-Verified_example :
    Verified library store request
      (record { spiffe_id = codes "spiffe://ssh.local/pseudonym/ab"; claims = some claims_fields })
validate_jwtsvid-Verified_example = validate_jwtsvid-Verified library store request validate-request
