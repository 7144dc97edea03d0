-- ===== src/Bundle.antt =====
-- hire-core/src/trust_bundle.rs: the published keys; and hire-grpc/src/service.rs: the calls that
-- read them, `fetch_x509_bundles`, `fetch_jwt_bundles` and `validate_jwtsvid`.
pub mod Store
pub mod Validate
use project_persona.Prelude.{
  ℕ, ◌≡◌, Bool, true, false, ◌&&◌, Option, none, some, List, [], ◌∷◌, ◌++◌, ◌==◌, if◌then◌else◌,
  length, Result, ok, err, ◌>>=◌, ok_or, map_err,
}
use project_persona.Text.{Bytes, codes, same}
use project_persona.SpiffeId.{TrustDomain, SpiffeId, show_domain, uri, is_empty}
use project_persona.SpiffeId
use project_persona.Service.{same_domain}
use project_persona.Json.{Json, Fields, as_str, claims_struct}
use project_persona.Json

-- One published key: its identifier, whether it is on the curve P-256, and its coordinates.
pub record Jwk : Type 0 where
  pub kid : Option Bytes
  pub is_p256 : Bool
  pub x : Bytes
  pub y : Bytes

pub record TrustBundle : Type 0 where
  pub trust_domain : TrustDomain
  pub x509_authorities : List Bytes
  pub jwt_authorities : Json

-- `TrustBundle::local`, over the signer's key set.
unfoldable pub local : TrustDomain → Json → TrustBundle
local trust_domain jwks = record {
  trust_domain = trust_domain;
  x509_authorities = [];
  jwt_authorities = jwks;
}

-- `Validation` of the token library: the algorithm that it is made for, the audience that is set and
-- the leeway in seconds.
pub data Algorithm : Type 0 where
  es256 es384 rs256 : Algorithm

pub record Validation : Type 0 where
  pub algorithm : Algorithm
  pub audience : List Bytes
  pub leeway : ℕ

-- What the JSON, base64 and token libraries do: reading a key set, decoding base64, making a key,
-- reading a token without and with a validation, and reading a number as a double.
pub record TokenLibrary : Type 0 where
  pub read_jwks : Json → Option (List Jwk)
  pub decode_base64 : Bytes → Option Bytes
  pub from_jwk : Jwk → Option Bytes
  pub insecure_decode : Bytes → Option (Option Bytes × Json)
  pub decode : Bytes → Bytes → Validation → Option Json
  pub as_f64 : Bytes → Option ℕ

-- `JwkSet::find`.
unfoldable pub names : Bytes → Option Bytes → Bool
names kid none = false
names kid (some k) = same k kid

unfoldable pub find_jwk : Bytes → List Jwk → Option Jwk
find_jwk kid [] = none
find_jwk kid (k ∷ ks) = if names kid k.kid then some k else find_jwk kid ks

-- `B64URL.decode(c).is_ok_and(|b| b.len() == 32)`.
unfoldable pub is_coordinate : Option Bytes → Bool
is_coordinate none = false
is_coordinate (some b) = length b == 32

unfoldable pub key_of_jwk : TokenLibrary → Jwk → Option Bytes
key_of_jwk lib k =
    if k.is_p256 && is_coordinate (lib.decode_base64 k.x) && is_coordinate (lib.decode_base64 k.y)
    then lib.from_jwk k
    else none

unfoldable pub jwt_decoding_key : TokenLibrary → TrustBundle → Bytes → Option Bytes
jwt_decoding_key lib bundle kid = elim (lib.read_jwks bundle.jwt_authorities) [
  | none ↦ none
  | some jwks ↦ elim (find_jwk kid jwks) [ none ↦ none | some k ↦ key_of_jwk lib k ]
]

-- The store: a map from the string form of a trust domain.
abbrev pub TrustBundleStore : Type 0
TrustBundleStore = List (Bytes × TrustBundle)

unfoldable pub insert : Bytes → TrustBundle → TrustBundleStore → TrustBundleStore
insert key bundle [] = (key, bundle) ∷ []
insert key bundle ((k, b) ∷ rest) =
    let later = insert key bundle rest in
    if same k key then (key, bundle) ∷ rest else (k, b) ∷ later

unfoldable pub lookup : Bytes → TrustBundleStore → Option TrustBundle
lookup key [] = none
lookup key ((k, b) ∷ rest) = if same k key then some b else lookup key rest

unfoldable pub upsert : TrustBundleStore → TrustBundle → TrustBundleStore
upsert store bundle = insert (show_domain bundle.trust_domain) bundle store

unfoldable pub get : TrustBundleStore → TrustDomain → Option TrustBundle
get store trust_domain = lookup (show_domain trust_domain) store

unfoldable pub snapshot : TrustBundleStore → List TrustBundle
snapshot [] = []
snapshot ((k, b) ∷ rest) = b ∷ snapshot rest

-- `bundle_key`, and the two calls that publish; a map is the list of its entries.
unfoldable pub bundle_key : TrustDomain → Bytes
bundle_key trust_domain = codes "spiffe://" ++ show_domain trust_domain

unfoldable pub concat : List Bytes → Bytes
concat [] = []
concat (b ∷ bs) = b ++ concat bs

abbrev with_authority : TrustBundle → List Bytes → List (Bytes × Bytes) → List (Bytes × Bytes)
with_authority b [] rest = rest
with_authority b (a ∷ as_) rest = (bundle_key b.trust_domain, concat (a ∷ as_)) ∷ rest

unfoldable pub fetch_x509_bundles : List TrustBundle → List (Bytes × Bytes)
fetch_x509_bundles [] = []
fetch_x509_bundles (b ∷ bs) = with_authority b b.x509_authorities (fetch_x509_bundles bs)

-- `serde_json::to_vec` of a key set; the call is refused where it fails.
pub data BundlesRefusal : Type 0 where
  not_serialisable : BundlesRefusal

unfoldable pub fetch_jwt_bundles :
    (Json → Option Bytes) → List TrustBundle → Result BundlesRefusal (List (Bytes × Bytes))
fetch_jwt_bundles to_vec [] = ok []
fetch_jwt_bundles to_vec (b ∷ bs) = do
  jwks ← ok_or not_serialisable (to_vec b.jwt_authorities)
  rest ← fetch_jwt_bundles to_vec bs
  ok ((bundle_key b.trust_domain, jwks) ∷ rest)

-- `validate_jwtsvid`: two refusals for an incomplete request, one for everything else.
pub data Refusal : Type 0 where
  svid_empty audience_empty rejected : Refusal

pub record ValidateJwtsvidRequest : Type 0 where
  pub audience : Bytes
  pub svid : Bytes

pub record ValidateJwtsvidResponse : Type 0 where
  pub spiffe_id : Bytes
  pub claims : Option Fields

-- `claims.get("spiffe_id").and_then(as_str)`, then parsed.
unfoldable pub spiffe_id_of : Json → Result Refusal SpiffeId
spiffe_id_of claims = do
  raw ← ok_or rejected (as_str (Json.get (codes "spiffe_id") claims))
  map_err (λ _. rejected) (SpiffeId.parse raw)

-- The published key that the unverified token names.
unfoldable pub chosen_key :
    TokenLibrary → TrustBundleStore → SpiffeId → Bytes → Result Refusal Bytes
chosen_key lib store claimed kid = do
  bundle ← ok_or rejected (get store claimed.trust_domain)
  ok_or rejected (jwt_decoding_key lib bundle kid)

-- `Validation::new(ES256)`, with the audience of the request and no leeway.
unfoldable pub validation : Bytes → Validation
validation audience = record { algorithm = es256; audience = audience ∷ []; leeway = 0 }

-- The verified claims, checked back against the choice.
unfoldable pub checked_back :
    TokenLibrary → SpiffeId → Json → SpiffeId → Result Refusal ValidateJwtsvidResponse
checked_back lib claimed claims spiffe_id =
    if same_domain spiffe_id.trust_domain claimed.trust_domain
    then ok (record { spiffe_id = uri spiffe_id; claims = claims_struct lib.as_f64 claims })
    else err rejected

unfoldable pub verify :
    TokenLibrary
    → TrustBundleStore
    → ValidateJwtsvidRequest
    → Option Bytes × Json
    → Result Refusal ValidateJwtsvidResponse
verify lib store req (header_kid, unverified) = do
  kid ← ok_or rejected header_kid
  claimed ← spiffe_id_of unverified
  key ← chosen_key lib store claimed kid
  claims ← ok_or rejected (lib.decode req.svid key (validation req.audience))
  spiffe_id ← spiffe_id_of claims
  checked_back lib claimed claims spiffe_id

unfoldable pub validate_jwtsvid :
    TokenLibrary
    → TrustBundleStore
    → ValidateJwtsvidRequest
    → Result Refusal ValidateJwtsvidResponse
validate_jwtsvid lib store req =
    if is_empty req.svid
    then err svid_empty
    else if is_empty req.audience
    then err audience_empty
    else do
      unverified ← ok_or rejected (lib.insecure_decode req.svid)
      verify lib store req unverified
