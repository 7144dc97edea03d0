-- ===== src/Bundle/Validate.antt =====
-- Of `validate_jwtsvid`: what an accepted token was verified with.
use project_persona.Prelude.{
  ◌≡◌, refl, ap, ◌∙◌, subst, Bool-cases, Option, none, some, Option-cases, ok, Result-cases,
  ok-injective, inl, inr, [], ◌∷◌,
}
use project_persona.Text.{Bytes, codes}
use project_persona.SpiffeId.{SpiffeId, uri, is_empty}
use project_persona.SpiffeId
use project_persona.SpiffeId.Uri.{parse-eq-ok}
use project_persona.Service.{same_domain}
use project_persona.Service.Named.{same_domain-eq-true}
use project_persona.Json.{
  Json, object, string, string_value, Members, Fields, find_member, as_str, json_to_protobuf,
  struct_from_map, claims_struct,
}
use project_persona.Json
use project_persona.Json.Struct.{find_field, converted, find_field-struct_from_map, as_str-get}
use project_persona.Bundle.{
  TrustBundle, TokenLibrary, es256, TrustBundleStore, jwt_decoding_key, get, ValidateJwtsvidRequest,
  spiffe_id_of, chosen_key, checked_back, verify, validate_jwtsvid, validation,
  ValidateJwtsvidResponse,
}

-- The claims are an object that names the identifier, by its URI.
abbrev pub Names : Json → SpiffeId → Type 0
Names claims id =
    (ms : Members) × (claims ≡ object ms)
    × (find_member (codes "spiffe_id") ms ≡ some (string (uri id)))

spiffe_id_of-Names : (claims : Json) {id : SpiffeId} → spiffe_id_of claims ≡ ok id → Names claims id
unfolding spiffe_id_of
spiffe_id_of-Names claims {id} h =
    elim (Option-cases (as_str (Json.get (codes "spiffe_id") claims))) [
      | inl e ↦ absurd (cc (rw e at h))
      | inr (raw, e) ↦ elim (Result-cases (SpiffeId.parse raw)) [
        | inr (why, k) ↦ absurd (cc (rw (e, k) at h))
        | inl (parsed, k) ↦
            let same_one : parsed ≡ id = ok-injective (rw (e, k) at h) in
            let named : raw ≡ uri id = (parse-eq-ok raw k).0 ∙ ap uri same_one in
            let (ms, whole, found) = as_str-get (codes "spiffe_id") claims raw e in
            (ms, whole, found ∙ ap (λ s. some (string s)) named)
      ]
    ]

-- A key that is published for the identifier's trust domain.
abbrev pub Published : TokenLibrary → TrustBundleStore → SpiffeId → Bytes → Type 0
Published lib store id key =
    (bundle : TrustBundle) × (kid : Bytes) × (get store id.trust_domain ≡ some bundle)
    × (jwt_decoding_key lib bundle kid ≡ some key)

chosen_key-Published :
    (lib : TokenLibrary) (store : TrustBundleStore) (claimed : SpiffeId) (kid : Bytes) {key : Bytes}
    → chosen_key lib store claimed kid ≡ ok key
    → Published lib store claimed key
unfolding chosen_key
chosen_key-Published lib store claimed kid h =
    elim (Option-cases (get store claimed.trust_domain)) [
      | inl e ↦ absurd (cc (rw (e, chosen_key) at h))
      | inr (bundle, e) ↦ elim (Option-cases (jwt_decoding_key lib bundle kid)) [
        | inl k ↦ absurd (cc (rw (e, chosen_key, k) at h))
        | inr (key, k) ↦ (bundle, kid, e, k ∙ ap some (ok-injective (rw (e, chosen_key, k) at h)))
      ]
    ]

Published-domain :
    (lib : TokenLibrary) (store : TrustBundleStore) (a b : SpiffeId) (key : Bytes)
    → b.trust_domain ≡ a.trust_domain
    → Published lib store a key
    → Published lib store b key
Published-domain lib store a b key q (bundle, kid, g, k) = (bundle, kid, ap (get store) q ∙ g, k)

-- The answer is the identifier, and a struct whose fields are the verified claims, each converted,
-- and no others; one of them is the identifier's text.
abbrev pub Answers : TokenLibrary → SpiffeId → Members → ValidateJwtsvidResponse → Type 0
Answers lib id ms answer =
    (answer.spiffe_id ≡ uri id)
    × (fs : Fields) × (answer.claims ≡ some fs)
    × (find_field (codes "spiffe_id") fs ≡ some (string_value (uri id)))
    × ((name : Bytes) → find_field name fs ≡ converted lib.as_f64 (find_member name ms))

-- The claims were verified with ES256, for the audience of the request alone and without leeway,
-- under a key that is published for the trust domain which they name.
abbrev pub Verified :
    TokenLibrary → TrustBundleStore → ValidateJwtsvidRequest → ValidateJwtsvidResponse → Type 0
Verified lib store req answer =
    (id : SpiffeId) × (key : Bytes) × (ms : Members) × (lib.decode req.svid key
        (record { algorithm = es256; audience = req.audience ∷ []; leeway = 0 })
      ≡ some (object ms))
    × Published lib store id key
    × Answers lib id ms answer

checked_back-Answers :
    (lib : TokenLibrary) (claims : Json) (id : SpiffeId) (named : Names claims id)
    → Answers lib id named.0
        (record { spiffe_id = uri id; claims = claims_struct lib.as_f64 claims })
unfolding claims_struct json_to_protobuf
checked_back-Answers lib claims id (ms, whole, found) = (
  refl,
  struct_from_map lib.as_f64 ms,
  ap (claims_struct lib.as_f64) whole,
  find_field-struct_from_map lib.as_f64 (codes "spiffe_id") ms ∙ ap (converted lib.as_f64) found,
  λ name. find_field-struct_from_map lib.as_f64 name ms,
)

verify-Verified :
    (lib : TokenLibrary) (store : TrustBundleStore) (req : ValidateJwtsvidRequest)
    (unverified : Option Bytes × Json) {answer : ValidateJwtsvidResponse}
    → verify lib store req unverified ≡ ok answer
    → Verified lib store req answer
unfolding verify checked_back validation
verify-Verified lib store req (none, unverified) h = absurd cc
verify-Verified lib store req (some kid, unverified) {answer} h =
    elim (Result-cases (spiffe_id_of unverified)) [
      | inr (why, e) ↦ absurd (cc (rw (e, verify) at h))
      | inl (claimed, e) ↦ elim (Result-cases (chosen_key lib store claimed kid)) [
        | inr (why, k) ↦ absurd (cc (rw (e, verify, k) at h))
        | inl (key, k) ↦ elim (Option-cases (lib.decode req.svid key (validation req.audience))) [
          | inl d ↦ absurd (cc (rw (e, verify, k, d) at h))
          | inr (claims, d) ↦ elim (Result-cases (spiffe_id_of claims)) [
            | inr (why, n) ↦ absurd (cc (rw (e, verify, k, d, n) at h))
            | inl (id, n) ↦ elim (Bool-cases (same_domain id.trust_domain claimed.trust_domain)) [
              | inr s ↦ absurd (cc (rw (e, verify, k, d, n, s) at h))
              | inl s ↦
                  let named = spiffe_id_of-Names claims n in
                  let made = ok-injective (rw (e, verify, k, d, n, s) at h) in
                  subst (Verified lib store req) made (
                    id,
                    key,
                    named.0,
                    d ∙ ap some named.1,
                    Published-domain lib store claimed id key
                        (same_domain-eq-true id.trust_domain claimed.trust_domain s)
                        (chosen_key-Published lib store claimed kid k),
                    checked_back-Answers lib claims id named,
                  )
            ]
          ]
        ]
      ]
    ]

-- A token is accepted only if its claims were verified, with ES256, for the audience of the request
-- alone and without leeway, under a key that the store publishes for the trust domain which those
-- verified claims name. The answer is the identifier that they name, and a struct whose fields are
-- the members of those claims, each converted, and no others.
pub validate_jwtsvid-Verified :
    (lib : TokenLibrary) (store : TrustBundleStore) (req : ValidateJwtsvidRequest)
    {answer : ValidateJwtsvidResponse}
    → validate_jwtsvid lib store req ≡ ok answer
    → Verified lib store req answer
unfolding validate_jwtsvid
validate_jwtsvid-Verified lib store req h = elim (Bool-cases (is_empty req.svid)) [
  | inl e ↦ absurd (cc (rw (e, validate_jwtsvid) at h))
  | inr e ↦ elim (Bool-cases (is_empty req.audience)) [
    | inl k ↦ absurd (cc (rw (e, validate_jwtsvid, k) at h))
    | inr k ↦ elim (Option-cases (lib.insecure_decode req.svid)) [
      | inl n ↦ absurd (cc (rw (e, validate_jwtsvid, k, n) at h))
      | inr (unverified, n) ↦
          verify-Verified lib store req unverified (rw (e, validate_jwtsvid, k, n) at h)
    ]
  ]
]
