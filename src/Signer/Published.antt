-- ===== src/Signer/Published.antt =====
-- The key that a token names is found in the bundle that its signer publishes.
use mathlib.Core.Path.{ap₂}
use project_persona.Prelude.{
  ◌++◌, append_nil, take-append, drop-append, ℕ, ◌≡◌, refl, sym, ap, ◌∙◌, Bool, true, false, none,
  some, [], ◌∷◌, ◌==◌, ◌&&◌, if◌then◌else◌, length, take, drop, Result, ok, arith, Bool-cases,
  Result-cases, ok-injective, inl, inr,
}
use project_persona.Text.{Bytes, codes, same}
use project_persona.SpiffeId.{TrustDomain}
use project_persona.Json.{Json, string, array, object, item, no_item, member, no_member}
use project_persona.Bundle.{
  Jwk, TokenLibrary, TrustBundle, local, names, find_jwk, is_coordinate, key_of_jwk,
  jwt_decoding_key,
}
use project_persona.Signer.{
  KeyLibrary, KeyedSigner, SigningKey, uncompressed, from_signing_key, public_x, public_y, kid, jwk,
  jwks, local_bundle,
}

uncompressed-eq-ok : (point : Bytes) {p : Bytes} → uncompressed point ≡ ok p → point ≡ p
unfolding uncompressed
uncompressed-eq-ok point {p} h = elim (Bool-cases (length point == 65)) [
  | inl e ↦ ok-injective (rw (e, uncompressed) at h)
  | inr e ↦ absurd (cc (rw (e, uncompressed) at h))
]

from_signing_key-point :
    (signing_key : SigningKey) (random : Result Bytes Bytes) {signer : KeyedSigner}
    → from_signing_key signing_key random ≡ ok signer
    → signer.public_key_sec1 ≡ signing_key.encoded_point
unfolding from_signing_key
from_signing_key-point signing_key random h = elim (Result-cases signing_key.to_pkcs8_der) [
  | inr (why, e) ↦ absurd (cc (rw (e, from_signing_key) at h))
  | inl (der, e) ↦ elim (Result-cases (uncompressed signing_key.encoded_point)) [
    | inr (why, p) ↦ absurd (cc (rw (e, from_signing_key, p) at h))
    | inl (point, p) ↦ elim (Result-cases random) [
      | inr (why, r) ↦ absurd (cc (rw (e, from_signing_key, p, r) at h))
      | inl (ikm, r) ↦
          ap (λ s. s.public_key_sec1) (sym (ok-injective (rw (e, from_signing_key, p, r) at h)))
          ∙ sym (uncompressed-eq-ok signing_key.encoded_point p)
    ]
  ]
]

-- The two halves of a point behind its tag.
take-half : (n : ℕ) (xs ys : Bytes) → length xs ≡ n → take n (xs ++ ys) ≡ xs
take-half n xs ys h = ap (λ k. take k (xs ++ ys)) (sym h) ∙ take-append xs ys

drop-half : (n : ℕ) (xs ys : Bytes) → length xs ≡ n → drop n (xs ++ ys) ≡ ys
drop-half n xs ys h = ap (λ k. drop k (xs ++ ys)) (sym h) ∙ drop-append xs ys

take-whole : (n : ℕ) (ys : Bytes) → length ys ≡ n → take n ys ≡ ys
take-whole n ys h = ap (take n) (sym (append_nil ys)) ∙ take-half n ys [] h

-- A point as SEC 1 writes it uncompressed: a tag, and two coordinates of 32 bytes.
abbrev pub IsPoint : Bytes → ℕ → Bytes → Bytes → Type 0
IsPoint point tag xs ys = (point ≡ tag ∷ (xs ++ ys)) × (length xs ≡ 32) × (length ys ≡ 32)

public_x-point :
    (lib : KeyLibrary) (signer : KeyedSigner) (tag : ℕ) (xs ys : Bytes)
    → IsPoint signer.public_key_sec1 tag xs ys
    → public_x lib signer ≡ lib.encode_base64 xs
unfolding public_x
public_x-point lib signer tag xs ys (whole, hx, hy) =
    ap (λ p. lib.encode_base64 (take 32 (drop 1 p))) whole
    ∙ ap lib.encode_base64 (take-half 32 xs ys hx)

public_y-point :
    (lib : KeyLibrary) (signer : KeyedSigner) (tag : ℕ) (xs ys : Bytes)
    → IsPoint signer.public_key_sec1 tag xs ys
    → public_y lib signer ≡ lib.encode_base64 ys
unfolding public_y
public_y-point lib signer tag xs ys (whole, hx, hy) =
    ap (λ p. lib.encode_base64 (take 32 (drop 33 p))) whole
    ∙ ap (λ s. lib.encode_base64 (take 32 s)) (drop-half 32 xs ys hx)
    ∙ ap lib.encode_base64 (take-whole 32 ys hy)

-- A key set of RFC 7517 with one signing key on P-256, and what the token library takes from it.
abbrev pub key_set : (kid x y : Bytes) → Json
key_set kid x y = object (
    member (codes "keys")
      (array (
        item
          (object (
            member (codes "kty") (string (codes "EC")) (
              member (codes "crv") (string (codes "P-256")) (
                member (codes "alg") (string (codes "ES256")) (
                  member (codes "use") (string (codes "sig")) (
                    member (codes "kid") (string kid) (
                      member (codes "x") (string x) (member (codes "y") (string y) no_member))))))))
          no_item))
      no_member)

abbrev pub p256_key : (kid x y : Bytes) → Jwk
p256_key kid x y = record { kid = some kid; is_p256 = true; x = x; y = y }

jwks-key_set :
    (lib : KeyLibrary) (signer : KeyedSigner)
    → jwks lib signer ≡ key_set (kid lib signer) (public_x lib signer) (public_y lib signer)
unfolding jwks jwk kid
jwks-key_set lib signer = refl

-- A bundle of one key.
jwt_decoding_key-one :
    (tokens : TokenLibrary) (bundle : TrustBundle) (k : Jwk) (name : Bytes) (found : Bool)
    → tokens.read_jwks bundle.jwt_authorities ≡ some (k ∷ [])
    → names name k.kid ≡ found
    → jwt_decoding_key tokens bundle name ≡ (if found then key_of_jwk tokens k else none)
unfolding jwt_decoding_key find_jwk
jwt_decoding_key-one tokens bundle k name true reads named =
    rw (reads, jwt_decoding_key, named, find_jwk) refl
jwt_decoding_key-one tokens bundle k name false reads named =
    rw (reads, jwt_decoding_key, named, find_jwk) refl

coordinate-32 :
    (lib : KeyLibrary) (tokens : TokenLibrary) (s : Bytes)
    → tokens.decode_base64 (lib.encode_base64 s) ≡ some s
    → length s ≡ 32
    → is_coordinate (tokens.decode_base64 (lib.encode_base64 s)) ≡ true
unfolding is_coordinate
coordinate-32 lib tokens s decodes h = rw (decodes, is_coordinate, h) refl

both_true : (a b : Bool) → a ≡ true → b ≡ true → (a && b) ≡ true
both_true a b ha hb = ground arith

key_of_jwk-p256_key :
    (lib : KeyLibrary) (tokens : TokenLibrary) (name xs ys : Bytes)
    → ((s : Bytes) → tokens.decode_base64 (lib.encode_base64 s) ≡ some s)
    → length xs ≡ 32
    → length ys ≡ 32
    → key_of_jwk tokens (p256_key name (lib.encode_base64 xs) (lib.encode_base64 ys))
      ≡ tokens.from_jwk (p256_key name (lib.encode_base64 xs) (lib.encode_base64 ys))
unfolding key_of_jwk
key_of_jwk-p256_key lib tokens name xs ys decodes hx hy =
    let k = p256_key name (lib.encode_base64 xs) (lib.encode_base64 ys) in
    ap (λ b. if b then tokens.from_jwk k else none)
      (both_true _ _ (coordinate-32 lib tokens xs (decodes xs) hx)
        (coordinate-32 lib tokens ys (decodes ys) hy))

-- The token library reads a key set of one key, and decodes the base64 that the signer encodes. Then
-- in the bundle of a signer that could be made from a key whose point has the coordinates `xs` and
-- `ys`, the identifier that the signer's tokens carry finds the key of just these coordinates, if
-- the token library takes it, and any other identifier finds none.
pub jwt_decoding_key-local :
    (lib : KeyLibrary) (tokens : TokenLibrary) (signing_key : SigningKey)
    (random : Result Bytes Bytes) (signer : KeyedSigner) (d : TrustDomain) (name : Bytes) (tag : ℕ)
    (xs ys : Bytes)
    → ((kid x y : Bytes) → tokens.read_jwks (key_set kid x y) ≡ some (p256_key kid x y ∷ []))
    → ((s : Bytes) → tokens.decode_base64 (lib.encode_base64 s) ≡ some s)
    → IsPoint signing_key.encoded_point tag xs ys
    → from_signing_key signing_key random ≡ ok signer
    → jwt_decoding_key tokens (local_bundle lib d signer) name ≡ (
        if same (kid lib signer) name
        then tokens.from_jwk
            (p256_key (kid lib signer) (lib.encode_base64 xs) (lib.encode_base64 ys))
        else none)
unfolding local_bundle local names
jwt_decoding_key-local lib tokens signing_key random signer d name tag xs ys reads decodes at made =
    let point : IsPoint signer.public_key_sec1 tag xs ys =
      (from_signing_key-point signing_key random made ∙ at.0, at.1, at.2) in
    let own = kid lib signer in
    let written : jwks lib signer ≡ key_set own (lib.encode_base64 xs) (lib.encode_base64 ys) =
      jwks-key_set lib signer
      ∙ ap₂ (key_set own) (public_x-point lib signer tag xs ys point)
          (public_y-point lib signer tag xs ys point) in
    jwt_decoding_key-one tokens (local_bundle lib d signer)
      (p256_key own (lib.encode_base64 xs) (lib.encode_base64 ys)) name (same own name)
      (ap tokens.read_jwks written ∙ reads own (lib.encode_base64 xs) (lib.encode_base64 ys)) refl
    ∙ ap (λ o. if same own name then o else none)
        (key_of_jwk-p256_key lib tokens own xs ys decodes at.1 at.2)
