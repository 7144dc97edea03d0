-- ===== src/Issue.antt =====
-- One proven claim into one token: `WorkloadApiService::issue` and `within_max_age` of
-- hire-grpc/src/service.rs, hire-core/src/hvid.rs, and `sign_jwt_svid` of hire-core/src/signer.rs.
pub mod Gates
pub mod Contents
use project_persona.Prelude.{
  ℕ, ◌+◌, ◌/◌, Bool, true, false, not, Option, none, some, List, [], ◌∷◌, ltb, leb, ◌==◌,
  if◌then◌else◌, Result, ok, err, ◌>>=◌, map_err,
}
use project_persona.Text.{Bytes}
use project_persona.Text.Decimal.{u64_max}
use project_persona.Assurance.{IdentityAssurance, PresenceLevel, presence_rank, presence_gt}
use project_persona.Audience.{Duration, second, from_secs, AudienceParseError}
use project_persona.Hint.{SvidHint, to_string}
use project_persona.SpiffeId.{SpiffeIdError, SpiffeId, show_domain, uri}
use project_persona.Claim.{SystemTime, duration_since, Claim, age_at}
use project_persona.Consumer.{ConsumerIdentity}
use project_persona.Pseudonym.{Hkdf, derive_pseudonymous_id}

-- The gRPC status of a refusal: its code, with what its message is made of.
pub data Status : Type 0 where
  consumer_unattested audience_empty challenge_failed stale no_claims not_proven : Status
  bad_audience : AudienceParseError → Status
  bad_spiffe_id : SpiffeIdError → Status
  presence_unmet : PresenceLevel → PresenceLevel → Status
  signing_failed : Bytes → Status

pub record PresenceInfo : Type 0 where
  pub present : Bool
  pub attested_by : Bytes
  pub attested_at : ℕ
  pub present_until : ℕ

pub record HireClaims : Type 0 where
  pub root_trust_domain : Bytes
  pub sources : List Bytes
  pub identity_assurance : IdentityAssurance
  pub presence : PresenceInfo
  pub auth_methods : List Bytes

pub record JwtClaims : Type 0 where
  pub sub : Bytes
  pub aud : List Bytes
  pub exp : ℕ
  pub iat : ℕ
  pub spiffe_id : Bytes
  pub hire : HireClaims

-- What the signer holds. `encode` of the `jsonwebtoken` crate under its key, the key derivation and
-- the clock are parameters: `signed_at` is the reading, in Unix seconds, for the token of a subject.
pub record SvidSigner : Type 0 where
  pub hkdf : Hkdf
  pub pseudonym_ikm : Bytes
  pub signed_at : Bytes → ℕ
  pub encode : JwtClaims → Result Bytes Bytes

unfoldable pub pseudonymous_id : SvidSigner → SpiffeId → ConsumerIdentity → SpiffeId
pseudonymous_id signer root consumer =
    derive_pseudonymous_id signer.hkdf signer.pseudonym_ikm root consumer

unfoldable pub sign_jwt_svid : SvidSigner → Bytes → List Bytes → HireClaims → Result Bytes Bytes
sign_jwt_svid signer spiffe_id audiences hire_ext =
    let now = signer.signed_at spiffe_id in
    signer.encode record {
      sub = spiffe_id;
      aud = audiences;
      exp = now + 300;
      iat = now;
      spiffe_id = spiffe_id;
      hire = hire_ext;
    }

abbrev pub presence_ttl : Duration
presence_ttl = from_secs 300

-- `age.is_some_and(|age| age < bound)`.
unfoldable pub is_younger : Option Duration → Duration → Bool
is_younger none bound = false
is_younger (some age) bound = ltb age bound

unfoldable pub within_max_age : Option Duration → Option Duration → Bool
within_max_age age none = true
within_max_age age (some max_age) = is_younger age max_age

-- The presence that a claim of this age still asserts.
unfoldable pub honoured_presence : Option Duration → PresenceLevel → PresenceLevel
honoured_presence age level = if is_younger age presence_ttl then level else PresenceLevel.none

unfoldable pub as_secs : Duration → ℕ
as_secs d = d / second

unfoldable pub saturating_add : ℕ → ℕ → ℕ
saturating_add a b = if leb (a + b) u64_max then a + b else u64_max

-- `attested_at().duration_since(UNIX_EPOCH).unwrap_or_default().as_secs()`.
unfoldable pub unix_secs : SystemTime → SystemTime → ℕ
unix_secs unix_epoch t = elim (duration_since t unix_epoch) [ none ↦ 0 | some d ↦ as_secs d ]

unfoldable pub hire_claims : SystemTime → Claim → PresenceLevel → HireClaims
hire_claims unix_epoch claim presence =
    let attested_at = unix_secs unix_epoch claim.attested_at in
    record {
      root_trust_domain = show_domain claim.spiffe_id.trust_domain;
      sources = claim.source ∷ [];
      identity_assurance = claim.assurance;
      presence = record {
        present = not (presence_rank presence == 0);
        attested_by = claim.source;
        attested_at = attested_at;
        present_until = saturating_add attested_at (as_secs presence_ttl);
      };
      auth_methods = claim.source ∷ [];
    }

unfoldable pub hint_of : Claim → PresenceLevel → Option Duration → SvidHint
hint_of claim presence age = record {
  source = claim.source;
  identity_assurance = claim.assurance;
  presence = presence;
  age = elim age [ none ↦ u64_max | some d ↦ as_secs d ];
}

pub record Jwtsvid : Type 0 where
  pub spiffe_id : Bytes
  pub svid : Bytes
  pub hint : Bytes

-- Behind both gates: the pseudonym, the token and the tag.
unfoldable pub signed :
    SvidSigner
    → SystemTime
    → Claim
    → ConsumerIdentity
    → List Bytes
    → PresenceLevel
    → Option Duration
    → Result Status Jwtsvid
signed signer unix_epoch claim consumer audiences presence age = do
  let spiffe_id = uri (pseudonymous_id signer claim.spiffe_id consumer)
  token ←
      map_err signing_failed
        (sign_jwt_svid signer spiffe_id audiences (hire_claims unix_epoch claim presence))
  ok (record { spiffe_id = spiffe_id; svid = token; hint = to_string (hint_of claim presence age) })

unfoldable pub issue :
    SvidSigner
    → SystemTime
    → Claim
    → ConsumerIdentity
    → List Bytes
    → PresenceLevel
    → Option Duration
    → SystemTime
    → Result Status Jwtsvid
issue signer unix_epoch claim consumer audiences require_presence max_age now =
    let age = age_at claim now in
    let presence = honoured_presence age claim.presence in
    if not (within_max_age age max_age)
    then err stale
    else if presence_gt require_presence presence
    then err (presence_unmet require_presence presence)
    else signed signer unix_epoch claim consumer audiences presence age
