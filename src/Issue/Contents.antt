-- ===== src/Issue/Contents.antt =====
-- Of `issue` in hire-grpc/src/service.rs: what stands in a token, and when there is one.
use project_persona.Prelude.{
  ◌+◌, ◌-◌, ◌/◌, ◌*◌, ◌^◌, ◌≤◌, ◌<◌, ◌≡◌, ◌≢◌, ◌↔◌, ◌⊎◌, refl, sym, ap, ◌∙◌, inl, inr, true, not,
  ◌==◌, Option, none, some, List, arith, Bool-cases, ltb, if◌then◌else◌, Result, ok, err, >>=-eq-ok,
  ok-injective, map_err,
}
use project_persona.Text.{Bytes}
use project_persona.Assurance.{PresenceLevel, presence_rank, presence_gt}
use project_persona.Audience.{Duration, from_secs}
use project_persona.Hint.{SvidHint, to_string}
use project_persona.SpiffeId.{show_domain, uri}
use project_persona.Claim.{SystemTime, Claim, age_at}
use project_persona.Consumer.{ConsumerIdentity}
use project_persona.Issue.{
  SvidSigner, JwtClaims, pseudonymous_id, is_younger, within_max_age, honoured_presence, hint_of,
  as_secs, hire_claims, sign_jwt_svid, signing_failed, Jwtsvid, signed, issue,
}
use project_persona.Issue.Gates.{IsYounger, IsFresh, issue-Says}

-- The presence that a claim of this age may assert: its own for 300 seconds after the observation,
-- and none from then on, or if the age is not known.
abbrev pub Asserts : Option Duration → PresenceLevel → PresenceLevel → Type 0
Asserts age own p =
    (IsYounger age (300 * 10 ^ 9) × (p ≡ own))
    ⊎ ((¬ IsYounger age (300 * 10 ^ 9)) × (p ≡ PresenceLevel.none))

honoured_presence-Asserts :
    (age : Option Duration) (own : PresenceLevel) → Asserts age own (honoured_presence age own)
unfolding honoured_presence is_younger from_secs
honoured_presence-Asserts none own = inr (λ y. y, refl)
honoured_presence-Asserts (some d) own = elim (Bool-cases (ltb d (300 * 10 ^ 9))) [
  | inl e ↦ inl (ground arith, rw (e, if◌then◌else◌) refl)
  | inr e ↦
      let old : ¬ (d < 300 * 10 ^ 9) = λ y. ground arith in inr (old, rw (e, if◌then◌else◌) refl)
]

-- What is signed for a claim that asserts `p`: the pseudonym as the subject and as the identifier,
-- the audiences of the request, five minutes of life, and of the root identity its trust domain.
abbrev pub Payload :
    SvidSigner → Claim → ConsumerIdentity → List Bytes → PresenceLevel → Bytes → JwtClaims → Type 0
Payload signer claim consumer audiences p id c =
    (c.sub ≡ id)
    × (c.spiffe_id ≡ id)
    × (c.aud ≡ audiences)
    × (c.exp ≡ c.iat + 300)
    × (c.hire.root_trust_domain ≡ show_domain claim.spiffe_id.trust_domain)
    × (c.hire.identity_assurance ≡ claim.assurance)
    × ((c.hire.presence.present ≡ true) ↔ (p ≢ PresenceLevel.none))

present_iff : (p : PresenceLevel) → (not (presence_rank p == 0) ≡ true) ↔ (p ≢ PresenceLevel.none)
unfolding presence_rank
present_iff p = ground arith

sign_jwt_svid-Payload :
    (signer : SvidSigner) (unix_epoch : SystemTime) (claim : Claim) (consumer : ConsumerIdentity)
    (audiences : List Bytes) (p : PresenceLevel) (id token : Bytes)
    → sign_jwt_svid signer id audiences (hire_claims unix_epoch claim p) ≡ ok token
    → (c : JwtClaims) × Payload signer claim consumer audiences p id c
      × (signer.encode c ≡ ok token)
unfolding sign_jwt_svid hire_claims
sign_jwt_svid-Payload signer unix_epoch claim consumer audiences p id token h =
    (_, (refl, refl, refl, refl, refl, refl, present_iff p), h)

-- The tag of a claim that asserts `p`: an age that is not known is the greatest one.
abbrev pub tag : Claim → PresenceLevel → Option Duration → SvidHint
tag claim p age = record {
  source = claim.source;
  identity_assurance = claim.assurance;
  presence = p;
  age = elim age [ none ↦ 2 ^ 64 - 1 | some d ↦ d / 10 ^ 9 ];
}

map_err-eq-ok :
    {E F A : Type 0} (f : E → F) (r : Result E A) {a : A} → map_err f r ≡ ok a → r ≡ ok a
map_err-eq-ok f (ok b) h = ap ok (ok-injective h)
map_err-eq-ok f (err e) h = absurd cc

signed-sign_jwt_svid :
    (signer : SvidSigner) (unix_epoch : SystemTime) (claim : Claim) (consumer : ConsumerIdentity)
    (audiences : List Bytes) (p : PresenceLevel) (age : Option Duration) {s : Jwtsvid}
    → signed signer unix_epoch claim consumer audiences p age ≡ ok s
    → sign_jwt_svid signer s.spiffe_id audiences (hire_claims unix_epoch claim p) ≡ ok s.svid
unfolding signed
signed-sign_jwt_svid signer unix_epoch claim consumer audiences p age {s} h =
    let id = uri (pseudonymous_id signer claim.spiffe_id consumer) in
    let first = sign_jwt_svid signer id audiences (hire_claims unix_epoch claim p) in
    let (token, made, done) =
      >>=-eq-ok (map_err signing_failed first)
        (λ token.
          ok (record { spiffe_id = id; svid = token; hint = to_string (hint_of claim p age) }))
        h in
    let is = ok-injective done in
    ap (λ z. sign_jwt_svid signer z.spiffe_id audiences (hire_claims unix_epoch claim p)) (sym is)
    ∙ map_err-eq-ok signing_failed first made
    ∙ ap (λ z. ok (z.svid)) is

issue-signed :
    (signer : SvidSigner) (unix_epoch : SystemTime) (claim : Claim) (consumer : ConsumerIdentity)
    (audiences : List Bytes) (require_presence : PresenceLevel) (max_age : Option Duration)
    (now : SystemTime) {s : Jwtsvid}
    → issue signer unix_epoch claim consumer audiences require_presence max_age now ≡ ok s
    → sign_jwt_svid signer s.spiffe_id audiences
        (hire_claims unix_epoch claim (honoured_presence (age_at claim now) claim.presence))
      ≡ ok s.svid
unfolding issue
issue-signed signer unix_epoch claim consumer audiences require_presence max_age now h =
    let p = honoured_presence (age_at claim now) claim.presence in
    elim (Bool-cases (within_max_age (age_at claim now) max_age)) [
      | inr e ↦ absurd (cc (rw e at h))
      | inl e ↦ elim (Bool-cases (presence_gt require_presence p)) [
        | inl k ↦ absurd (cc (rw (e, k) at h))
        | inr k ↦
            signed-sign_jwt_svid signer unix_epoch claim consumer audiences p (age_at claim now)
              (rw (e, k) at h)
      ]
    ]

-- A claim yields a token only if its age is below the bound, where there is one, and the presence
-- that it asserts at that age is at least the one required: its own for 300 seconds, and then none.
-- What is signed is the pseudonym of the claim's identity for this consumer, for the audiences of
-- the request and for five minutes, with the claim's assurance and with a presence exactly if it
-- still asserts one; the answer carries that pseudonym, what was signed, and the tag of the claim.
pub issue-Payload :
    (signer : SvidSigner) (unix_epoch : SystemTime) (claim : Claim) (consumer : ConsumerIdentity)
    (audiences : List Bytes) (require_presence : PresenceLevel) (max_age : Option Duration)
    (now : SystemTime) {s : Jwtsvid}
    → issue signer unix_epoch claim consumer audiences require_presence max_age now ≡ ok s
    → (p : PresenceLevel) × (c : JwtClaims) × Asserts (age_at claim now) claim.presence p
      × IsFresh (age_at claim now) max_age
      × (presence_rank require_presence ≤ presence_rank p)
      × Payload signer claim consumer audiences p s.spiffe_id c
      × (signer.encode c ≡ ok s.svid)
      × (s.spiffe_id ≡ uri (pseudonymous_id signer claim.spiffe_id consumer))
      × (s.hint ≡ to_string (tag claim p (age_at claim now)))
unfolding hint_of as_secs
issue-Payload signer unix_epoch claim consumer audiences require_presence max_age now {s} h =
    let p = honoured_presence (age_at claim now) claim.presence in
    let (young, enough, (id_is, hint_is)) =
      issue-Says signer unix_epoch claim consumer audiences require_presence max_age now h in
    let (c, payload, encoded) =
      sign_jwt_svid-Payload signer unix_epoch claim consumer audiences p s.spiffe_id s.svid
        (issue-signed signer unix_epoch claim consumer audiences require_presence max_age now h) in
    (
      p,
      c,
      honoured_presence-Asserts (age_at claim now) claim.presence,
      young,
      enough,
      payload,
      encoded,
      id_is,
      hint_is,
    )
