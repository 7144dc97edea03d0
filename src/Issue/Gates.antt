-- ===== src/Issue/Gates.antt =====
-- Of `issue` in hire-grpc/src/service.rs: its two gates, and the contents of a token.
use project_persona.Prelude.{
  ◌≤◌, ◌<◌, ◌≡◌, refl, sym, ap, ◌*◌, ◌^◌, inl, inr, true, Option, none, some, List, arith,
  Bool-cases, ltb, ok, >>=-eq-ok, ok-injective, map_err,
}
use project_persona.Text.{Bytes}
use project_persona.Assurance.{PresenceLevel, presence_rank, presence_gt}
use project_persona.Assurance.Order.{presence_gt-false_iff}
use project_persona.Audience.{Duration, from_secs}
use project_persona.Hint.{to_string}
use project_persona.SpiffeId.{uri}
use project_persona.Claim.{SystemTime, Claim, age_at}
use project_persona.Consumer.{ConsumerIdentity}
use project_persona.Issue.{
  SvidSigner, pseudonymous_id, is_younger, within_max_age, honoured_presence, hint_of, hire_claims,
  sign_jwt_svid, signing_failed, Jwtsvid, signed, issue,
}

-- The age is known, and below the bound.
abbrev pub IsYounger : Option Duration → Duration → Type 0
IsYounger none bound = ⊥
IsYounger (some age) bound = age < bound

abbrev pub IsFresh : Option Duration → Option Duration → Type 0
IsFresh age none = Unit
IsFresh age (some bound) = IsYounger age bound

within_max_age-IsFresh :
    (age max_age : Option Duration) → within_max_age age max_age ≡ true → IsFresh age max_age
unfolding within_max_age is_younger
within_max_age-IsFresh age none h = tt
within_max_age-IsFresh none (some b) h = cc
within_max_age-IsFresh (some a) (some b) h = ground arith

-- What the token says: the pseudonym of the claim's identity for this consumer, and the tag of the
-- claim with the presence that it still asserts.
abbrev pub Says : SvidSigner → Claim → ConsumerIdentity → SystemTime → Jwtsvid → Type 0
Says signer claim consumer now s =
    (s.spiffe_id ≡ uri (pseudonymous_id signer claim.spiffe_id consumer))
    × (s.hint
        ≡ to_string (
            hint_of claim (honoured_presence (age_at claim now) claim.presence) (age_at claim now)))

signed-Says :
    (signer : SvidSigner) (unix_epoch : SystemTime) (claim : Claim) (consumer : ConsumerIdentity)
    (audiences : List Bytes) (now : SystemTime) {s : Jwtsvid}
    → signed signer unix_epoch claim consumer audiences
        (honoured_presence (age_at claim now) claim.presence)
        (age_at claim now)
      ≡ ok s
    → Says signer claim consumer now s
unfolding signed
signed-Says signer unix_epoch claim consumer audiences now h =
    let presence = honoured_presence (age_at claim now) claim.presence in
    let id = uri (pseudonymous_id signer claim.spiffe_id consumer) in
    let (token, _, made) =
      >>=-eq-ok
        (map_err signing_failed
          (sign_jwt_svid signer id audiences (hire_claims unix_epoch claim presence)))
        (λ token. ok (record {
          spiffe_id = id;
          svid = token;
          hint = to_string (hint_of claim presence (age_at claim now));
        }))
        h in
    let made_of = ok-injective made in
    (ap (λ z. z.spiffe_id) (sym made_of), ap (λ z. z.hint) (sym made_of))

-- A claim yields a token only if its age is within the bound, where there is one, and the presence
-- that it still asserts is at least the one required; and the token names the pseudonym of the
-- claim's identity for this consumer and carries the claim's own tag.
pub issue-Says :
    (signer : SvidSigner) (unix_epoch : SystemTime) (claim : Claim) (consumer : ConsumerIdentity)
    (audiences : List Bytes) (require_presence : PresenceLevel) (max_age : Option Duration)
    (now : SystemTime) {s : Jwtsvid}
    → issue signer unix_epoch claim consumer audiences require_presence max_age now ≡ ok s
    → IsFresh (age_at claim now) max_age
      × (presence_rank require_presence
          ≤ presence_rank (honoured_presence (age_at claim now) claim.presence))
      × Says signer claim consumer now s
unfolding issue
issue-Says signer unix_epoch claim consumer audiences require_presence max_age now h =
    elim (Bool-cases (within_max_age (age_at claim now) max_age)) [
      | inr e ↦ absurd (cc (rw e at h))
      | inl e ↦
          elim (Bool-cases
            (presence_gt require_presence (honoured_presence (age_at claim now) claim.presence))) [
              | inl k ↦ absurd (cc (rw (e, k) at h))
              | inr k ↦ (
                within_max_age-IsFresh (age_at claim now) max_age e,
                presence_gt-false_iff require_presence
                    (honoured_presence (age_at claim now) claim.presence) k,
                signed-Says signer unix_epoch claim consumer audiences now (rw (e, k) at h),
              )
            ]
    ]

-- A presence that is still asserted is the claim's own, of an observation below 300 seconds old.
pub honoured_presence-fresh :
    (age : Option Duration) (level : PresenceLevel)
    → presence_rank PresenceLevel.none < presence_rank (honoured_presence age level)
    → (honoured_presence age level ≡ level) × IsYounger age (300 * 10 ^ 9)
unfolding honoured_presence is_younger presence_rank from_secs
honoured_presence-fresh none level h = absurd (omega arith)
honoured_presence-fresh (some d) level h = elim (Bool-cases (ltb d (300 * 10 ^ 9))) [
  | inl e ↦ (rw e refl, ground arith)
  | inr e ↦ absurd (omega (arith, rw e at h))
]
