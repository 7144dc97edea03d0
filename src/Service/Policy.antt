-- ===== src/Service/Policy.antt =====
-- Of `fetch_jwtsvid`: the policy that its audiences ask for together.
use project_persona.Prelude.{
  ◌≤◌, ◌≡◌, refl, sym, subst, Option, none, some, List, [], ◌∷◌, arith, All, All-map, ok,
  ok-injective, Result-cases, inl, inr,
}
use project_persona.Text.{Bytes}
use project_persona.Assurance.{PresenceLevel, presence_rank, max_presence}
use project_persona.Assurance.Order.{max_presence_lub}
use project_persona.Audience.{Duration, min_duration, AudienceExtensions, AudienceParseError}
use project_persona.Audience
use project_persona.Issue.Gates.{IsFresh}
use project_persona.Consumer.{ConsumerIdentity}
use project_persona.Service.{
  JwtsvidRequest, Asked, parse_audiences, require_of, youngest, max_age_of, check_audience,
  read_selector, check_request,
}

-- A presence and an age that one audience's extensions accept.
abbrev pub Meets : Option Duration → PresenceLevel → AudienceExtensions → Type 0
Meets age presence e =
    (presence_rank e.require_presence ≤ presence_rank presence) × IsFresh age e.max_age

require_of-rank :
    (acc : PresenceLevel) (es : List AudienceExtensions)
    → (presence_rank acc ≤ presence_rank (require_of acc es))
      × All (λ e. presence_rank e.require_presence ≤ presence_rank (require_of acc es)) es
unfolding require_of
require_of-rank acc [] = (omega arith, tt)
require_of-rank acc (e ∷ es) =
    let (above, rest) = require_of-rank (max_presence acc e.require_presence) es in
    let (left, right, _) = max_presence_lub acc e.require_presence in
    (omega arith, (omega arith, rest))

youngest-IsFresh :
    (age a b : Option Duration) → IsFresh age (youngest a b) → IsFresh age a × IsFresh age b
unfolding youngest min_duration
youngest-IsFresh age none b h = (tt, h)
youngest-IsFresh age (some a) none h = (h, tt)
youngest-IsFresh none (some a) (some b) h = (h, h)
youngest-IsFresh (some t) (some a) (some b) h = ground arith

max_age_of-IsFresh :
    (age : Option Duration) (es : List AudienceExtensions)
    → IsFresh age (max_age_of es)
    → All (λ e. IsFresh age e.max_age) es
unfolding max_age_of
max_age_of-IsFresh age [] h = tt
max_age_of-IsFresh age (e ∷ es) h =
    let (first, rest) = youngest-IsFresh age e.max_age (max_age_of es) h in
    (first, max_age_of-IsFresh age es rest)

All-both :
    (P Q : AudienceExtensions → Type 0) (es : List AudienceExtensions)
    → All P es
    → All Q es
    → All (λ e. P e × Q e) es
All-both P Q [] p q = tt
All-both P Q (e ∷ es) p q = ((p.0, q.0), All-both P Q es p.1 q.1)

-- The two folds are the strictest that any audience asks for.
policy-Meets :
    (age : Option Duration) (presence : PresenceLevel) (es : List AudienceExtensions)
    → presence_rank (require_of PresenceLevel.none es) ≤ presence_rank presence
    → IsFresh age (max_age_of es)
    → All (Meets age presence) es
policy-Meets age presence es p f =
    All-both _ _ es (All-map (λ e h. omega (arith, p)) es (require_of-rank PresenceLevel.none es).1)
      (max_age_of-IsFresh age es f)

-- An audience string that is understood, and met.
abbrev pub MeetsAudience : Option Duration → PresenceLevel → Bytes → Type 0
MeetsAudience age presence a =
    (e : AudienceExtensions) × (Audience.parse a ≡ ok e) × Meets age presence e

parse_audiences-Meets :
    (age : Option Duration) (presence : PresenceLevel) (auds : List Bytes)
    {es : List AudienceExtensions}
    → parse_audiences auds ≡ ok es
    → All (Meets age presence) es
    → All (MeetsAudience age presence) auds
unfolding parse_audiences
parse_audiences-Meets age presence [] h m = tt
parse_audiences-Meets age presence (a ∷ auds) {es} h m = elim (Result-cases (Audience.parse a)) [
  | inr (e, k) ↦ absurd (cc (rw k at h))
  | inl (e, k) ↦ elim (Result-cases (parse_audiences auds)) [
    | inr (f, l) ↦ absurd (cc (rw (k, l) at h))
    | inl (rest, l) ↦
        let whole : e ∷ rest ≡ es = ok-injective (rw (k, l) at h) in
        let both : All (Meets age presence) (e ∷ rest) =
          subst (All (Meets age presence)) (sym whole) m in
        ((e, k, both.0), parse_audiences-Meets age presence auds l both.1)
  ]
]

check_audience-Meets :
    (age : Option Duration) (presence : PresenceLevel) (auds : List Bytes)
    {es : List AudienceExtensions}
    → check_audience auds ≡ ok es
    → All (Meets age presence) es
    → All (MeetsAudience age presence) auds
unfolding check_audience
check_audience-Meets age presence [] h m = tt
check_audience-Meets age presence (a ∷ auds) h m =
    elim (Result-cases (parse_audiences (a ∷ auds))) [
      | inr (e, k) ↦ absurd (cc (rw k at h))
      | inl (es, k) ↦
          parse_audiences-Meets age presence (a ∷ auds) k (rw (ok-injective (rw k at h)) m)
    ]

-- A presence and an age that pass the request's two gates meet every audience of the request.
pub request-Meets :
    (age : Option Duration) (presence : PresenceLevel) (auds : List Bytes)
    {es : List AudienceExtensions}
    → check_audience auds ≡ ok es
    → presence_rank (require_of PresenceLevel.none es) ≤ presence_rank presence
    → IsFresh age (max_age_of es)
    → All (MeetsAudience age presence) auds
request-Meets age presence auds {es} h p f =
    check_audience-Meets age presence auds h (policy-Meets age presence es p f)

-- What a request that passes its checks is made of.
pub check_request-eq-ok :
    (peer : Option ConsumerIdentity) (req : JwtsvidRequest) {q : Asked}
    → check_request peer req ≡ ok q
    → (peer ≡ some q.consumer)
      × (check_audience req.audience ≡ ok q.exts)
      × (read_selector req.spiffe_id ≡ ok q.requested)
unfolding check_request
check_request-eq-ok none req h = absurd cc
check_request-eq-ok (some consumer) req h = elim (Result-cases (check_audience req.audience)) [
  | inr (e, k) ↦ absurd (cc (rw k at h))
  | inl (exts, k) ↦ elim (Result-cases (read_selector req.spiffe_id)) [
    | inr (e, l) ↦ absurd (cc (rw (k, l) at h))
    | inl (requested, l) ↦ rw (← ok-injective (rw (k, l) at h)) (refl, k, l)
  ]
]
