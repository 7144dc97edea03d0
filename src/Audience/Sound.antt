-- ===== src/Audience/Sound.antt =====
-- The parser against the specification of `Audience.Spec`.
use project_persona.Prelude.{
  ◌≡◌, refl, sym, ap, ◌∙◌, ◌↔◌, inl, inr, Option, none, some, List, [], ◌∷◌, ◌++◌, arith,
  Bool-cases, Option-cases, ok, >>=-eq-ok, ok-injective, Result-cases,
}
use mathlib.Core.List.{append-nil, append_assoc}
use project_persona.Text.{Bytes, codes}
use project_persona.Text.Split.{strip_prefix, starts_with}
use project_persona.Text.Decimal.{parse_u64}
use project_persona.Assurance.{PresenceLevel, max_presence, parse_presence}
use project_persona.Assurance.Order.{max_presence_assoc}
use project_persona.Audience.{
  Duration, min_duration, from_secs, tighten, AudienceExtensions, Policy, no_policy, read_presence,
  read_max_age, read_other, read_param, read_params, is_unprefixed_policy_name, cut_query, rebuild,
  parse,
}
use project_persona.Audience.Spec.{
  Understood, presence, max_age, ordinary, Asks, nil, cons, strictest, meet, tightest, kept,
  presence_key, max_age_key,
}

-- What one parameter adds to a policy.
abbrev step : {p : Bytes} → Policy → Understood p → Policy
step policy (presence l _ _) = record policy {
  require_presence = max_presence policy.require_presence l;
}
step policy (max_age n _ _ _) = record policy {
  max_age = some (tighten policy.max_age (from_secs n));
}
step {p} policy (ordinary _ _ _ _) = record policy { kept_params = policy.kept_params ++ p ∷ [] }

read_param-step :
    {p : Bytes} (policy : Policy) (u : Understood p) → read_param policy p ≡ ok (step policy u)
unfolding read_param read_presence read_max_age read_other
read_param-step policy (presence l s v) = rw (s, read_param, v)
read_param-step policy (max_age n m s v) = rw (m, read_param, s, v)
read_param-step policy (ordinary m s h k) = rw (m, read_param, s, h, k)

read_presence-Understood :
    (policy : Policy) {p v : Bytes} {q : Policy}
    → strip_prefix presence_key p ≡ some v
    → read_presence policy v ≡ ok q
    → (u : Understood p) × (q ≡ step policy u)
unfolding read_presence
read_presence-Understood policy {p} {v} s h = elim (Result-cases (parse_presence v)) [
  | inl (l, e) ↦ (presence l s e, sym (ok-injective (rw e at h)))
  | inr (x, e) ↦ absurd (cc (rw e at h))
]

read_max_age-Understood :
    (policy : Policy) {p v : Bytes} {q : Policy}
    → strip_prefix presence_key p ≡ none
    → strip_prefix max_age_key p ≡ some v
    → read_max_age policy v ≡ ok q
    → (u : Understood p) × (q ≡ step policy u)
unfolding read_max_age
read_max_age-Understood policy {p} {v} m s h = elim (Option-cases (parse_u64 v)) [
  | inl e ↦ absurd (cc (rw e at h))
  | inr (n, e) ↦ (max_age n m s e, sym (ok-injective (rw e at h)))
]

read_other-Understood :
    (policy : Policy) (p : Bytes) {q : Policy}
    → strip_prefix presence_key p ≡ none
    → strip_prefix max_age_key p ≡ none
    → read_other policy p ≡ ok q
    → (u : Understood p) × (q ≡ step policy u)
unfolding read_other
read_other-Understood policy p m s h = elim (Bool-cases (starts_with (codes "hire_") p)) [
  | inl e ↦ absurd (cc (rw e at h))
  | inr e ↦ elim (Bool-cases (is_unprefixed_policy_name p)) [
    | inl k ↦ absurd (cc (rw (e, k) at h))
    | inr k ↦ (ordinary m s e k, sym (ok-injective (rw (e, k) at h)))
  ]
]

read_param-Understood :
    (policy : Policy) (p : Bytes) {q : Policy}
    → read_param policy p ≡ ok q
    → (u : Understood p) × (q ≡ step policy u)
unfolding read_param
read_param-Understood policy p h = elim (Option-cases (strip_prefix presence_key p)) [
  | inr (v, s) ↦ read_presence-Understood policy s (rw (s, read_param) at h)
  | inl m ↦ elim (Option-cases (strip_prefix max_age_key p)) [
    | inr (v, s) ↦ read_max_age-Understood policy m s (rw (m, read_param, s) at h)
    | inl s ↦ read_other-Understood policy p m s (rw (m, read_param, s) at h)
  ]
]

-- The policy that a list of parameters makes of an earlier one.
abbrev after : {ps : List Bytes} → Policy → Asks ps → Policy
after policy a = record {
  require_presence = max_presence policy.require_presence (strictest a);
  max_age = meet policy.max_age (tightest a);
  kept_params = policy.kept_params ++ kept a;
}

meet-tighten :
    (o : Option Duration) (d : Duration) (r : Option Duration)
    → meet (some (tighten o d)) r ≡ meet o (meet (some d) r)
unfolding meet tighten min_duration
meet-tighten none d none = refl
meet-tighten none d (some e) = refl
meet-tighten (some c) d none = refl
meet-tighten (some c) d (some e) = ground arith

meet-none : (o : Option Duration) → meet o none ≡ o
unfolding meet
meet-none none = refl
meet-none (some d) = refl

max_presence-none : (p : PresenceLevel) → max_presence p PresenceLevel.none ≡ p
unfolding max_presence
max_presence-none p = ground arith

after-nil : (policy : Policy) → after policy nil ≡ policy
unfolding strictest tightest kept
after-nil policy = λ i. record {
  require_presence = max_presence-none policy.require_presence i;
  max_age = meet-none policy.max_age i;
  kept_params = append-nil policy.kept_params i;
}

after-cons :
    {p : Bytes} {ps : List Bytes} (policy : Policy) (u : Understood p) (a : Asks ps)
    → after (step policy u) a ≡ after policy (cons u a)
unfolding strictest tightest kept
after-cons policy (presence l s v) a = λ i. record {
  require_presence = max_presence_assoc policy.require_presence l (strictest a) i;
  max_age = meet policy.max_age (tightest a);
  kept_params = policy.kept_params ++ kept a;
}
after-cons policy (max_age n m s v) a = λ i. record {
  require_presence = max_presence policy.require_presence (strictest a);
  max_age = meet-tighten policy.max_age (from_secs n) (tightest a) i;
  kept_params = policy.kept_params ++ kept a;
}
after-cons {p} policy (ordinary m s h k) a = λ i. record {
  require_presence = max_presence policy.require_presence (strictest a);
  max_age = meet policy.max_age (tightest a);
  kept_params = append_assoc policy.kept_params (p ∷ []) (kept a) i;
}

read_params-Asks :
    (ps : List Bytes) (policy : Policy) {q : Policy}
    → read_params policy ps ≡ ok q
    → (a : Asks ps) × (q ≡ after policy a)
unfolding read_params
read_params-Asks [] policy h = (nil, sym (ok-injective h) ∙ sym (after-nil policy))
read_params-Asks (p ∷ ps) policy h =
    let (r, first, rest) = >>=-eq-ok (read_param policy p) (λ r. read_params r ps) h in
    let (u, e) = read_param-Understood policy p first in
    let (a, f) = read_params-Asks ps r rest in
    (cons u a, f ∙ ap (λ s. after s a) e ∙ after-cons policy u a)

read_params-after :
    {ps : List Bytes} (policy : Policy) (a : Asks ps) → read_params policy ps ≡ ok (after policy a)
unfolding read_params
read_params-after policy nil = ap ok (sym (after-nil policy))
read_params-after policy (cons u a) =
    rw (read_param-step policy u)
      (read_params-after (step policy u) a ∙ ap ok (after-cons policy u a))

-- What a query asks for, in one record.
abbrev pub extended : {ps : List Bytes} → Bytes → Asks ps → AudienceExtensions
extended base a = record {
  audience = rebuild base (kept a);
  require_presence = strictest a;
  max_age = tightest a;
}

abbrev pub asked : (raw : Bytes) → Asks (cut_query raw).1 → AudienceExtensions
asked raw a = extended (cut_query raw).0 a

after-no_policy :
    {ps : List Bytes} (a : Asks ps) → (after no_policy a).require_presence ≡ strictest a
unfolding max_presence
after-no_policy a = ground arith

pub parse-cut :
    (raw base : Bytes) {ps : List Bytes} (a : Asks ps)
    → cut_query raw ≡ (base, ps)
    → parse raw ≡ ok (extended base a)
unfolding parse meet
parse-cut raw base a e = rw (e, read_params-after no_policy a, after-no_policy a)

parse-Asks_at :
    (raw : Bytes) {e : AudienceExtensions}
    → parse raw ≡ ok e
    → (a : Asks (cut_query raw).1) × (e ≡ asked raw a)
unfolding parse
parse-Asks_at raw {e} h =
    let (q, loop, done) = >>=-eq-ok (read_params no_policy (cut_query raw).1) (λ q. ok _) h in
    let (a, _) = read_params-Asks (cut_query raw).1 no_policy loop in
    (a, ok-injective (sym h ∙ parse-cut raw (cut_query raw).0 a refl))

-- A string is accepted exactly when each parameter of its query is understood: a `hire_` parameter
-- that is implemented, with a value of its form, or one that is outside the namespace and no bare
-- policy name. The result has the strictest presence and the tightest age bound that any of them
-- names, and the audience with the ordinary parameters alone, in their order.
pub parse-asked_iff :
    (raw : Bytes) (e : AudienceExtensions)
    → (parse raw ≡ ok e) ↔ ((a : Asks (cut_query raw).1) × (e ≡ asked raw a))
parse-asked_iff raw e =
    (parse-Asks_at raw, λ w. parse-cut raw (cut_query raw).0 w.0 refl ∙ ap ok (sym w.1))
