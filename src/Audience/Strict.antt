-- ===== src/Audience/Strict.antt =====
-- Of hire-core/src/audience.rs: one parameter against the policy of the whole query.
use mathlib.Core.List.{Memᴰ}
use project_persona.Prelude.{◌≤◌, ◌≡◌, ap, Option, none, some, List, ℕ, arith, ok}
use project_persona.Text.{Bytes}
use project_persona.Text.Split.{strip_prefix, strip_prefix-eq-some}
use project_persona.Text.Decimal.{parse_u64}
use project_persona.Assurance.{PresenceLevel, presence_rank, parse_presence}
use project_persona.Assurance.Order.{max_presence_lub}
use project_persona.Audience.{
  AudienceExtensions, Duration, from_secs, min_duration, cut_query, parse,
}
use project_persona.Audience.Spec.{
  Understood, presence, max_age, ordinary, Asks, nil, cons, strictest, meet, tightest, presence_key,
  max_age_key,
}
use project_persona.Audience.Sound.{parse-asked_iff}

-- Adding to the list of requirements never lowers the strictest one.
strictest-cons :
    {p : Bytes} {ps : List Bytes} (u : Understood p) (a : Asks ps)
    → presence_rank (strictest a) ≤ presence_rank (strictest (cons u a))
unfolding strictest
strictest-cons (presence l s v) a = (max_presence_lub l (strictest a)).1
strictest-cons (max_age n m s v) a = omega arith
strictest-cons (ordinary m s v k) a = omega arith

strictest-head :
    {p v : Bytes} {ps : List Bytes} {l : PresenceLevel} (u : Understood p) (a : Asks ps)
    → strip_prefix presence_key p ≡ some v
    → parse_presence v ≡ ok l
    → presence_rank l ≤ presence_rank (strictest (cons u a))
unfolding strictest
strictest-head {l = l} (presence k s e) a s' e' =
    let named : l ≡ k = cc in rw named (max_presence_lub k (strictest a)).0
strictest-head (max_age n m s v) a s' e' = absurd (cc)
strictest-head (ordinary m s v k) a s' e' = absurd (cc)

strictest-Memᴰ :
    {p v : Bytes} {ps : List Bytes} {l : PresenceLevel} (a : Asks ps)
    → Memᴰ p ps
    → strip_prefix presence_key p ≡ some v
    → parse_presence v ≡ ok l
    → presence_rank l ≤ presence_rank (strictest a)
strictest-Memᴰ nil m s e = elim m [ ]
strictest-Memᴰ (cons u a) (Memᴰ.head q) s e = strictest-head u a (rw q at s) e
strictest-Memᴰ (cons u a) (Memᴰ.tail m) s e =
    omega (arith, strictest-Memᴰ a m s e, strictest-cons u a)

-- No bound is the loosest; `some d` is at most as loose as `o` if `o` is a bound of at least `d`.
abbrev pub IsWithin : Option Duration → Duration → Type 0
IsWithin none n = ⊥
IsWithin (some d) n = d ≤ n

meet-IsWithin_right : (c o : Option Duration) (n : Duration) → IsWithin o n → IsWithin (meet c o) n
unfolding meet min_duration
meet-IsWithin_right none o n h = h
meet-IsWithin_right (some c) none n h = absurd h
meet-IsWithin_right (some c) (some d) n h = ground arith

meet-IsWithin_left : (d n : Duration) (o : Option Duration) → d ≤ n → IsWithin (meet (some d) o) n
unfolding meet min_duration
meet-IsWithin_left d n none h = h
meet-IsWithin_left d n (some e) h = ground arith

tightest-cons :
    {p : Bytes} {ps : List Bytes} (n : Duration) (u : Understood p) (a : Asks ps)
    → IsWithin (tightest a) n
    → IsWithin (tightest (cons u a)) n
unfolding tightest
tightest-cons n (presence l s v) a h = h
tightest-cons n (max_age k m s v) a h = meet-IsWithin_right (some (from_secs k)) (tightest a) n h
tightest-cons n (ordinary m s v k) a h = h

strip_presence-max_age :
    (p : Bytes) {v : Bytes}
    → strip_prefix max_age_key p ≡ some v
    → strip_prefix presence_key p ≡ none
unfolding strip_prefix
strip_presence-max_age p {v} h = rw (strip_prefix-eq-some max_age_key p h)

tightest-head :
    {p v : Bytes} {ps : List Bytes} {n : ℕ} (u : Understood p) (a : Asks ps)
    → strip_prefix max_age_key p ≡ some v
    → parse_u64 v ≡ some n
    → IsWithin (tightest (cons u a)) (from_secs n)
unfolding tightest
tightest-head {p} (presence l s e) a s' e' = absurd (cc (strip_presence-max_age p s'))
tightest-head {n = n} (max_age k m s e) a s' e' =
    let named : k ≡ n = cc in
    meet-IsWithin_left (from_secs k) (from_secs n) (tightest a) (omega (arith, ap from_secs named))
tightest-head (ordinary m s v k) a s' e' = absurd (cc)

tightest-Memᴰ :
    {p v : Bytes} {ps : List Bytes} {n : ℕ} (a : Asks ps)
    → Memᴰ p ps
    → strip_prefix max_age_key p ≡ some v
    → parse_u64 v ≡ some n
    → IsWithin (tightest a) (from_secs n)
tightest-Memᴰ nil m s e = elim m [ ]
tightest-Memᴰ (cons u a) (Memᴰ.head q) s e = tightest-head u a (rw q at s) e
tightest-Memᴰ {n = n} (cons u a) (Memᴰ.tail m) s e =
    tightest-cons (from_secs n) u a (tightest-Memᴰ a m s e)

-- A parameter that names a presence level, wherever it stands in the query of an accepted string,
-- is a lower bound of the requirement that the parser returns.
pub parse_presence_honoured :
    (raw p v : Bytes) {e : AudienceExtensions} {l : PresenceLevel}
    → parse raw ≡ ok e
    → Memᴰ p (cut_query raw).1
    → strip_prefix presence_key p ≡ some v
    → parse_presence v ≡ ok l
    → presence_rank l ≤ presence_rank e.require_presence
parse_presence_honoured raw p v h m s k =
    let (a, is_asked) = (parse-asked_iff raw _).0 h in rw is_asked (strictest-Memᴰ a m s k)

-- A parameter that names a bound on the age, wherever it stands in the query of an accepted
-- string, is an upper bound of the one that the parser returns.
pub parse_max_age_honoured :
    (raw p v : Bytes) {e : AudienceExtensions} {n : ℕ}
    → parse raw ≡ ok e
    → Memᴰ p (cut_query raw).1
    → strip_prefix max_age_key p ≡ some v
    → parse_u64 v ≡ some n
    → IsWithin e.max_age (from_secs n)
parse_max_age_honoured raw p v h m s k =
    let (a, is_asked) = (parse-asked_iff raw _).0 h in rw is_asked (tightest-Memᴰ a m s k)
