-- ===== src/Audience.antt =====
-- hire-core/src/audience.rs: the policy that an audience string carries in its `hire_` parameters.
pub mod Spec
pub mod Sound
pub mod Stable
pub mod Strict
use mathlib.Core.Option.{map as option_map}
use project_persona.Prelude.{
  ℕ, ◌*◌, ◌^◌, ◌≡◌, Bool, ◌||◌, Option, none, some, List, [], ◌∷◌, ◌++◌, leb, if◌then◌else◌, Result,
  ok, err, ◌>>=◌, ok_or, map_err,
}
use project_persona.Text.{Bytes, codes, same}
use project_persona.Text.Split.{strip_prefix, starts_with, split, split_once, join, non_empty}
use project_persona.Text.Decimal.{parse_u64}
use project_persona.Assurance.{PresenceLevel, max_presence, parse_presence}

-- A `Duration` in nanoseconds.
abbrev pub Duration : Type 0
Duration = ℕ

abbrev pub second : Duration
second = 10 ^ 9

unfoldable pub from_secs : ℕ → Duration
from_secs n = n * second

unfoldable pub min_duration : Duration → Duration → Duration
min_duration a b = if leb a b then a else b

pub record AudienceExtensions : Type 0 where
  pub audience : Bytes
  pub require_presence : PresenceLevel
  pub max_age : Option Duration

pub data AudienceParseError : Type 0 where
  unknown_presence unprefixed_extension invalid_max_age unsupported_extension :
      Bytes → AudienceParseError

-- `param.split_once('=').map_or(param, |(n, _)| n)`.
unfoldable pub name_of : Bytes → Bytes
name_of param = elim (split_once b'=' param) [ none ↦ param | some (n, v) ↦ n ]

unfoldable pub is_unprefixed_policy_name : Bytes → Bool
is_unprefixed_policy_name param =
    let name = name_of param in same name (codes "require_presence") || same name (codes "max_age")

-- The three `let mut` variables of the parser.
pub record Policy : Type 0 where
  pub require_presence : PresenceLevel
  pub max_age : Option Duration
  pub kept_params : List Bytes

abbrev pub no_policy : Policy
no_policy = record { require_presence = PresenceLevel.none; max_age = none; kept_params = [] }

-- `max_age.map_or(named, |cur| cur.min(named))`.
unfoldable pub tighten : Option Duration → Duration → Duration
tighten none named = named
tighten (some cur) named = min_duration cur named

unfoldable pub read_presence : Policy → Bytes → Result AudienceParseError Policy
read_presence policy val = do
  level ← map_err (λ _. unknown_presence val) (parse_presence val)
  ok (record policy { require_presence = max_presence policy.require_presence level })

unfoldable pub read_max_age : Policy → Bytes → Result AudienceParseError Policy
read_max_age policy val = do
  secs ← ok_or (invalid_max_age val) (parse_u64 val)
  ok (record policy { max_age = some (tighten policy.max_age (from_secs secs)) })

-- The two branches for a closed namespace, and the ordinary parameter.
unfoldable pub read_other : Policy → Bytes → Result AudienceParseError Policy
read_other policy param =
    if starts_with (codes "hire_") param
    then err (unsupported_extension (name_of param))
    else if is_unprefixed_policy_name param
    then err (unprefixed_extension (name_of param))
    else ok (record policy { kept_params = policy.kept_params ++ param ∷ [] })

-- One round of the loop: the chain of `strip_prefix` tests.
unfoldable pub read_param : Policy → Bytes → Result AudienceParseError Policy
read_param policy param = elim (strip_prefix (codes "hire_require_presence=") param) [
  | some val ↦ read_presence policy val
  | none ↦ elim (strip_prefix (codes "hire_max_age=") param) [
    | some val ↦ read_max_age policy val
    | none ↦ read_other policy param
  ]
]

unfoldable pub read_params : Policy → List Bytes → Result AudienceParseError Policy
read_params policy [] = ok policy
read_params policy (p ∷ ps) = do policy' ← read_param policy p; read_params policy' ps

-- The audience with its `hire_` parameters removed.
unfoldable pub rebuild : Bytes → List Bytes → Bytes
rebuild base [] = base
rebuild base (p ∷ ps) = base ++ b'?' ∷ join b'&' (p ∷ ps)

-- `raw.split_once('?')`, with the query's parameters; no query has none.
unfoldable pub cut_query : Bytes → Bytes × List Bytes
cut_query raw = elim (split_once b'?' raw) [
  | some (b, q) ↦ (b, non_empty (split b'&' q))
  | none ↦ (raw, [])
]

abbrev extensions : Bytes → Policy → AudienceExtensions
extensions base policy = record {
  audience = rebuild base policy.kept_params;
  require_presence = policy.require_presence;
  max_age = policy.max_age;
}

-- `AudienceExtensions::parse`.
unfoldable pub parse : Bytes → Result AudienceParseError AudienceExtensions
parse raw = do
  policy ← read_params no_policy (cut_query raw).1
  ok (extensions (cut_query raw).0 policy)
