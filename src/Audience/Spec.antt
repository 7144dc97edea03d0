-- ===== src/Audience/Spec.antt =====
-- What a list of parameters asks for, said of the list as a whole, with no accumulator.
use project_persona.Prelude.{ℕ, ◌≡◌, false, Option, none, some, List, [], ◌∷◌, ok}
use project_persona.Text.{Bytes, codes}
use project_persona.Text.Split.{strip_prefix, starts_with}
use project_persona.Text.Decimal.{parse_u64}
use project_persona.Assurance.{PresenceLevel, max_presence, parse_presence}
use project_persona.Audience.{Duration, from_secs, min_duration, is_unprefixed_policy_name}

abbrev pub presence_key : Bytes
presence_key = codes "hire_require_presence="

abbrev pub max_age_key : Bytes
max_age_key = codes "hire_max_age="

-- A parameter that the parser can take: one of the two of the namespace with a value of its form,
-- or one that is outside the namespace and no policy name.
pub data Understood : Bytes → Type 0 where
  presence :
      {p v : Bytes} (l : PresenceLevel)
      → strip_prefix presence_key p ≡ some v
      → parse_presence v ≡ ok l
      → Understood p
  max_age :
      {p v : Bytes} (n : ℕ)
      → strip_prefix presence_key p ≡ none
      → strip_prefix max_age_key p ≡ some v
      → parse_u64 v ≡ some n
      → Understood p
  ordinary :
      {p : Bytes}
      → strip_prefix presence_key p ≡ none
      → strip_prefix max_age_key p ≡ none
      → starts_with (codes "hire_") p ≡ false
      → is_unprefixed_policy_name p ≡ false
      → Understood p

-- Every parameter is understood.
pub data Asks : List Bytes → Type 0 where
  nil : Asks []
  cons : {p : Bytes} {ps : List Bytes} → Understood p → Asks ps → Asks (p ∷ ps)

-- The strictest presence that a parameter names.
unfoldable pub strictest : {ps : List Bytes} → Asks ps → PresenceLevel
strictest nil = PresenceLevel.none
strictest (cons (presence l _ _) rest) = max_presence l (strictest rest)
strictest (cons (max_age n _ _ _) rest) = strictest rest
strictest (cons (ordinary _ _ _ _) rest) = strictest rest

-- The smaller of two bounds, where no bound is the larger.
unfoldable pub meet : Option Duration → Option Duration → Option Duration
meet none d = d
meet (some c) none = some c
meet (some c) (some d) = some (min_duration c d)

-- The tightest bound on the age that a parameter names.
unfoldable pub tightest : {ps : List Bytes} → Asks ps → Option Duration
tightest nil = none
tightest (cons (presence l _ _) rest) = tightest rest
tightest (cons (max_age n _ _ _) rest) = meet (some (from_secs n)) (tightest rest)
tightest (cons (ordinary _ _ _ _) rest) = tightest rest

-- The parameters that stay in the audience, in their order.
unfoldable pub kept : {ps : List Bytes} → Asks ps → List Bytes
kept nil = []
kept (cons (presence l _ _) rest) = kept rest
kept (cons (max_age n _ _ _) rest) = kept rest
kept (cons {p} (ordinary _ _ _ _) rest) = p ∷ kept rest
