-- ===== src/Hint.antt =====
-- hire-core/src/hint.rs: the machine-readable `hint` of an issued credential.
pub mod Fields
pub mod RoundTrip
pub mod Strict
use project_persona.Prelude.{
  ℕ, ◌≡◌, Option, none, some, List, [], ◌∷◌, ◌++◌, if◌then◌else◌, Result, ok, err, ◌>>=◌, ok_or,
  map_err,
}
use project_persona.Text.{Bytes, codes, same}
use project_persona.Text.Split.{split, split_once, non_empty}
use project_persona.Text.Decimal.{show_u64, parse_u64}
use project_persona.Assurance.{
  IdentityAssurance, PresenceLevel, show_assurance, show_presence, parse_assurance, parse_presence,
}

pub record SvidHint : Type 0 where
  pub source : Bytes
  pub identity_assurance : IdentityAssurance
  pub presence : PresenceLevel
  pub age : ℕ

pub data HintParseError : Type 0 where
  unknown_key repeated_key missing : Bytes → HintParseError
  bad_value : Bytes → Bytes → HintParseError

-- `Display for SvidHint`.
unfoldable pub to_string : SvidHint → Bytes
to_string h =
    codes "source="
    ++ (h.source
        ++ (codes "&identity_assurance="
            ++ (show_assurance h.identity_assurance
                ++ (codes "&presence="
                    ++ (show_presence h.presence ++ (codes "&age=" ++ show_u64 h.age))))))

-- The four `let mut` variables of the parser.
pub record Seen : Type 0 where
  pub source : Option Bytes
  pub identity_assurance : Option IdentityAssurance
  pub presence : Option PresenceLevel
  pub age : Option ℕ

abbrev pub unseen : Seen
unseen = record { source = none; identity_assurance = none; presence = none; age = none }

-- One parameter whose key and value have been read: the arm of the `match` that it takes.
pub data Field : Type 0 where
  source : Bytes → Field
  identity_assurance : IdentityAssurance → Field
  presence : PresenceLevel → Field
  age : ℕ → Field

abbrev pub key_of : Field → Bytes
key_of (source v) = codes "source"
key_of (identity_assurance v) = codes "identity_assurance"
key_of (presence v) = codes "presence"
key_of (age v) = codes "age"

-- The arm for a key, and its value parsed, which comes before the test for a repeat.
unfoldable pub read_field : Bytes → Bytes → Result HintParseError Field
read_field key value =
    if same key (codes "source")
    then ok (source value)
    else if same key (codes "identity_assurance")
    then (do
      level ← map_err (λ _. bad_value key value) (parse_assurance value)
      ok (identity_assurance level))
    else if same key (codes "presence")
    then (do level ← map_err (λ _. bad_value key value) (parse_presence value); ok (presence level))
    else if same key (codes "age")
    then (do n ← ok_or (bad_value key value) (parse_u64 value); ok (age n))
    else err (unknown_key key)

unfoldable pub read_param : Bytes → Result HintParseError Field
read_param param = elim (split_once b'=' param) [
  | none ↦ err (unknown_key param)
  | some (key, value) ↦ read_field key value
]

-- `if slot.replace(value).is_some() { return Err(repeated()) }`.
abbrev once {ℓ} : {A : Type ℓ} → Field → Option A → Seen → Result HintParseError Seen
once f none seen = ok seen
once f (some _) seen = err (repeated_key (key_of f))

unfoldable pub put : Seen → Field → Result HintParseError Seen
put seen (source v) = once (source v) seen.source (record seen { source = some v })
put seen (identity_assurance v) =
    once (identity_assurance v) seen.identity_assurance
      (record seen { identity_assurance = some v })
put seen (presence v) = once (presence v) seen.presence (record seen { presence = some v })
put seen (age v) = once (age v) seen.age (record seen { age = some v })

-- The loop over the parameters.
unfoldable pub read_params : Seen → List Bytes → Result HintParseError Seen
read_params seen [] = ok seen
read_params seen (p ∷ ps) = do f ← read_param p; seen' ← put seen f; read_params seen' ps

unfoldable pub finish : Seen → Result HintParseError SvidHint
finish seen = do
  s ← ok_or (missing (codes "source")) seen.source
  a ← ok_or (missing (codes "identity_assurance")) seen.identity_assurance
  p ← ok_or (missing (codes "presence")) seen.presence
  n ← ok_or (missing (codes "age")) seen.age
  ok (record { source = s; identity_assurance = a; presence = p; age = n })

-- `FromStr for SvidHint`.
unfoldable pub parse : Bytes → Result HintParseError SvidHint
parse raw = do seen ← read_params unseen (non_empty (split b'&' raw)); finish seen
