-- ===== src/Assurance.antt =====
-- hire-core/src/assurance.rs: the assurance tiers and the presence levels, their order, and their
-- string forms.
pub mod Order
pub mod Wire
use project_persona.Prelude.{ℕ, Bool, ltb, leb, if◌then◌else◌, Result, ok, err}
use project_persona.Text.{Bytes, codes, same}

pub data AssuranceError : Type 0 where
  unknown_assurance : Bytes → AssuranceError
  unknown_presence : Bytes → AssuranceError

pub data IdentityAssurance : Type 0 where
  iaa1 iaa2 iaa3 : IdentityAssurance

pub data PresenceLevel : Type 0 where
  none session software hardware : PresenceLevel

-- The order that Rust derives: the place in the declaration.
unfoldable pub assurance_rank : IdentityAssurance → ℕ
assurance_rank iaa1 = 0
assurance_rank iaa2 = 1
assurance_rank iaa3 = 2

unfoldable pub presence_rank : PresenceLevel → ℕ
presence_rank none = 0
presence_rank session = 1
presence_rank software = 2
presence_rank hardware = 3

-- `Ord::max` of two tiers, and of two levels.
unfoldable pub max_assurance : IdentityAssurance → IdentityAssurance → IdentityAssurance
unfolding assurance_rank
max_assurance a b = if leb (assurance_rank a) (assurance_rank b) then b else a

unfoldable pub max_presence : PresenceLevel → PresenceLevel → PresenceLevel
unfolding presence_rank
max_presence p q = if leb (presence_rank p) (presence_rank q) then q else p

-- `p > q` on levels.
unfoldable pub presence_gt : PresenceLevel → PresenceLevel → Bool
unfolding presence_rank
presence_gt p q = ltb (presence_rank q) (presence_rank p)

-- `Display for IdentityAssurance` and `Display for PresenceLevel`.
unfoldable pub show_assurance : IdentityAssurance → Bytes
show_assurance iaa1 = codes "iaa1"
show_assurance iaa2 = codes "iaa2"
show_assurance iaa3 = codes "iaa3"

unfoldable pub show_presence : PresenceLevel → Bytes
show_presence none = codes "none"
show_presence session = codes "session"
show_presence software = codes "software"
show_presence hardware = codes "hardware"

-- `FromStr` of the two.
unfoldable pub parse_assurance : Bytes → Result AssuranceError IdentityAssurance
parse_assurance s =
    if same s (codes "iaa1")
    then ok iaa1
    else if same s (codes "iaa2")
    then ok iaa2
    else if same s (codes "iaa3")
    then ok iaa3
    else err (unknown_assurance s)

unfoldable pub parse_presence : Bytes → Result AssuranceError PresenceLevel
parse_presence s =
    if same s (codes "none")
    then ok none
    else if same s (codes "session")
    then ok session
    else if same s (codes "software")
    then ok software
    else if same s (codes "hardware")
    then ok hardware
    else err (unknown_presence s)
