-- ===== src/Assurance/Wire.antt =====
-- Of hire-core/src/assurance.rs: `Display` and `FromStr` side by side.
use project_persona.Prelude.{◌≡◌, refl, arith, ok}
use project_persona.Text.{Bytes, codes, same, same_iff}
use project_persona.Assurance.{
  IdentityAssurance, PresenceLevel, none, iaa1, show_assurance, show_presence, parse_assurance,
  parse_presence,
}

pub parse_presence-show : (p : PresenceLevel) → parse_presence (show_presence p) ≡ ok p
unfolding parse_presence show_presence same
parse_presence-show none = refl
parse_presence-show _ = refl

pub parse_assurance-show : (a : IdentityAssurance) → parse_assurance (show_assurance a) ≡ ok a
unfolding parse_assurance show_assurance same
parse_assurance-show iaa1 = refl
parse_assurance-show _ = refl

-- A text that parses as a level is the one that the level prints as.
pub parse_presence-eq-ok :
    (s : Bytes) {p : PresenceLevel} → parse_presence s ≡ ok p → s ≡ show_presence p
unfolding parse_presence show_presence
parse_presence-eq-ok s {p} h = ground (
  arith,
  same_iff s (codes "none"),
  same_iff s (codes "session"),
  same_iff s (codes "software"),
  same_iff s (codes "hardware"),
)

pub parse_assurance-eq-ok :
    (s : Bytes) {a : IdentityAssurance} → parse_assurance s ≡ ok a → s ≡ show_assurance a
unfolding parse_assurance show_assurance
parse_assurance-eq-ok s {a} h =
    ground (arith, same_iff s (codes "iaa1"), same_iff s (codes "iaa2"), same_iff s (codes "iaa3"))
