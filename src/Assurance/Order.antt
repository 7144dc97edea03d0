-- ===== src/Assurance/Order.antt =====
-- Of hire-core/src/assurance.rs: the derived orders and their `max`.
use project_persona.Prelude.{◌≤◌, ◌≡◌, ◌⊎◌, arith, false}
use project_persona.Assurance.{
  IdentityAssurance, PresenceLevel, assurance_rank, presence_rank, max_assurance, max_presence,
  presence_gt,
}

pub presence_rank-injective : (p q : PresenceLevel) → presence_rank p ≡ presence_rank q → p ≡ q
unfolding presence_rank
presence_rank-injective p q h = ground arith

pub assurance_rank-injective :
    (a b : IdentityAssurance) → assurance_rank a ≡ assurance_rank b → a ≡ b
unfolding assurance_rank
assurance_rank-injective a b h = ground arith

-- The maximum bounds both, and is one of them.
pub max_presence_lub :
    (p q : PresenceLevel)
    → (presence_rank p ≤ presence_rank (max_presence p q))
      × (presence_rank q ≤ presence_rank (max_presence p q))
      × ((max_presence p q ≡ p) ⊎ (max_presence p q ≡ q))
unfolding max_presence
max_presence_lub p q = ground arith

pub max_assurance_lub :
    (a b : IdentityAssurance)
    → (assurance_rank a ≤ assurance_rank (max_assurance a b))
      × (assurance_rank b ≤ assurance_rank (max_assurance a b))
      × ((max_assurance a b ≡ a) ⊎ (max_assurance a b ≡ b))
unfolding max_assurance
max_assurance_lub a b = ground arith

pub max_presence_assoc :
    (p q r : PresenceLevel) → max_presence (max_presence p q) r ≡ max_presence p (max_presence q r)
unfolding max_presence
max_presence_assoc p q r = ground arith

pub max_presence_comm : (p q : PresenceLevel) → max_presence p q ≡ max_presence q p
unfolding max_presence
max_presence_comm p q = ground arith

-- A level that the gate lets through is at least the one required.
pub presence_gt-false_iff :
    (p q : PresenceLevel) → presence_gt p q ≡ false → presence_rank p ≤ presence_rank q
unfolding presence_gt
presence_gt-false_iff p q h = ground arith
