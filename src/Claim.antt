-- ===== src/Claim.antt =====
-- hire-attestors/src/claim.rs: what an attestor sees (`Candidate`), what it can prove (`Evidence`),
-- and what the daemon makes of both (`Claim`).
pub mod Bound
pub mod Fold
pub mod Levels
pub mod Domain
use project_persona.Prelude.{
  ℕ, ◌-◌, ◌≡◌, Bool, true, false, ◌&&◌, ◌||◌, Option, none, some, List, [], ◌∷◌, ltb, leb, ◌==◌,
  if◌then◌else◌,
}
use project_persona.Text.{Bytes, codes, same}
use project_persona.Assurance.{
  IdentityAssurance, PresenceLevel, session, hardware, assurance_rank, presence_rank, max_assurance,
  presence_gt,
}
use project_persona.Audience.{Duration}
use project_persona.SpiffeId.{TrustDomain, org_oidc, SpiffeId}

-- A `SystemTime` in nanoseconds, counted from the earliest instant that the type can hold.
abbrev pub SystemTime : Type 0
SystemTime = ℕ

-- `later.duration_since(earlier).ok()`.
unfoldable pub duration_since : SystemTime → SystemTime → Option Duration
duration_since later earlier = if leb earlier later then some (later - earlier) else none

pub data SelfAssertedDomain : Type 0 where
  tailscale ssh_local pgp_local : SelfAssertedDomain
  personal_did : Bytes → SelfAssertedDomain

-- `From<SelfAssertedDomain> for TrustDomain`.
unfoldable pub to_trust_domain : SelfAssertedDomain → TrustDomain
to_trust_domain tailscale = TrustDomain.tailscale
to_trust_domain ssh_local = TrustDomain.ssh_local
to_trust_domain pgp_local = TrustDomain.pgp_local
to_trust_domain (personal_did did) = TrustDomain.personal_did did

pub data AttainableAssurance : Type 0 where
  iaa1 iaa2 iaa3 : AttainableAssurance

pub data ProofCost : Type 0 where
  silent interactive : ProofCost

pub record Candidate : Type 0 where
  pub source : Bytes
  pub domain : SelfAssertedDomain
  pub path : Bytes
  pub display_name : Bytes
  pub attainable : AttainableAssurance
  pub proof_cost : ProofCost

-- `Candidate::new`: both declarations at their conservative end.
unfoldable pub new_candidate : Bytes → SelfAssertedDomain → Bytes → Bytes → Candidate
new_candidate source domain path display_name = record {
  source = source;
  domain = domain;
  path = path;
  display_name = display_name;
  attainable = AttainableAssurance.iaa1;
  proof_cost = interactive;
}

unfoldable pub with_attainable : Candidate → AttainableAssurance → Candidate
with_attainable c attainable = record c { attainable = attainable }

unfoldable pub with_proof_cost : Candidate → ProofCost → Candidate
with_proof_cost c proof_cost = record c { proof_cost = proof_cost }

unfoldable pub candidate_spiffe_id : Candidate → SpiffeId
candidate_spiffe_id c = record { trust_domain = to_trust_domain c.domain; path = c.path }

pub record SignedAssertion : Type 0 where
  pub bytes : Bytes
  pub format : Bytes

pub record ChallengeSignature : Type 0 where
  pub assertion : SignedAssertion
  pub challenge : Bytes
  pub observed_at : SystemTime

pub record VerifiedToken : Type 0 where
  pub issuer_domain : Bytes
  pub authenticated_at : SystemTime

pub record HardwareTouch : Type 0 where
  pub touched_at : SystemTime

pub record PlatformIdentity : Type 0 where
  pub account : Bytes
  pub asked_at : SystemTime

pub record DaemonIdentity : Type 0 where
  pub subject : Bytes
  pub asked_at : SystemTime

pub data Evidence : Type 0 where
  possession : ChallengeSignature → Evidence
  idp_verified : VerifiedToken → Evidence
  hardware_presence : HardwareTouch → Evidence
  platform_assertion : PlatformIdentity → Evidence
  daemon_assertion : DaemonIdentity → Evidence

-- A tier, with the instant of the observation that its presence speaks of.
pub record Tier : Type 0 where
  pub assurance : IdentityAssurance
  pub presence : PresenceLevel
  pub attested_at : SystemTime

abbrev at_tier : IdentityAssurance → PresenceLevel → SystemTime → Tier
at_tier a p t = record { assurance = a; presence = p; attested_at = t }

-- `Evidence::tier`.
unfoldable pub tier : Evidence → Tier
tier (possession s) = at_tier IdentityAssurance.iaa1 PresenceLevel.none s.observed_at
tier (idp_verified t) = at_tier IdentityAssurance.iaa2 session t.authenticated_at
tier (hardware_presence h) = at_tier IdentityAssurance.iaa1 hardware h.touched_at
tier (platform_assertion p) = at_tier IdentityAssurance.iaa1 PresenceLevel.none p.asked_at
tier (daemon_assertion d) = at_tier IdentityAssurance.iaa2 PresenceLevel.none d.asked_at

-- `Evidence::binds_to`.
unfoldable pub binds_to : Candidate → Bytes → Evidence → Bool
binds_to c challenge (possession s) = same s.challenge challenge
binds_to c challenge (platform_assertion p) = same p.account c.path
binds_to c challenge (daemon_assertion d) = same d.subject c.path
binds_to c challenge (idp_verified t) = true
binds_to c challenge (hardware_presence h) = true

pub record Claim : Type 0 where
  pub source : Bytes
  pub assurance : IdentityAssurance
  pub presence : PresenceLevel
  pub spiffe_id : SpiffeId
  pub display_name : Bytes
  pub attested_at : SystemTime

-- `evidence.iter().filter(|e| e.binds_to(candidate, challenge))`.
unfoldable pub bound : Candidate → Bytes → List Evidence → List Evidence
bound c challenge [] = []
bound c challenge (e ∷ es) =
    let rest = bound c challenge es in if binds_to c challenge e then e ∷ rest else rest

-- One round of the fold: presence and its observation move together.
unfoldable pub fold_tier : Tier → Tier → Tier
unfolding presence_gt
fold_tier acc t =
    let assurance = max_assurance acc.assurance t.assurance in
    if presence_gt t.presence acc.presence
      || (presence_rank t.presence == presence_rank acc.presence
          && ltb acc.attested_at t.attested_at)
    then record { assurance = assurance; presence = t.presence; attested_at = t.attested_at }
    else record acc { assurance = assurance }

unfoldable pub fold_tiers : Tier → List Evidence → Tier
fold_tiers acc [] = acc
fold_tiers acc (e ∷ es) = fold_tiers (fold_tier acc (tier e)) es

-- The rule over the fold: hardware-bound and IdP-verified is the third tier.
unfoldable pub raise_iaa3 : Tier → IdentityAssurance
raise_iaa3 t =
    if leb (presence_rank hardware) (presence_rank t.presence)
      && leb (assurance_rank IdentityAssurance.iaa2) (assurance_rank t.assurance)
    then IdentityAssurance.iaa3
    else t.assurance

-- `find_map` over the bound evidence, `unwrap_or` the candidate's own domain.
unfoldable pub anchor : Candidate → List Evidence → TrustDomain
anchor c [] = to_trust_domain c.domain
anchor c (idp_verified t ∷ es) = org_oidc t.issuer_domain
anchor c (e ∷ es) = anchor c es

unfoldable pub claim_of : Candidate → List Evidence → Tier → Claim
claim_of c evidence t = record {
  source = c.source;
  assurance = raise_iaa3 t;
  presence = t.presence;
  spiffe_id = record { trust_domain = anchor c evidence; path = c.path };
  display_name = c.display_name;
  attested_at = t.attested_at;
}

-- `evidence.split_first()?` and what follows it.
unfoldable pub derive_bound : Candidate → List Evidence → Option Claim
derive_bound c [] = none
derive_bound c (first ∷ rest) = some (claim_of c (first ∷ rest) (fold_tiers (tier first) rest))

-- `Claim::derive`.
unfoldable pub derive : Candidate → Bytes → List Evidence → Option Claim
derive c challenge evidence = derive_bound c (bound c challenge evidence)

-- `Claim::age_at`.
unfoldable pub age_at : Claim → SystemTime → Option Duration
age_at claim now = duration_since now claim.attested_at
