-- ===== src/Sources/Sound.antt =====
-- What the two sources give as evidence, and the claim that it makes.
use project_persona.Prelude.{
  ◌≡◌, refl, sym, ap, ◌∙◌, inl, inr, true, Option, some, List, [], ◌∷◌, ok, ◌>>=◌, >>=-eq-ok,
  ok-injective, Result-cases, subst,
}
use project_persona.Text.{Bytes}
use project_persona.Assurance.{IdentityAssurance, PresenceLevel, presence_rank, assurance_rank}
use project_persona.Claim.{
  Candidate, SystemTime, Evidence, possession, ChallengeSignature, Claim, derive, derive_bound,
  bound, claim_of, fold_tiers, raise_iaa3, anchor, tier, binds_to, candidate_spiffe_id,
}
use project_persona.Agent.{ed25519_point_of, sign}
use project_persona.DidKey.{ed25519_point}
use project_persona.Possession.{Crypto, verify_ssh_ed25519, verify_did_key_ed25519}
use project_persona.Possession.Sound.{
  Possesses, verify_ssh_ed25519-Possesses, verify_did_key_ed25519-Possesses,
}
use project_persona.Sources.Ssh.{Connection, Environment, chosen_key, signed_by, prove}
use project_persona.Sources.Did.{Chosen}
use project_persona.Sources.Did
use project_persona.Sources.Asked.{Eligible, Configured, chosen_key-Eligible, chosen_did-Configured}

-- The claim that the holder of a key of this machine makes, and nothing more.
abbrev pub key_claim : Candidate → SystemTime → Claim
key_claim c now = record {
  source = c.source;
  assurance = IdentityAssurance.iaa1;
  presence = PresenceLevel.none;
  spiffe_id = candidate_spiffe_id c;
  display_name = c.display_name;
  attested_at = now;
}

pub possession-claim :
    (c : Candidate) (challenge : Bytes) (s : ChallengeSignature)
    → binds_to c challenge (possession s) ≡ true
    → derive c challenge (possession s ∷ []) ≡ some (key_claim c s.observed_at)
unfolding derive bound derive_bound claim_of fold_tiers raise_iaa3 anchor tier presence_rank
    assurance_rank candidate_spiffe_id
possession-claim c challenge s h = rw (h) refl

-- One signature, by that point over the challenge, and the claim that it makes.
abbrev pub Shows : Crypto → SystemTime → Candidate → Bytes → Bytes → List Evidence → Type 0
Shows crypto now c challenge point es =
    (s : ChallengeSignature) × (es ≡ possession s ∷ [])
    × Possesses crypto now c challenge point s
    × (derive c challenge es ≡ some (key_claim c now))

Possesses-Shows :
    (crypto : Crypto) (now : SystemTime) (c : Candidate) (challenge point : Bytes)
    (s : ChallengeSignature) (es : List Evidence)
    → possession s ∷ [] ≡ es
    → Possesses crypto now c challenge point s
    → Shows crypto now c challenge point es
Possesses-Shows crypto now c challenge point s es one has = (
  s,
  sym one,
  has,
  subst (λ l. derive c challenge l ≡ some (key_claim c now)) one
      (possession-claim c challenge s has.4 ∙ ap (λ t. some (key_claim c t)) has.3),
)

signed_by-Shows :
    (crypto : Crypto) (now : SystemTime) (c : Candidate) (challenge : Bytes)
    (chosen : Connection × Bytes) (es : List Evidence)
    → signed_by crypto now c challenge chosen ≡ ok es
    → (point : Bytes) × (ed25519_point_of chosen.1 ≡ some point)
      × Shows crypto now c challenge point es
unfolding signed_by
signed_by-Shows crypto now c challenge (agent, key_blob) es h =
    let (signature, _, verified) =
      >>=-eq-ok (sign agent.second key_blob challenge c.path)
        (λ signature. verify_ssh_ed25519 crypto now c challenge key_blob signature >>= λ evidence.
          ok (possession evidence ∷ []))
        h in
    let (s, checked, last) =
      >>=-eq-ok (verify_ssh_ed25519 crypto now c challenge key_blob signature)
        (λ evidence. ok (possession evidence ∷ [])) verified in
    let (named, (point, found, has)) =
      verify_ssh_ed25519-Possesses crypto now c challenge key_blob signature checked in
    (point, found, Possesses-Shows crypto now c challenge point s es (ok-injective last) has)

-- When the ssh source proves a candidate, the agent lists at that time a key that names it, and the
-- evidence is one signature by the ed25519 point of that key over this challenge, dated now; the
-- claim that it makes is of the lowest tier, asserts no presence, and names the candidate.
pub prove-Shows :
    (crypto : Crypto) (env : Environment) (now : SystemTime) (c : Candidate) (challenge : Bytes)
    (es : List Evidence)
    → (prove crypto env now c challenge).result ≡ ok es
    → (key_blob : Bytes) × Eligible crypto env c key_blob
      × (point : Bytes) × (ed25519_point_of key_blob ≡ some point)
      × Shows crypto now c challenge point es
unfolding prove
prove-Shows crypto env now c challenge es h = elim (Result-cases (chosen_key crypto env c)) [
  | inr (e, q) ↦ absurd (cc (rw (q, prove) at h))
  | inl (chosen, q) ↦
      let (point, found, shows) =
        signed_by-Shows crypto now c challenge chosen es (rw (q, prove) at h) in
      (chosen.1, chosen_key-Eligible crypto env c chosen q, point, found, shows)
]

did_signed_by-Shows :
    (crypto : Crypto) (now : SystemTime) (c : Candidate) (challenge : Bytes) (chosen : Chosen)
    (es : List Evidence)
    → Did.signed_by crypto now c challenge chosen ≡ ok es
    → (point : Bytes) × (ed25519_point chosen.did ≡ some point)
      × Shows crypto now c challenge point es
unfolding Did.signed_by
did_signed_by-Shows crypto now c challenge chosen es h =
    let (signature, _, verified) =
      >>=-eq-ok (sign chosen.agent.second chosen.key_blob challenge c.path)
        (λ signature.
          verify_did_key_ed25519 crypto now c challenge chosen.did signature >>= λ evidence.
          ok (possession evidence ∷ []))
        h in
    let (s, checked, last) =
      >>=-eq-ok (verify_did_key_ed25519 crypto now c challenge chosen.did signature)
        (λ evidence. ok (possession evidence ∷ [])) verified in
    let (named, (point, found, has)) =
      verify_did_key_ed25519-Possesses crypto now c challenge chosen.did signature checked in
    (point, found, Possesses-Shows crypto now c challenge point s es (ok-injective last) has)

-- When the did:key source proves a candidate, a configured identifier names the candidate, the agent
-- lists at that time the key that the identifier encodes, and the evidence is one signature by the
-- point of that key over this challenge, dated now; the claim that it makes is of the lowest tier,
-- asserts no presence, and names the candidate.
pub did_prove-Shows :
    (crypto : Crypto) (env : Environment) (raw : Option Bytes) (now : SystemTime) (c : Candidate)
    (challenge : Bytes) (es : List Evidence)
    → (Did.prove crypto env raw now c challenge).result ≡ ok es
    → (did : Bytes) × (key_blob : Bytes) × Configured crypto env raw c did key_blob
      × (point : Bytes) × (ed25519_point did ≡ some point)
      × Shows crypto now c challenge point es
unfolding Did.prove
did_prove-Shows crypto env raw now c challenge es h =
    elim (Result-cases (Did.chosen_key crypto env raw c)) [
      | inr (e, q) ↦ absurd (cc (rw (q, Did.prove) at h))
      | inl (chosen, q) ↦
          let (point, found, shows) =
            did_signed_by-Shows crypto now c challenge chosen es (rw (q, Did.prove) at h) in
          (
            chosen.did,
            chosen.key_blob,
            chosen_did-Configured crypto env raw c chosen q,
            point,
            found,
            shows,
          )
    ]
