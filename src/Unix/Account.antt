-- ===== src/Unix/Account.antt =====
-- The claim that the account yields.
use project_persona.Prelude.{
  ℕ, ◌^◌, ◌<◌, ◌≢◌, some-injective, ◌≡◌, refl, sym, ap, ◌∙◌, ◌⊎◌, inl, inr, some, List, [], ◌∷◌, ok,
  err, Bool-cases,
}
use mathlib.Core.List.{append_cancel_left}
use project_persona.Text.Decimal.{show_u64, parse_u64, parse_u64-show_u64}
use project_persona.Text.{Bytes, codes, same, same_iff, same_refl}
use project_persona.Assurance.{IdentityAssurance, PresenceLevel, presence_rank}
use project_persona.SpiffeId.{TrustDomain}
use project_persona.Claim.{
  new_candidate, with_attainable, with_proof_cost, SystemTime, Evidence, Claim, derive,
  derive_bound, bound, claim_of, fold_tiers, raise_iaa3, anchor, tier, to_trust_domain, binds_to,
  platform_assertion,
}
use project_persona.Unix.{UnixAttestor, candidate_of, prove, spiffe_path, not_current}

-- The candidate of the account that a daemon started under is proved exactly while it still runs
-- under it
spiffe_path-injective : (a b : ℕ) → a < 2 ^ 64 → b < 2 ^ 64 → spiffe_path a ≡ spiffe_path b → a ≡ b
unfolding spiffe_path
spiffe_path-injective a b ha hb h = some-injective (
    sym (parse_u64-show_u64 a ha)
    ∙ ap parse_u64 (append_cancel_left (codes "unix/") (show_u64 a) (show_u64 b) h)
    ∙ parse_u64-show_u64 b hb)

-- The claim that names an account of this machine, and nothing more.
abbrev pub account_claim : UnixAttestor → SystemTime → Claim
account_claim unix now = record {
  source = codes "unix";
  assurance = IdentityAssurance.iaa1;
  presence = PresenceLevel.none;
  spiffe_id = record { trust_domain = TrustDomain.ssh_local; path = spiffe_path unix.uid };
  display_name = unix.display_name;
  attested_at = now;
}

pub candidate-claim :
    (unix : UnixAttestor) (now : SystemTime) (challenge : Bytes)
    → derive
        (candidate_of unix)
        challenge
        (platform_assertion (record { account = spiffe_path unix.uid; asked_at = now }) ∷ [])
      ≡ some (account_claim unix now)
unfolding derive bound binds_to candidate_of new_candidate with_attainable with_proof_cost
    derive_bound claim_of fold_tiers raise_iaa3 anchor tier to_trust_domain presence_rank
candidate-claim unix now challenge = rw (same_refl (spiffe_path unix.uid)) refl

-- The account that the source was built under: while the process runs under it, the candidate is
-- proved, and the claim is of the lowest tier, asserts no presence, and names that account and the
-- moment of the question; under any other account the proof is refused.
pub prove-account :
    (unix : UnixAttestor) (uid : ℕ) (now : SystemTime) (challenge : Bytes)
    → uid < 2 ^ 64
    → unix.uid < 2 ^ 64
    → ((uid ≡ unix.uid)
        × ((es : List Evidence) × (prove uid now (candidate_of unix) ≡ ok es)
            × (derive (candidate_of unix) challenge es ≡ some (account_claim unix now))))
      ⊎ ((uid ≢ unix.uid) × (prove uid now (candidate_of unix) ≡ err not_current))
unfolding prove candidate_of new_candidate with_attainable with_proof_cost
prove-account unix uid now challenge hu hs =
    elim (Bool-cases (same (spiffe_path unix.uid) (spiffe_path uid))) [
      | inl e ↦ inl (
        sym (spiffe_path-injective unix.uid uid hs hu ((same_iff _ _).0 e)),
        (_, rw (e, prove) refl, candidate-claim unix now challenge),
      )
      | inr e ↦
          inr
            ((λ q. absurd (cc (rw (q, same_refl (spiffe_path unix.uid)) at e))), rw (e, prove) refl)
    ]
