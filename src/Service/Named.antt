-- ===== src/Service/Named.antt =====
-- Of `fetch_jwtsvid`: the branch for a request that names an identity.
use mathlib.Core.Path.{ap₂}
use project_persona.Prelude.{
  ◌≡◌, ◌≢◌, refl, sym, ap, ◌∙◌, true, &&_parts, Option, none, some, List, [], ◌∷◌, map, Result, ok,
  Result-cases, Option-cases, Bool-cases, >>=-eq-ok, ok-injective, inl, inr,
}
use project_persona.Text.{Bytes, same, same_iff}
use project_persona.SpiffeId.{
  TrustDomain, tailscale, org_oidc, personal_did, piv_issuer, ssh_local, pgp_local, SpiffeId, uri,
}
use project_persona.SpiffeId
use project_persona.Claim.{SystemTime, Candidate, Claim}
use project_persona.Consumer.{ConsumerIdentity}
use project_persona.Assurance.{PresenceLevel}
use project_persona.Issue.{Status, pseudonymous_id, Jwtsvid}
use project_persona.Issue.Gates.{issue-Says}
use project_persona.Service.{
  Attestor, WorkloadApiService, JwtsvidRequest, Asked, enumerate_all, prove_one, find_path,
  same_domain, same_id, only_wanted, prove_requested, require_of, max_age_of, issue_all, issue_for,
  reply_with, answer, check_request, fetch_jwtsvid,
}
use project_persona.Service.Policy.{check_request-eq-ok}
use project_persona.Service.Consent.{read_selector-named}

pub same_domain-eq-true : (d e : TrustDomain) → same_domain d e ≡ true → d ≡ e
unfolding same_domain
same_domain-eq-true tailscale tailscale h = refl
same_domain-eq-true (org_oidc d) (org_oidc e) h = ap org_oidc ((same_iff d e).0 h)
same_domain-eq-true (personal_did d) (personal_did e) h = ap personal_did ((same_iff d e).0 h)
same_domain-eq-true (piv_issuer d) (piv_issuer e) h = ap piv_issuer ((same_iff d e).0 h)
same_domain-eq-true ssh_local ssh_local h = refl
same_domain-eq-true pgp_local pgp_local h = refl
same_domain-eq-true d e h = absurd cc

same_id-eq-true : (a b : SpiffeId) → same_id a b ≡ true → a ≡ b
unfolding same_id
same_id-eq-true a b h =
    let (p, q) = &&_parts (same_domain a.trust_domain b.trust_domain) (same a.path b.path) h in
    ap₂ (λ d s. record { trust_domain = d; path = s })
      (same_domain-eq-true a.trust_domain b.trust_domain p) ((same_iff a.path b.path).0 q)

only_wanted-eq-ok :
    (want : SpiffeId) (o : Option Claim) {ks : List Claim}
    → only_wanted want o ≡ ok ks
    → (k : Claim) × (ks ≡ k ∷ []) × (k.spiffe_id ≡ want)
unfolding only_wanted
only_wanted-eq-ok want none h = absurd cc
only_wanted-eq-ok want (some k) h = elim (Bool-cases (same_id k.spiffe_id want)) [
  | inl e ↦ (k, sym (ok-injective (rw e at h)), same_id-eq-true k.spiffe_id want e)
  | inr e ↦ absurd (cc (rw e at h))
]

wanted-eq-ok :
    (want : SpiffeId) (challenge : Bytes) (cs : List (Attestor × Candidate)) {ks : List Claim}
    → (prove_requested (some want) challenge cs).1 ≡ ok ks
    → (k : Claim) × (ks ≡ k ∷ []) × (k.spiffe_id ≡ want)
unfolding prove_requested
wanted-eq-ok want challenge cs h = elim (Option-cases (find_path want.path cs)) [
  | inl e ↦ absurd (cc (rw (e, prove_requested) at h))
  | inr (found, e) ↦
      only_wanted-eq-ok want (prove_one [] found challenge) (rw (e, prove_requested) at h)
]

one_svid :
    (one : Claim → Result Status Jwtsvid) (k : Claim) {svids : List Jwtsvid}
    → reply_with (issue_all one (k ∷ [])) ≡ ok svids
    → (s : Jwtsvid) × (svids ≡ s ∷ []) × (one k ≡ ok s)
unfolding issue_all reply_with
one_svid one k h = elim (Result-cases (one k)) [
  | inl (s, e) ↦ (s, sym (ok-injective (rw (e, issue_all, reply_with) at h)), e)
  | inr (f, e) ↦ absurd (cc (rw (e, issue_all, reply_with) at h))
]

issue_for-named :
    (service : WorkloadApiService) (q : Asked) (now : SystemTime) (k : Claim) {s : Jwtsvid}
    → issue_for service q now k ≡ ok s
    → s.spiffe_id ≡ uri (pseudonymous_id service.signer k.spiffe_id q.consumer)
unfolding issue_for
issue_for-named service q now k e =
    (issue-Says service.signer service.unix_epoch k q.consumer (map (λ e. e.audience) q.exts)
      (require_of PresenceLevel.none q.exts) (max_age_of q.exts) now e).2.0

answer-named :
    (service : WorkloadApiService) (q : Asked) (want : SpiffeId) (challenge : Bytes)
    (now : SystemTime) {svids : List Jwtsvid}
    → q.requested ≡ some want
    → (answer service q challenge now).reply ≡ ok svids
    → (s : Jwtsvid) × (svids ≡ s ∷ [])
      × (s.spiffe_id ≡ uri (pseudonymous_id service.signer want q.consumer))
unfolding answer
answer-named service q want challenge now r h =
    let listed = enumerate_all service.attestors in
    let (ks, proved, done) =
      >>=-eq-ok (prove_requested q.requested challenge listed).1
        (λ ks. reply_with (issue_all (issue_for service q now) ks)) h in
    let (k, ks_are, id) = wanted-eq-ok want challenge listed (rw r at proved) in
    let (s, svids_are, made) = one_svid (issue_for service q now) k (rw ks_are at done) in
    (
      s,
      svids_are,
      issue_for-named service q now k made
          ∙ ap (λ i. uri (pseudonymous_id service.signer i q.consumer)) id,
    )

-- A request that names an identity and is not refused gets one token, and that token is for the
-- consumer's pseudonym of exactly the identity that was named.
pub fetch_jwtsvid-wanted :
    (service : WorkloadApiService) (peer : Option ConsumerIdentity) (req : JwtsvidRequest)
    (challenge : Option Bytes) (now : SystemTime) {svids : List Jwtsvid}
    → req.spiffe_id ≢ []
    → (fetch_jwtsvid service peer req challenge now).reply ≡ ok svids
    → (consumer : ConsumerIdentity) × (want : SpiffeId) × (s : Jwtsvid) × (peer ≡ some consumer)
      × (SpiffeId.parse req.spiffe_id ≡ ok want)
      × (svids ≡ s ∷ [])
      × (s.spiffe_id ≡ uri (pseudonymous_id service.signer want consumer))
unfolding fetch_jwtsvid
fetch_jwtsvid-wanted service peer req challenge now named h =
    elim (Result-cases (check_request peer req)) [
      | inr (e, k) ↦ absurd (cc (rw (k, fetch_jwtsvid) at h))
      | inl (q, k) ↦ elim (Option-cases challenge) [
        | inl n ↦ absurd (cc (rw (k, fetch_jwtsvid, n) at h))
        | inr (bytes, n) ↦
            let (from, _, sel) = check_request-eq-ok peer req k in
            let (want, parsed, is_want) = read_selector-named req.spiffe_id named sel in
            let (s, only, id) =
              answer-named service q want bytes now is_want (rw (k, fetch_jwtsvid, n) at h) in
            (q.consumer, want, s, from, parsed, only, id)
      ]
    ]
