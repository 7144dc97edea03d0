-- ===== src/Service/Ranked.antt =====
-- Of `fetch_jwtsvid`: the order of the tokens that a request without an identity gets.
use mathlib.Core.List.{Memᴰ}
use project_persona.Prelude.{
  ◌≡◌, sym, subst, Option, none, some, List, [], ◌∷◌, All, Result, ok, err, Result-cases,
  Option-cases, >>=-eq-ok, ok-injective, inl, inr,
}
use project_persona.Text.{Bytes}
use project_persona.Claim.{SystemTime, Candidate, Claim}
use project_persona.Consumer.{ConsumerIdentity}
use project_persona.Issue.{Status, Jwtsvid}
use project_persona.Service.{
  Attestor, WorkloadApiService, JwtsvidRequest, Asked, enumerate_all, prove_silent, read_selector,
  prove_requested, issue_all, issue_for, reply_with, answer, check_request, fetch_jwtsvid,
}
use project_persona.Service.Policy.{check_request-eq-ok}
use project_persona.Service.Order.{Descending, Distinct, Covered, best_first}
use project_persona.Service.Granted.{Proven, prove_silent-Proven, reply_with-eq-ok}

-- The tokens of claims in their order, where some claims are refused one.
pub data InOrder (one : Claim → Result Status Jwtsvid) : List Claim → List Jwtsvid → Type 0 where
  ended : InOrder one [] []
  token :
      {k : Claim} {s : Jwtsvid} {ks : List Claim} {svids : List Jwtsvid}
      → one k ≡ ok s
      → InOrder one ks svids
      → InOrder one (k ∷ ks) (s ∷ svids)
  refused :
      {k : Claim} {f : Status} {ks : List Claim} {svids : List Jwtsvid}
      → one k ≡ err f
      → InOrder one ks svids
      → InOrder one (k ∷ ks) svids

issue_all-InOrder :
    (one : Claim → Result Status Jwtsvid) (ks : List Claim) → InOrder one ks (issue_all one ks).0
unfolding issue_all
issue_all-InOrder one [] = ended
issue_all-InOrder one (k ∷ ks) = elim (Result-cases (one k)) [
  | inl (s, e) ↦ rw (e, issue_all) (token e (issue_all-InOrder one ks))
  | inr (f, e) ↦ rw (e, issue_all) (refused e (issue_all-InOrder one ks))
]

-- The claims that a request without an identity is answered from: best first, one of each identity,
-- each of them proven, and none of those that were proven without one of its identity that is at
-- least as good.
abbrev pub Ranked : List (Attestor × Candidate) → Bytes → List Claim → Type 0
Ranked listed challenge ks =
    Descending ks
    × Distinct ks
    × All (Proven listed challenge) ks
    × ((l : Claim) → Memᴰ l (prove_silent challenge [] listed).1 → Covered ks l)

prove_requested-Ranked :
    (listed : List (Attestor × Candidate)) (challenge : Bytes) {ks : List Claim}
    → (prove_requested none challenge listed).1 ≡ ok ks
    → Ranked listed challenge ks
unfolding prove_requested
prove_requested-Ranked listed challenge h =
    let (sorted, apart, kept, covered) = best_first (prove_silent challenge [] listed).1 in
    subst (Ranked listed challenge) (ok-injective h) (
      sorted,
      apart,
      kept (Proven listed challenge) (prove_silent-Proven listed challenge [] listed (λ x m. m)),
      covered,
    )

answer-InOrder :
    (service : WorkloadApiService) (q : Asked) (challenge : Bytes) (now : SystemTime)
    {svids : List Jwtsvid}
    → none ≡ q.requested
    → (answer service q challenge now).reply ≡ ok svids
    → (ks : List Claim) × Ranked (enumerate_all service.attestors) challenge ks
      × InOrder (issue_for service q now) ks svids
unfolding answer
answer-InOrder service q challenge now absent h =
    let listed = enumerate_all service.attestors in
    let (ks, proved, done) =
      >>=-eq-ok (prove_requested q.requested challenge listed).1
        (λ ks. reply_with (issue_all (issue_for service q now) ks)) h in
    (
      ks,
      prove_requested-Ranked listed challenge
          (subst (λ o. (prove_requested o challenge listed).1 ≡ ok ks) (sym absent) proved),
      subst (InOrder (issue_for service q now) ks)
          (reply_with-eq-ok (issue_all (issue_for service q now) ks) done).0
          (issue_all-InOrder (issue_for service q now) ks),
    )

-- A request that names no identity and gets tokens gets them in the order of the claims that it is
-- answered from, less those that are refused a token. None of these claims comes before one of a
-- higher assurance, no two are of one identity, each was proven of a candidate that a source lists,
-- and each claim that was proven is of the identity of one of them which has at least its assurance.
pub fetch_jwtsvid-Ranked :
    (service : WorkloadApiService) (peer : Option ConsumerIdentity) (req : JwtsvidRequest)
    (challenge : Option Bytes) (now : SystemTime) {svids : List Jwtsvid}
    → req.spiffe_id ≡ []
    → (fetch_jwtsvid service peer req challenge now).reply ≡ ok svids
    → (q : Asked) × (bytes : Bytes) × (ks : List Claim) × (check_request peer req ≡ ok q)
      × (challenge ≡ some bytes)
      × Ranked (enumerate_all service.attestors) bytes ks
      × InOrder (issue_for service q now) ks svids
unfolding fetch_jwtsvid read_selector
fetch_jwtsvid-Ranked service peer req challenge now unnamed h =
    elim (Result-cases (check_request peer req)) [
      | inr (e, k) ↦ absurd (cc (rw (k, fetch_jwtsvid) at h))
      | inl (q, k) ↦ elim (Option-cases challenge) [
        | inl n ↦ absurd (cc (rw (k, fetch_jwtsvid, n) at h))
        | inr (bytes, n) ↦
            let absent : none ≡ q.requested =
              ok-injective (rw unnamed at (check_request-eq-ok peer req k).2) in
            let (ks, ranked, ordered) =
              answer-InOrder service q bytes now absent (rw (k, fetch_jwtsvid, n) at h) in
            (q, bytes, ks, k, n, ranked, ordered)
      ]
    ]
