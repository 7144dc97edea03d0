-- ===== src/Service/Granted.antt =====
-- Of `fetch_jwtsvid`: where the tokens of a reply come from.
use mathlib.Core.List.{Memᴰ}
use project_persona.Prelude.{
  ◌≡◌, ◌≢◌, refl, sym, subst, Option, none, some, List, [], ◌∷◌, ◌++◌, map, All, All-map, Result,
  ok, Result-cases, Option-cases, Bool-cases, >>=-eq-ok, ok-injective, inl, inr,
}
use project_persona.Text.{Bytes}
use project_persona.Assurance.{PresenceLevel}
use project_persona.SpiffeId.{SpiffeId}
use project_persona.Claim.{SystemTime, Candidate, Evidence, Claim, derive, age_at}
use project_persona.Consumer.{ConsumerIdentity}
use project_persona.Issue.{Status, Jwtsvid, honoured_presence}
use project_persona.Issue.Gates.{Says, issue-Says}
use project_persona.Service.{
  Attestor, WorkloadApiService, JwtsvidRequest, Asked, enumerate_all, prove_one, prove_silent,
  is_silent, find_path, same_id, only_wanted, prove_requested, require_of, max_age_of, issue_all,
  issue_for, reply_with, answer, check_request, fetch_jwtsvid,
}
use project_persona.Service.Policy.{MeetsAudience, request-Meets, check_request-eq-ok}
use project_persona.Service.Consent.{find_path-eq-some}
use project_persona.Service.Order.{best_first}

-- A claim that was derived from what a source proved of a candidate that it lists, under the
-- challenge of the request.
abbrev pub Proven : List (Attestor × Candidate) → Bytes → Claim → Type 0
Proven listed challenge k =
    (a : Attestor) × (c : Candidate) × (before : List Candidate) × (evidence : List Evidence) × Memᴰ
      (a, c) listed
    × (a.prove before c challenge ≡ ok evidence)
    × (derive c challenge evidence ≡ some k)

prove_one-Proven :
    (listed : List (Attestor × Candidate)) (challenge : Bytes) (before : List Candidate)
    (a : Attestor) (c : Candidate) {k : Claim}
    → Memᴰ (a, c) listed
    → prove_one before (a, c) challenge ≡ some k
    → Proven listed challenge k
unfolding prove_one
prove_one-Proven listed challenge before a c m h =
    elim (Result-cases (a.prove before c challenge)) [
      | inr (e, p) ↦ absurd (cc (rw p at h))
      | inl (evidence, p) ↦ (a, c, before, evidence, m, p, rw p at h)
    ]

pub prove_silent-Proven :
    (listed : List (Attestor × Candidate)) (challenge : Bytes) (before : List Candidate)
    (cs : List (Attestor × Candidate))
    → ((x : Attestor × Candidate) → Memᴰ x cs → Memᴰ x listed)
    → All (Proven listed challenge) (prove_silent challenge before cs).1
unfolding prove_silent
prove_silent-Proven listed challenge before [] sub = tt
prove_silent-Proven listed challenge before ((a, c) ∷ rest) sub =
    let inner : (x : Attestor × Candidate) → Memᴰ x rest → Memᴰ x listed =
      λ x m. sub x (Memᴰ.tail m) in
    elim (Bool-cases (is_silent c.proof_cost)) [
      | inr e ↦ rw (e, prove_silent) (prove_silent-Proven listed challenge before rest inner)
      | inl e ↦
          let later = prove_silent-Proven listed challenge (before ++ c ∷ []) rest inner in
          elim (Option-cases (prove_one before (a, c) challenge)) [
            | inl n ↦ rw (e, prove_silent, n) later
            | inr (k, n) ↦
                rw (e, prove_silent, n)
                  (
                    prove_one-Proven listed challenge before a c (sub (a, c) (Memᴰ.head refl)) n,
                    later,
                  )
          ]
    ]

only_wanted-eq-ok :
    (want : SpiffeId) (o : Option Claim) {ks : List Claim}
    → only_wanted want o ≡ ok ks
    → (k : Claim) × (o ≡ some k) × (ks ≡ k ∷ [])
unfolding only_wanted
only_wanted-eq-ok want none h = absurd cc
only_wanted-eq-ok want (some k) h = elim (Bool-cases (same_id k.spiffe_id want)) [
  | inl e ↦ (k, refl, sym (ok-injective (rw e at h)))
  | inr e ↦ absurd (cc (rw e at h))
]

prove_requested-Proven :
    (requested : Option SpiffeId) (challenge : Bytes) (cs : List (Attestor × Candidate))
    {ks : List Claim}
    → (prove_requested requested challenge cs).1 ≡ ok ks
    → All (Proven cs challenge) ks
unfolding prove_requested
prove_requested-Proven none challenge cs h = subst (All (Proven cs challenge)) (ok-injective h) (
    (best_first (prove_silent challenge [] cs).1).2 (Proven cs challenge)
      (prove_silent-Proven cs challenge [] cs (λ x m. m)))
prove_requested-Proven (some want) challenge cs h = elim (Option-cases (find_path want.path cs)) [
  | inl e ↦ absurd (cc (rw (e, prove_requested) at h))
  | inr ((a, c), e) ↦
      let (m, _) = find_path-eq-some want.path cs e in
      let (k, p, q) =
        only_wanted-eq-ok want (prove_one [] (a, c) challenge) (rw (e, prove_requested) at h) in
      subst (All (Proven cs challenge)) (sym q) (prove_one-Proven cs challenge [] a c m p, tt)
]

issue_all-from :
    (one : Claim → Result Status Jwtsvid) (P : Claim → Type 0) (ks : List Claim)
    → All P ks
    → All (λ s. (k : Claim) × P k × (one k ≡ ok s)) (issue_all one ks).0
unfolding issue_all
issue_all-from one P [] h = tt
issue_all-from one P (k ∷ ks) h = elim (Result-cases (one k)) [
  | inl (s, e) ↦ rw (e, issue_all) ((k, h.0, e), issue_all-from one P ks h.1)
  | inr (f, e) ↦ rw (e, issue_all) (issue_all-from one P ks h.1)
]

pub reply_with-eq-ok :
    (r : List Jwtsvid × Option Status) {svids : List Jwtsvid}
    → reply_with r ≡ ok svids
    → (r.0 ≡ svids) × (svids ≢ [])
unfolding reply_with
reply_with-eq-ok (s ∷ svids, refusal) h = (ok-injective h, λ e. absurd (cc))
reply_with-eq-ok ([], some status) h = absurd cc
reply_with-eq-ok ([], none) h = absurd cc

-- A token that a claim was let through to: what it says, and the audiences that it meets.
abbrev pub Granted :
    WorkloadApiService → ConsumerIdentity → List Bytes → SystemTime → Claim → Jwtsvid → Type 0
Granted service consumer audience now k s =
    Says service.signer k consumer now s
    × All (MeetsAudience (age_at k now) (honoured_presence (age_at k now) k.presence)) audience

issue_for-Granted :
    (service : WorkloadApiService) (peer : Option ConsumerIdentity) (req : JwtsvidRequest)
    (now : SystemTime) (k : Claim) {q : Asked} {s : Jwtsvid}
    → check_request peer req ≡ ok q
    → issue_for service q now k ≡ ok s
    → Granted service q.consumer req.audience now k s
unfolding issue_for
issue_for-Granted service peer req now k {q} h e =
    let (fresh, enough, says) =
      issue-Says service.signer service.unix_epoch k q.consumer (map (λ e. e.audience) q.exts)
        (require_of PresenceLevel.none q.exts) (max_age_of q.exts) now e in
    (
      says,
      request-Meets (age_at k now) (honoured_presence (age_at k now) k.presence) req.audience
          (check_request-eq-ok peer req h).1 enough fresh,
    )

answer-from :
    (service : WorkloadApiService) (q : Asked) (challenge : Bytes) (now : SystemTime)
    {svids : List Jwtsvid}
    → (answer service q challenge now).reply ≡ ok svids
    → (svids ≢ [])
      × All
          (λ s.
            (k : Claim) × Proven (enumerate_all service.attestors) challenge k
            × (issue_for service q now k ≡ ok s))
          svids
unfolding answer
answer-from service q challenge now h =
    let listed = enumerate_all service.attestors in
    let (ks, proved, done) =
      >>=-eq-ok (prove_requested q.requested challenge listed).1
        (λ ks. reply_with (issue_all (issue_for service q now) ks)) h in
    let (svids_are, some_svid) = reply_with-eq-ok (issue_all (issue_for service q now) ks) done in
    (
      some_svid,
      subst (All _) svids_are (
          issue_all-from (issue_for service q now) (Proven listed challenge) ks
            (prove_requested-Proven q.requested challenge listed proved)),
    )

-- A reply with tokens has at least one, and went to an attested consumer, under the challenge of the
-- request. Each token comes from a claim that a source proved of a candidate that it lists; it names
-- the pseudonym of that claim's identity for this consumer and carries that claim's tag; and every
-- audience of the request was understood, and its demands on presence and age are met by the claim.
pub fetch_jwtsvid-Granted :
    (service : WorkloadApiService) (peer : Option ConsumerIdentity) (req : JwtsvidRequest)
    (challenge : Option Bytes) (now : SystemTime) {svids : List Jwtsvid}
    → (fetch_jwtsvid service peer req challenge now).reply ≡ ok svids
    → (svids ≢ [])
      × ((consumer : ConsumerIdentity) × (bytes : Bytes) × (peer ≡ some consumer)
          × (challenge ≡ some bytes)
          × All
              (λ s.
                (k : Claim) × Proven (enumerate_all service.attestors) bytes k
                × Granted service consumer req.audience now k s)
              svids)
unfolding fetch_jwtsvid
fetch_jwtsvid-Granted service peer req challenge now {svids} h =
    elim (Result-cases (check_request peer req)) [
      | inr (e, k) ↦ absurd (cc (rw (k, fetch_jwtsvid) at h))
      | inl (q, k) ↦ elim (Option-cases challenge) [
        | inl n ↦ absurd (cc (rw (k, fetch_jwtsvid, n) at h))
        | inr (bytes, n) ↦
            let (some_svid, from) =
              answer-from service q bytes now (rw (k, fetch_jwtsvid, n) at h) in
            (
              some_svid,
              (
                q.consumer,
                bytes,
                (check_request-eq-ok peer req k).0,
                n,
                All-map (λ s w. (w.0, w.1, issue_for-Granted service peer req now w.0 k w.2)) svids
                    from,
              ),
            )
      ]
    ]
