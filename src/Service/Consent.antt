-- ===== src/Service/Consent.antt =====
-- Of `fetch_jwtsvid`: which proofs a request asks the sources for.
use mathlib.Core.List.{Memᴰ}
use project_persona.Prelude.{
  ◌≤◌, ◌≡◌, ◌≢◌, ◌⊎◌, refl, sym, true, Option, none, some, List, [], ◌∷◌, ◌++◌, arith, All,
  All-append, All-map, some-injective, length, ok, Result-cases, Option-cases, Bool-cases,
  ok-injective, inl, inr,
}
use project_persona.Text.{Bytes, same, same_iff}
use project_persona.Consumer.{ConsumerIdentity}
use project_persona.SpiffeId.{SpiffeId}
use project_persona.SpiffeId
use project_persona.Claim.{SystemTime, Candidate, ProofCost, silent}
use project_persona.Service.{
  Attestor, WorkloadApiService, JwtsvidRequest, Asked, enumerate_all, is_silent, prove_silent,
  find_path, prove_requested, read_selector, check_request, answer, fetch_jwtsvid,
}
use project_persona.Service.Policy.{check_request-eq-ok}

-- A candidate that some source of the service lists.
abbrev pub Listed : List Attestor → Candidate → Type 0
Listed attestors c = (a : Attestor) × Memᴰ (a, c) (enumerate_all attestors)

-- The proofs of a request are those of its two branches, or none.
fetch_jwtsvid-asked :
    (service : WorkloadApiService) (peer : Option ConsumerIdentity) (req : JwtsvidRequest)
    (challenge : Option Bytes) (now : SystemTime)
    → ((fetch_jwtsvid service peer req challenge now).asked ≡ [])
      ⊎ ((q : Asked) × (bytes : Bytes) × (read_selector req.spiffe_id ≡ ok q.requested)
          × ((fetch_jwtsvid service peer req challenge now).asked
              ≡ (prove_requested q.requested bytes (enumerate_all service.attestors)).0))
unfolding fetch_jwtsvid answer
fetch_jwtsvid-asked service peer req challenge now = elim (Result-cases (check_request peer req)) [
  | inr (e, k) ↦ inl (rw (k, fetch_jwtsvid) refl)
  | inl (q, k) ↦ elim (Option-cases challenge) [
    | inl n ↦ inl (rw (k, fetch_jwtsvid, n) refl)
    | inr (bytes, n) ↦
        inr (q, bytes, (check_request-eq-ok peer req k).2, rw (k, fetch_jwtsvid, n) refl)
  ]
]

is_silent-eq-true : (p : ProofCost) → is_silent p ≡ true → p ≡ silent
unfolding is_silent
is_silent-eq-true p h = ground arith

abbrev SilentOf : List (Attestor × Candidate) → Candidate → Type 0
SilentOf all c = (c.proof_cost ≡ silent) × ((a : Attestor) × Memᴰ (a, c) all)

prove_silent-SilentOf :
    (challenge : Bytes) (all : List (Attestor × Candidate)) (before : List Candidate)
    (cs : List (Attestor × Candidate))
    → ((x : Attestor × Candidate) → Memᴰ x cs → Memᴰ x all)
    → All (SilentOf all) before
    → All (SilentOf all) (prove_silent challenge before cs).0
unfolding prove_silent
prove_silent-SilentOf challenge all before [] sub h = h
prove_silent-SilentOf challenge all before ((a, c) ∷ rest) sub h =
    elim (Bool-cases (is_silent c.proof_cost)) [
      | inr e ↦
          rw (e, prove_silent)
            (prove_silent-SilentOf challenge all before rest (λ x m. sub x (Memᴰ.tail m)) h)
      | inl e ↦
          rw (e, prove_silent)
            (prove_silent-SilentOf challenge all (before ++ c ∷ []) rest
              (λ x m. sub x (Memᴰ.tail m))
              (All-append (SilentOf all) before (c ∷ []) h
                ((is_silent-eq-true c.proof_cost e, (a, sub (a, c) (Memᴰ.head refl))), tt)))
    ]

-- A request that names no identity asks only for proofs of candidates that a source lists and that
-- declare that proving them cannot prompt a human, whatever else is wrong with it.
pub fetch_jwtsvid-silent :
    (service : WorkloadApiService) (peer : Option ConsumerIdentity) (req : JwtsvidRequest)
    (challenge : Option Bytes) (now : SystemTime)
    → req.spiffe_id ≡ []
    → All
        (λ c. (c.proof_cost ≡ silent) × Listed service.attestors c)
        (fetch_jwtsvid service peer req challenge now).asked
unfolding read_selector prove_requested
fetch_jwtsvid-silent service peer req challenge now unnamed =
    elim (fetch_jwtsvid-asked service peer req challenge now) [
      | inl e ↦ rw e tt
      | inr (q, bytes, sel, e) ↦
          let absent : none ≡ q.requested = ok-injective (rw unnamed at sel) in
          rw (e, ← absent)
            (prove_silent-SilentOf bytes (enumerate_all service.attestors) []
              (enumerate_all service.attestors) (λ x m. m) tt)
    ]

pub find_path-eq-some :
    (path : Bytes) (cs : List (Attestor × Candidate)) {found : Attestor × Candidate}
    → find_path path cs ≡ some found
    → Memᴰ found cs × (found.1.path ≡ path)
unfolding find_path
find_path-eq-some path [] h = cc
find_path-eq-some path ((a, c) ∷ rest) h = elim (Bool-cases (same c.path path)) [
  | inl e ↦ rw (← some-injective (rw e at h)) (Memᴰ.head refl, (same_iff c.path path).0 e)
  | inr e ↦ let (m, p) = find_path-eq-some path rest (rw e at h) in (Memᴰ.tail m, p)
]

named_asked :
    (want : SpiffeId) (challenge : Bytes) (cs : List (Attestor × Candidate))
    → (length (prove_requested (some want) challenge cs).0 ≤ 1)
      × All
          (λ c. (c.path ≡ want.path) × ((a : Attestor) × Memᴰ (a, c) cs))
          (prove_requested (some want) challenge cs).0
unfolding prove_requested
named_asked want challenge cs = elim (Option-cases (find_path want.path cs)) [
  | inl e ↦ rw (e, prove_requested, length) (omega arith, tt)
  | inr ((a, c), e) ↦
      let (m, p) = find_path-eq-some want.path cs e in
      rw (e, prove_requested, length) (omega arith, ((p, (a, m)), tt))
]

pub read_selector-named :
    (raw : Bytes) {o : Option SpiffeId}
    → raw ≢ []
    → read_selector raw ≡ ok o
    → (want : SpiffeId) × (SpiffeId.parse raw ≡ ok want) × (o ≡ some want)
unfolding read_selector
read_selector-named [] n h = absurd (n refl)
read_selector-named (x ∷ raw) n h = elim (Result-cases (SpiffeId.parse (x ∷ raw))) [
  | inr (e, k) ↦ absurd (cc (rw k at h))
  | inl (want, k) ↦ (want, k, sym (ok-injective (rw k at h)))
]

-- A request that names an identity asks for at most one proof, and only of a candidate that a source
-- lists under the path of the identity that was named.
pub fetch_jwtsvid-named :
    (service : WorkloadApiService) (peer : Option ConsumerIdentity) (req : JwtsvidRequest)
    (challenge : Option Bytes) (now : SystemTime)
    → req.spiffe_id ≢ []
    → (length (fetch_jwtsvid service peer req challenge now).asked ≤ 1)
      × All
          (λ c.
            ((want : SpiffeId) × (SpiffeId.parse req.spiffe_id ≡ ok want) × (c.path ≡ want.path))
            × Listed service.attestors c)
          (fetch_jwtsvid service peer req challenge now).asked
fetch_jwtsvid-named service peer req challenge now named =
    elim (fetch_jwtsvid-asked service peer req challenge now) [
      | inl e ↦ rw e (omega arith, tt)
      | inr (q, bytes, sel, e) ↦
          let (want, parsed, is_want) = read_selector-named req.spiffe_id named sel in
          let (few, paths) = named_asked want bytes (enumerate_all service.attestors) in
          rw (e, is_want) (few, All-map (λ c h. ((want, parsed, h.0), h.1)) _ paths)
    ]
