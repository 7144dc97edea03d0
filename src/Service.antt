-- ===== src/Service.antt =====
-- hire-grpc/src/service.rs: `fetch_jwtsvid`, from the peer and the request to the tokens. A clock
-- reading, the random challenge and the attestors are parameters.
pub mod Policy
pub mod Order
pub mod Consent
pub mod Granted
pub mod Named
pub mod Ranked
pub mod Append
use project_persona.Prelude.{
  ℕ, Bool, true, false, ◌&&◌, Option, none, some, List, [], ◌∷◌, ◌++◌, map, leb, if◌then◌else◌,
  Result, ok, err, ◌>>=◌, ok_or, map_err,
}
use project_persona.Text.{Bytes, same}
use project_persona.Assurance.{PresenceLevel, assurance_rank, max_presence}
use project_persona.Audience.{Duration, min_duration, AudienceExtensions, AudienceParseError}
use project_persona.Audience
use project_persona.SpiffeId.{
  TrustDomain, tailscale, org_oidc, personal_did, piv_issuer, ssh_local, pgp_local, SpiffeId, uri,
}
use project_persona.SpiffeId
use project_persona.Claim.{
  SystemTime, Candidate, ProofCost, silent, interactive, Evidence, Claim, derive,
}
use project_persona.Consumer.{ConsumerIdentity}
use project_persona.Issue.{
  Status, consumer_unattested, audience_empty, challenge_failed, no_claims, not_proven,
  bad_audience, bad_spiffe_id, SvidSigner, Jwtsvid, issue,
}

-- The trait `Attestor` of hire-attestors/src/lib.rs. What a source answers may depend on the proofs
-- that were asked for before, in this request.
pub record Attestor : Type 0 where
  pub name : Bytes
  pub enumerate : Result Bytes (List Candidate)
  pub prove : List Candidate → Candidate → Bytes → Result Bytes (List Evidence)

pub record WorkloadApiService : Type 0 where
  pub signer : SvidSigner
  pub attestors : List Attestor
  pub unix_epoch : SystemTime

pub record JwtsvidRequest : Type 0 where
  pub audience : List Bytes
  pub spiffe_id : Bytes

-- `req.audience.iter().map(parse).collect::<Result<Vec<_>, _>>()`.
unfoldable pub parse_audiences : List Bytes → Result AudienceParseError (List AudienceExtensions)
parse_audiences [] = ok []
parse_audiences (a ∷ rest) = do e ← Audience.parse a; es ← parse_audiences rest; ok (e ∷ es)

-- The fold over `require_presence`, and the minimum over `max_age`.
unfoldable pub require_of : PresenceLevel → List AudienceExtensions → PresenceLevel
require_of acc [] = acc
require_of acc (e ∷ es) = require_of (max_presence acc e.require_presence) es

unfoldable pub youngest : Option Duration → Option Duration → Option Duration
youngest none b = b
youngest (some a) none = some a
youngest (some a) (some b) = some (min_duration a b)

unfoldable pub max_age_of : List AudienceExtensions → Option Duration
max_age_of [] = none
max_age_of (e ∷ es) = youngest e.max_age (max_age_of es)

-- `""` asks for whatever the caller is entitled to.
unfoldable pub read_selector : Bytes → Result Status (Option SpiffeId)
read_selector [] = ok none
read_selector (x ∷ raw) = do id ← map_err bad_spiffe_id (SpiffeId.parse (x ∷ raw)); ok (some id)

pub record Asked : Type 0 where
  pub consumer : ConsumerIdentity
  pub exts : List AudienceExtensions
  pub requested : Option SpiffeId

unfoldable pub check_audience : List Bytes → Result Status (List AudienceExtensions)
check_audience [] = err audience_empty
check_audience (a ∷ rest) = map_err bad_audience (parse_audiences (a ∷ rest))

-- What is checked before any source is asked: the consumer, the audiences, the selector.
unfoldable pub check_request : Option ConsumerIdentity → JwtsvidRequest → Result Status Asked
check_request peer req = do
  consumer ← ok_or consumer_unattested peer
  exts ← check_audience req.audience
  requested ← read_selector req.spiffe_id
  ok (record { consumer = consumer; exts = exts; requested = requested })

abbrev pub tag_all : Attestor → List Candidate → List (Attestor × Candidate)
tag_all a [] = []
tag_all a (c ∷ cs) = (a, c) ∷ tag_all a cs

unfoldable pub enumerate_all : List Attestor → List (Attestor × Candidate)
enumerate_all [] = []
enumerate_all (a ∷ rest) = elim a.enumerate [
  | ok cs ↦ tag_all a cs ++ enumerate_all rest
  | err e ↦ enumerate_all rest
]

-- One proof, after those that were asked for before it.
unfoldable pub prove_one : List Candidate → Attestor × Candidate → Bytes → Option Claim
prove_one before (a, c) challenge = elim (a.prove before c challenge) [
  | ok evidence ↦ derive c challenge evidence
  | err e ↦ none
]

abbrev pub keep_some {ℓ} : {A : Type ℓ} → Option A → List A → List A
keep_some none xs = xs
keep_some (some x) xs = x ∷ xs

unfoldable pub is_silent : ProofCost → Bool
is_silent silent = true
is_silent interactive = false

-- The unnamed branch's loop: the proofs asked for, and the claims.
unfoldable pub prove_silent :
    Bytes → List Candidate → List (Attestor × Candidate) → List Candidate × List Claim
prove_silent challenge before [] = (before, [])
prove_silent challenge before ((a, c) ∷ rest) = elim (is_silent c.proof_cost) [
  | false ↦ prove_silent challenge before rest
  | true ↦
      let later = prove_silent challenge (before ++ c ∷ []) rest in
      (later.0, keep_some (prove_one before (a, c) challenge) later.1)
]

-- `sort_by_key(Reverse(assurance))`, which is stable.
unfoldable pub insert_claim : Claim → List Claim → List Claim
insert_claim k [] = k ∷ []
insert_claim k (x ∷ xs) =
    let rest = insert_claim k xs in
    if leb (assurance_rank x.assurance) (assurance_rank k.assurance) then k ∷ x ∷ xs else x ∷ rest

unfoldable pub sort_claims : List Claim → List Claim
sort_claims [] = []
sort_claims (k ∷ ks) = insert_claim k (sort_claims ks)

unfoldable pub contains : List Bytes → Bytes → Bool
contains [] s = false
contains (x ∷ seen) s = if same x s then true else contains seen s

-- `retain(|claim| seen.insert(claim.spiffe_id().uri()))`.
unfoldable pub retain_unseen : List Bytes → List Claim → List Claim
retain_unseen seen [] = []
retain_unseen seen (k ∷ ks) = elim (contains seen (uri k.spiffe_id)) [
  | true ↦ retain_unseen seen ks
  | false ↦ k ∷ retain_unseen (uri k.spiffe_id ∷ seen) ks
]

-- The derived equality of identifiers.
unfoldable pub same_domain : TrustDomain → TrustDomain → Bool
same_domain tailscale tailscale = true
same_domain (org_oidc d) (org_oidc e) = same d e
same_domain (personal_did d) (personal_did e) = same d e
same_domain (piv_issuer d) (piv_issuer e) = same d e
same_domain ssh_local ssh_local = true
same_domain pgp_local pgp_local = true
same_domain d e = false

unfoldable pub same_id : SpiffeId → SpiffeId → Bool
same_id a b = same_domain a.trust_domain b.trust_domain && same a.path b.path

-- `candidates.into_iter().find(|(_, candidate)| candidate.path == want.path)`.
unfoldable pub find_path : Bytes → List (Attestor × Candidate) → Option (Attestor × Candidate)
find_path path [] = none
find_path path ((a, c) ∷ rest) = if same c.path path then some (a, c) else find_path path rest

unfoldable pub only_wanted : SpiffeId → Option Claim → Result Status (List Claim)
only_wanted want none = err not_proven
only_wanted want (some k) = if same_id k.spiffe_id want then ok (k ∷ []) else err not_proven

-- The two branches: the proofs asked for, and the claims or one refusal.
unfoldable pub prove_requested :
    Option SpiffeId
    → Bytes
    → List (Attestor × Candidate)
    → List Candidate × Result Status (List Claim)
prove_requested (some want) challenge candidates = elim (find_path want.path candidates) [
  | none ↦ ([], err not_proven)
  | some found ↦ (found.1 ∷ [], only_wanted want (prove_one [] found challenge))
]
prove_requested none challenge candidates =
    let (asked, proven) = prove_silent challenge [] candidates in
    (asked, ok (retain_unseen [] (sort_claims proven)))

-- The tokens in order, and the first refusal.
unfoldable pub issue_all :
    (Claim → Result Status Jwtsvid) → List Claim → List Jwtsvid × Option Status
issue_all one [] = ([], none)
issue_all one (k ∷ ks) =
    let (svids, refusal) = issue_all one ks in
    elim (one k) [ ok s ↦ (s ∷ svids, refusal) | err status ↦ (svids, some status) ]

unfoldable pub reply_with : List Jwtsvid × Option Status → Result Status (List Jwtsvid)
reply_with (s ∷ svids, refusal) = ok (s ∷ svids)
reply_with ([], some status) = err status
reply_with ([], none) = err no_claims

unfoldable pub issue_for : WorkloadApiService → Asked → SystemTime → Claim → Result Status Jwtsvid
issue_for service q now claim =
    issue service.signer service.unix_epoch claim q.consumer (map (λ e. e.audience) q.exts)
      (require_of PresenceLevel.none q.exts) (max_age_of q.exts) now

-- The proofs that a request asked for, and its reply.
pub record Served : Type 0 where
  pub asked : List Candidate
  pub reply : Result Status (List Jwtsvid)

unfoldable pub answer : WorkloadApiService → Asked → Bytes → SystemTime → Served
answer service q challenge now =
    let (asked, claims) = prove_requested q.requested challenge (enumerate_all service.attestors) in
    record {
      asked = asked;
      reply = (do ks ← claims; reply_with (issue_all (issue_for service q now) ks));
    }

-- `fetch_jwtsvid`. The challenge is absent when the generator failed.
unfoldable pub fetch_jwtsvid :
    WorkloadApiService
    → Option ConsumerIdentity
    → JwtsvidRequest
    → Option Bytes
    → SystemTime
    → Served
fetch_jwtsvid service peer req challenge now = elim (check_request peer req) [
  | err status ↦ record { asked = []; reply = err status }
  | ok q ↦ elim challenge [
    | none ↦ record { asked = []; reply = err challenge_failed }
    | some bytes ↦ answer service q bytes now
  ]
]
