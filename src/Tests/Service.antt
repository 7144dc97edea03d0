-- ===== src/Tests/Service.antt =====
-- The workload API with one source, the Unix account, and one consumer.
use project_persona.Prelude.{
  ◌*◌, ◌%◌, ◌^◌, ◌≤◌, ◌<◌, ◌≡◌, ◌≢◌, refl, arith, Option, some, List, [], ◌∷◌, length, All, ok,
}
use project_persona.Text.{Bytes, codes, same}
use project_persona.Text.Split.{split_once, split, join, non_empty, strip_prefix, starts_with}
use project_persona.Text.Decimal.{parse_u64, show_u64}
use project_persona.Text.Hex.{hex, hex_digit}
use project_persona.Assurance.{
  IdentityAssurance, PresenceLevel, hardware, assurance_rank, presence_rank, max_presence,
  presence_gt, show_assurance, show_presence,
}
use project_persona.Audience.{Duration, from_secs}
use project_persona.Audience
use project_persona.Hint
use project_persona.SpiffeId.{SpiffeId, ssh_local, uri}
use project_persona.SpiffeId
use project_persona.Claim.{
  SystemTime, Candidate, silent, Evidence, platform_assertion, Claim, new_candidate,
  with_proof_cost, derive, age_at, duration_since,
}
use project_persona.Claim
use project_persona.Consumer.{ConsumerIdentity, snap_name, selector_key}
use project_persona.Pseudonym.{Hkdf, derive_pseudonym, derive_pseudonymous_id}
use project_persona.Issue.{
  SvidSigner, JwtClaims, Jwtsvid, is_younger, within_max_age, honoured_presence, issue, signed,
  sign_jwt_svid, pseudonymous_id, hint_of, as_secs,
}
use project_persona.Hint.{to_string}
use project_persona.Issue.Gates.{IsFresh}
use project_persona.Issue.Contents.{Asserts, Payload, tag, issue-Payload}
use project_persona.Service.{
  Attestor, WorkloadApiService, JwtsvidRequest, Asked, enumerate_all, fetch_jwtsvid, check_request,
  check_audience, parse_audiences, read_selector, require_of, max_age_of, youngest, answer,
  prove_requested, prove_silent, is_silent, prove_one, sort_claims, insert_claim, retain_unseen,
  contains, find_path, only_wanted, same_id, same_domain, issue_all, issue_for, reply_with,
}
use project_persona.Service.Consent.{Listed, fetch_jwtsvid-silent, fetch_jwtsvid-named}
use project_persona.Service.Granted.{Proven, Granted, fetch_jwtsvid-Granted}
use project_persona.Service.Named.{fetch_jwtsvid-wanted}
use project_persona.Service.Ranked.{Ranked, InOrder, fetch_jwtsvid-Ranked}

-- A stand-in for the key derivation: a digest of what it is given.
abbrev digest : Hkdf
digest salt ikm info = length ikm % 256 ∷ length info % 256 ∷ []

abbrev account : Candidate
account =
    with_proof_cost
      (new_candidate (codes "unix") Claim.SelfAssertedDomain.ssh_local (codes "unix/ada")
        (codes "Ada"))
      silent

abbrev unix : Attestor
unix = record {
  name = codes "unix";
  enumerate = ok (account ∷ []);
  prove = λ before c challenge.
      ok (platform_assertion record { account = c.path; asked_at = 5 * 10 ^ 9 } ∷ []);
}

abbrev signer : SvidSigner
signer = record {
  hkdf = digest;
  pseudonym_ikm = codes "0123456789abcdef0123456789abcdef";
  signed_at = λ subject. 7;
  encode = λ claims. ok claims.sub;
}

abbrev pub daemon : WorkloadApiService
daemon = record { signer = signer; attestors = unix ∷ []; unix_epoch = 0 }

abbrev firefox : ConsumerIdentity
firefox = snap_name (codes "firefox")

abbrev pub anything : JwtsvidRequest
anything = record { audience = codes "https://a?hire_max_age=60" ∷ []; spiffe_id = [] }

abbrev named_ada : JwtsvidRequest
named_ada = record {
  audience = codes "https://a" ∷ [];
  spiffe_id = codes "spiffe://ssh.local/unix/ada";
}

abbrev pub nonce : Bytes
nonce = codes "nonce"

abbrev pub at_nine : SystemTime
at_nine = 9 * 10 ^ 9

abbrev ada_token : Jwtsvid
ada_token = record {
  spiffe_id = codes "spiffe://ssh.local/pseudonym/3b23";
  svid = codes "spiffe://ssh.local/pseudonym/3b23";
  hint = codes "source=unix&identity_assurance=iaa1&presence=none&age=4";
}

fetch_anything :
    (fetch_jwtsvid daemon (some firefox) anything (some nonce) at_nine).reply ≡ ok (ada_token ∷ [])
unfolding fetch_jwtsvid check_request check_audience parse_audiences read_selector require_of
    max_age_of youngest answer prove_requested prove_silent is_silent prove_one sort_claims
    insert_claim retain_unseen contains find_path only_wanted same_id same_domain issue_all
    issue_for reply_with enumerate_all Audience.parse Audience.read_params Audience.read_param
    Audience.read_presence Audience.read_max_age Audience.tighten Audience.read_other
    Audience.is_unprefixed_policy_name Audience.name_of Audience.rebuild Audience.cut_query
    from_secs split_once split non_empty strip_prefix starts_with join parse_u64 show_u64 hex
    hex_digit assurance_rank presence_rank max_presence presence_gt show_assurance show_presence
    SpiffeId.parse SpiffeId.parse_halves SpiffeId.parse_domain SpiffeId.named_domain
    SpiffeId.is_empty SpiffeId.all_domain_bytes SpiffeId.is_domain_byte SpiffeId.show_domain uri
    SpiffeId.pseudonymous Claim.derive Claim.derive_bound Claim.bound Claim.binds_to Claim.tier
    Claim.fold_tiers Claim.raise_iaa3 Claim.anchor Claim.claim_of Claim.to_trust_domain age_at
    duration_since new_candidate with_proof_cost selector_key derive_pseudonym
    derive_pseudonymous_id pseudonymous_id sign_jwt_svid signed issue is_younger within_max_age
    honoured_presence as_secs hint_of Hint.to_string same
fetch_anything = refl

fetch_named :
    (fetch_jwtsvid daemon (some firefox) named_ada (some nonce) at_nine).reply ≡ ok (ada_token ∷ [])
unfolding fetch_jwtsvid check_request check_audience parse_audiences read_selector require_of
    max_age_of youngest answer prove_requested prove_silent is_silent prove_one sort_claims
    insert_claim retain_unseen contains find_path only_wanted same_id same_domain issue_all
    issue_for reply_with enumerate_all Audience.parse Audience.read_params Audience.read_param
    Audience.read_presence Audience.read_max_age Audience.tighten Audience.read_other
    Audience.is_unprefixed_policy_name Audience.name_of Audience.rebuild Audience.cut_query
    from_secs split_once split non_empty strip_prefix starts_with join parse_u64 show_u64 hex
    hex_digit assurance_rank presence_rank max_presence presence_gt show_assurance show_presence
    SpiffeId.parse SpiffeId.parse_halves SpiffeId.parse_domain SpiffeId.named_domain
    SpiffeId.is_empty SpiffeId.all_domain_bytes SpiffeId.is_domain_byte SpiffeId.show_domain uri
    SpiffeId.pseudonymous Claim.derive Claim.derive_bound Claim.bound Claim.binds_to Claim.tier
    Claim.fold_tiers Claim.raise_iaa3 Claim.anchor Claim.claim_of Claim.to_trust_domain age_at
    duration_since new_candidate with_proof_cost selector_key derive_pseudonym
    derive_pseudonymous_id pseudonymous_id sign_jwt_svid signed issue is_younger within_max_age
    honoured_presence as_secs hint_of Hint.to_string same
fetch_named = refl

fetch_jwtsvid-Granted_example :
    (ada_token ∷ [] ≢ [])
    × ((consumer : ConsumerIdentity) × (bytes : Bytes) × (some firefox ≡ some consumer)
        × (some nonce ≡ some bytes)
        × All
            (λ s.
              (k : Claim) × Proven (enumerate_all daemon.attestors) bytes k
              × Granted daemon consumer anything.audience at_nine k s)
            (ada_token ∷ []))
fetch_jwtsvid-Granted_example =
    fetch_jwtsvid-Granted daemon (some firefox) anything (some nonce) at_nine fetch_anything

fetch_jwtsvid-silent_example :
    All
      (λ c. (c.proof_cost ≡ silent) × Listed daemon.attestors c)
      (fetch_jwtsvid daemon (some firefox) anything (some nonce) at_nine).asked
fetch_jwtsvid-silent_example =
    fetch_jwtsvid-silent daemon (some firefox) anything (some nonce) at_nine refl

is_named : named_ada.spiffe_id ≢ []
is_named h = cc

fetch_jwtsvid-named_example :
    (length (fetch_jwtsvid daemon (some firefox) named_ada (some nonce) at_nine).asked ≤ 1)
    × All
        (λ c.
          ((want : SpiffeId) × (SpiffeId.parse named_ada.spiffe_id ≡ ok want)
            × (c.path ≡ want.path))
          × Listed daemon.attestors c)
        (fetch_jwtsvid daemon (some firefox) named_ada (some nonce) at_nine).asked
fetch_jwtsvid-named_example =
    fetch_jwtsvid-named daemon (some firefox) named_ada (some nonce) at_nine is_named

fetch_jwtsvid-wanted_example :
    (consumer : ConsumerIdentity) × (want : SpiffeId) × (s : Jwtsvid) × (some firefox
      ≡ some consumer)
    × (SpiffeId.parse named_ada.spiffe_id ≡ ok want)
    × (ada_token ∷ [] ≡ s ∷ [])
    × (s.spiffe_id ≡ uri (pseudonymous_id daemon.signer want consumer))
fetch_jwtsvid-wanted_example =
    fetch_jwtsvid-wanted daemon (some firefox) named_ada (some nonce) at_nine is_named fetch_named

abbrev ada_claim : Claim
ada_claim = record {
  source = codes "unix";
  assurance = IdentityAssurance.iaa1;
  presence = PresenceLevel.none;
  spiffe_id = record { trust_domain = ssh_local; path = codes "unix/ada" };
  display_name = codes "Ada";
  attested_at = 5 * 10 ^ 9;
}

fetch_jwtsvid-Ranked_example :
    (q : Asked) × (bytes : Bytes) × (ks : List Claim) × (check_request (some firefox) anything
      ≡ ok q)
    × (some nonce ≡ some bytes)
    × Ranked (enumerate_all daemon.attestors) bytes ks
    × InOrder (issue_for daemon q at_nine) ks (ada_token ∷ [])
fetch_jwtsvid-Ranked_example =
    fetch_jwtsvid-Ranked daemon (some firefox) anything (some nonce) at_nine refl fetch_anything

issue_ada :
    issue signer 0 ada_claim firefox
      (codes "https://a" ∷ [])
      PresenceLevel.none
      (some (60 * 10 ^ 9))
      at_nine
    ≡ ok ada_token
unfolding fetch_jwtsvid check_request check_audience parse_audiences read_selector require_of
    max_age_of youngest answer prove_requested prove_silent is_silent prove_one sort_claims
    insert_claim retain_unseen contains find_path only_wanted same_id same_domain issue_all
    issue_for reply_with enumerate_all Audience.parse Audience.read_params Audience.read_param
    Audience.read_presence Audience.read_max_age Audience.tighten Audience.read_other
    Audience.is_unprefixed_policy_name Audience.name_of Audience.rebuild Audience.cut_query
    from_secs split_once split non_empty strip_prefix starts_with join parse_u64 show_u64 hex
    hex_digit assurance_rank presence_rank max_presence presence_gt show_assurance show_presence
    SpiffeId.parse SpiffeId.parse_halves SpiffeId.parse_domain SpiffeId.named_domain
    SpiffeId.is_empty SpiffeId.all_domain_bytes SpiffeId.is_domain_byte SpiffeId.show_domain uri
    SpiffeId.pseudonymous Claim.derive Claim.derive_bound Claim.bound Claim.binds_to Claim.tier
    Claim.fold_tiers Claim.raise_iaa3 Claim.anchor Claim.claim_of Claim.to_trust_domain age_at
    duration_since new_candidate with_proof_cost selector_key derive_pseudonym
    derive_pseudonymous_id pseudonymous_id sign_jwt_svid signed issue is_younger within_max_age
    honoured_presence as_secs hint_of Hint.to_string same
issue_ada = refl

issue-Payload_example :
    (p : PresenceLevel) × (c : JwtClaims) × Asserts (age_at ada_claim at_nine) ada_claim.presence p
    × IsFresh (age_at ada_claim at_nine) (some (60 * 10 ^ 9))
    × (presence_rank PresenceLevel.none ≤ presence_rank p)
    × Payload signer ada_claim firefox (codes "https://a" ∷ []) p ada_token.spiffe_id c
    × (signer.encode c ≡ ok ada_token.svid)
    × (ada_token.spiffe_id ≡ uri (pseudonymous_id signer ada_claim.spiffe_id firefox))
    × (ada_token.hint ≡ to_string (tag ada_claim p (age_at ada_claim at_nine)))
issue-Payload_example =
    issue-Payload signer 0 ada_claim firefox (codes "https://a" ∷ []) PresenceLevel.none
      (some (60 * 10 ^ 9)) at_nine issue_ada

abbrev fresh_touch : Option Duration
fresh_touch = some 5

touch_asserted :
    presence_rank PresenceLevel.none < presence_rank (honoured_presence fresh_touch hardware)
unfolding honoured_presence is_younger from_secs presence_rank
touch_asserted = omega arith
