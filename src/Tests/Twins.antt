-- ===== src/Tests/Twins.antt =====
-- Two sources that prove one identity: the one with the touch has the lower assurance.
use project_persona.Prelude.{List, Result, err, ◌*◌, ◌^◌, ◌≡◌, refl, some, [], ◌∷◌, ok}
use project_persona.Text.{Bytes, codes, same}
use project_persona.Text.Split.{split_once, split, join, non_empty, strip_prefix, starts_with}
use project_persona.Text.Decimal.{parse_u64, show_u64}
use project_persona.Text.Hex.{hex, hex_digit}
use project_persona.Assurance.{
  max_assurance, parse_presence, PresenceLevel, hardware, assurance_rank, presence_rank,
  max_presence, presence_gt, show_assurance, show_presence,
}
use project_persona.Audience.{Duration, from_secs}
use project_persona.Audience
use project_persona.Hint
use project_persona.SpiffeId.{SpiffeId, ssh_local, uri}
use project_persona.SpiffeId
use project_persona.Claim.{
  SystemTime, Candidate, silent, Evidence, platform_assertion, Claim, new_candidate,
  with_proof_cost, derive, age_at, duration_since,
}
use project_persona.Claim
use project_persona.Consumer.{snap_name, selector_key}
use project_persona.Pseudonym.{derive_pseudonym, derive_pseudonymous_id}
use project_persona.Issue.{
  Status, presence_unmet, SvidSigner, Jwtsvid, is_younger, within_max_age, honoured_presence, issue,
  signed, sign_jwt_svid, pseudonymous_id, hint_of, as_secs,
}
use project_persona.Service.{
  Attestor, JwtsvidRequest, enumerate_all, fetch_jwtsvid, check_request, check_audience,
  parse_audiences, read_selector, require_of, max_age_of, youngest, answer, prove_requested,
  prove_silent, is_silent, prove_one, sort_claims, insert_claim, retain_unseen, contains, find_path,
  only_wanted, same_id, same_domain, issue_all, issue_for, reply_with,
}

abbrev shared : Bytes → Candidate
shared source =
    with_proof_cost
      (new_candidate source Claim.SelfAssertedDomain.ssh_local (codes "ada") (codes "Ada")) silent

abbrev voucher : Attestor
voucher = record {
  name = codes "voucher";
  enumerate = ok (shared (codes "voucher") ∷ []);
  prove = λ before c challenge.
      ok (Claim.daemon_assertion record { subject = c.path; asked_at = 5 * 10 ^ 9 } ∷ []);
}

abbrev toucher : Attestor
toucher = record {
  name = codes "toucher";
  enumerate = ok (shared (codes "toucher") ∷ []);
  prove =
      λ before c challenge. ok (Claim.hardware_presence record { touched_at = 5 * 10 ^ 9 } ∷ []);
}

abbrev signer : SvidSigner
signer = record {
  hkdf = λ salt ikm info. 1 ∷ [];
  pseudonym_ikm = [];
  signed_at = λ subject. 7;
  encode = λ claims. ok claims.sub;
}

abbrev demanding : JwtsvidRequest
demanding = record { audience = codes "a?hire_require_presence=hardware" ∷ []; spiffe_id = [] }

abbrev asked_of : List Attestor → Result Status (List Jwtsvid)
asked_of attestors =
    (fetch_jwtsvid record { signer = signer; attestors = attestors; unix_epoch = 0 }
      (some (snap_name (codes "firefox"))) demanding (some (codes "nonce")) (9 * 10 ^ 9)).reply

abbrev touched_token : Jwtsvid
touched_token = record {
  spiffe_id = codes "spiffe://ssh.local/pseudonym/01";
  svid = codes "spiffe://ssh.local/pseudonym/01";
  hint = codes "source=toucher&identity_assurance=iaa1&presence=hardware&age=4";
}

toucher_granted : asked_of (toucher ∷ []) ≡ ok (touched_token ∷ [])
unfolding fetch_jwtsvid check_request check_audience parse_audiences read_selector require_of
    max_age_of youngest answer prove_requested prove_silent is_silent prove_one sort_claims
    insert_claim retain_unseen contains find_path only_wanted same_id same_domain issue_all
    issue_for reply_with enumerate_all Audience.parse Audience.read_params Audience.read_param
    Audience.read_presence Audience.read_max_age Audience.tighten Audience.read_other
    Audience.is_unprefixed_policy_name Audience.name_of Audience.rebuild Audience.cut_query
    from_secs split_once split non_empty strip_prefix starts_with join parse_u64 show_u64 hex
    hex_digit assurance_rank presence_rank max_presence max_assurance parse_presence Claim.fold_tier
    presence_gt show_assurance show_presence SpiffeId.parse SpiffeId.parse_halves
    SpiffeId.parse_domain SpiffeId.named_domain SpiffeId.is_empty SpiffeId.all_domain_bytes
    SpiffeId.is_domain_byte SpiffeId.show_domain uri SpiffeId.pseudonymous Claim.derive
    Claim.derive_bound Claim.bound Claim.binds_to Claim.tier Claim.fold_tiers Claim.raise_iaa3
    Claim.anchor Claim.claim_of Claim.to_trust_domain age_at duration_since new_candidate
    with_proof_cost selector_key derive_pseudonym derive_pseudonymous_id pseudonymous_id
    sign_jwt_svid signed issue is_younger within_max_age honoured_presence as_secs hint_of
    Hint.to_string same
toucher_granted = refl

twin_refused : asked_of (voucher ∷ toucher ∷ []) ≡ err (presence_unmet hardware PresenceLevel.none)
unfolding fetch_jwtsvid check_request check_audience parse_audiences read_selector require_of
    max_age_of youngest answer prove_requested prove_silent is_silent prove_one sort_claims
    insert_claim retain_unseen contains find_path only_wanted same_id same_domain issue_all
    issue_for reply_with enumerate_all Audience.parse Audience.read_params Audience.read_param
    Audience.read_presence Audience.read_max_age Audience.tighten Audience.read_other
    Audience.is_unprefixed_policy_name Audience.name_of Audience.rebuild Audience.cut_query
    from_secs split_once split non_empty strip_prefix starts_with join parse_u64 show_u64 hex
    hex_digit assurance_rank presence_rank max_presence max_assurance parse_presence Claim.fold_tier
    presence_gt show_assurance show_presence SpiffeId.parse SpiffeId.parse_halves
    SpiffeId.parse_domain SpiffeId.named_domain SpiffeId.is_empty SpiffeId.all_domain_bytes
    SpiffeId.is_domain_byte SpiffeId.show_domain uri SpiffeId.pseudonymous Claim.derive
    Claim.derive_bound Claim.bound Claim.binds_to Claim.tier Claim.fold_tiers Claim.raise_iaa3
    Claim.anchor Claim.claim_of Claim.to_trust_domain age_at duration_since new_candidate
    with_proof_cost selector_key derive_pseudonym derive_pseudonymous_id pseudonymous_id
    sign_jwt_svid signed issue is_younger within_max_age honoured_presence as_secs hint_of
    Hint.to_string same
twin_refused = refl
