-- ===== src/Registry/Last.antt =====
-- The account comes last: where its claim stands among the claims of an unnamed request.
use project_persona.Prelude.{
  ℕ, ◌^◌, ◌<◌, ◌≡◌, refl, ap, ◌∙◌, ◌⊎◌, inl, inr, Bool, true, false, Option, none, some, List, [],
  ◌∷◌, ◌++◌, ◌≢◌, Result, ok, if◌then◌else◌, append_nil,
}
use project_persona.Text.{Bytes}
use project_persona.SpiffeId.{uri}
use project_persona.Issue.{Status}
use project_persona.Claim.{
  new_candidate, with_attainable, with_proof_cost, Candidate, Claim, SystemTime,
}
use project_persona.Agent.{AttestorError}
use project_persona.Service.{
  Attestor, enumerate_all, prove_one, keep_some, is_silent, prove_silent, sort_claims, contains,
  retain_unseen, prove_requested,
}
use project_persona.Unix.{UnixAttestor, attestor, candidate_of}
use project_persona.Unix.Account.{account_claim, prove-account}
use project_persona.Registry.{Probed, push_if, probe_sources}
use project_persona.Service.Append.{
  ids, enumerate_all-append, prove_silent-append, sort_claims-append, retain_unseen-append,
}

-- The sources before the account.
abbrev pub others : Probed → List Attestor
others p = push_if p.tailscale_available p.tailscale (
    push_if p.ssh_available p.ssh (
      p.oidc
      ∷ push_if p.did_key_available p.did_key (
          push_if p.gpg_available p.gpg (
            push_if p.fido2_available p.fido2
              (push_if p.goa_available p.goa (push_if p.piv_available p.piv []))))))

push_if-append :
    (b : Bool) (a : Attestor) (l r : List Attestor) → push_if b a (l ++ r) ≡ push_if b a l ++ r
push_if-append true a l r = refl
push_if-append false a l r = refl

-- What the source of the account adds: its claim, exactly while the process runs under it.
account_proven :
    (show : AttestorError → Bytes) (unix : UnixAttestor) (uid : ℕ) (now : SystemTime)
    (challenge : Bytes) (before : List Candidate)
    → uid < 2 ^ 64
    → unix.uid < 2 ^ 64
    → ((uid ≢ unix.uid)
        × (prove_one before (attestor show unix uid now, candidate_of unix) challenge ≡ none))
      ⊎ ((uid ≡ unix.uid)
          × (prove_one before (attestor show unix uid now, candidate_of unix) challenge
              ≡ some (account_claim unix now)))
unfolding prove_one attestor
account_proven show unix uid now challenge before hu hs =
    elim (prove-account unix uid now challenge hu hs) [
      | inl (same_uid, (es, q, made)) ↦ inr (same_uid, rw (q, prove_one) made)
      | inr (other, q) ↦ inl (other, rw (q, prove_one) refl)
    ]

silent_alone :
    (show : AttestorError → Bytes) (unix : UnixAttestor) (uid : ℕ) (now : SystemTime)
    (challenge : Bytes) (before : List Candidate)
    → (prove_silent challenge before (enumerate_all (attestor show unix uid now ∷ []))).1
      ≡ keep_some (prove_one before (attestor show unix uid now, candidate_of unix) challenge) []
unfolding enumerate_all prove_silent attestor candidate_of new_candidate with_attainable
    with_proof_cost is_silent
silent_alone show unix uid now challenge before = refl

behind :
    (b : Bool) (a : Attestor) (whole l r : List Attestor)
    → whole ≡ l ++ r
    → push_if b a whole ≡ push_if b a l ++ r
behind b a whole l r h = ap (push_if b a) h ∙ push_if-append b a l r

probe_sources-others : (p : Probed) → probe_sources p ≡ others p ++ p.unix ∷ []
unfolding probe_sources
probe_sources-others p = behind p.tailscale_available p.tailscale _ _ _ (
    behind p.ssh_available p.ssh _ _ _ (
      ap (◌∷◌ p.oidc) (
        behind p.did_key_available p.did_key _ _ _ (
          behind p.gpg_available p.gpg _ _ _ (
            behind p.fido2_available p.fido2 _ _ _
              (behind p.goa_available p.goa _ _ _ (behind p.piv_available p.piv _ _ _ refl)))))))

-- A claim at the end, unless its identity is among those of the list.
abbrev pub and_last : List Claim → Claim → List Claim
and_last ks u = if contains (ids ks) (uri u.spiffe_id) then ks else ks ++ u ∷ []

-- The claims that a request without an identity is answered from, for these sources.
abbrev pub claims_of : Bytes → List Attestor → Result Status (List Claim)
claims_of challenge sources = (prove_requested none challenge (enumerate_all sources)).1

claims_of-account :
    (show : AttestorError → Bytes) (unix : UnixAttestor) (uid : ℕ) (now : SystemTime) (p : Probed)
    (challenge : Bytes) (o : Option Claim)
    → p.unix ≡ attestor show unix uid now
    → prove_one
        (prove_silent challenge [] (enumerate_all (others p))).0
        (attestor show unix uid now, candidate_of unix)
        challenge
      ≡ o
    → claims_of challenge (probe_sources p)
      ≡ ok (
          retain_unseen [] (
            sort_claims
              ((prove_silent challenge [] (enumerate_all (others p))).1 ++ keep_some o [])))
unfolding prove_requested
claims_of-account show unix uid now p challenge o is_unix proof =
    let rest = enumerate_all (others p) in
    let (before, claims) = prove_silent challenge [] rest in
    ap (λ l. ok (retain_unseen [] (sort_claims (prove_silent challenge [] (enumerate_all l)).1)))
      (probe_sources-others p ∙ ap (λ u. others p ++ u ∷ []) is_unix)
    ∙ ap (λ l. ok (retain_unseen [] (sort_claims (prove_silent challenge [] l).1)))
        (enumerate_all-append (others p) (attestor show unix uid now ∷ []))
    ∙ ap (λ l. ok (retain_unseen [] (sort_claims l)))
        (prove_silent-append challenge [] rest (enumerate_all (attestor show unix uid now ∷ []))
          ∙ ap (λ l. claims ++ l) (silent_alone show unix uid now challenge before)
          ∙ ap (λ o. claims ++ keep_some o []) proof)

-- With the sources that `probe_sources` activates, let `ks` be the claims that a request without an
-- identity would be answered from if the account were no source. If the process runs under the
-- account that its source was built under, the request is answered from `ks` with the claim of the
-- account behind all of them, unless one of them is of its identity; and from `ks` if it runs under
-- another. Both uids have 64 bits.
pub claims_of-unix_last :
    (show : AttestorError → Bytes) (unix : UnixAttestor) (uid : ℕ) (now : SystemTime) (p : Probed)
    (challenge : Bytes)
    → p.unix ≡ attestor show unix uid now
    → uid < 2 ^ 64
    → unix.uid < 2 ^ 64
    → (ks : List Claim) × (claims_of challenge (others p) ≡ ok ks)
      × (((uid ≡ unix.uid)
            × (claims_of challenge (probe_sources p) ≡ ok (and_last ks (account_claim unix now))))
          ⊎ ((uid ≢ unix.uid) × (claims_of challenge (probe_sources p) ≡ ok ks)))
unfolding prove_requested contains
claims_of-unix_last show unix uid now p challenge is_unix hu hs =
    let (before, claims) = prove_silent challenge [] (enumerate_all (others p)) in
    (
      retain_unseen [] (sort_claims claims),
      refl,
      elim (account_proven show unix uid now challenge before hu hs) [
        | inl (other, no_claim) ↦ inr (
          other,
          claims_of-account show unix uid now p challenge none is_unix no_claim
              ∙ ap (λ l. ok (retain_unseen [] (sort_claims l))) (append_nil claims),
        )
        | inr (same_uid, own) ↦ inl (
          same_uid,
          claims_of-account show unix uid now p challenge (some (account_claim unix now)) is_unix
                own
              ∙ ap (λ l. ok (retain_unseen [] l))
                  (sort_claims-append (account_claim unix now) claims refl)
              ∙ ap ok (retain_unseen-append (account_claim unix now) [] (sort_claims claims)),
        )
      ],
    )
