-- ===== src/Possession/Sound.antt =====
-- Of hire-attestors/src/claim.rs: what the verifying constructors ask of a signature.
use project_persona.Prelude.{
  ◌≡◌, refl, sym, ap, ◌∙◌, true, not, ◌||◌, Bool-cases, some, Option-cases, ◌==◌, ==_iff, length,
  ok, ◌>>=◌, >>=-eq-ok, Result-cases, ok-injective, inl, inr,
}
use project_persona.Text.{Bytes, codes, same, same_iff, same_refl}
use project_persona.SpiffeId.{is_empty}
use project_persona.Claim.{SystemTime, Candidate, ChallengeSignature, possession, binds_to}
use project_persona.Agent.{ssh_ed25519, read_string, point_of, ed25519_point_of}
use project_persona.DidKey.{ed25519_point}
use project_persona.DidKey
use project_persona.Possession.{
  Crypto, spiffe_path, read_pair, checked_point, key_point, signature_bytes, signed_over,
  verify_ssh_ed25519, verify_did_key_ed25519,
}

-- The evidence is a signature of 64 bytes by the point over the challenge, dated now, and it binds
-- to the candidate and the challenge.
abbrev pub Possesses : Crypto → SystemTime → Candidate → Bytes → Bytes → ChallengeSignature → Type 0
Possesses crypto now candidate challenge point s =
    (crypto.is_point point ≡ true)
    × (length s.assertion.bytes ≡ 64)
    × (crypto.verify_strict point challenge s.assertion.bytes ≡ true)
    × (s.observed_at ≡ now)
    × (binds_to candidate challenge (possession s) ≡ true)

checked_point-eq-ok :
    (crypto : Crypto) (no_point point : Bytes) {p : Bytes}
    → checked_point crypto no_point point ≡ ok p
    → (point ≡ p) × (crypto.is_point p ≡ true)
unfolding checked_point
checked_point-eq-ok crypto no_point point h = elim (Bool-cases (crypto.is_point point)) [
  | inr e ↦ absurd (cc (rw (e, checked_point) at h))
  | inl e ↦
      let same_one = ok-injective (rw (e, checked_point) at h) in
      (same_one, ap crypto.is_point (sym same_one) ∙ e)
]

signature_bytes-eq-ok :
    (framed : Bytes × (Bytes × Bytes)) {sig : Bytes}
    → signature_bytes framed ≡ ok sig
    → length sig ≡ 64
unfolding signature_bytes
signature_bytes-eq-ok (algorithm, (bytes, trailing)) h =
    elim (Bool-cases (not (same algorithm ssh_ed25519) || not (is_empty trailing))) [
      | inl e ↦ absurd (cc (rw (e, signature_bytes) at h))
      | inr e ↦ elim (Bool-cases (length bytes == 64)) [
        | inr k ↦ absurd (cc (rw (e, signature_bytes, k) at h))
        | inl k ↦
            ap length (sym (ok-injective (rw (e, signature_bytes, k) at h)))
            ∙ (==_iff (length bytes) 64).0 k
      ]
    ]

signed_over-Possesses :
    (crypto : Crypto) (format no_match challenge : Bytes) (now : SystemTime) (candidate : Candidate)
    (point sig : Bytes) {s : ChallengeSignature}
    → crypto.is_point point ≡ true
    → length sig ≡ 64
    → signed_over crypto format no_match challenge now point sig ≡ ok s
    → Possesses crypto now candidate challenge point s
unfolding signed_over binds_to
signed_over-Possesses crypto format no_match challenge now candidate point sig valid size h =
    elim (Bool-cases (crypto.verify_strict point challenge sig)) [
      | inr e ↦ absurd (cc (rw (e, signed_over) at h))
      | inl e ↦
          rw (← ok-injective (rw (e, signed_over) at h)) (valid, size, e, refl, same_refl challenge)
    ]

key_point-eq-ok :
    (crypto : Crypto) (no_point algorithm point trailing : Bytes) {p : Bytes}
    → key_point crypto no_point (algorithm, (point, trailing)) ≡ ok p
    → (point_of algorithm point trailing ≡ some p) × (crypto.is_point p ≡ true)
unfolding key_point point_of
key_point-eq-ok crypto no_point algorithm point trailing {p} h =
    elim (Bool-cases (same algorithm ssh_ed25519)) [
      | inr e ↦ absurd (cc (rw (e, key_point) at h))
      | inl e ↦ elim (Bool-cases (is_empty trailing)) [
        | inr k ↦ absurd (cc (rw (e, key_point, k) at h))
        | inl k ↦ elim (Bool-cases (length point == 32)) [
          | inr l ↦ absurd (cc (rw (e, key_point, k, l) at h))
          | inl l ↦
              let (same_one, valid) =
                checked_point-eq-ok crypto no_point point (rw (e, key_point, k, l) at h) in
              (rw (e, point_of, k, l) (ap some same_one), valid)
        ]
      ]
    ]

key_of_blob :
    (crypto : Crypto) (no_point key_blob : Bytes) {key : Bytes × (Bytes × Bytes)} {p : Bytes}
    → read_pair key_blob ≡ ok key
    → key_point crypto no_point key ≡ ok p
    → (ed25519_point_of key_blob ≡ some p) × (crypto.is_point p ≡ true)
unfolding read_pair ed25519_point_of
key_of_blob crypto no_point key_blob {key} {p} r h = elim (Option-cases (read_string key_blob)) [
  | inl e ↦ absurd (cc (rw (e, read_pair) at r))
  | inr ((algorithm, rest), e) ↦ elim (Option-cases (read_string rest)) [
    | inl k ↦ absurd (cc (rw (e, read_pair, k) at r))
    | inr ((point, trailing), k) ↦
        let made : (algorithm, (point, trailing)) ≡ key =
          ok-injective (rw (e, read_pair, k) at r) in
        let (found, valid) =
          key_point-eq-ok crypto no_point algorithm point trailing
            (ap (key_point crypto no_point) made ∙ h) in
        (rw (e, ed25519_point_of, k) found, valid)
  ]
]

-- The end of both constructors: a framed signature, checked over the challenge.
signed_blob-Possesses :
    (crypto : Crypto) (format no_match challenge signature : Bytes) (now : SystemTime)
    (candidate : Candidate) (point : Bytes) {s : ChallengeSignature}
    → crypto.is_point point ≡ true
    → (read_pair signature >>= λ framed. signature_bytes framed >>= λ sig.
        signed_over crypto format no_match challenge now point sig)
      ≡ ok s
    → Possesses crypto now candidate challenge point s
signed_blob-Possesses crypto format no_match challenge signature now candidate point valid h =
    let (framed, _, then_signed) =
      >>=-eq-ok (read_pair signature)
        (λ framed. signature_bytes framed >>= λ sig.
          signed_over crypto format no_match challenge now point sig)
        h in
    let (sig, taken, over) =
      >>=-eq-ok (signature_bytes framed)
        (λ sig. signed_over crypto format no_match challenge now point sig) then_signed in
    signed_over-Possesses crypto format no_match challenge now candidate point sig valid
      (signature_bytes-eq-ok framed taken) over

-- An ssh key yields evidence only if the candidate is named by that key, the key is an ed25519 key,
-- and its point signed the challenge; and the evidence binds to the candidate and the challenge.
pub verify_ssh_ed25519-Possesses :
    (crypto : Crypto) (now : SystemTime) (candidate : Candidate)
    (challenge key_blob signature : Bytes) {s : ChallengeSignature}
    → verify_ssh_ed25519 crypto now candidate challenge key_blob signature ≡ ok s
    → (spiffe_path crypto key_blob ≡ candidate.path)
      × ((point : Bytes) × (ed25519_point_of key_blob ≡ some point)
          × Possesses crypto now candidate challenge point s)
unfolding verify_ssh_ed25519
verify_ssh_ed25519-Possesses crypto now candidate challenge key_blob signature h =
    elim (Bool-cases (same (spiffe_path crypto key_blob) candidate.path)) [
      | inr e ↦ absurd (cc (rw (e, verify_ssh_ed25519) at h))
      | inl e ↦ elim (Result-cases (read_pair key_blob)) [
        | inr (why, k) ↦ absurd (cc (rw (e, verify_ssh_ed25519, k) at h))
        | inl (key, k) ↦
            elim (Result-cases
              (key_point crypto (codes "ssh-agent key is not a valid ed25519 point") key)) [
                | inr (why, l) ↦ absurd (cc (rw (e, verify_ssh_ed25519, k, l) at h))
                | inl (point, l) ↦
                    let (found, valid) =
                      key_of_blob crypto (codes "ssh-agent key is not a valid ed25519 point")
                        key_blob k l in
                    (
                      (same_iff (spiffe_path crypto key_blob) candidate.path).0 e,
                      (
                        point,
                        found,
                        signed_blob-Possesses crypto
                            (codes "application/vnd.hire.ssh-ed25519-signature")
                            (codes "ssh-agent signature does not verify over the challenge")
                            challenge signature now candidate point valid
                            (rw (e, verify_ssh_ed25519, k, l) at h),
                      ),
                    )
              ]
      ]
    ]

-- A did:key yields evidence only if the candidate is named by that identifier, the identifier
-- encodes an ed25519 key, and its point signed the challenge; and the evidence binds to the
-- candidate and the challenge.
pub verify_did_key_ed25519-Possesses :
    (crypto : Crypto) (now : SystemTime) (candidate : Candidate) (challenge did signature : Bytes)
    {s : ChallengeSignature}
    → verify_did_key_ed25519 crypto now candidate challenge did signature ≡ ok s
    → (DidKey.spiffe_path crypto.sha256 did ≡ candidate.path)
      × ((point : Bytes) × (ed25519_point did ≡ some point)
          × Possesses crypto now candidate challenge point s)
unfolding verify_did_key_ed25519
verify_did_key_ed25519-Possesses crypto now candidate challenge did signature h =
    elim (Bool-cases (same (DidKey.spiffe_path crypto.sha256 did) candidate.path)) [
      | inr e ↦ absurd (cc (rw (e, verify_did_key_ed25519) at h))
      | inl e ↦ elim (Option-cases (ed25519_point did)) [
        | inl k ↦ absurd (cc (rw (e, verify_did_key_ed25519, k) at h))
        | inr (named, k) ↦
            elim (Result-cases (
              checked_point crypto (codes "did:key does not encode a valid ed25519 point") named)) [
                | inr (why, l) ↦ absurd (cc (rw (e, verify_did_key_ed25519, k, l) at h))
                | inl (point, l) ↦
                    let (same_one, valid) =
                      checked_point-eq-ok crypto
                        (codes "did:key does not encode a valid ed25519 point") named l in
                    (
                      (same_iff (DidKey.spiffe_path crypto.sha256 did) candidate.path).0 e,
                      (
                        point,
                        k ∙ ap some same_one,
                        signed_blob-Possesses crypto
                            (codes "application/vnd.hire.did-key-ed25519-signature")
                            (codes "did:key signature does not verify over the challenge") challenge
                            signature now candidate point valid
                            (rw (e, verify_did_key_ed25519, k, l) at h),
                      ),
                    )
              ]
      ]
    ]
