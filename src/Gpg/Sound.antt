-- ===== src/Gpg/Sound.antt =====
-- What gpg has reported when its source proves a candidate.
use mathlib.Core.List.{Memᴰ}
use project_persona.Prelude.{
  ◌≡◌, refl, sym, ap, ◌∙◌, inl, inr, Bool, true, false, not, ◌||◌, some, List, [], ◌∷◌, ◌++◌, ok,
  ok-injective, Bool-cases, Option-cases, Result-cases, subst, arith,
}
use project_persona.Text.{Bytes, codes, same, same_iff}
use project_persona.Text.Split.{strip_prefix, strip_prefix-eq-some}
use project_persona.Text.Space.{lines, split_whitespace}
use project_persona.Claim.{
  SystemTime, Candidate, ChallengeSignature, Evidence, possession, derive, binds_to,
}
use project_persona.Text.{same_refl}
use project_persona.Sources.Sound.{key_claim, possession-claim}
use project_persona.Gpg.Signed.{
  Host, Output, which_gpg, run, enumerate, validsig, names_either, line_names, any_line, names_key,
  accepted, verify_openpgp, find_path, checked, prove,
}

any_line-Memᴰ :
    (p : Bytes → Bool) (l : List Bytes)
    → any_line p l ≡ true
    → (line : Bytes) × Memᴰ line l × (p line ≡ true)
any_line-Memᴰ p [] h = absurd cc
any_line-Memᴰ p (line ∷ rest) h = elim (Bool-cases (p line)) [
  | inl e ↦ (line, Memᴰ.head refl, e)
  | inr e ↦
      let (other, kept, good) = any_line-Memᴰ p rest (rw (e) at h) in (other, Memᴰ.tail kept, good)
]

-- A line of the status says that a signature by the key is valid.
abbrev pub Reported : Bytes → Bytes → Type 0
Reported status fingerprint =
    (args : Bytes) × Memᴰ (validsig ++ args) (lines status)
    × (names_either fingerprint (split_whitespace args) ≡ true)

names_key-Reported :
    (status fingerprint : Bytes) → names_key status fingerprint ≡ true → Reported status fingerprint
unfolding names_key line_names
names_key-Reported status fingerprint h =
    let (line, kept, named) = any_line-Memᴰ (line_names fingerprint) (lines status) h in
    elim (Option-cases (strip_prefix validsig line)) [
      | inl e ↦ absurd (cc (rw (e, line_names) at named))
      | inr (args, e) ↦ (
        args,
        subst (λ l. Memᴰ l (lines status)) (strip_prefix-eq-some validsig line e) kept,
        rw (e, line_names) at named,
      )
    ]

-- gpg was given the message, and reported a valid signature by the key over the challenge.
abbrev pub Verified : Host → Bytes → Bytes → Bytes → Bytes → Type 0
Verified host gpg fingerprint challenge message =
    (output : Output) × (run host gpg (codes "--status-fd" ∷ codes "2" ∷ codes "--decrypt" ∷ [])
        message
      ≡ ok output)
    × (output.success ≡ true)
    × (output.stdout ≡ challenge)
    × Reported (host.from_utf8_lossy output.stderr) fingerprint

-- The evidence is the message, for this challenge, dated now.
abbrev pub Witnesses : SystemTime → Bytes → Bytes → ChallengeSignature → Type 0
Witnesses now challenge message s =
    (s.assertion.bytes ≡ message) × (s.challenge ≡ challenge) × (s.observed_at ≡ now)

or_false : (a b : Bool) → (not a || not b) ≡ false → (a ≡ true) × (b ≡ true)
or_false a b h = ground arith

accepted-eq-ok :
    (host : Host) (now : SystemTime) (challenge message fingerprint : Bytes) (output : Output)
    (s : ChallengeSignature)
    → accepted host now challenge message fingerprint output ≡ ok s
    → (output.success ≡ true)
      × (output.stdout ≡ challenge)
      × Reported (host.from_utf8_lossy output.stderr) fingerprint
      × Witnesses now challenge message s
unfolding accepted
accepted-eq-ok host now challenge message fingerprint output s h =
    let reported = names_key (host.from_utf8_lossy output.stderr) fingerprint in
    elim (Bool-cases (not output.success || not reported)) [
      | inl e ↦ absurd (cc (rw (e, accepted) at h))
      | inr e ↦ elim (Bool-cases (same output.stdout challenge)) [
        | inr d ↦ absurd (cc (rw (e, accepted, d) at h))
        | inl d ↦
            let (fine, named) = or_false output.success reported e in
            let made = ok-injective (rw (e, accepted, d) at h) in
            (
              fine,
              (same_iff output.stdout challenge).0 d,
              names_key-Reported (host.from_utf8_lossy output.stderr) fingerprint named,
              (
                ap (λ t. t.assertion.bytes) (sym made),
                ap (λ t. t.challenge) (sym made),
                ap (λ t. t.observed_at) (sym made),
              ),
            )
      ]
    ]

-- The path of a candidate of gpg is that of a key, and gpg is there to verify with it.
abbrev pub Proves : Host → SystemTime → Candidate → Bytes → Bytes → ChallengeSignature → Type 0
Proves host now c challenge message s =
    (fingerprint : Bytes) × (c.path ≡ codes "gpg/" ++ fingerprint)
    × (gpg : Bytes) × (which_gpg host ≡ some gpg)
    × Verified host gpg fingerprint challenge message
    × Witnesses now challenge message s

verify_openpgp-Proves :
    (host : Host) (now : SystemTime) (c : Candidate) (challenge message : Bytes)
    (s : ChallengeSignature)
    → verify_openpgp host now c challenge message ≡ ok s
    → Proves host now c challenge message s
unfolding verify_openpgp
verify_openpgp-Proves host now c challenge message s h =
    elim (Option-cases (strip_prefix (codes "gpg/") c.path)) [
      | inl e ↦ absurd (cc (rw (e, verify_openpgp) at h))
      | inr (fingerprint, e) ↦ elim (Option-cases (which_gpg host)) [
        | inl g ↦ absurd (cc (rw (e, verify_openpgp, g) at h))
        | inr (gpg, g) ↦
            elim (Result-cases
              (run host gpg (codes "--status-fd" ∷ codes "2" ∷ codes "--decrypt" ∷ []) message)) [
                | inr (why, r) ↦ absurd (cc (rw (e, verify_openpgp, g, r) at h))
                | inl (output, r) ↦
                    let (fine, covers, reported, witnessed) =
                      accepted-eq-ok host now challenge message fingerprint output s
                        (rw (e, verify_openpgp, g, r) at h) in
                    (
                      fingerprint,
                      strip_prefix-eq-some (codes "gpg/") c.path e,
                      gpg,
                      g,
                      (output, r, fine, covers, reported),
                      witnessed,
                    )
              ]
      ]
    ]

proof_claim :
    (c : Candidate) (now : SystemTime) (challenge : Bytes) (es : List Evidence)
    (s : ChallengeSignature) {message : Bytes}
    → es ≡ possession s ∷ []
    → Witnesses now challenge message s
    → derive c challenge es ≡ some (key_claim c now)
unfolding binds_to
proof_claim c now challenge es s one (m, asked, dated) =
    ap (derive c challenge) one
    ∙ possession-claim c challenge s (rw (asked) (same_refl challenge))
    ∙ ap (λ t. some (key_claim c t)) dated

-- The listing of gpg holds a candidate of that path now.
abbrev pub Held : Host → Bytes → Type 0
Held host path =
    (candidates : List Candidate) × (enumerate host ≡ ok candidates)
    × (k : Candidate) × Memᴰ k candidates
    × (k.path ≡ path)

find_path-Held :
    (path : Bytes) (candidates : List Candidate) {fingerprint : Bytes}
    → find_path path candidates ≡ some fingerprint
    → (k : Candidate) × Memᴰ k candidates × (k.path ≡ path)
unfolding find_path
find_path-Held path [] h = absurd cc
find_path-Held path (k ∷ rest) h = elim (Bool-cases (same k.path path)) [
  | inl e ↦ (k, Memᴰ.head refl, (same_iff k.path path).0 e)
  | inr e ↦
      let (other, kept, named) = find_path-Held path rest (rw (e, find_path) at h) in
      (other, Memᴰ.tail kept, named)
]

checked-Proves :
    (host : Host) (now : SystemTime) (c : Candidate) (challenge : Bytes) (signed : Output)
    (es : List Evidence)
    → checked host now c challenge signed ≡ ok es
    → (s : ChallengeSignature) × (es ≡ possession s ∷ [])
      × Proves host now c challenge signed.stdout s
unfolding checked
checked-Proves host now c challenge signed es h = elim (Bool-cases signed.success) [
  | inr e ↦ absurd (cc (rw (e, checked) at h))
  | inl e ↦ elim (Result-cases (verify_openpgp host now c challenge signed.stdout)) [
    | inr (why, v) ↦ absurd (cc (rw (e, checked, v) at h))
    | inl (s, v) ↦ (
      s,
      sym (ok-injective (rw (e, checked, v) at h)),
      verify_openpgp-Proves host now c challenge signed.stdout s v,
    )
  ]
]

-- When the gpg source proves a candidate, gpg lists its key at that time, and the evidence is one
-- message that the same gpg, asked to verify it, reported as validly signed by the key that the
-- candidate names and as covering this challenge; the claim that it makes is of the lowest tier,
-- asserts no presence, and names the candidate.
pub prove-Proves :
    (host : Host) (now : SystemTime) (c : Candidate) (challenge : Bytes) (es : List Evidence)
    → prove host now c challenge ≡ ok es
    → Held host c.path
      × ((message : Bytes) × (s : ChallengeSignature) × (es ≡ possession s ∷ [])
          × Proves host now c challenge message s)
      × (derive c challenge es ≡ some (key_claim c now))
unfolding prove
prove-Proves host now c challenge es h = elim (Option-cases (which_gpg host)) [
  | inl g ↦ absurd (cc (rw (g, prove) at h))
  | inr (gpg, g) ↦ elim (Result-cases (enumerate host)) [
    | inr (why, l) ↦ absurd (cc (rw (g, prove, l) at h))
    | inl (candidates, l) ↦ elim (Option-cases (find_path c.path candidates)) [
      | inl f ↦ absurd (cc (rw (g, prove, l, f) at h))
      | inr (fingerprint, f) ↦
          elim (Result-cases (
            run host gpg
              (codes "--local-user"
                ∷ fingerprint
                ∷ codes "--sign"
                ∷ codes "--output"
                ∷ codes "-"
                ∷ [])
              challenge)) [
                | inr (why, r) ↦ absurd (cc (rw (g, prove, l, f, r) at h))
                | inl (signed, r) ↦
                    let (s, one, proof) =
                      checked-Proves host now c challenge signed es (rw (g, prove, l, f, r) at h) in
                    let (k, kept, named) = find_path-Held c.path candidates f in
                    (
                      (candidates, l, k, kept, named),
                      (signed.stdout, s, one, proof),
                      proof_claim c now challenge es s one proof.5,
                    )
              ]
    ]
  ]
]
