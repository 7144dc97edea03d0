-- ===== src/Sources/Asked.antt =====
-- Which keys the two sources ask the agent to sign with.
use mathlib.Core.List.{Memᴰ}
use project_persona.Prelude.{
  ◌≡◌, refl, ap, ◌∙◌, inl, inr, Bool, true, Option, none, some, List, [], ◌∷◌, ok, ok_or, >>=-eq-ok,
  ok-injective, some-injective, Bool-cases, Option-cases, Result-cases, All, subst,
}
use project_persona.Text.{Bytes, same, same_iff}
use project_persona.Claim.{Candidate, SystemTime}
use project_persona.Agent.{ssh_ed25519, read_string, list_identities, ed25519_point_of}
use project_persona.DidKey.{ed25519_point}
use project_persona.DidKey
use project_persona.Possession.{Crypto, spiffe_path}
use project_persona.Sources.Ssh.{
  Connection, Environment, connect, find_blob, check_algorithm, chosen_key, prove,
}
use project_persona.Sources.Did.{parse_did_keys, find_did, is_point_of, Chosen}
use project_persona.Sources.Did

find_blob-Memᴰ :
    (wanted : Bytes → Bool) (keys : List (Bytes × Bytes)) {blob : Bytes}
    → find_blob wanted keys ≡ some blob
    → (wanted blob ≡ true) × (comment : Bytes) × Memᴰ (blob, comment) keys
unfolding find_blob
find_blob-Memᴰ wanted [] h = absurd cc
find_blob-Memᴰ wanted ((b, comment) ∷ keys) {blob} h = elim (Bool-cases (wanted b)) [
  | inl e ↦
      let same_one : b ≡ blob = some-injective (rw (e, find_blob) at h) in
      (
        subst (λ k. wanted k ≡ true) same_one e,
        comment,
        subst (λ k. Memᴰ (k, comment) ((b, comment) ∷ keys)) same_one (Memᴰ.head refl),
      )
  | inr e ↦
      let (good, other, kept) = find_blob-Memᴰ wanted keys (rw (e, find_blob) at h) in
      (good, other, Memᴰ.tail kept)
]

find_did-Memᴰ :
    (wanted : Bytes → Bool) (dids : List Bytes) {did : Bytes}
    → find_did wanted dids ≡ some did
    → (wanted did ≡ true) × Memᴰ did dids
unfolding find_did
find_did-Memᴰ wanted [] h = absurd cc
find_did-Memᴰ wanted (d ∷ dids) {did} h = elim (Bool-cases (wanted d)) [
  | inl e ↦
      let same_one : d ≡ did = some-injective (rw (e, find_did) at h) in
      (
        subst (λ k. wanted k ≡ true) same_one e,
        subst (λ k. Memᴰ k (d ∷ dids)) same_one (Memᴰ.head refl),
      )
  | inr e ↦
      let (good, kept) = find_did-Memᴰ wanted dids (rw (e, find_did) at h) in (good, Memᴰ.tail kept)
]

-- The agent of this environment lists the key now.
abbrev pub Resident : Crypto → Environment → Bytes → Type 0
Resident crypto env key_blob =
    (agent : Connection) × (connect env ≡ ok agent)
    × (keys : List (Bytes × Bytes)) × (list_identities crypto.from_utf8_lossy agent.first ≡ ok keys)
    × (comment : Bytes) × Memᴰ (key_blob, comment) keys

-- A resident key that the candidate names, of the type that can be verified.
abbrev pub Eligible : Crypto → Environment → Candidate → Bytes → Type 0
Eligible crypto env c key_blob =
    Resident crypto env key_blob
    × (spiffe_path crypto key_blob ≡ c.path)
    × ((rest : Bytes) × (read_string key_blob ≡ some (ssh_ed25519, rest)))

pub ok_or-eq-ok {ℓ κ} :
    {E : Type ℓ} {A : Type κ} (e : E) (o : Option A) {a : A} → ok_or e o ≡ ok a → o ≡ some a
ok_or-eq-ok e none h = absurd cc
ok_or-eq-ok e (some b) h = ap some (ok-injective h)

check_algorithm-eq-ok :
    (crypto : Crypto) (c : Candidate) (key_blob : Bytes) {b : Bytes}
    → check_algorithm crypto c key_blob ≡ ok b
    → (key_blob ≡ b) × ((rest : Bytes) × (read_string key_blob ≡ some (ssh_ed25519, rest)))
unfolding check_algorithm
check_algorithm-eq-ok crypto c key_blob h = elim (Option-cases (read_string key_blob)) [
  | inl e ↦ absurd (cc (rw (e, check_algorithm) at h))
  | inr ((algorithm, rest), e) ↦ elim (Bool-cases (same algorithm ssh_ed25519)) [
    | inr other ↦ absurd (cc (rw (e, check_algorithm, other) at h))
    | inl right ↦ (
      ok-injective (rw (e, check_algorithm, right) at h),
      (rest, e ∙ ap (λ a. some (a, rest)) ((same_iff algorithm ssh_ed25519).0 right)),
    )
  ]
]

pub chosen_key-Eligible :
    (crypto : Crypto) (env : Environment) (c : Candidate) (chosen : Connection × Bytes)
    → chosen_key crypto env c ≡ ok chosen
    → Eligible crypto env c chosen.1
unfolding chosen_key
chosen_key-Eligible crypto env c chosen h = elim (Result-cases (connect env)) [
  | inr (e, q) ↦ absurd (cc (rw (q, chosen_key) at h))
  | inl (agent1, q) ↦ elim (Result-cases (list_identities crypto.from_utf8_lossy agent1.first)) [
    | inr (e, l) ↦ absurd (cc (rw (q, chosen_key, l) at h))
    | inl (keys, l) ↦
        elim (Option-cases (find_blob (λ blob. same (spiffe_path crypto blob) c.path) keys)) [
          | inl m ↦ absurd (cc (rw (q, chosen_key, l, m) at h))
          | inr (found, m) ↦
              let (supported, checked, last) =
                >>=-eq-ok (check_algorithm crypto c found) (λ b. ok (agent1, b))
                  (rw (q, chosen_key, l, m) at h) in
              let (one, algorithm) = check_algorithm-eq-ok crypto c found checked in
              let (named, comment, kept) = find_blob-Memᴰ _ keys m in
              let eligible : Eligible crypto env c found = (
                (agent1, q, keys, l, comment, kept),
                (same_iff (spiffe_path crypto found) c.path).0 named,
                algorithm,
              ) in
              subst (Eligible crypto env c) (one ∙ ap (λ p. p.1) (ok-injective last)) eligible
        ]
  ]
]

-- The ssh source asks for a signature only by a key that the agent lists at that time, that names
-- the candidate, and that is an ed25519 key; whatever else goes wrong.
pub prove-Eligible :
    (crypto : Crypto) (env : Environment) (now : SystemTime) (c : Candidate) (challenge : Bytes)
    → All (Eligible crypto env c) (prove crypto env now c challenge).asked
unfolding prove
prove-Eligible crypto env now c challenge = elim (Result-cases (chosen_key crypto env c)) [
  | inr (e, q) ↦ rw (q, prove) tt
  | inl (chosen, q) ↦ rw (q, prove) (chosen_key-Eligible crypto env c chosen q, tt)
]

-- A resident key that is the one that a configured identifier encodes, and the candidate names
-- that identifier.
abbrev pub Configured : Crypto → Environment → Option Bytes → Candidate → Bytes → Bytes → Type 0
Configured crypto env raw c did key_blob =
    Resident crypto env key_blob
    × Memᴰ did (parse_did_keys raw)
    × (DidKey.spiffe_path crypto.sha256 did ≡ c.path)
    × ((point : Bytes) × (ed25519_point did ≡ some point)
        × (ed25519_point_of key_blob ≡ some point))

is_point_of-eq-true :
    (point : Bytes) (o : Option Bytes) → is_point_of point o ≡ true → o ≡ some point
unfolding is_point_of
is_point_of-eq-true point none h = absurd cc
is_point_of-eq-true point (some other) h = ap some ((same_iff other point).0 h)

pub chosen_did-Configured :
    (crypto : Crypto) (env : Environment) (raw : Option Bytes) (c : Candidate) (chosen : Chosen)
    → Did.chosen_key crypto env raw c ≡ ok chosen
    → Configured crypto env raw c chosen.did chosen.key_blob
unfolding Did.chosen_key
chosen_did-Configured crypto env raw c chosen h =
    elim (Option-cases
      (find_did (λ did. same (DidKey.spiffe_path crypto.sha256 did) c.path) (parse_did_keys raw))) [
        | inl e ↦ absurd (cc (rw (e, Did.chosen_key) at h))
        | inr (did, e) ↦ elim (Option-cases (ed25519_point did)) [
          | inl p ↦ absurd (cc (rw (e, Did.chosen_key, p) at h))
          | inr (point, p) ↦ elim (Result-cases (connect env)) [
            | inr (why, q) ↦ absurd (cc (rw (e, Did.chosen_key, p, q) at h))
            | inl (agent, q) ↦
                elim (Result-cases (list_identities crypto.from_utf8_lossy agent.first)) [
                  | inr (why, l) ↦ absurd (cc (rw (e, Did.chosen_key, p, q, l) at h))
                  | inl (keys, l) ↦
                      elim (Option-cases
                        (find_blob (λ blob. is_point_of point (ed25519_point_of blob)) keys)) [
                          | inl m ↦ absurd (cc (rw (e, Did.chosen_key, p, q, l, m) at h))
                          | inr (blob, m) ↦
                              let (listed, comment, kept) = find_blob-Memᴰ _ keys m in
                              let (named, from) = find_did-Memᴰ _ (parse_did_keys raw) e in
                              subst (λ k. Configured crypto env raw c k.did k.key_blob)
                                (ok-injective (rw (e, Did.chosen_key, p, q, l, m) at h))
                                (
                                  (agent, q, keys, l, comment, kept),
                                  from,
                                  (same_iff _ c.path).0 named,
                                  (
                                    point,
                                    p,
                                    is_point_of-eq-true point (ed25519_point_of blob) listed,
                                  ),
                                )
                        ]
                ]
          ]
        ]
      ]
