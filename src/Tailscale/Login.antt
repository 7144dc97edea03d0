-- ===== src/Tailscale/Login.antt =====
-- What the source makes of the answers of tailscaled: it answers, and what claim it yields.
use project_persona.Prelude.{
  ◌≡◌, ◌≢◌, refl, sym, ap, subst, ◌⊎◌, inl, inr, Option, none, some, List, [], ◌∷◌, Result, ok, err,
  ◌>>=◌, map_err, Bool-cases, some-injective, ok-injective,
}
use project_persona.Text.{Bytes, codes, same, same_iff, same_refl}
use project_persona.Assurance.{IdentityAssurance, PresenceLevel, presence_rank, assurance_rank}
use project_persona.SpiffeId.{TrustDomain}
use project_persona.Claim.{
  new_candidate, with_attainable, with_proof_cost, SystemTime, Evidence, Claim, derive,
  derive_bound, bound, claim_of, fold_tiers, raise_iaa3, anchor, tier, to_trust_domain, binds_to,
  daemon_assertion,
}
use project_persona.Agent.{AttestorError, unavailable}
use project_persona.Tailscale.Body.{Render, header_says_chunked}
use project_persona.Tailscale.Status.{
  Json, Socket, body_of, fetch_status, split_response, parsed, status_of, identified, proved, ask,
  identity_of, candidate_of, same_login, moved, prove,
}
use project_persona.Tailscale.Chunks.{dechunk-total}

body_of-total :
    (render : Render) (headers body : Bytes)
    → (r : Result AttestorError Bytes) × (body_of render headers body ≡ some r)
unfolding body_of
body_of-total render headers body = elim (Bool-cases (header_says_chunked render headers)) [
  | inl e ↦ rw (e, body_of) (dechunk-total render body)
  | inr e ↦ (ok body, rw (e, body_of) refl)
]

-- A call returned.
abbrev Returns {ℓ} : {A : Type ℓ} → Option A → Type ℓ
Returns {A = A} o = (r : A) × (o ≡ some r)

parsed-Returns {ℓ} :
    {V : Type ℓ} (json : Json V) (o : Option (Result AttestorError Bytes))
    → Returns o
    → Returns (parsed json o)
parsed-Returns json none (r, q) = absurd cc
parsed-Returns json (some (err e)) back = (err e, refl)
parsed-Returns json (some (ok body)) back = (map_err unavailable (json.from_slice body), refl)

status_of-Returns {ℓ} :
    {V : Type ℓ} (render : Render) (json : Json V) (r : Result AttestorError (Bytes × Bytes))
    → Returns (status_of render json r)
status_of-Returns render json (err e) = (err e, refl)
status_of-Returns render json (ok (headers, body)) =
    parsed-Returns json (body_of render headers body) (body_of-total render headers body)

identified-Returns {ℓ} :
    {V : Type ℓ} (json : Json V) (o : Option (Result AttestorError V))
    → Returns o
    → Returns (identified json o)
identified-Returns json none (r, q) = absurd cc
identified-Returns json (some (err e)) back = (err e, refl)
identified-Returns json (some (ok status)) back = (identity_of json status, refl)

ask-total {ℓ} :
    {V : Type ℓ} (render : Render) (json : Json V) (socket : Socket)
    → Returns (ask render json socket)
unfolding ask fetch_status
ask-total render json socket =
    identified-Returns json _ (status_of-Returns render json (socket.response >>= split_response))

-- The claim of a login: verified by an identity provider at some time, with nobody seen now.
abbrev pub login_claim : Bytes × Bytes → SystemTime → Claim
login_claim (path, display) now = record {
  source = codes "tailscale";
  assurance = IdentityAssurance.iaa2;
  presence = PresenceLevel.none;
  spiffe_id = record { trust_domain = TrustDomain.tailscale; path = path };
  display_name = display;
  attested_at = now;
}

candidate-claim :
    (path display : Bytes) (now : SystemTime) (challenge : Bytes)
    → derive
        (candidate_of (path, display))
        challenge
        (daemon_assertion (record { subject = path; asked_at = now }) ∷ [])
      ≡ some (login_claim (path, display) now)
unfolding derive bound binds_to candidate_of new_candidate with_attainable with_proof_cost
    derive_bound claim_of fold_tiers raise_iaa3 anchor tier to_trust_domain presence_rank
    assurance_rank
candidate-claim path display now challenge = rw (same_refl path) refl

-- What `prove` makes of an answer: evidence for the same path, and an error for everything else.
abbrev pub Outcome :
    Bytes
    → Bytes
    → SystemTime
    → Bytes
    → Option (Result AttestorError (Bytes × Bytes))
    → Option (Result AttestorError (List Evidence))
    → Type 0
Outcome path display now challenge asked result =
    ((shown : Bytes) × (asked ≡ some (ok (path, shown)))
      × (es : List Evidence) × (result ≡ some (ok es))
      × (derive (candidate_of (path, display)) challenge es
          ≡ some (login_claim (path, display) now)))
    ⊎ (((shown : Bytes) → asked ≢ some (ok (path, shown)))
        × (e : AttestorError) × (result ≡ some (err e)))

proved-Outcome :
    (path display : Bytes) (now : SystemTime) (challenge : Bytes)
    (r : Result AttestorError (Bytes × Bytes))
    → Outcome path display now challenge
        (some r)
        (proved now (candidate_of (path, display)) (some r))
unfolding same_login candidate_of new_candidate with_attainable with_proof_cost
proved-Outcome path display now challenge (err e) = inr ((λ shown q. cc), e, refl)
proved-Outcome path display now challenge (ok (other, shown)) =
    elim (Bool-cases (same other path)) [
      | inl e ↦
          let same_path = sym ((same_iff other path).0 e) in
          inl (
            shown,
            ap (λ p. some (ok (p, shown))) (sym same_path),
            daemon_assertion (record { subject = other; asked_at = now }) ∷ [],
            rw (e, same_login) refl,
            subst
                (λ s.
                  derive (candidate_of (path, display)) challenge
                    (daemon_assertion (record { subject = s; asked_at = now }) ∷ [])
                  ≡ some (login_claim (path, display) now))
                same_path (candidate-claim path display now challenge),
          )
      | inr e ↦ inr (
        (λ shown2 q.
            absurd
              (cc (rw (ap (λ p. p.0) (ok-injective (some-injective q)), same_refl path) at e))),
        moved path,
        rw (e, same_login) refl,
      )
    ]

-- Asked to prove the candidate that it lists for a path, the source always returns: with evidence
-- exactly if tailscaled now reports that path, and then the claim is of the second tier, asserts no
-- presence and names the path under tailscale; and with an error in every other case.
pub prove-login {ℓ} :
    {V : Type ℓ} (render : Render) (json : Json V) (socket : Socket) (path display : Bytes)
    (now : SystemTime) (challenge : Bytes)
    → Outcome path display now challenge
        (ask render json socket)
        (prove render json socket now (candidate_of (path, display)))
unfolding prove
prove-login render json socket path display now challenge =
    let (r, q) = ask-total render json socket in
    subst (λ o. Outcome path display now challenge o (proved now (candidate_of (path, display)) o))
      (sym q) (proved-Outcome path display now challenge r)
