-- ===== src/Oidc/Cached.antt =====
-- Of hire-attestors/src/oidc.rs: what the source calls fresh rests on a token that is cached at that time.
use mathlib.Core.List.{Memᴰ}
use mathlib.Core.List.Memᴰ
use project_persona.Prelude.{
  ℕ, ◌<◌, ◌≡◌, inl, inr, refl, sym, ap, ◌∙◌, subst, true, Bool-cases, Option, none, some,
  some-injective, Option-cases, List, [], ◌∷◌, if◌then◌else◌, ltb, ltb→lt, ok, ok-injective,
  >>=-eq-ok,
}
use project_persona.Text.{Bytes, codes, same, same_iff}
use project_persona.Claim.{Candidate, SystemTime, new_candidate, with_attainable, with_proof_cost}
use project_persona.Oidc.{
  fresh, Json, Caches, user_path, and_then, now_unix, parse_jwt_payload, text_at, u64_at, is_after,
  token_is_unexpired, candidate_named, candidate_from_jwt, scan_token_caches_off_reactor, find_path,
  judge, freshness,
}
use project_persona.Oidc.Tokens.{cached_tokens, naming, scan_token_caches-naming}

and_then-eq-some {ℓ κ} :
    {A : Type ℓ} {B : Type κ} (o : Option A) (f : A → Option B) {b : B}
    → and_then o f ≡ some b
    → (a : A) × (o ≡ some a) × (f a ≡ some b)
and_then-eq-some none f h = absurd cc
and_then-eq-some (some a) f h = (a, refl, h)

module _ {ℓ} {V : Type ℓ} (json : Json V) where
  -- The payload of a token and the subject that it names; nobody has vouched for either.
  abbrev pub NamedBy : Bytes → V → Bytes → Candidate → Type ℓ
  NamedBy raw payload sub c =
      (parse_jwt_payload json raw ≡ some payload)
      × (text_at json (codes "sub") payload ≡ some sub)
      × (c ≡ candidate_named json payload sub)

  pub candidate_from_jwt-eq-some :
      (raw : Bytes) (c : Candidate)
      → candidate_from_jwt json raw ≡ some c
      → (payload : V) × (sub : Bytes) × NamedBy raw payload sub c
  unfolding candidate_from_jwt
  candidate_from_jwt-eq-some raw c h =
      let (payload, p, next) =
        and_then-eq-some (parse_jwt_payload json raw)
          (λ v. and_then (text_at json (codes "sub") v) λ sub. some (candidate_named json v sub))
          h in
      let (sub, q, done) =
        and_then-eq-some (text_at json (codes "sub") payload)
          (λ sub. some (candidate_named json payload sub)) next in
      (payload, sub, (p, q, sym (some-injective done)))

  pub naming-Memᴰ :
      (ts : List Bytes) (c : Candidate) (raw : Bytes)
      → Memᴰ (c, raw) (naming json ts)
      → Memᴰ raw ts × (candidate_from_jwt json raw ≡ some c)
  unfolding naming
  naming-Memᴰ [] c raw m = elim m [ ]
  naming-Memᴰ (t ∷ ts) c raw m = elim (Option-cases (candidate_from_jwt json t)) [
    | inl e ↦
        let (inside, named) = naming-Memᴰ ts c raw (rw (e, naming) at m) in
        (Memᴰ.tail inside, named)
    | inr (k, e) ↦ elim (Memᴰ.cases_cons (rw (e, naming) at m)) [
      | inl p ↦ (
        Memᴰ.head (ap (λ x. x.1) p),
        ap (candidate_from_jwt json) (ap (λ x. x.1) p) ∙ e ∙ ap (λ x. some (x.0)) (sym p),
      )
      | inr later ↦ let (inside, named) = naming-Memᴰ ts c raw later in (Memᴰ.tail inside, named)
    ]
  ]

  find_path-eq-some :
      (path : Bytes) (pairs : List (Candidate × Bytes)) (raw : Bytes)
      → find_path json path pairs ≡ some raw
      → (c : Candidate) × Memᴰ (c, raw) pairs × (c.path ≡ path)
  unfolding find_path
  find_path-eq-some path [] raw h = absurd cc
  find_path-eq-some path ((c, t) ∷ pairs) raw h = elim (Bool-cases (same c.path path)) [
    | inl e ↦ (
      c,
      Memᴰ.head (ap (λ r. (c, r)) (sym (some-injective (rw (e, find_path) at h)))),
      (same_iff c.path path).0 e,
    )
    | inr e ↦
        let (k, m, p) = find_path-eq-some path pairs raw (rw (e, find_path) at h) in
        (k, Memᴰ.tail m, p)
  ]

  pub candidate_named-path :
      (payload : V) (sub : Bytes) → (candidate_named json payload sub).path ≡ user_path sub
  unfolding candidate_named with_proof_cost with_attainable new_candidate
  candidate_named-path payload sub = refl

  -- A token of the candidate is cached that has not expired.
  abbrev pub Held : Caches → (now epoch : SystemTime) → Candidate → Type ℓ
  Held caches now epoch c =
      (raw : Bytes) × (payload : V) × (sub : Bytes) × (exp : ℕ) × Memᴰ raw
        (cached_tokens json caches)
      × (parse_jwt_payload json raw ≡ some payload)
      × (text_at json (codes "sub") payload ≡ some sub)
      × (c.path ≡ user_path sub)
      × (u64_at json (codes "exp") payload ≡ some exp)
      × (now_unix now epoch < exp)

  pub scanned :
      (caches : Caches) (pairs : List (Candidate × Bytes))
      → scan_token_caches_off_reactor json caches ≡ ok pairs
      → pairs ≡ naming json (cached_tokens json caches)
  unfolding scan_token_caches_off_reactor
  scanned caches pairs h = elim (Option-cases caches.panicked) [
    | inl e ↦
        ok-injective (sym (rw (e, scan_token_caches_off_reactor) at h))
        ∙ scan_token_caches-naming json caches
    | inr (why, e) ↦ absurd (cc (rw (e, scan_token_caches_off_reactor) at h))
  ]

  token_is_unexpired-eq-true :
      (now : ℕ) (raw : Bytes) (payload : V)
      → parse_jwt_payload json raw ≡ some payload
      → token_is_unexpired json now raw ≡ true
      → (exp : ℕ) × (u64_at json (codes "exp") payload ≡ some exp) × (now < exp)
  unfolding token_is_unexpired is_after
  token_is_unexpired-eq-true now raw payload p h =
      elim (Option-cases (u64_at json (codes "exp") payload)) [
        | inl e ↦ absurd (cc (rw (p, and_then, e, is_after) at h))
        | inr (exp, e) ↦
            let later : ltb now exp ≡ true = rw (p, and_then, e, is_after) at h in
            (exp, e, ltb→lt now exp later)
      ]

  judge-fresh :
      (now : ℕ) (o : Option Bytes)
      → judge json now o ≡ fresh
      → (raw : Bytes) × (o ≡ some raw) × (token_is_unexpired json now raw ≡ true)
  unfolding judge
  judge-fresh now none h = absurd cc
  judge-fresh now (some raw) h = elim (Bool-cases (token_is_unexpired json now raw)) [
    | inl e ↦ (raw, refl, e)
    | inr e ↦ absurd (cc (rw (e, judge, if◌then◌else◌) at h))
  ]

  -- A candidate is called fresh only if one of the cached files then holds a token that names its
  -- subject and that says that it expires after this instant.
  pub freshness-Held :
      (caches : Caches) (now epoch : SystemTime) (c : Candidate)
      → freshness json caches now epoch c ≡ ok fresh
      → Held caches now epoch c
  unfolding freshness
  freshness-Held caches now epoch c h =
      let (pairs, e, done) =
        >>=-eq-ok (scan_token_caches_off_reactor json caches)
          (λ pairs. ok (judge json (now_unix now epoch) (find_path json c.path pairs))) h in
      let (raw, found, alive) =
        judge-fresh (now_unix now epoch) (find_path json c.path pairs) (ok-injective done) in
      let (k, m, same_path) = find_path-eq-some c.path pairs raw found in
      let (inside, named) =
        naming-Memᴰ (cached_tokens json caches) k raw
          (subst (Memᴰ (k, raw)) (scanned caches pairs e) m) in
      let (payload, sub, (p, q, whole)) = candidate_from_jwt-eq-some raw k named in
      let (exp, at_exp, later) =
        token_is_unexpired-eq-true (now_unix now epoch) raw payload p alive in
      (
        raw,
        payload,
        sub,
        exp,
        inside,
        p,
        q,
        sym same_path ∙ ap (λ k. k.path) whole ∙ candidate_named-path payload sub,
        at_exp,
        later,
      )
