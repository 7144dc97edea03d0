-- ===== src/Oidc/Listing.antt =====
-- Of hire-attestors/src/oidc.rs: what the source lists, it lists for a token that is cached at that time, and knows again.
use mathlib.Core.List.{Memᴰ}
use mathlib.Core.List.Memᴰ
use project_persona.Prelude.{
  ℕ, ◌≡◌, ◌⊎◌, inl, inr, refl, sym, ap, ◌∙◌, subst, true, Bool-cases, some, List, [], ◌∷◌, ◌++◌,
  map, if◌then◌else◌, All, ok, ok-injective, >>=-eq-ok,
}
use project_persona.Text.{Bytes, codes, same, same_iff}
use project_persona.Claim.{Candidate, SystemTime, candidate_spiffe_id}
use project_persona.Text.Split.{Lacks-by}
use project_persona.Assurance.{PresenceLevel}
use project_persona.SpiffeId.{provenance}
use project_persona.SpiffeId.Provenance.{provenance_iff}
use project_persona.Oidc.{
  fresh, stale, Json, Caches, oidc_cached, now_unix, token_is_unexpired, candidate_named,
  scan_token_caches_off_reactor, enumerate, find_path, judge, freshness,
}
use project_persona.Oidc.Tokens.{cached_tokens}
use project_persona.Oidc.Cached.{
  NamedBy, naming-Memᴰ, candidate_from_jwt-eq-some, candidate_named-path, scanned,
}

module _ {ℓ} {V : Type ℓ} (json : Json V) where
  find_path-known :
      (pairs : List (Candidate × Bytes)) (c : Candidate) (raw : Bytes)
      → Memᴰ (c, raw) pairs
      → (found : Bytes) × (find_path json c.path pairs ≡ some found)
  unfolding find_path
  find_path-known [] c raw m = elim m [ ]
  find_path-known ((k, t) ∷ pairs) c raw m = elim (Bool-cases (same k.path c.path)) [
    | inl e ↦ (t, rw (e, find_path) refl)
    | inr e ↦ elim (Memᴰ.cases_cons m) [
      | inl p ↦
          let is_same : same k.path c.path ≡ true =
            (same_iff k.path c.path).1 (ap (λ x. x.0.path) (sym p)) in
          absurd cc
      | inr later ↦
          let (found, q) = find_path-known pairs c raw later in (found, rw (e, find_path) q)
    ]
  ]

  -- Whatever the subject, its source is the last segment of the path.
  candidate_named-provenance :
      (payload : V) (sub : Bytes)
      → provenance (candidate_spiffe_id (candidate_named json payload sub)) ≡ some oidc_cached
  unfolding candidate_spiffe_id
  candidate_named-provenance payload sub =
      (provenance_iff (candidate_spiffe_id (candidate_named json payload sub)) oidc_cached).1 (
        Lacks-by b'/' oidc_cached refl,
        inr (codes "user/" ++ sub, candidate_named-path json payload sub),
      )

  -- The source lists `c` for a token that is cached now, and of which nothing is verified.
  abbrev pub Listed : Caches → (now epoch : SystemTime) → Candidate → Type ℓ
  Listed caches now epoch c =
      (raw : Bytes) × (payload : V) × (sub : Bytes) × Memᴰ raw (cached_tokens json caches)
      × NamedBy json raw payload sub c
      × (provenance (candidate_spiffe_id c) ≡ some oidc_cached)
      × ((freshness json caches now epoch c ≡ ok fresh)
          ⊎ (freshness json caches now epoch c ≡ ok (stale PresenceLevel.none)))

  judge-known :
      (now : ℕ) (raw : Bytes)
      → (judge json now (some raw) ≡ fresh) ⊎ (judge json now (some raw) ≡ stale PresenceLevel.none)
  unfolding judge
  judge-known now raw = elim (Bool-cases (token_is_unexpired json now raw)) [
    | inl e ↦ inl (rw (e, if◌then◌else◌) refl)
    | inr e ↦ inr (rw (e, if◌then◌else◌) refl)
  ]

  freshness-known :
      (caches : Caches) (now epoch : SystemTime) (c : Candidate) (pairs : List (Candidate × Bytes))
      (raw : Bytes)
      → scan_token_caches_off_reactor json caches ≡ ok pairs
      → Memᴰ (c, raw) pairs
      → (freshness json caches now epoch c ≡ ok fresh)
        ⊎ (freshness json caches now epoch c ≡ ok (stale PresenceLevel.none))
  unfolding freshness
  freshness-known caches now epoch c pairs raw e m =
      let (found, q) = find_path-known pairs c raw m in
      elim (judge-known (now_unix now epoch) found) [
        | inl k ↦ inl (rw (e, q) (ap ok k))
        | inr k ↦ inr (rw (e, q) (ap ok k))
      ]

  All-members {κ} :
      {P : Candidate → Type κ} (pairs : List (Candidate × Bytes))
      → ((c : Candidate) (raw : Bytes) → Memᴰ (c, raw) pairs → P c)
      → All P (map (λ p. p.0) pairs)
  All-members [] f = tt
  All-members ((c, raw) ∷ pairs) f =
      (f c raw (Memᴰ.head refl), All-members pairs λ k t m. f k t (Memᴰ.tail m))

  -- Each candidate that the source lists is named by the subject of a token that is cached then, has
  -- this source as its provenance whatever that subject is, and is known when its freshness is asked
  -- for over the same files: it is called fresh or stale, never unavailable.
  pub enumerate-Listed :
      (caches : Caches) (now epoch : SystemTime) (cs : List Candidate)
      → enumerate json caches ≡ ok cs
      → All (Listed caches now epoch) cs
  unfolding enumerate
  enumerate-Listed caches now epoch cs h =
      let (pairs, e, done) =
        >>=-eq-ok (scan_token_caches_off_reactor json caches) (λ pairs. ok (map (λ p. p.0) pairs))
          h in
      subst (All (Listed caches now epoch)) (ok-injective done) (
        All-members pairs λ c raw m.
          let (inside, named) =
            naming-Memᴰ json (cached_tokens json caches) c raw
              (subst (Memᴰ (c, raw)) (scanned json caches pairs e) m) in
          let (payload, sub, (p, q, whole)) = candidate_from_jwt-eq-some json raw c named in
          (
            raw,
            payload,
            sub,
            inside,
            (p, q, whole),
            ap (λ k. provenance (candidate_spiffe_id k)) whole
                ∙ candidate_named-provenance payload sub,
            freshness-known caches now epoch c pairs raw e m,
          ))
