-- ===== src/Oidc/Tokens.antt =====
-- Of hire-attestors/src/oidc.rs: the tokens that a scan finds, read off the files without its accumulator.
use mathlib.Core.List.{append_assoc}
use project_persona.Prelude.{
  ◌≡◌, inl, inr, refl, sym, ap, ◌∙◌, Option, none, some, Option-cases, List, [], ◌∷◌, ◌++◌,
  append_nil,
}
use project_persona.Text.{Bytes, codes}
use project_persona.Claim.{Candidate}
use project_persona.Oidc.{
  Json, Caches, gcloud_adc, msal_cache, access_tokens, and_then, text_at, candidate_from_jwt,
  push_token, push_each, collect_azure_tokens, read_json, push_gcloud, push_azure, scan_home,
  scan_token_caches,
}

module _ {ℓ} {V : Type ℓ} (json : Json V) where
  -- The texts under `key` in the entries.
  unfoldable pub texts : Bytes → List V → List Bytes
  texts key [] = []
  texts key (entry ∷ entries) = elim (text_at json key entry) [
    | none ↦ texts key entries
    | some token ↦ token ∷ texts key entries
  ]

  -- The tokens of a file of the Azure tools, in the layout that it has.
  unfoldable pub azure_tokens : Option V → List Bytes
  azure_tokens none = []
  azure_tokens (some v) = elim (and_then (json.get v (codes "IdToken")) json.values) [
    | some entries ↦ texts (codes "secret") entries
    | none ↦ elim (json.as_array v) [ none ↦ [] | some arr ↦ texts (codes "idToken") arr ]
  ]

  unfoldable pub gcloud_tokens : Option V → List Bytes
  gcloud_tokens none = []
  gcloud_tokens (some v) = texts (codes "id_token") (v ∷ [])

  -- The tokens of the three files, one file after another.
  unfoldable pub home_tokens : Caches → Option Bytes → List Bytes
  home_tokens caches none = []
  home_tokens caches (some home) =
      gcloud_tokens (read_json json caches (gcloud_adc home))
      ++ (azure_tokens (read_json json caches (msal_cache home))
          ++ azure_tokens (read_json json caches (access_tokens home)))

  unfoldable pub cached_tokens : Caches → List Bytes
  cached_tokens caches = home_tokens caches caches.home

  -- Those of the tokens that name somebody.
  unfoldable pub naming : List Bytes → List (Candidate × Bytes)
  naming [] = []
  naming (token ∷ tokens) = elim (candidate_from_jwt json token) [
    | none ↦ naming tokens
    | some c ↦ (c, token) ∷ naming tokens
  ]

  naming-append : (a b : List Bytes) → naming (a ++ b) ≡ naming a ++ naming b
  unfolding naming
  naming-append [] b = refl
  naming-append (t ∷ a) b = elim (Option-cases (candidate_from_jwt json t)) [
    | inl e ↦ rw (e, naming) (naming-append a b)
    | inr (c, e) ↦ rw (e, naming) (ap (λ l. (c, t) ∷ l) (naming-append a b))
  ]

  push_each-naming :
      (key : Bytes) (entries : List V) (out : List (Candidate × Bytes))
      → push_each json key entries out ≡ out ++ naming (texts key entries)
  unfolding push_each push_token texts naming
  push_each-naming key [] out = sym (append_nil out)
  push_each-naming key (v ∷ vs) out = elim (Option-cases (text_at json key v)) [
    | inl e ↦ rw (e, push_token, texts) (push_each-naming key vs out)
    | inr (t, e) ↦ elim (Option-cases (candidate_from_jwt json t)) [
      | inl q ↦ rw (e, push_token, texts, q, naming) (push_each-naming key vs out)
      | inr (c, q) ↦
          rw (e, push_token, texts, q, naming)
            (push_each-naming key vs (out ++ (c, t) ∷ [])
              ∙ append_assoc out ((c, t) ∷ []) (naming (texts key vs)))
    ]
  ]

  push_azure-naming :
      (o : Option V) (out : List (Candidate × Bytes))
      → push_azure json o out ≡ out ++ naming (azure_tokens o)
  unfolding push_azure collect_azure_tokens azure_tokens naming
  push_azure-naming none out = sym (append_nil out)
  push_azure-naming (some v) out =
      elim (Option-cases (and_then (json.get v (codes "IdToken")) json.values)) [
        | inr (entries, e) ↦
            rw (e, collect_azure_tokens, azure_tokens)
              (push_each-naming (codes "secret") entries out)
        | inl e ↦ elim (Option-cases (json.as_array v)) [
          | inl q ↦ rw (e, q, collect_azure_tokens, azure_tokens) (sym (append_nil out))
          | inr (arr, q) ↦
              rw (e, q, collect_azure_tokens, azure_tokens)
                (push_each-naming (codes "idToken") arr out)
        ]
      ]

  push_gcloud-naming : (o : Option V) → push_gcloud json o ≡ naming (gcloud_tokens o)
  unfolding push_gcloud gcloud_tokens naming push_token push_each
  push_gcloud-naming none = refl
  push_gcloud-naming (some v) = push_each-naming (codes "id_token") (v ∷ []) []

  scan_home-naming :
      (caches : Caches) (o : Option Bytes) → scan_home json caches o ≡ naming (home_tokens caches o)
  unfolding scan_home home_tokens naming
  scan_home-naming caches none = refl
  scan_home-naming caches (some dir) =
      let gcloud = read_json json caches (gcloud_adc dir) in
      let msal = read_json json caches (msal_cache dir) in
      let access = read_json json caches (access_tokens dir) in
      push_azure-naming access (push_azure json msal (push_gcloud json gcloud))
      ∙ ap (λ l. l ++ naming (azure_tokens access))
          (push_azure-naming msal (push_gcloud json gcloud)
            ∙ ap (λ l. l ++ naming (azure_tokens msal)) (push_gcloud-naming gcloud))
      ∙ append_assoc (naming (gcloud_tokens gcloud)) (naming (azure_tokens msal))
          (naming (azure_tokens access))
      ∙ sym (
          naming-append (gcloud_tokens gcloud) (azure_tokens msal ++ azure_tokens access)
          ∙ ap (λ l. naming (gcloud_tokens gcloud) ++ l)
              (naming-append (azure_tokens msal) (azure_tokens access)))

  -- The scan finds the tokens of the three files that name somebody, in their order.
  pub scan_token_caches-naming :
      (caches : Caches) → scan_token_caches json caches ≡ naming (cached_tokens caches)
  unfolding scan_token_caches cached_tokens
  scan_token_caches-naming caches = scan_home-naming caches caches.home
