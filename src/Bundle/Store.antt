-- ===== src/Bundle/Store.antt =====
-- Of hire-core/src/trust_bundle.rs: `upsert` and `get` together.
use project_persona.Prelude.{
  ◌≡◌, ◌≢◌, refl, sym, ap, ◌∙◌, false, Bool-cases, some, [], ◌∷◌, inl, inr,
}
use project_persona.Text.{Bytes, same, same_iff, same_refl}
use project_persona.SpiffeId.{TrustDomain, show_domain}
use project_persona.SpiffeId.Domain.{show_domain-injective}
use project_persona.Bundle.{TrustBundle, TrustBundleStore, insert, lookup, upsert, get}

lookup-insert :
    (key : Bytes) (bundle : TrustBundle) (store : TrustBundleStore)
    → lookup key (insert key bundle store) ≡ some bundle
unfolding lookup insert
lookup-insert key bundle [] = rw (same_refl key, lookup) refl
lookup-insert key bundle ((k, b) ∷ rest) = elim (Bool-cases (same k key)) [
  | inl e ↦ rw (e, insert, same_refl key, lookup) refl
  | inr e ↦ rw (e, insert, lookup, e) (lookup-insert key bundle rest)
]

lookup-insert_other :
    (key other : Bytes) (bundle : TrustBundle) (store : TrustBundleStore)
    → same key other ≡ false
    → lookup other (insert key bundle store) ≡ lookup other store
unfolding lookup insert
lookup-insert_other key other bundle [] h = rw (h, lookup) refl
lookup-insert_other key other bundle ((k, b) ∷ rest) h = elim (Bool-cases (same k key)) [
  | inl e ↦
      let not_it : same k other ≡ false = ap (λ s. same s other) ((same_iff k key).0 e) ∙ h in
      rw (e, insert, h, lookup, not_it) refl
  | inr e ↦ elim (Bool-cases (same k other)) [
    | inl p ↦ rw (e, insert, lookup, p) refl
    | inr p ↦ rw (e, insert, lookup, p) (lookup-insert_other key other bundle rest h)
  ]
]

same-false : (a b : Bytes) → a ≢ b → same a b ≡ false
same-false a b h = elim (Bool-cases (same a b)) [
  | inl e ↦ absurd (h ((same_iff a b).0 e))
  | inr e ↦ e
]

-- After a bundle is put in, it is the one of its trust domain, and that of every other trust domain
-- is what it was, although the store is keyed by the string form.
get-upsert :
    (store : TrustBundleStore) (bundle : TrustBundle)
    → (get (upsert store bundle) bundle.trust_domain ≡ some bundle)
      × ((d : TrustDomain) → d ≢ bundle.trust_domain → get (upsert store bundle) d ≡ get store d)
unfolding get upsert
get-upsert store bundle = (
  lookup-insert (show_domain bundle.trust_domain) bundle store,
  λ d other. lookup-insert_other (show_domain bundle.trust_domain) (show_domain d) bundle store (
      same-false (show_domain bundle.trust_domain) (show_domain d)
        (λ e. other (sym (show_domain-injective bundle.trust_domain d e)))),
)
