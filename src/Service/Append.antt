-- ===== src/Service/Append.antt =====
-- Of `fetch_jwtsvid`: its steps over the candidates of one source more.
use mathlib.Core.List.{append_assoc}
use project_persona.Prelude.{
  ℕ, ◌≡◌, refl, sym, ap, ◌∙◌, inl, inr, subst, Bool, true, false, Option, none, some, List, [], ◌∷◌,
  ◌++◌, map, ◌||◌, leb, if◌then◌else◌, Bool-cases, Result-cases, arith,
}
use project_persona.Text.{Bytes, same}
use project_persona.SpiffeId.{uri}
use project_persona.Assurance.{IdentityAssurance, assurance_rank}
use project_persona.Claim.{Candidate, Claim}
use project_persona.Service.{
  Attestor, tag_all, enumerate_all, prove_one, keep_some, is_silent, prove_silent, insert_claim,
  sort_claims, contains, retain_unseen,
}

pub enumerate_all-append :
    (l r : List Attestor) → enumerate_all (l ++ r) ≡ enumerate_all l ++ enumerate_all r
unfolding enumerate_all
enumerate_all-append [] r = refl
enumerate_all-append (a ∷ l) r = elim (Result-cases a.enumerate) [
  | inl (cs, e) ↦
      rw (e, enumerate_all)
        (ap (λ t. tag_all a cs ++ t) (enumerate_all-append l r)
          ∙ sym (append_assoc (tag_all a cs) (enumerate_all l) (enumerate_all r)))
  | inr (why, e) ↦ rw (e, enumerate_all) (enumerate_all-append l r)
]

keep_some-append : (o : Option Claim) (l r : List Claim) → keep_some o (l ++ r) ≡ keep_some o l ++ r
keep_some-append none l r = refl
keep_some-append (some k) l r = refl

pub prove_silent-append :
    (challenge : Bytes) (before : List Candidate) (l r : List (Attestor × Candidate))
    → (prove_silent challenge before (l ++ r)).1
      ≡ (prove_silent challenge before l).1
        ++ (prove_silent challenge (prove_silent challenge before l).0 r).1
unfolding prove_silent
prove_silent-append challenge before [] r = refl
prove_silent-append challenge before ((a, c) ∷ l) r = elim (Bool-cases (is_silent c.proof_cost)) [
  | inr e ↦ rw (e, prove_silent) (prove_silent-append challenge before l r)
  | inl e ↦
      rw (e, prove_silent)
        (ap (keep_some (prove_one before (a, c) challenge))
            (prove_silent-append challenge (before ++ c ∷ []) l r)
          ∙ keep_some-append (prove_one before (a, c) challenge) _ _)
]

low-leb :
    (a : IdentityAssurance) (n : ℕ) → a ≡ IdentityAssurance.iaa1 → leb (assurance_rank a) n ≡ true
unfolding assurance_rank
low-leb a n h = subst (λ t. leb (assurance_rank t) n ≡ true) (sym h) (ground arith)

-- A claim of the lowest tier goes behind those that were proven before it.
insert_claim-append :
    (k u : Claim) (l : List Claim)
    → u.assurance ≡ IdentityAssurance.iaa1
    → insert_claim k (l ++ u ∷ []) ≡ insert_claim k l ++ u ∷ []
unfolding insert_claim assurance_rank
insert_claim-append k u [] low =
    ap (λ b. if b then k ∷ u ∷ [] else u ∷ k ∷ [])
      (low-leb u.assurance (assurance_rank k.assurance) low)
insert_claim-append k u (x ∷ l) low =
    elim (Bool-cases (leb (assurance_rank x.assurance) (assurance_rank k.assurance))) [
      | inl e ↦ rw (e, insert_claim) refl
      | inr e ↦ rw (e, insert_claim) (ap (◌∷◌ x) (insert_claim-append k u l low))
    ]

pub sort_claims-append :
    (u : Claim) (l : List Claim)
    → u.assurance ≡ IdentityAssurance.iaa1
    → sort_claims (l ++ u ∷ []) ≡ sort_claims l ++ u ∷ []
unfolding sort_claims insert_claim
sort_claims-append u [] low = refl
sort_claims-append u (k ∷ l) low =
    ap (insert_claim k) (sort_claims-append u l low) ∙ insert_claim-append k u (sort_claims l) low

-- The identities of claims, in order.
abbrev pub ids : List Claim → List Bytes
ids = map (λ k. uri k.spiffe_id)

-- A claim at the end that is seen before or in the list is dropped.
pub retain_unseen-append :
    (u : Claim) (seen : List Bytes) (l : List Claim)
    → retain_unseen seen (l ++ u ∷ []) ≡ (
        if contains seen (uri u.spiffe_id)
          || contains (ids (retain_unseen seen l)) (uri u.spiffe_id)
        then retain_unseen seen l
        else retain_unseen seen l ++ u ∷ [])
unfolding retain_unseen contains
retain_unseen-append u seen [] = elim (Bool-cases (contains seen (uri u.spiffe_id))) [
  | inl e ↦ rw (e, retain_unseen) refl
  | inr e ↦ rw (e, retain_unseen) refl
]
retain_unseen-append u seen (k ∷ l) = elim (Bool-cases (contains seen (uri k.spiffe_id))) [
  | inl e ↦ rw (e, retain_unseen) (retain_unseen-append u seen l)
  | inr e ↦
      let rest = retain_unseen (uri k.spiffe_id ∷ seen) l in
      rw (e, retain_unseen)
        (ap (◌∷◌ k) (retain_unseen-append u (uri k.spiffe_id ∷ seen) l)
          ∙ one_more k u (same (uri k.spiffe_id) (uri u.spiffe_id))
              (contains seen (uri u.spiffe_id)) (contains (ids rest) (uri u.spiffe_id)) rest)
]
  where
    one_more :
        (k u : Claim) (here before later : Bool) (rest : List Claim)
        → k ∷ (if (if here then true else before) || later then rest else rest ++ u ∷ [])
          ≡ (if before || (if here then true else later) then k ∷ rest else k ∷ rest ++ u ∷ [])
    one_more k u true true later rest = refl
    one_more k u true false later rest = refl
    one_more k u false true later rest = refl
    one_more k u false false true rest = refl
    one_more k u false false false rest = refl
