-- ===== src/Unix/Lookup.antt =====
-- The loop of `username_for` ends, and what it finds.
use project_persona.Prelude.{
  ℕ, zero, suc, ◌*◌, ◌^◌, ◌≤◌, ◌<◌, ◌≡◌, refl, sym, subst, ap, ◌∙◌, ◌⊎◌, inl, inr, true, false,
  Option, none, some, ltb, Result, ok, err, arith, Bool-cases, Option-cases, some-injective,
}
use native.Mathlib.Nat.{pow-succ', mul_assoc}
use project_persona.Text.{Bytes}
use project_persona.Agent.{AttestorError}
use project_persona.Unix.{
  Library, erange, entry, max_passwd_buf, too_large, doubled, first_cap, settled, lookup,
  username_for,
}

doubled-small : (cap : ℕ) → ltb max_passwd_buf (doubled cap) ≡ false → doubled cap ≡ cap * 2
unfolding doubled
doubled-small cap h = ground arith

doubled-large : (cap : ℕ) → 2 ^ 20 < cap * 2 → ltb max_passwd_buf (doubled cap) ≡ true
unfolding doubled
doubled-large cap h = ground arith

-- One doubling of the buffer uses up one doubling of the bound.
room-doubled :
    (rounds cap : ℕ)
    → 2 ^ 20 < cap * 2 * 2 ^ suc rounds
    → ltb max_passwd_buf (doubled cap) ≡ false
    → 2 ^ 20 < doubled cap * 2 * 2 ^ rounds
room-doubled rounds cap h small = rw (doubled-small cap small) (
    subst (λ n. 2 ^ 20 < n)
      (ap (λ p. cap * 2 * p) (pow-succ' 2 rounds) ∙ sym (mul_assoc (cap * 2) 2 (2 ^ rounds))) h)

lookup-total :
    (rounds : ℕ) (lib : Library) (uid cap : ℕ)
    → 2 ^ 20 < cap * 2 * 2 ^ rounds
    → (found : Result AttestorError (Option Bytes)) × (lookup (suc rounds) lib uid cap ≡ some found)
unfolding lookup
lookup-total zero lib uid cap h = elim (Option-cases (settled lib (lib.getpwuid_r uid cap))) [
  | inr (found, e) ↦ (found, rw (e, lookup) refl)
  | inl e ↦ (err too_large, rw (e, lookup, doubled-large cap (omega (arith, h))) refl)
]
lookup-total (suc rounds) lib uid cap h =
    elim (Option-cases (settled lib (lib.getpwuid_r uid cap))) [
      | inr (found, e) ↦ (found, rw (e, lookup) refl)
      | inl e ↦ elim (Bool-cases (ltb max_passwd_buf (doubled cap))) [
        | inl large ↦ (err too_large, rw (e, lookup, large) refl)
        | inr small ↦
            let (found, q) =
              lookup-total rounds lib uid (doubled cap) (room-doubled rounds cap h small) in
            (found, rw (e, lookup, small) q)
      ]
    ]

-- An account whose entry takes that many bytes: a smaller buffer is refused.
abbrev pub Fits : Library → ℕ → ℕ → Bytes → Type 0
Fits lib uid need name =
    (cap : ℕ)
    → ((cap < need) × (lib.getpwuid_r uid cap ≡ erange))
      ⊎ ((need ≤ cap) × (lib.getpwuid_r uid cap ≡ entry name))

doubled-fits :
    (cap need : ℕ) → need ≤ 2 ^ 19 → cap < need → ltb max_passwd_buf (doubled cap) ≡ false
unfolding doubled
doubled-fits cap need half less = ground arith

lookup-found :
    (rounds : ℕ) (lib : Library) (uid cap need : ℕ) (name : Bytes)
    → Fits lib uid need name
    → need ≤ 2 ^ 19
    → 2 ^ 20 < cap * 2 * 2 ^ rounds
    → lookup (suc rounds) lib uid cap ≡ some (ok (some (lib.from_utf8_lossy name)))
unfolding lookup settled
lookup-found zero lib uid cap need name fits half h = elim (fits cap) [
  | inl (less, e) ↦ absurd (omega (arith, less, half, h))
  | inr (enough, e) ↦ rw (e, lookup, settled) refl
]
lookup-found (suc rounds) lib uid cap need name fits half h = elim (fits cap) [
  | inr (enough, e) ↦ rw (e, lookup, settled) refl
  | inl (less, e) ↦
      let small = doubled-fits cap need half less in
      rw (e, lookup, settled, small)
        (lookup-found rounds lib uid (doubled cap) need name fits half
          (room-doubled rounds cap h small))
]

room : (size_max : Option ℕ) → 2 ^ 20 < first_cap size_max * 2 * 2 ^ 20
unfolding first_cap
room none = omega arith
room (some zero) = omega arith
room (some (suc n)) = omega arith

-- Whatever the C library answers, `username_for` returns within 21 calls; and if the account has an
-- entry that needs at most half of the largest buffer, it returns the name of that entry.
pub username_for-total :
    (lib : Library) (uid : ℕ)
    → (found : Result AttestorError (Option Bytes)) × (username_for lib uid ≡ some found)
      × ((need : ℕ) (name : Bytes)
          → Fits lib uid need name
          → need ≤ 2 ^ 19
          → found ≡ ok (some (lib.from_utf8_lossy name)))
unfolding username_for
username_for-total lib uid =
    let (found, q) = lookup-total 20 lib uid (first_cap lib.size_max) (room lib.size_max) in
    (
      found,
      q,
      (λ need name fits half. some-injective (
          sym q
          ∙ lookup-found 20 lib uid (first_cap lib.size_max) need name fits half
              (room lib.size_max))),
    )
