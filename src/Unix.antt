-- ===== src/Unix.antt =====
-- hire-attestors/src/unix.rs: the account that the daemon runs under. What the C library answers is a
-- record of functions.
pub mod Lookup
pub mod Account
use project_persona.Prelude.{
  ℕ, zero, suc, ◌*◌, ◌-◌, ◌^◌, Bool, true, false, Option, none, some, List, [], ◌∷◌, ◌++◌, ltb,
  if◌then◌else◌, Result, ok, err, map_err,
}
use project_persona.Text.{Bytes, codes, same}
use project_persona.Text.Decimal.{show_u64}
use project_persona.Assurance.{IdentityAssurance, PresenceLevel}
use project_persona.Claim.{
  Candidate, new_candidate, with_attainable, with_proof_cost, ssh_local, AttainableAssurance,
  silent, SystemTime, PlatformIdentity, Evidence, platform_assertion,
}
use project_persona.Agent.{AttestorError, unavailable, challenge_failed, io}
use project_persona.Service.{Attestor}

-- MAX_PASSWD_BUF
abbrev pub max_passwd_buf : ℕ
max_passwd_buf = 2 ^ 20

-- What `getpwuid_r` returns: an error, or 0 with no entry, or 0 with one, of which the name is kept.
pub data Answer : Type 0 where
  erange enoent esrch other_error no_entry : Answer
  entry : Bytes → Answer

-- `sysconf` answers with a number, or with -1.
pub record Library : Type 0 where
  pub size_max : Option ℕ
  pub getpwuid_r : (uid cap : ℕ) → Answer
  pub from_utf8_lossy : Bytes → Bytes

-- `usize::saturating_mul(2)`.
unfoldable pub doubled : ℕ → ℕ
doubled cap = if ltb (2 ^ 64 - 1) (cap * 2) then 2 ^ 64 - 1 else cap * 2

unfoldable pub first_cap : Option ℕ → ℕ
first_cap none = 1024
first_cap (some zero) = 1024
first_cap (some (suc n)) = suc n

-- What the loop returns after an answer; with ERANGE it goes on.
unfoldable pub settled : Library → Answer → Option (Result AttestorError (Option Bytes))
settled lib erange = none
settled lib enoent = some (ok none)
settled lib esrch = some (ok none)
settled lib other_error = some (err io)
settled lib no_entry = some (ok none)
settled lib (entry name) = some (ok (some (lib.from_utf8_lossy name)))

abbrev pub too_large : AttestorError
too_large = unavailable (codes "passwd entry larger than 1 MiB")

-- The loop of `username_for`: `none` when it has not returned within that many calls.
unfoldable pub lookup : ℕ → Library → ℕ → ℕ → Option (Result AttestorError (Option Bytes))
lookup zero lib uid cap = none
lookup (suc rounds) lib uid cap = elim (settled lib (lib.getpwuid_r uid cap)) [
  | some found ↦ some found
  | none ↦ elim (ltb max_passwd_buf (doubled cap)) [
    | true ↦ some (err too_large)
    | false ↦ lookup rounds lib uid (doubled cap)
  ]
]

-- The buffer doubles up to 2 ^ 20 bytes, so that 21 calls are enough.
unfoldable pub username_for : Library → ℕ → Option (Result AttestorError (Option Bytes))
username_for lib uid = lookup 21 lib uid (first_cap lib.size_max)

pub record UnixAttestor : Type 0 where
  pub uid : ℕ
  pub display_name : Bytes

unfoldable pub display_of : ℕ → Result AttestorError (Option Bytes) → Bytes
display_of uid (ok (some name)) = name
display_of uid (ok none) = codes "uid " ++ show_u64 uid
display_of uid (err e) = codes "uid " ++ show_u64 uid

-- `UnixAttestor::new`.
unfoldable pub new : Library → ℕ → Option UnixAttestor
new lib uid = elim (username_for lib uid) [
  | none ↦ none
  | some found ↦ some (record { uid = uid; display_name = display_of uid found })
]

unfoldable pub spiffe_path : ℕ → Bytes
spiffe_path uid = codes "unix/" ++ show_u64 uid

-- `enumerate`, which cannot fail.
unfoldable pub candidate_of : UnixAttestor → Candidate
candidate_of unix =
    with_proof_cost
      (with_attainable
        (new_candidate (codes "unix") ssh_local (spiffe_path unix.uid) unix.display_name)
        AttainableAssurance.iaa1)
      silent

abbrev pub not_current : AttestorError
not_current = challenge_failed (codes "candidate does not name the current account")

-- `prove`, with what `getuid` answers now and the reading of the clock.
unfoldable pub prove : (uid : ℕ) → SystemTime → Candidate → Result AttestorError (List Evidence)
prove uid now c = elim (same c.path (spiffe_path uid)) [
  | true ↦ ok (platform_assertion (record { account = c.path; asked_at = now }) ∷ [])
  | false ↦ err not_current
]

-- The source as the service holds it, with a rendering of its errors.
unfoldable pub attestor :
    (show : AttestorError → Bytes) → UnixAttestor → (uid : ℕ) → SystemTime → Attestor
attestor show unix uid now = record {
  name = codes "unix";
  enumerate = ok (candidate_of unix ∷ []);
  prove = λ before c challenge. map_err show (prove uid now c);
}
