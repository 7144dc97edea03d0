-- ===== src/Tests/Unix.antt =====
-- An account on a machine whose directory answers for entries of some size.
use project_persona.Prelude.{
  ℕ, ◌^◌, ◌≡◌, ◌≤◌, refl, none, some, ok, err, ltb, if◌then◌else◌, Result, Option,
}
use project_persona.Text.{Bytes, codes}
use project_persona.Agent.{AttestorError}
use project_persona.Unix.{
  Library, erange, entry, enoent, UnixAttestor, too_large, username_for, lookup, settled, doubled,
  first_cap, new, display_of,
}
use project_persona.Text.Decimal.{show_u64}
use project_persona.Unix.Lookup.{Fits, username_for-total}

-- An entry that needs so many bytes, under a first buffer of that size.
abbrev needs : ℕ → ℕ → Library
needs size need = record {
  size_max = some size;
  getpwuid_r = λ uid cap. if ltb cap need then erange else entry (codes "ada");
  from_utf8_lossy = λ s. s;
}

username_for-total_example :
    (found : Result AttestorError (Option Bytes)) × (username_for (needs 1024 5000) 1000
      ≡ some found)
    × ((need : ℕ) (name : Bytes)
        → Fits (needs 1024 5000) 1000 need name
        → need ≤ 2 ^ 19
        → found ≡ ok (some name))
username_for-total_example = username_for-total (needs 1024 5000) 1000

username_for-ada : username_for (needs 1024 5000) 1000 ≡ some (ok (some (codes "ada")))
unfolding username_for lookup settled doubled first_cap
username_for-ada = refl

-- The entry would fit in 1 MiB, but the buffer doubles past that from 600000 bytes.
username_for-skipped : username_for (needs 600000 700000) 1000 ≡ some (err too_large)
unfolding username_for lookup settled doubled first_cap
username_for-skipped = refl

abbrev ada : UnixAttestor
ada = record { uid = 1000; display_name = codes "ada" }

-- A uid that the database has no name for.
new-nameless :
    new (record { size_max = none; getpwuid_r = λ uid cap. enoent; from_utf8_lossy = λ s. s }) 7
    ≡ some (record { uid = 7; display_name = codes "uid 7" })
unfolding new username_for lookup settled first_cap display_of show_u64
new-nameless = refl
