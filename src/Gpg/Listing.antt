-- ===== src/Gpg/Listing.antt =====
-- hire-attestors/src/gpg.rs: `parse_gpg_colons`, the keys of `gpg --list-secret-keys --with-colons`.
-- The lower case of text beyond ASCII is a parameter.
use project_persona.Prelude.{
  ℕ, zero, suc, Bool, true, false, not, ◌&&◌, Option, none, some, List, [], ◌∷◌, ◌++◌,
  if◌then◌else◌,
}
use project_persona.Text.{Bytes, codes, same}
use project_persona.Text.Split.{split}
use project_persona.Text.Space.{lines}
use project_persona.Claim.{
  Candidate, new_candidate, with_attainable, with_proof_cost, ssh_local, AttainableAssurance,
  interactive,
}

-- `fields.get(n)`.
unfoldable pub field : ℕ → List Bytes → Option Bytes
field n [] = none
field zero (f ∷ fields) = some f
field (suc n) (f ∷ fields) = field n fields

abbrev pub says : Bytes → Option Bytes → Bool
says text none = false
says text (some f) = same f text

abbrev pub is_revoked : Option Bytes → Bool
is_revoked o = says (codes "r") o

-- `fields.get(14).is_some_and(|f| *f != "#")`.
abbrev pub secret_held : Option Bytes → Bool
secret_held none = false
secret_held (some f) = not (same f (codes "#"))

abbrev pub starts_key : List Bytes → Bool
starts_key fields = says (codes "sec") (field 0 fields)

abbrev pub is_fpr : List Bytes → Bool
is_fpr fields = says (codes "fpr") (field 0 fields)

abbrev pub is_live_uid : List Bytes → Bool
is_live_uid fields = says (codes "uid") (field 0 fields) && not (is_revoked (field 1 fields))

abbrev pub is_enrollable : List Bytes → Bool
is_enrollable fields = secret_held (field 14 fields) && not (is_revoked (field 1 fields))

-- The variables of the loop, without the candidates that it has pushed.
pub record Current : Type 0 where
  pub fp : Option Bytes
  pub uid : Option Bytes
  pub enrollable : Bool
  pub want_primary_fpr : Bool

unfoldable pub make_candidate : (Bytes → Bytes) → Bytes → Bytes → Candidate
make_candidate to_lowercase fingerprint display_name =
    with_proof_cost
      (with_attainable
        (new_candidate (codes "gpg") ssh_local (codes "gpg/" ++ to_lowercase fingerprint)
          display_name)
        AttainableAssurance.iaa1)
      interactive

-- What `flush_key` pushes.
unfoldable pub flush_key : (Bytes → Bytes) → Option Bytes → Option Bytes → Bool → List Candidate
flush_key to_lowercase (some fp) (some uid) true = make_candidate to_lowercase fp uid ∷ []
flush_key to_lowercase fp uid enrollable = []

unfoldable pub flush : (Bytes → Bytes) → Current → List Candidate
flush to_lowercase cur = flush_key to_lowercase cur.fp cur.uid cur.enrollable

-- The state behind a `sec` line.
unfoldable pub fresh : List Bytes → Current
fresh fields = record {
  fp = none;
  uid = none;
  enrollable = is_enrollable fields;
  want_primary_fpr = true;
}

abbrev pub keep_first : Option Bytes → Option Bytes → Option Bytes
keep_first none later = later
keep_first (some u) later = some u

-- A line that is no `sec` line: `fpr` with the flag, and `uid`.
unfoldable pub read_line : Current → List Bytes → Current
read_line cur fields =
    if is_fpr fields && cur.want_primary_fpr
    then record cur { fp = field 9 fields; want_primary_fpr = false }
    else (if is_live_uid fields
        then record cur { uid = keep_first cur.uid (field 9 fields) }
        else cur)

unfoldable pub read_lines : (Bytes → Bytes) → Current → List (List Bytes) → List Candidate
read_lines to_lowercase cur [] = flush to_lowercase cur
read_lines to_lowercase cur (fields ∷ rest) = elim (starts_key fields) [
  | true ↦ flush to_lowercase cur ++ read_lines to_lowercase (fresh fields) rest
  | false ↦ read_lines to_lowercase (read_line cur fields) rest
]

abbrev pub fields_of : List Bytes → List (List Bytes)
fields_of [] = []
fields_of (l ∷ rest) = split b':' l ∷ fields_of rest

abbrev pub before_keys : Current
before_keys = record { fp = none; uid = none; enrollable = false; want_primary_fpr = false }

unfoldable pub parse_gpg_colons : (Bytes → Bytes) → Bytes → List Candidate
parse_gpg_colons to_lowercase output =
    read_lines to_lowercase before_keys (fields_of (lines output))
