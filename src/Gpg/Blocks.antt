-- ===== src/Gpg/Blocks.antt =====
-- The listing read key by key: each `sec` line with the lines up to the next one.
use project_persona.Prelude.{
  ◌≡◌, refl, sym, ap, ◌∙◌, subst, Bool, true, false, Option, none, some, List, [], ◌∷◌, ◌++◌,
  if◌then◌else◌, Bool-cases, inl, inr, append_nil,
}
use project_persona.Text.{Bytes, codes, same, same_iff}
use project_persona.Text.Space.{lines}
use project_persona.Claim.{Candidate}
use project_persona.Gpg.Listing.{
  field, says, starts_key, is_fpr, is_live_uid, is_enrollable, Current, flush_key, flush, fresh,
  keep_first, read_line, read_lines, fields_of, parse_gpg_colons,
}

-- The lines before the next key, and the keys with their lines.
abbrev body : List (List Bytes) → List (List Bytes)
body [] = []
body (fields ∷ rest) = if starts_key fields then [] else fields ∷ body rest

abbrev pub blocks : List (List Bytes) → List (List Bytes × List (List Bytes))
blocks [] = []
blocks (fields ∷ rest) =
    if starts_key fields then (fields, body rest) ∷ blocks rest else blocks rest

-- The field of the first `fpr` line, whatever stands in it.
abbrev first_fpr : List (List Bytes) → Option Bytes
first_fpr [] = none
first_fpr (fields ∷ rest) = if is_fpr fields then field 9 fields else first_fpr rest

-- The first name that a `uid` line gives that is not revoked.
abbrev first_uid : List (List Bytes) → Option Bytes
first_uid [] = none
first_uid (fields ∷ rest) =
    if is_live_uid fields then keep_first (field 9 fields) (first_uid rest) else first_uid rest

-- The candidate of a key whose secret is held and which is not revoked.
abbrev pub key_of : (Bytes → Bytes) → List Bytes × List (List Bytes) → List Candidate
key_of lower (sec, lines_of_key) =
    flush_key lower (first_fpr lines_of_key) (first_uid lines_of_key) (is_enrollable sec)

abbrev pub keys_of : (Bytes → Bytes) → List (List Bytes × List (List Bytes)) → List Candidate
keys_of lower [] = []
keys_of lower (key ∷ keys) = key_of lower key ++ keys_of lower keys

-- The fingerprint in the middle of a key's lines.
abbrev fp_after : Bool → Option Bytes → List (List Bytes) → Option Bytes
fp_after false fp rest = fp
fp_after true fp [] = fp
fp_after true fp (fields ∷ rest) = if is_fpr fields then field 9 fields else fp_after true fp rest

first_fpr-fp_after : (rest : List (List Bytes)) → fp_after true none rest ≡ first_fpr rest
first_fpr-fp_after [] = refl
first_fpr-fp_after (fields ∷ rest) = elim (Bool-cases (is_fpr fields)) [
  | inl e ↦ rw (e) refl
  | inr e ↦ rw (e) (first_fpr-fp_after rest)
]

keep_first_none : (o : Option Bytes) → keep_first o none ≡ o
keep_first_none none = refl
keep_first_none (some u) = refl

keep_first_assoc :
    (a b c : Option Bytes) → keep_first (keep_first a b) c ≡ keep_first a (keep_first b c)
keep_first_assoc none b c = refl
keep_first_assoc (some u) b c = refl

fpr_no_uid : (o : Option Bytes) → says (codes "fpr") o ≡ true → says (codes "uid") o ≡ false
unfolding same
fpr_no_uid none h = absurd cc
fpr_no_uid (some f) h =
    subst (λ s. same s (codes "uid") ≡ false) (sym ((same_iff f (codes "fpr")).0 h)) refl

is_fpr-is_live_uid : (fields : List Bytes) → is_fpr fields ≡ true → is_live_uid fields ≡ false
is_fpr-is_live_uid fields h = rw (fpr_no_uid (field 0 fields) h) refl

abbrev at : Option Bytes → Option Bytes → Bool → Bool → Current
at fp uid enrollable want = record {
  fp = fp;
  uid = uid;
  enrollable = enrollable;
  want_primary_fpr = want;
}

-- What is read of the key in hand, and then of the keys that follow.
abbrev Reads :
    (Bytes → Bytes) → Option Bytes → Option Bytes → Bool → Bool → List (List Bytes) → Type 0
Reads lower fp uid enrollable want rest =
    read_lines lower (at fp uid enrollable want) rest
    ≡ flush_key lower (fp_after want fp (body rest)) (keep_first uid (first_uid (body rest)))
        enrollable
      ++ keys_of lower (blocks rest)

fp_after-nil : (want : Bool) (fp : Option Bytes) → fp_after want fp [] ≡ fp
fp_after-nil true fp = refl
fp_after-nil false fp = refl

fp_after-other :
    (want : Bool) (fp : Option Bytes) (fields : List Bytes) (rest : List (List Bytes))
    → is_fpr fields ≡ false
    → fp_after want fp (fields ∷ rest) ≡ fp_after want fp rest
fp_after-other true fp fields rest h = rw (h) refl
fp_after-other false fp fields rest h = refl

-- An `fpr` line, which counts while the flag is set.
fpr_line-Reads :
    (lower : Bytes → Bytes) (fields : List Bytes) (rest : List (List Bytes)) (fp uid : Option Bytes)
    (enrollable want : Bool)
    → is_fpr fields ≡ true
    → is_live_uid fields ≡ false
    → ((fp2 uid2 : Option Bytes) (want2 : Bool) → Reads lower fp2 uid2 enrollable want2 rest)
    → read_lines lower (read_line (at fp uid enrollable want) fields) rest
      ≡ flush_key lower
          (fp_after want fp (fields ∷ body rest))
          (keep_first uid (first_uid (fields ∷ body rest)))
          enrollable
        ++ keys_of lower (blocks rest)
unfolding read_line
fpr_line-Reads lower fields rest fp uid enrollable true e u later =
    rw (e, u, read_line) (later (field 9 fields) uid false)
fpr_line-Reads lower fields rest fp uid enrollable false e u later =
    rw (e, u, read_line) (later fp uid false)

-- A line of the key in hand.
line-Reads :
    (lower : Bytes → Bytes) (fields : List Bytes) (rest : List (List Bytes)) (fp uid : Option Bytes)
    (enrollable want : Bool)
    → ((fp2 uid2 : Option Bytes) (want2 : Bool) → Reads lower fp2 uid2 enrollable want2 rest)
    → read_lines lower (read_line (at fp uid enrollable want) fields) rest
      ≡ flush_key lower
          (fp_after want fp (fields ∷ body rest))
          (keep_first uid (first_uid (fields ∷ body rest)))
          enrollable
        ++ keys_of lower (blocks rest)
unfolding read_line
line-Reads lower fields rest fp uid enrollable want later = elim (Bool-cases (is_fpr fields)) [
  | inl e ↦
      fpr_line-Reads lower fields rest fp uid enrollable want e (is_fpr-is_live_uid fields e) later
  | inr e ↦ elim (Bool-cases (is_live_uid fields)) [
    | inl u ↦
        rw (e, u, read_line, fp_after-other want fp fields (body rest) e)
          (later fp (keep_first uid (field 9 fields)) want
            ∙ ap
                (λ o.
                  flush_key lower (fp_after want fp (body rest)) o enrollable
                  ++ keys_of lower (blocks rest))
                (keep_first_assoc uid (field 9 fields) (first_uid (body rest))))
    | inr u ↦ rw (e, u, read_line, fp_after-other want fp fields (body rest) e) (later fp uid want)
  ]
]

read_lines-Reads :
    (lower : Bytes → Bytes) (rest : List (List Bytes)) (fp uid : Option Bytes)
    (enrollable want : Bool)
    → Reads lower fp uid enrollable want rest
unfolding read_lines read_line flush fresh
read_lines-Reads lower [] fp uid enrollable want =
    rw (fp_after-nil want fp, keep_first_none uid) (sym (append_nil _))
read_lines-Reads lower (fields ∷ rest) fp uid enrollable want =
    elim (Bool-cases (starts_key fields)) [
      | inl e ↦
          rw (e, read_lines, fp_after-nil want fp, keep_first_none uid)
            (ap (λ l. flush_key lower fp uid enrollable ++ l)
              (read_lines-Reads lower rest none none (is_enrollable fields) true
                ∙ ap
                    (λ f.
                      flush_key lower f (first_uid (body rest)) (is_enrollable fields)
                      ++ keys_of lower (blocks rest))
                    (first_fpr-fp_after (body rest))))
      | inr e ↦
          rw (e, read_lines)
            (line-Reads lower fields rest fp uid enrollable want
              (λ fp2 uid2 want2. read_lines-Reads lower rest fp2 uid2 enrollable want2))
    ]

flush_key-disabled :
    (lower : Bytes → Bytes) (fp uid : Option Bytes) → flush_key lower fp uid false ≡ []
unfolding flush_key
flush_key-disabled lower none uid = refl
flush_key-disabled lower (some fp) none = refl
flush_key-disabled lower (some fp) (some uid) = refl

-- The candidates are those of the keys of the listing, one after another: a key with its secret held
-- and not revoked gives the one of its first fingerprint and of its first name that is not revoked,
-- if it has both; no other key gives any, and what stands before the first key counts for nothing.
pub parse_gpg_colons-keys_of :
    (lower : Bytes → Bytes) (output : Bytes)
    → parse_gpg_colons lower output ≡ keys_of lower (blocks (fields_of (lines output)))
unfolding parse_gpg_colons
parse_gpg_colons-keys_of lower output =
    read_lines-Reads lower (fields_of (lines output)) none none false false
    ∙ ap (λ l. l ++ keys_of lower (blocks (fields_of (lines output))))
        (flush_key-disabled lower _ _)
