-- ===== src/Hint/RoundTrip.antt =====
-- Of hire-core/src/hint.rs: the tag that is written, read again.
use mathlib.Core.List.{append_assoc}
use mathlib.Core.List.Permᴰ
use project_persona.Prelude.{
  ℕ, ◌<◌, ◌^◌, ◌≡◌, refl, ap, ◌∙◌, inl, inr, ◌⊎◌, some, List, [], ◌∷◌, ◌++◌, arith, ok, All, map,
}
use project_persona.Text.{Bytes, same}
use project_persona.Text.Split.{
  Lacks, Lacks-by, join, non_empty, split_once, split-join, split_once-append, Lacks-append,
}
use project_persona.Text.Decimal.{show_u64, parse_u64-show_u64, show_u64-Lacks}
use project_persona.Assurance.{
  IdentityAssurance, PresenceLevel, iaa1, none, show_assurance, show_presence,
}
use project_persona.Assurance.Wire.{parse_presence-show, parse_assurance-show}
use project_persona.Hint.{
  SvidHint, Field, source, identity_assurance, presence, age, key_of, read_field, read_param,
  to_string, parse,
}
use project_persona.Hint.Fields.{ReadAs, fields}
use project_persona.Hint.Strict.{parse-fields_iff}

abbrev value_of : Field → Bytes
value_of (source v) = v
value_of (identity_assurance v) = show_assurance v
value_of (presence v) = show_presence v
value_of (age v) = show_u64 v

-- One parameter as `Display` writes it.
abbrev param_of : Field → Bytes
param_of f = key_of f ++ b'=' ∷ value_of f

-- The value of the field can be written: an age has 64 bits, and a source holds no `&`.
abbrev IsWritable : Field → Type 0
IsWritable (source v) = Lacks b'&' v
IsWritable (age n) = n < 2 ^ 64
IsWritable _ = Unit

show_presence-Lacks : (p : PresenceLevel) → Lacks b'&' (show_presence p)
unfolding show_presence
show_presence-Lacks none = Lacks-by b'&' (show_presence none) refl
show_presence-Lacks p = Lacks-by b'&' (show_presence p) refl

show_assurance-Lacks : (a : IdentityAssurance) → Lacks b'&' (show_assurance a)
unfolding show_assurance
show_assurance-Lacks iaa1 = Lacks-by b'&' (show_assurance iaa1) refl
show_assurance-Lacks a = Lacks-by b'&' (show_assurance a) refl

key_of-Lacks : (f : Field) (c : ℕ) → (c ≡ b'=') ⊎ (c ≡ b'&') → Lacks c (key_of f)
key_of-Lacks (source v) c (inl e) = rw e (Lacks-by b'=' (key_of (source v)) refl)
key_of-Lacks (source v) c (inr e) = rw e (Lacks-by b'&' (key_of (source v)) refl)
key_of-Lacks f c (inl e) = rw e (Lacks-by b'=' (key_of f) refl)
key_of-Lacks f c (inr e) = rw e (Lacks-by b'&' (key_of f) refl)

value_of-Lacks : (f : Field) → IsWritable f → Lacks b'&' (value_of f)
value_of-Lacks (source v) h = h
value_of-Lacks (identity_assurance a) h = show_assurance-Lacks a
value_of-Lacks (presence p) h = show_presence-Lacks p
value_of-Lacks (age n) h = show_u64-Lacks b'&' n (inl (omega arith))

param_of-Lacks : (f : Field) → IsWritable f → Lacks b'&' (param_of f)
param_of-Lacks f h =
    Lacks-append b'&' (key_of f) (b'=' ∷ value_of f) (key_of-Lacks f b'&' (inr refl))
      (refl, value_of-Lacks f h)

read_field-param : (f : Field) → IsWritable f → read_field (key_of f) (value_of f) ≡ ok f
unfolding read_field same
read_field-param (source v) h = refl
read_field-param (identity_assurance a) h = rw parse_assurance-show
read_field-param (presence p) h = rw parse_presence-show
read_field-param (age n) h = rw (parse_u64-show_u64 n h)

split_param : (f : Field) → split_once b'=' (param_of f) ≡ some (key_of f, value_of f)
split_param f = split_once-append b'=' (key_of f) (value_of f) (key_of-Lacks f b'=' (inl refl))

read_param-param : (f : Field) → IsWritable f → read_param (param_of f) ≡ ok f
unfolding read_param
read_param-param f h = rw (split_param f, read_param) (read_field-param f h)

abbrev all_params : List Field → List Bytes
all_params fs = map param_of fs

ReadAs-params : (fs : List Field) → All IsWritable fs → ReadAs (all_params fs) fs
ReadAs-params [] h = tt
ReadAs-params (f ∷ fs) h = (read_param-param f h.0, ReadAs-params fs h.1)

params-Lacks : (fs : List Field) → All IsWritable fs → All (Lacks b'&') (all_params fs)
params-Lacks [] h = tt
params-Lacks (f ∷ fs) h = (param_of-Lacks f h.0, params-Lacks fs h.1)

non_empty-param :
    (f : Field) (ps : List Bytes) → non_empty (param_of f ∷ ps) ≡ param_of f ∷ non_empty ps
unfolding non_empty
non_empty-param (source v) ps = refl
non_empty-param _ ps = refl

non_empty-params : (fs : List Field) → non_empty (all_params fs) ≡ all_params fs
non_empty-params [] = unfold non_empty in refl
non_empty-params (f ∷ fs) =
    non_empty-param f (all_params fs) ∙ ap (◌∷◌ (param_of f)) (non_empty-params fs)

to_string-join : (h : SvidHint) → to_string h ≡ join b'&' (all_params (fields h))
unfolding to_string join
to_string-join h = simp append_assoc

-- A hint whose source holds no `&` and whose age has 64 bits is read back as it was written. A
-- source may hold `=`.
pub parse-to_string :
    (h : SvidHint) → Lacks b'&' h.source → h.age < 2 ^ 64 → parse (to_string h) ≡ ok h
parse-to_string h lack young =
    let writable : All IsWritable (fields h) = (lack, (tt, (tt, (young, tt)))) in
    (parse-fields_iff (to_string h) h).1 (
      fields h,
      rw
          (
            to_string-join h,
            split-join b'&' (param_of (source h.source)) _ (params-Lacks (fields h) writable),
            non_empty-params (fields h),
          )
          (ReadAs-params (fields h) writable),
      Permᴰ.refl (fields h),
    )
