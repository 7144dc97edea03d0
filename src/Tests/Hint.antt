-- ===== src/Tests/Hint.antt =====
-- hire-core/src/hint.rs at the inputs of its tests.
use mathlib.Core.List.{Permᴰ}
use project_persona.Prelude.{◌≡◌, ◌↔◌, refl, arith, List, ok, err}
use project_persona.Text.{Bytes, codes, same}
use project_persona.Text.Decimal.{parse_u64, show_u64}
use project_persona.Text.Split.{Lacks-by, split, split_once, non_empty}
use project_persona.Assurance.{
  hardware, iaa3, parse_presence, parse_assurance, show_assurance, show_presence,
}
use project_persona.Hint.{
  SvidHint, Field, unknown_key, repeated_key, missing, bad_value, to_string, read_field, read_param,
  put, read_params, finish, parse,
}
use project_persona.Hint.Fields.{ReadAs, fields}
use project_persona.Hint.Strict.{params, parse-fields_iff}
use project_persona.Hint.RoundTrip.{parse-to_string}

abbrev touched : SvidHint
touched = record {
  source = codes "fido2";
  identity_assurance = iaa3;
  presence = hardware;
  age = 12;
}

abbrev touched_tag : Bytes
touched_tag = codes "source=fido2&identity_assurance=iaa3&presence=hardware&age=12"

to_string-touched : to_string touched ≡ touched_tag
unfolding to_string show_assurance show_presence show_u64
to_string-touched = refl

abbrev full : Bytes
full = codes "source=gpg&identity_assurance=iaa1&presence=none&age=0"

refusals :
    (parse (codes "source") ≡ err (unknown_key (codes "source")))
    × (parse (codes "source=gpg&identity_assurance=iaa1&presence=none&age=0&presence=hardware")
        ≡ err (repeated_key (codes "presence")))
    × (parse (codes "identity_assurance=iaa1&presence=none&age=0") ≡ err (missing (codes "source")))
    × (parse (codes "source=gpg&identity_assurance=iaa1&presence=none&age=-1")
        ≡ err (bad_value (codes "age") (codes "-1")))
unfolding parse read_params read_param read_field put finish split split_once non_empty same
    parse_presence parse_assurance parse_u64
refusals = (refl, refl, refl, refl)

parse-fields_iff_example :
    (parse touched_tag ≡ ok touched)
    ↔ ((fs : List Field) × ReadAs (params touched_tag) fs × Permᴰ fs (fields touched))
parse-fields_iff_example = parse-fields_iff touched_tag touched

parse-to_string_example : parse (to_string touched) ≡ ok touched
parse-to_string_example = parse-to_string touched (Lacks-by b'&' (codes "fido2") refl) (omega arith)
