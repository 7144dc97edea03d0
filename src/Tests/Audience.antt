-- ===== src/Tests/Audience.antt =====
-- hire-core/src/audience.rs at the inputs of its tests.
use project_persona.Prelude.{◌≡◌, ◌↔◌, refl, some, [], ◌∷◌, ok, err}
use project_persona.Text.{Bytes, codes, same}
use project_persona.Text.Decimal.{parse_u64}
use project_persona.Text.Split.{strip_prefix, starts_with, split, split_once, join, non_empty}
use project_persona.Assurance.{software, max_presence, parse_presence}
use project_persona.Audience.{
  AudienceExtensions, unknown_presence, unsupported_extension, unprefixed_extension, from_secs,
  cut_query, read_params, read_param, read_presence, read_max_age, read_other, name_of, tighten,
  is_unprefixed_policy_name, min_duration, rebuild, parse,
}
use project_persona.Audience.Spec.{Asks}
use project_persona.Audience.Sound.{asked, parse-asked_iff}

abbrev mixed : Bytes
mixed = codes "https://a.b?foo=bar&hire_require_presence=software&hire_max_age=60&hire_max_age=3600"

abbrev mixed_read : AudienceExtensions
mixed_read = record {
  audience = codes "https://a.b?foo=bar";
  require_presence = software;
  max_age = some 60_000_000_000;
}

parse-mixed : parse mixed ≡ ok mixed_read
unfolding parse cut_query read_params read_param read_presence read_max_age read_other tighten
    from_secs min_duration is_unprefixed_policy_name name_of rebuild join strip_prefix starts_with
    split split_once non_empty same max_presence parse_presence parse_u64
parse-mixed = refl

refusals :
    (parse (codes "a?hire_require_presence=Hardware") ≡ err (unknown_presence (codes "Hardware")))
    × (parse (codes "a?hire_require_tpm=1")
        ≡ err (unsupported_extension (codes "hire_require_tpm")))
    × (parse (codes "a?max_age=60") ≡ err (unprefixed_extension (codes "max_age")))
unfolding parse cut_query read_params read_param read_presence read_other is_unprefixed_policy_name
    name_of strip_prefix starts_with split split_once non_empty same parse_presence
refusals = (refl, refl, refl)

parse-asked_iff_example :
    (parse mixed ≡ ok mixed_read) ↔ ((a : Asks (cut_query mixed).1) × (mixed_read ≡ asked mixed a))
parse-asked_iff_example = parse-asked_iff mixed mixed_read

cut_mixed :
    (cut_query mixed).1
    ≡ codes "foo=bar"
      ∷ codes "hire_require_presence=software"
      ∷ codes "hire_max_age=60"
      ∷ codes "hire_max_age=3600"
      ∷ []
unfolding cut_query split split_once non_empty
cut_mixed = refl
