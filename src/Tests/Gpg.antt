-- ===== src/Tests/Gpg.antt =====
-- A gpg that lists one held key, one stub and one revoked key, and signs by wrapping.
use project_persona.Prelude.{◌≡◌, refl, true, some, none, ok, [], ◌∷◌, ◌++◌}
use project_persona.Text.{Bytes, codes, same}
use project_persona.Text.Split.{strip_prefix, split, non_empty}
use project_persona.Text.Space.{lines, split_whitespace, to_ascii_lowercase}
use project_persona.Text.Path.{join_path}
use project_persona.Claim.{
  Candidate, new_candidate, with_attainable, with_proof_cost, ChallengeSignature, possession,
  derive,
}
use project_persona.Sources.Sound.{key_claim}
use project_persona.Gpg.Listing.{
  field, make_candidate, flush_key, flush, fresh, read_line, read_lines, parse_gpg_colons,
}
use project_persona.Gpg.Blocks.{keys_of, blocks, parse_gpg_colons-keys_of}
use project_persona.Gpg.Listing.{fields_of}
use project_persona.Gpg.Signed.{
  Host, Output, finished, which_gpg, gnupg_home, run, enumerate, names_either, line_names,
  names_key, accepted, verify_openpgp, find_path, checked, prove,
}
use project_persona.Gpg.Sound.{Held, Proves, prove-Proves}

abbrev row : Bytes → Bytes → Bytes → Bytes
row kind validity rest = kind ++ (codes ":" ++ (validity ++ (rest ++ 10 ∷ [])))

abbrev name_row : Bytes → Bytes → Bytes
name_row validity name = row (codes "uid") validity (codes "::::::::" ++ (name ++ codes ":"))

abbrev fpr_row : Bytes → Bytes
fpr_row fingerprint = row (codes "fpr") [] (codes "::::::::" ++ (fingerprint ++ codes ":"))

abbrev sec_row : Bytes → Bytes → Bytes
sec_row validity held = row (codes "sec") validity (codes ":::::::::::::" ++ (held ++ codes ":"))

-- A held key with a subkey and a revoked first name, a stub, and a key that is revoked.
abbrev listing : Bytes
listing =
    sec_row (codes "u") (codes "+")
    ++ (fpr_row (codes "AB12")
        ++ (name_row (codes "r") (codes "old")
            ++ (name_row (codes "u") (codes "Ada")
                ++ (fpr_row (codes "FFFF")
                    ++ (sec_row (codes "u") (codes "#")
                        ++ (fpr_row (codes "CD34")
                            ++ (name_row (codes "u") (codes "Stub")
                                ++ (sec_row (codes "r") (codes "+")
                                    ++ (fpr_row (codes "EF56")
                                        ++ name_row (codes "u") (codes "Gone"))))))))))

abbrev ada : Candidate
ada = make_candidate to_ascii_lowercase (codes "AB12") (codes "Ada")

parse_gpg_colons-listing : parse_gpg_colons to_ascii_lowercase listing ≡ ada ∷ []
unfolding parse_gpg_colons lines split same read_lines read_line fresh flush flush_key field
    make_candidate to_ascii_lowercase
parse_gpg_colons-listing = refl

parse_gpg_colons-keys_of_example :
    parse_gpg_colons to_ascii_lowercase listing
    ≡ keys_of to_ascii_lowercase (blocks (fields_of (lines listing)))
parse_gpg_colons-keys_of_example = parse_gpg_colons-keys_of to_ascii_lowercase listing

-- Any message is verified as the challenge, signed by a subkey of the key.
abbrev answer : Bytes → Output
answer said = record {
  success = true;
  stdout = said;
  stderr = codes "[GNUPG:] VALIDSIG FFFF 1 2 3 4 5 6 7 8 AB12" ++ 10 ∷ [];
}

abbrev host : Host
host = record {
  exists = λ path. true;
  gnupghome = none;
  home = some (codes "/home/ada");
  list = λ program args. ok (answer listing);
  execute = λ program args stdin. finished (answer (codes "asked"));
  from_utf8_lossy = λ s. s;
  to_lowercase = to_ascii_lowercase;
}

abbrev shown : ChallengeSignature
shown = record {
  assertion = record {
    bytes = codes "asked";
    format = codes "application/vnd.hire.openpgp-signed-message";
  };
  challenge = codes "asked";
  observed_at = 9;
}

prove-ada : prove host 9 ada (codes "asked") ≡ ok (possession shown ∷ [])
unfolding prove which_gpg enumerate run find_path checked verify_openpgp accepted names_key
    line_names names_either parse_gpg_colons lines split same read_lines read_line fresh flush
    flush_key field make_candidate to_ascii_lowercase strip_prefix split_whitespace non_empty
    new_candidate with_attainable with_proof_cost
prove-ada = refl

prove-Proves_example :
    Held host ada.path
    × ((message : Bytes) × (s : ChallengeSignature) × (possession shown ∷ [] ≡ possession s ∷ [])
        × Proves host 9 ada (codes "asked") message s)
    × (derive ada (codes "asked") (possession shown ∷ []) ≡ some (key_claim ada 9))
prove-Proves_example = prove-Proves host 9 ada (codes "asked") (possession shown ∷ []) prove-ada

gnupg_home-default : gnupg_home host ≡ codes "/home/ada/.gnupg"
unfolding gnupg_home join_path
gnupg_home-default = refl
