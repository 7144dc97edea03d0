-- ===== src/Gpg/Signed.antt =====
-- hire-attestors/src/gpg.rs: the gpg that is run, `enumerate` and `prove`; hire-attestors/src/claim.rs:
-- `verify_openpgp` and `names_key`. The file system, the environment and what a process does are a
-- record of functions.
use project_persona.Prelude.{
  Bool, true, false, not, ◌&&◌, ◌||◌, Option, none, some, List, [], ◌∷◌, ◌++◌, if◌then◌else◌,
  Result, ok, err, ◌>>=◌, ok_or, map_err,
}
use project_persona.Text.{Bytes, codes, same}
use project_persona.Text.Split.{strip_prefix}
use project_persona.Text.Space.{lines, split_whitespace, to_ascii_lowercase}
use project_persona.Text.Path.{join_path}
use project_persona.Claim.{SystemTime, Candidate, ChallengeSignature, Evidence, possession}
use project_persona.Agent.{AttestorError, unavailable, challenge_failed}
use project_persona.Gpg.Listing.{field, parse_gpg_colons}

-- `std::process::Output`.
pub record Output : Type 0 where
  pub success : Bool
  pub stdout : Bytes
  pub stderr : Bytes

-- How far a process that is given input comes: it does not start, has no pipe, does not run to its end, or ends.
pub data Executed : Type 0 where
  exec_failed did_not_run : Bytes → Executed
  not_piped : Executed
  finished : Output → Executed

pub record Host : Type 0 where
  pub exists : Bytes → Bool
  pub gnupghome : Option Bytes
  pub home : Option Bytes
  pub list : (program : Bytes) (args : List Bytes) → Result Bytes Output
  pub execute : (program : Bytes) (args : List Bytes) (stdin : Bytes) → Executed
  pub from_utf8_lossy : Bytes → Bytes
  pub to_lowercase : Bytes → Bytes

abbrev first_existing : Host → List Bytes → Option Bytes
first_existing host [] = none
first_existing host (p ∷ rest) = if host.exists p then some p else first_existing host rest

unfoldable pub which_gpg : Host → Option Bytes
which_gpg host =
    first_existing host
      (codes "/usr/bin/gpg" ∷ codes "/usr/local/bin/gpg" ∷ codes "/usr/bin/gpg2" ∷ [])

abbrev unwrap_or : Bytes → Option Bytes → Bytes
unwrap_or default none = default
unwrap_or default (some s) = s

unfoldable pub gnupg_home : Host → Bytes
gnupg_home host = elim host.gnupghome [
  | some home ↦ home
  | none ↦ join_path (unwrap_or (codes "/root") host.home) (codes ".gnupg")
]

abbrev is_some {ℓ} : {A : Type ℓ} → Option A → Bool
is_some none = false
is_some (some a) = true

unfoldable pub is_available : Host → Bool
is_available host = is_some (which_gpg host) && host.exists (gnupg_home host)

abbrev output_of : Executed → Result AttestorError Output
output_of (exec_failed e) = err (unavailable (codes "gpg exec failed: " ++ e))
output_of (did_not_run e) = err (unavailable (codes "gpg did not run: " ++ e))
output_of not_piped = err (unavailable (codes "gpg stdin was not piped"))
output_of (finished output) = ok output

abbrev batch : List Bytes → List Bytes
batch args = codes "--batch" ∷ codes "--no-tty" ∷ args

unfoldable pub run : Host → Bytes → List Bytes → Bytes → Result AttestorError Output
run host gpg args stdin = output_of (host.execute gpg (batch args) stdin)

abbrev pub no_gpg : AttestorError
no_gpg = unavailable (codes "gpg binary not found")

abbrev listed : Host → Output → List Candidate
listed host output =
    if output.success
    then parse_gpg_colons host.to_lowercase (host.from_utf8_lossy output.stdout)
    else []

unfoldable pub enumerate : Host → Result AttestorError (List Candidate)
enumerate host = do
  gpg ← ok_or no_gpg (which_gpg host)
  output ←
      map_err (λ e. unavailable (codes "gpg exec failed: " ++ e))
        (host.list gpg
          (batch (codes "--list-secret-keys" ∷ codes "--with-colons" ∷ codes "--fingerprint" ∷ [])))
  ok (listed host output)

abbrev eq_ignore_ascii_case : Bytes → Bytes → Bool
eq_ignore_ascii_case a b = same (to_ascii_lowercase a) (to_ascii_lowercase b)

abbrev is_key : Bytes → Option Bytes → Bool
is_key fingerprint none = false
is_key fingerprint (some f) = eq_ignore_ascii_case f fingerprint

-- The arguments of one VALIDSIG line: the signing key, and nine fields on the primary one.
unfoldable pub names_either : Bytes → List Bytes → Bool
names_either fingerprint fields =
    is_key fingerprint (field 0 fields) || is_key fingerprint (field 9 fields)

abbrev pub validsig : Bytes
validsig = codes "[GNUPG:] VALIDSIG "

unfoldable pub line_names : Bytes → Bytes → Bool
line_names fingerprint line = elim (strip_prefix validsig line) [
  | none ↦ false
  | some args ↦ names_either fingerprint (split_whitespace args)
]

abbrev pub any_line : (Bytes → Bool) → List Bytes → Bool
any_line p [] = false
any_line p (l ∷ rest) = p l || any_line p rest

unfoldable pub names_key : Bytes → Bytes → Bool
names_key status fingerprint = any_line (line_names fingerprint) (lines status)

abbrev refuse {ℓ} : {A : Type ℓ} → Bytes → Result AttestorError A
refuse message = err (challenge_failed message)

-- The checks over what gpg reported, and the evidence.
unfoldable pub accepted :
    Host
    → SystemTime
    → (challenge signed_message fingerprint : Bytes) → Output
    → Result AttestorError ChallengeSignature
accepted host now challenge signed_message fingerprint output =
    if not output.success || not (names_key (host.from_utf8_lossy output.stderr) fingerprint)
    then refuse (codes "gpg did not report a valid signature by " ++ fingerprint)
    else (if not (same output.stdout challenge)
        then refuse (codes "gpg signature covers data that is not this challenge")
        else ok (record {
          assertion = record {
            bytes = signed_message;
            format = codes "application/vnd.hire.openpgp-signed-message";
          };
          challenge = challenge;
          observed_at = now;
        }))

unfoldable pub verify_openpgp :
    Host
    → SystemTime
    → Candidate
    → (challenge signed_message : Bytes) → Result AttestorError ChallengeSignature
verify_openpgp host now c challenge signed_message = do
  fingerprint ←
      ok_or (challenge_failed (codes "not a gpg candidate")) (strip_prefix (codes "gpg/") c.path)
  gpg ← ok_or no_gpg (which_gpg host)
  output ← run host gpg (codes "--status-fd" ∷ codes "2" ∷ codes "--decrypt" ∷ []) signed_message
  accepted host now challenge signed_message fingerprint output

unfoldable pub find_path : Bytes → List Candidate → Option Bytes
find_path path [] = none
find_path path (c ∷ rest) =
    if same c.path path then strip_prefix (codes "gpg/") c.path else find_path path rest

-- The signed message of a run that succeeded, and the evidence.
unfoldable pub checked :
    Host → SystemTime → Candidate → Bytes → Output → Result AttestorError (List Evidence)
checked host now c challenge signed =
    if signed.success
    then (do
      evidence ← verify_openpgp host now c challenge signed.stdout
      ok (possession evidence ∷ []))
    else refuse (codes "gpg-agent did not sign for " ++ c.path)

unfoldable pub prove : Host → SystemTime → Candidate → Bytes → Result AttestorError (List Evidence)
prove host now c challenge = do
  gpg ← ok_or no_gpg (which_gpg host)
  candidates ← enumerate host
  fingerprint ←
      ok_or (challenge_failed (codes "gpg does not hold an enrollable key for " ++ c.path))
        (find_path c.path candidates)
  signed ←
      run host gpg
        (codes "--local-user" ∷ fingerprint ∷ codes "--sign" ∷ codes "--output" ∷ codes "-" ∷ [])
        challenge
  checked host now c challenge signed
