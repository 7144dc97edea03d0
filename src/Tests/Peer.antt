-- ===== src/Tests/Peer.antt =====
-- A browser that connects, and a program of another user.
use project_persona.Prelude.{◌≡◌, refl, none, some, [], ◌∷◌, ok, err, ◌↔◌, ◌⊎◌, length}
use project_persona.Text.{Bytes}
use project_persona.Text.Decimal.{show_u64}
use project_persona.Consumer.{binary_sha256}
use project_persona.Issue.{consumer_unattested}
use project_persona.Service.{fetch_jwtsvid}
use project_persona.Peer.{
  System, UCred, linux, macos, no_exe_path, wrong_uid, exe_path_for_pid, attest_pid, attest_peer,
  attested, hash_file, hash_reads, fetch_over, until_nul, non_empty,
}
use project_persona.Peer.Named.{Runs, RunsAt, attest_peer_iff, fetch_over-RunsAt}
use project_persona.Tests.Service.{daemon, anything, nonce, at_nine}

-- Every process runs one file, which is read in two parts.
abbrev system : System
system = record {
  platform = linux;
  getuid = 1000;
  read_link = λ s. some s;
  proc_pidpath = λ pid. some (47 ∷ 102 ∷ 0 ∷ 7 ∷ []);
  open_file = λ path. some (some (1 ∷ 2 ∷ []) ∷ some (3 ∷ []) ∷ some [] ∷ none ∷ []);
  sha256 = λ s. length s ∷ [];
}

abbrev browser : UCred
browser = record { uid = 1000; pid = some 41 }

abbrev stranger : UCred
stranger = record { uid = 1001; pid = some 41 }

attest_peer_iff_example : (attest_peer system browser ≡ ok (binary_sha256 (3 ∷ []))) ↔ (
    (content : Bytes) × Runs system browser content
    × (binary_sha256 (3 ∷ []) ≡ binary_sha256 (system.sha256 content)))
attest_peer_iff_example = attest_peer_iff system browser (binary_sha256 (3 ∷ []))

attest_peer-browser : attest_peer system browser ≡ ok (binary_sha256 (3 ∷ []))
unfolding attest_peer attest_pid exe_path_for_pid hash_file hash_reads show_u64
attest_peer-browser = refl

attested-stranger : attested system (some stranger) ≡ err (wrong_uid 1001 1000)
unfolding attested attest_peer
attested-stranger = refl

-- macOS: the name is cut at the first NUL, and an empty one is none.
exe_path_for_pid-nul : exe_path_for_pid system macos 41 ≡ ok (47 ∷ 102 ∷ [])
unfolding exe_path_for_pid until_nul non_empty
exe_path_for_pid-nul = refl

exe_path_for_pid-empty :
    exe_path_for_pid (record system { proc_pidpath = λ pid. some (0 ∷ 102 ∷ []) }) macos 41
    ≡ err no_exe_path
unfolding exe_path_for_pid until_nul non_empty
exe_path_for_pid-empty = refl

fetch_over-RunsAt_example :
    ((content : Bytes) × RunsAt system (some stranger) content
      × (fetch_over system (some stranger) daemon anything (some nonce) at_nine
          ≡ fetch_jwtsvid daemon
              (some (binary_sha256 (system.sha256 content)))
              anything
              (some nonce)
              at_nine))
    ⊎ ((¬ ((content : Bytes) × RunsAt system (some stranger) content))
        × (fetch_over system (some stranger) daemon anything (some nonce) at_nine
            ≡ record { asked = []; reply = err consumer_unattested }))
fetch_over-RunsAt_example =
    fetch_over-RunsAt system (some stranger) daemon anything (some nonce) at_nine
