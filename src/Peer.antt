-- ===== src/Peer.antt =====
-- hire-grpc/src/consumer_attest.rs: naming the process on the other end of the socket. What the
-- system and the digest answer is a record of functions.
pub mod Named
use project_persona.Prelude.{
  ℕ, Bool, true, false, Option, none, some, List, [], ◌∷◌, ◌++◌, ◌==◌, if◌then◌else◌, Result, ok,
  err, ◌>>=◌, ok_or,
}
use project_persona.Text.{Bytes, codes}
use project_persona.Text.Decimal.{show_u64}
use project_persona.Consumer.{ConsumerIdentity, binary_sha256}
use project_persona.Claim.{SystemTime}
use project_persona.Service.{WorkloadApiService, JwtsvidRequest, Served, fetch_jwtsvid}

-- `AttestError`, without the system's own error of `PeerCred`.
pub data AttestError : Type 0 where
  wrong_uid : (peer expected : ℕ) → AttestError
  peer_cred no_peer_pid no_exe_path unreadable not_supported : AttestError

-- tokio's `UCred`.
pub record UCred : Type 0 where
  pub uid : ℕ
  pub pid : Option ℕ

-- The `cfg` that chooses `exe_path_for_pid`.
pub data Platform : Type 0 where
  linux macos other_platform : Platform

-- `read_link` and `proc_pidpath` answer with the bytes of a path. An open file answers one read
-- after another: an error, or the bytes that it put in the buffer, none of them at its end.
pub record System : Type 0 where
  pub platform : Platform
  pub getuid : ℕ
  pub read_link : Bytes → Option Bytes
  pub proc_pidpath : ℕ → Option Bytes
  pub open_file : Bytes → Option (List (Option Bytes))
  pub sha256 : Bytes → Bytes

-- `written[..end]`, up to the first NUL.
unfoldable pub until_nul : Bytes → Bytes
until_nul [] = []
until_nul (b ∷ bs) = let rest = until_nul bs in if b == 0 then [] else b ∷ rest

unfoldable pub non_empty : Bytes → Result AttestError Bytes
non_empty [] = err no_exe_path
non_empty (b ∷ bs) = ok (b ∷ bs)

unfoldable pub exe_path_for_pid : System → Platform → ℕ → Result AttestError Bytes
exe_path_for_pid sys linux pid =
    ok_or no_exe_path (sys.read_link (codes "/proc/" ++ (show_u64 pid ++ codes "/exe")))
exe_path_for_pid sys macos pid = do
  written ← ok_or no_exe_path (sys.proc_pidpath pid)
  non_empty (until_nul written)
exe_path_for_pid sys other_platform pid = err not_supported

-- The loop of `hash_file`, with the bytes that the hasher was given so far.
unfoldable pub hash_reads : (Bytes → Bytes) → Bytes → List (Option Bytes) → Result AttestError Bytes
hash_reads sha256 seen [] = ok (sha256 seen)
hash_reads sha256 seen (none ∷ reads) = err unreadable
hash_reads sha256 seen (some [] ∷ reads) = ok (sha256 seen)
hash_reads sha256 seen (some (b ∷ bs) ∷ reads) = hash_reads sha256 (seen ++ b ∷ bs) reads

unfoldable pub hash_file : System → Bytes → Result AttestError Bytes
hash_file sys path = do
  reads ← ok_or unreadable (sys.open_file path)
  hash_reads sys.sha256 [] reads

-- The checks of `attest_peer` behind the one of the uid.
unfoldable pub attest_pid : System → Option ℕ → Result AttestError ConsumerIdentity
attest_pid sys pid_reported = do
  pid ← ok_or no_peer_pid pid_reported
  path ← exe_path_for_pid sys sys.platform pid
  hash ← hash_file sys path
  ok (binary_sha256 hash)

unfoldable pub attest_peer : System → UCred → Result AttestError ConsumerIdentity
attest_peer sys cred =
    if cred.uid == sys.getuid then attest_pid sys cred.pid else err (wrong_uid cred.uid sys.getuid)

unfoldable pub attested : System → Option UCred → Result AttestError ConsumerIdentity
attested sys none = err peer_cred
attested sys (some cred) = attest_peer sys cred

pub record PeerIdentity : Type 0 where
  pub get : Option ConsumerIdentity

unfoldable pub identity_or_none : Result AttestError ConsumerIdentity → PeerIdentity
identity_or_none (ok id) = record { get = some id }
identity_or_none (err e) = record { get = none }

-- `AttestedStream::accept`, and `connect_info` of the stream that it makes.
unfoldable pub accept : System → Option UCred → PeerIdentity
accept sys cred = identity_or_none (attested sys cred)

-- A request over a connection: the identity determined at accept rides with it.
unfoldable pub fetch_over :
    System → Option UCred → WorkloadApiService → JwtsvidRequest → Option Bytes → SystemTime → Served
fetch_over sys cred service req challenge now =
    fetch_jwtsvid service (accept sys cred).get req challenge now
