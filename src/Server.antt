-- ===== src/Server.antt =====
-- hire-grpc/src/server.rs: how a daemon comes to serve on a socket path. Each system call is one
-- step, so that several daemons that start on the same path can be interleaved. Of
-- hired/src/main.rs: the end of a daemon that is told to stop.
pub mod Inv
pub mod Directory
pub mod Exclusive
pub mod Startup
pub mod Takeover
use project_persona.Prelude.{
  ◌≡◌, ℕ, Bool, true, false, Option, none, some, List, [], ◌∷◌, ◌++◌, ◌==◌, ◌||◌, if◌then◌else◌,
}
use project_persona.Text.{Bytes, codes}

-- `ServeError`, without the paths and the system's own errors that its variants carry.
pub data ServeError : Type 0 where
  socket_dir_not_a_directory : ServeError
  socket_dir_not_ours : (owner expected : ℕ) → ServeError
  socket_dir stale_socket bind permissions already_running lock transport : ServeError

-- `lock_path`.
unfoldable pub lock_path : Bytes → Bytes
lock_path socket_path = socket_path ++ codes ".lock"

-- Where a daemon stands in `bind_listener`, named for the call that it makes next.
pub data Phase : Type 0 where
  preparing opening locking removing binding restricting serving dead leaving ended : Phase
  stopped : ServeError → Phase

-- One socket path: the daemon that holds the lock on its lock file, the daemon whose socket stands
-- at the path, and where each daemon is. A lock file is never unlinked, so it is one file.
pub record World : Type 0 where
  pub holder : Option ℕ
  pub socket : Option ℕ
  pub phase : ℕ → Phase

abbrev pub at_phase : (ℕ → Phase) → ℕ → Phase → ℕ → Phase
at_phase phase i p j = if j == i then p else phase j

abbrev pub goes : ℕ → Phase → World → World
goes i p w = record w { phase = at_phase w.phase i p }

-- The kernel drops the lock of a daemon whose handle on the lock file closes.
abbrev pub released : ℕ → Option ℕ → Option ℕ
released i none = none
released i (some j) = if j == i then none else some j

-- `bind_listener` returns an error: its handles close. A socket that it bound stays at the path.
unfoldable pub stops : ℕ → ServeError → World → World
stops i e w = record w { holder = released i w.holder; phase = at_phase w.phase i (stopped e) }

-- What the system answers to a call, beyond what the state decides: it succeeds, or some error.
-- What `prepare_socket_dir` refuses it reports itself; each other call has one variant.
pub data Answer : Type 0 where
  granted failed : Answer
  unfit : ServeError → Answer

-- `flock(LOCK_EX | LOCK_NB)`.
unfoldable pub flock : ℕ → Option ℕ → World → World
unfolding stops
flock i none w = record w { holder = some i; phase = at_phase w.phase i removing }
flock i (some j) w = stops i already_running w

-- `bind(2)`, which needs the path to be free.
unfoldable pub bind_socket : ℕ → Option ℕ → World → World
unfolding stops
bind_socket i none w = record w { socket = some i; phase = at_phase w.phase i restricting }
bind_socket i (some j) w = stops i bind w

-- The next call of a daemon, when the system lets it through.
unfoldable pub call_granted : ℕ → Phase → World → World
unfolding flock bind_socket
call_granted i preparing w = goes i opening w
call_granted i opening w = goes i locking w
call_granted i locking w = flock i w.holder w
call_granted i removing w = record w { socket = none; phase = at_phase w.phase i binding }
call_granted i binding w = bind_socket i w.socket w
call_granted i restricting w = goes i serving w
call_granted i serving w = w
call_granted i dead w = w
call_granted i leaving w = w
call_granted i ended w = w
call_granted i (stopped e) w = w

-- The next call of a daemon, when the system answers with an error of its own.
unfoldable pub call_failed : ℕ → Phase → World → World
unfolding stops
call_failed i preparing w = stops i socket_dir w
call_failed i opening w = stops i lock w
call_failed i locking w = stops i lock w
call_failed i removing w = stops i stale_socket w
call_failed i binding w = stops i bind w
call_failed i restricting w = stops i permissions w
call_failed i serving w = w
call_failed i dead w = w
call_failed i leaving w = w
call_failed i ended w = w
call_failed i (stopped e) w = w

-- The directory is not fit to hold a socket.
unfoldable pub call_unfit : ℕ → ServeError → Phase → World → World
unfolding stops call_failed
call_unfit i e preparing w = stops i e w
call_unfit i e p w = call_failed i p w

unfoldable pub call : ℕ → Answer → World → World
unfolding call_granted call_failed call_unfit
call i granted w = call_granted i (w.phase i) w
call i failed w = call_failed i (w.phase i) w
call i (unfit e) w = call_unfit i e (w.phase i) w

-- A daemon dies, wherever it is: the kernel closes its handles, and its socket stays at the path.
unfoldable pub crash : ℕ → World → World
crash i w = record w { holder = released i w.holder; phase = at_phase w.phase i dead }

-- A daemon leaves the select of `main` on a signal, while it serves or before it has begun to. The
-- server is dropped with its listener and its lock.
abbrev pub InSelect : Phase → Type 0
InSelect preparing = Unit
InSelect serving = Unit
InSelect p = ⊥

unfoldable pub leave_select : ℕ → World → World
leave_select i w = record w { holder = released i w.holder; phase = at_phase w.phase i leaving }

-- Only then is the socket file cleaned up: `exists()` and `remove_file`, whose error is ignored. The
-- file is whoever's.
unfoldable pub clean_up : ℕ → Answer → World → World
clean_up i granted w = record w { socket = none; phase = at_phase w.phase i ended }
clean_up i a w = goes i ended w

-- Daemons and the system, interleaved; the flag says whether the step is a clean-up.
pub data Step : Bool → World → World → Type 0 where
  calls : {w : World} (i : ℕ) (a : Answer) → Step false w (call i a w)
  crashes : {w : World} (i : ℕ) → Step false w (crash i w)
  leaves : {w : World} (i : ℕ) → InSelect (w.phase i) → Step false w (leave_select i w)
  cleans : {w : World} (i : ℕ) (a : Answer) → w.phase i ≡ leaving → Step true w (clean_up i a w)

-- A path at which a socket may stand that some daemon left, with no daemon running.
abbrev pub quiet : Option ℕ → World
quiet left = record { holder = none; socket = left; phase = λ i. preparing }

-- The flag says whether there was a clean-up on the way.
pub data Reach (left : Option ℕ) : Bool → World → Type 0 where
  start : Reach left false (quiet left)
  further : {b c : Bool} {v w : World} → Reach left b v → Step c v w → Reach left (c || b) w

-- Calls of one daemon with no other daemon's in between, and their answers.
unfoldable pub in_turn : ℕ → List Answer → World → World
in_turn i [] w = w
in_turn i (answer ∷ rest) w = in_turn i rest (call i answer w)

-- The six calls of `bind_listener`.
pub record Answers : Type 0 where
  pub prepare : Answer
  pub open_lock : Answer
  pub take_lock : Answer
  pub remove : Answer
  pub bind : Answer
  pub restrict : Answer

unfoldable pub bind_listener : ℕ → Answers → World → World
bind_listener i a w =
    in_turn i (a.prepare ∷ a.open_lock ∷ a.take_lock ∷ a.remove ∷ a.bind ∷ a.restrict ∷ []) w
