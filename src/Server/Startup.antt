-- ===== src/Server/Startup.antt =====
-- What `bind_listener` does when no other daemon's call comes between its own.
use project_persona.Prelude.{ℕ, ◌≡◌, refl, Option, none, some, ◌∙◌, ==-self, List, [], ◌∷◌}
use project_persona.Server.{
  Phase, preparing, opening, locking, removing, binding, restricting, serving, stopped, ServeError,
  socket_dir, stale_socket, bind, permissions, lock, Answers, World, released, stops, flock,
  bind_socket, call_granted, call_failed, call_unfit, call, Answer, granted, failed, unfit,
  bind_listener, in_turn,
}

abbrev pub all_granted : Answers
all_granted = record {
  prepare = granted;
  open_lock = granted;
  take_lock = granted;
  remove = granted;
  bind = granted;
  restrict = granted;
}

-- The first error of two attempts.
abbrev pub first : Option ServeError → Option ServeError → Option ServeError
first (some e) later = some e
first none later = later

-- What a call reports when the system refuses it.
abbrev pub refusal : ServeError → Answer → Option ServeError
refusal e granted = none
refusal e failed = some e
refusal e (unfit other) = some e

abbrev pub unfitness : Answer → Option ServeError
unfitness granted = none
unfitness failed = some socket_dir
unfitness (unfit e) = some e

abbrev pub first_error : Answers → Option ServeError
first_error a = first (unfitness a.prepare) (
    first (refusal lock a.open_lock) (
      first (refusal lock a.take_lock) (
        first (refusal stale_socket a.remove)
          (first (refusal bind a.bind) (refusal permissions a.restrict)))))

-- Where a daemon, the lock and the socket are.
abbrev pub At : World → ℕ → Phase → Option ℕ → Option ℕ → Type 0
At w i p h s = (w.phase i ≡ p) × (w.holder ≡ h) × (w.socket ≡ s)

-- A daemon that met no error serves with the lock and its own socket; one that did has stopped
-- with that error and without the lock.
abbrev pub Outcome : World → ℕ → Option ServeError → Type 0
Outcome w i none = At w i serving (some i) (some i)
Outcome w i (some e) = (w.phase i ≡ stopped e) × (w.holder ≡ none)

call-stopped :
    (w : World) (i : ℕ) (e : ServeError) (a : Answer) → w.phase i ≡ stopped e → call i a w ≡ w
unfolding call call_granted call_failed call_unfit
call-stopped w i e granted h = rw (h, call_granted) refl
call-stopped w i e failed h = rw (h, call_failed) refl
call-stopped w i e (unfit x) h = rw (h, call_unfit) refl

pub in_turn-stopped :
    (w : World) (i : ℕ) (e : ServeError) (l : List Answer)
    → w.phase i ≡ stopped e
    → in_turn i l w ≡ w
unfolding in_turn
in_turn-stopped w i e [] h = refl
in_turn-stopped w i e (a ∷ l) h = rw (call-stopped w i e a h) (in_turn-stopped w i e l h)

released-own : (i : ℕ) → released i (some i) ≡ none
released-own i = rw (==-self i) refl

-- A daemon whose call is refused stays stopped.
Outcome-in_turn :
    (w : World) (i : ℕ) (e : ServeError) (l : List Answer)
    → Outcome w i (some e)
    → Outcome (in_turn i l w) i (some e)
Outcome-in_turn w i e l out = rw (in_turn-stopped w i e l out.0) out

stops-Outcome :
    (w : World) (i : ℕ) (e : ServeError)
    → released i w.holder ≡ none
    → Outcome (stops i e w) i (some e)
unfolding stops
stops-Outcome w i e free = (rw (==-self i) refl, free)

free-own : (w : World) (i : ℕ) → w.holder ≡ some i → released i w.holder ≡ none
free-own w i h = rw (h, ==-self i) refl

from_restricting :
    (w : World) (i : ℕ) (a : Answer)
    → At w i restricting (some i) (some i)
    → Outcome (call i a w) i (refusal permissions a)
unfolding call
from_restricting w i granted at = rw (at.0, call_granted, ==-self i) (refl, at.1, at.2)
from_restricting w i failed at =
    rw (at.0, call_failed) (stops-Outcome w i permissions (free-own w i at.1))
from_restricting w i (unfit x) at =
    rw (at.0, call_unfit, call_failed) (stops-Outcome w i permissions (free-own w i at.1))

from_binding :
    (w : World) (i : ℕ) (a b : Answer)
    → At w i binding (some i) none
    → Outcome (in_turn i (a ∷ b ∷ []) w) i (first (refusal bind a) (refusal permissions b))
unfolding in_turn call
from_binding w i granted b at =
    from_restricting _ i b
      (rw (at.0, call_granted, at.2, bind_socket, ==-self i) (refl, at.1, refl))
from_binding w i failed b at =
    Outcome-in_turn _ i bind (b ∷ [])
      (rw (at.0, call_failed) (stops-Outcome w i bind (free-own w i at.1)))
from_binding w i (unfit x) b at =
    Outcome-in_turn _ i bind (b ∷ [])
      (rw (at.0, call_unfit, call_failed) (stops-Outcome w i bind (free-own w i at.1)))

from_removing :
    (w : World) (i : ℕ) (a b c : Answer)
    → w.phase i ≡ removing
    → w.holder ≡ some i
    → Outcome
        (in_turn i (a ∷ b ∷ c ∷ []) w)
        i
        (first (refusal stale_socket a) (first (refusal bind b) (refusal permissions c)))
unfolding in_turn call
from_removing w i granted b c at held =
    from_binding _ i b c (rw (at, call_granted, ==-self i) (refl, held, refl))
from_removing w i failed b c at held =
    Outcome-in_turn _ i stale_socket (b ∷ c ∷ [])
      (rw (at, call_failed) (stops-Outcome w i stale_socket (free-own w i held)))
from_removing w i (unfit x) b c at held =
    Outcome-in_turn _ i stale_socket (b ∷ c ∷ [])
      (rw (at, call_unfit, call_failed) (stops-Outcome w i stale_socket (free-own w i held)))

free-none : (w : World) (i : ℕ) → w.holder ≡ none → released i w.holder ≡ none
free-none w i h = rw (h) refl

from_locking :
    (w : World) (i : ℕ) (a b c d : Answer)
    → w.phase i ≡ locking
    → w.holder ≡ none
    → Outcome (in_turn i (a ∷ b ∷ c ∷ d ∷ []) w) i (
        first
          (refusal lock a)
          (first (refusal stale_socket b) (first (refusal bind c) (refusal permissions d))))
unfolding in_turn call
from_locking w i granted b c d at free =
    from_removing _ i b c d (rw (at, call_granted, free, flock, ==-self i) refl)
      (rw (at, call_granted, free, flock) refl)
from_locking w i failed b c d at free =
    Outcome-in_turn _ i lock (b ∷ c ∷ d ∷ [])
      (rw (at, call_failed) (stops-Outcome w i lock (free-none w i free)))
from_locking w i (unfit x) b c d at free =
    Outcome-in_turn _ i lock (b ∷ c ∷ d ∷ [])
      (rw (at, call_unfit, call_failed) (stops-Outcome w i lock (free-none w i free)))

-- A call before the lock: it moves the daemon on, or stops it, and leaves lock and socket alone.
unfoldable pub Before : World → World → ℕ → Phase → Option ServeError → Type 0
Before v w i p none = At w i p v.holder v.socket
Before v w i p (some e) = At w i (stopped e) (released i v.holder) v.socket

pub from_preparing :
    (w : World) (i : ℕ) (a : Answer)
    → w.phase i ≡ preparing
    → Before w (call i a w) i opening (unfitness a)
unfolding call stops Before
from_preparing w i granted at = rw (at, call_granted, ==-self i) (refl, refl, refl)
from_preparing w i failed at = rw (at, call_failed, ==-self i) (refl, refl, refl)
from_preparing w i (unfit e) at = rw (at, call_unfit, ==-self i) (refl, refl, refl)

pub from_opening :
    (w : World) (i : ℕ) (a : Answer)
    → w.phase i ≡ opening
    → Before w (call i a w) i locking (refusal lock a)
unfolding call stops Before
from_opening w i granted at = rw (at, call_granted, ==-self i) (refl, refl, refl)
from_opening w i failed at = rw (at, call_failed, ==-self i) (refl, refl, refl)
from_opening w i (unfit e) at = rw (at, call_unfit, call_failed, ==-self i) (refl, refl, refl)

Before-Outcome :
    (v w : World) (i : ℕ) (p : Phase) (o later : Option ServeError) (l : List Answer)
    → v.holder ≡ none
    → Before v w i p o
    → (w.phase i ≡ p → w.holder ≡ none → Outcome (in_turn i l w) i later)
    → Outcome (in_turn i l w) i (first o later)
unfolding Before
Before-Outcome v w i p none later l free at next = next at.0 (at.1 ∙ free)
Before-Outcome v w i p (some e) later l free at next =
    Outcome-in_turn w i e l (at.0, at.1 ∙ free-none v i free)

-- A daemon that starts while no daemon holds the socket path's lock: if the system grants its six
-- calls it serves, with the lock and with a socket of its own at the path; otherwise it stops with
-- the error of the first call that was refused, and without the lock.
pub bind_listener-Outcome :
    (w : World) (i : ℕ) (a : Answers)
    → w.phase i ≡ preparing
    → w.holder ≡ none
    → Outcome (bind_listener i a w) i (first_error a)
unfolding bind_listener in_turn
bind_listener-Outcome w i a at free =
    Before-Outcome w _ i opening (unfitness a.prepare) _
      (a.open_lock ∷ a.take_lock ∷ a.remove ∷ a.bind ∷ a.restrict ∷ []) free
      (from_preparing w i a.prepare at)
      (λ at2 free2.
        Before-Outcome _ _ i locking (refusal lock a.open_lock) _
          (a.take_lock ∷ a.remove ∷ a.bind ∷ a.restrict ∷ []) free2
          (from_opening _ i a.open_lock at2)
          (from_locking _ i a.take_lock a.remove a.bind a.restrict))
