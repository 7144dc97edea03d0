-- ===== src/Server/Takeover.antt =====
-- A daemon that starts on the socket path of one that runs, and of one that has died.
use project_persona.Prelude.{
  Bool, true, ◌⊎◌, ℕ, ◌≡◌, arith, refl, inl, inr, false, Option, none, some, ◌==◌, Bool-cases, ◌∙◌,
  ap, ==_iff, ==-self, List, [], ◌∷◌,
}
use project_persona.Server.{
  Phase, preparing, opening, locking, serving, stopped, ServeError, already_running, lock, Answers,
  World, stops, flock, call_granted, call_failed, call_unfit, call, Answer, granted, failed, unfit,
  crash, calls, Reach, further, bind_listener, in_turn,
}
use project_persona.Server.Exclusive.{serving-owns, call-other}
use project_persona.Server.Startup.{
  refusal, unfitness, first_error, Outcome, Before, from_preparing, from_opening, in_turn-stopped,
  bind_listener-Outcome,
}

in_turn-Reach :
    {left : Option ℕ} {b : Bool} (i : ℕ) (l : List Answer) (w : World)
    → Reach left b w
    → Reach left b (in_turn i l w)
unfolding in_turn
in_turn-Reach i [] w r = r
in_turn-Reach i (a ∷ l) w r = in_turn-Reach i l (call i a w) (further r (calls i a))

in_turn-other :
    (i j : ℕ) (l : List Answer) (w : World) → (j == i) ≡ false → (in_turn i l w).phase j ≡ w.phase j
unfolding in_turn
in_turn-other i j [] w apart = refl
in_turn-other i j (a ∷ l) w apart =
    in_turn-other i j l (call i a w) apart ∙ call-other i j a w apart

pub bind_listener-Reach :
    {left : Option ℕ} {b : Bool} {w : World} (i : ℕ) (a : Answers)
    → Reach left b w
    → Reach left b (bind_listener i a w)
unfolding bind_listener
bind_listener-Reach i a r = in_turn-Reach i _ _ r

bind_listener-other :
    (i j : ℕ) (a : Answers) (w : World)
    → (j == i) ≡ false
    → (bind_listener i a w).phase j ≡ w.phase j
unfolding bind_listener
bind_listener-other i j a w apart = in_turn-other i j _ w apart

-- What a daemon reports whose lock is taken: that another one runs, unless `flock` fails otherwise.
abbrev pub taken : Answer → ServeError
taken granted = already_running
taken failed = lock
taken (unfit e) = lock

abbrev pub first_or : ServeError → Option ServeError → ServeError
first_or e none = e
first_or e (some earlier) = earlier

abbrev pub refused_start : Answers → ServeError
refused_start a =
    first_or (first_or (taken a.take_lock) (refusal lock a.open_lock)) (unfitness a.prepare)

halted :
    (w : World) {i : ℕ} {e : ServeError} (l : List Answer)
    → w.phase i ≡ stopped e
    → (in_turn i l w).phase i ≡ stopped e
halted w {i} {e} l at = rw (in_turn-stopped w i e l at) at

from_taken :
    (w : World) (i j : ℕ) (a : Answer) (l : List Answer)
    → w.phase i ≡ locking
    → w.holder ≡ some j
    → (in_turn i (a ∷ l) w).phase i ≡ stopped (taken a)
unfolding in_turn call
from_taken w i j granted l at held =
    halted _ l (rw (at, call_granted, held, flock, stops, ==-self i) refl)
from_taken w i j failed l at held = halted _ l (rw (at, call_failed, stops, ==-self i) refl)
from_taken w i j (unfit e) l at held =
    halted _ l (rw (at, call_unfit, call_failed, stops, ==-self i) refl)

-- The outcome of the calls before the lock, then that of the rest.
Before-halted :
    (v w : World) (i : ℕ) (p : Phase) (o : Option ServeError) (e : ServeError) (l : List Answer)
    → Before v w i p o
    → (w.phase i ≡ p → w.holder ≡ v.holder → (in_turn i l w).phase i ≡ stopped e)
    → (in_turn i l w).phase i ≡ stopped (first_or e o)
unfolding Before
Before-halted v w i p none e l at next = next at.0 at.1
Before-halted v w i p (some x) e l at next = halted _ l at.0

bind_listener-taken :
    (w : World) (i j : ℕ) (a : Answers)
    → w.phase i ≡ preparing
    → w.holder ≡ some j
    → (bind_listener i a w).phase i ≡ stopped (refused_start a)
unfolding bind_listener in_turn
bind_listener-taken w i j a at held =
    Before-halted w _ i opening (unfitness a.prepare) _
      (a.open_lock ∷ a.take_lock ∷ a.remove ∷ a.bind ∷ a.restrict ∷ [])
      (from_preparing w i a.prepare at)
      (λ at2 held2.
        Before-halted _ _ i locking (refusal lock a.open_lock) (taken a.take_lock)
          (a.take_lock ∷ a.remove ∷ a.bind ∷ a.restrict ∷ []) (from_opening _ i a.open_lock at2)
          (λ at3 held3.
            from_taken _ i j a.take_lock (a.remove ∷ a.bind ∷ a.restrict ∷ []) at3
              (held3 ∙ held2 ∙ held)))

==-swap : (a b : ℕ) → (a == b) ≡ false → (b == a) ≡ false
==-swap a b h = ground arith

apart_of : (w : World) (i j : ℕ) → w.phase j ≡ serving → w.phase i ≡ preparing → (j == i) ≡ false
apart_of w i j hj hi = elim (Bool-cases (j == i)) [
  | inl same ↦ absurd (cc (ap w.phase ((==_iff j i).0 same), hj, hi))
  | inr apart ↦ apart
]

-- While a daemon serves at a socket path, another that starts there stops, whatever the system
-- answers: with the error of a call before the lock if one is refused, and otherwise because
-- another daemon runs or because `flock` failed. The first one still serves; and the socket at the
-- path is its own, or there is none there because a daemon that ended had cleaned it up.
pub refused_while_serving :
    {left : Option ℕ} {b : Bool} {w : World} (i j : ℕ) (a : Answers)
    → Reach left b w
    → w.phase j ≡ serving
    → w.phase i ≡ preparing
    → ((bind_listener i a w).phase i ≡ stopped (refused_start a))
      × ((bind_listener i a w).phase j ≡ serving)
      × (((bind_listener i a w).socket ≡ some j)
          ⊎ ((b ≡ true) × ((bind_listener i a w).socket ≡ none)))
refused_while_serving {left} {b} {w} i j a r hj hi =
    let on : (bind_listener i a w).phase j ≡ serving =
      bind_listener-other i j a w (apart_of w i j hj hi) ∙ hj in
    (
      bind_listener-taken w i j a hi (serving-owns j r hj).0,
      on,
      (serving-owns j (bind_listener-Reach i a r) on).1,
    )

-- When the daemon that serves at a socket path dies, one that then starts there has the outcome of
-- a start on a free path: with its calls granted it serves, with the lock and its own socket.
pub start_after_crash :
    {left : Option ℕ} {b : Bool} {w : World} (i j : ℕ) (a : Answers)
    → Reach left b w
    → w.phase j ≡ serving
    → w.phase i ≡ preparing
    → Outcome (bind_listener i a (crash j w)) i (first_error a)
unfolding crash
start_after_crash {left} {b} {w} i j a r hj hi =
    bind_listener-Outcome (crash j w) i a (rw (==-swap j i (apart_of w i j hj hi)) hi)
      (rw ((serving-owns j r hj).0, ==-self j) refl)
