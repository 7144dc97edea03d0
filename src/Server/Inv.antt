-- ===== src/Server/Inv.antt =====
-- What holds of a socket path in every reachable state.
use project_persona.Prelude.{
  Bool, ◌||◌, ◌⊎◌, ℕ, ◌≡◌, refl, inl, inr, true, false, Option, none, some, ◌==◌, Bool-cases, sym,
  ◌∙◌, subst, ap, ◌≢◌, some-injective, ==_iff, ==-self,
}
use project_persona.Server.{
  Phase, preparing, opening, locking, removing, binding, restricting, serving, dead, leaving, ended,
  stopped, ServeError, socket_dir, stale_socket, bind, permissions, already_running, lock, goes,
  World, at_phase, released, stops, flock, bind_socket, call_granted, call_failed, call_unfit, call,
  Answer, unfit, granted, failed, crash, leave_select, clean_up, Step, calls, crashes, leaves,
  cleans, Reach, start, further,
}

-- A daemon between its lock and its end holds the lock; with its socket removed the path is free;
-- and once it has bound, the socket at the path is its own, unless a daemon that ended has cleaned it
-- up (`swept`).
abbrev pub Own : Bool → Option ℕ → ℕ → Type 0
Own swept socket i = (socket ≡ some i) ⊎ ((swept ≡ true) × (socket ≡ none))

abbrev pub Holds : Bool → Option ℕ → Option ℕ → ℕ → Phase → Type 0
Holds swept holder socket i removing = holder ≡ some i
Holds swept holder socket i binding = (holder ≡ some i) × (socket ≡ none)
Holds swept holder socket i restricting = (holder ≡ some i) × Own swept socket i
Holds swept holder socket i serving = (holder ≡ some i) × Own swept socket i
Holds swept holder socket i p = Unit

abbrev pub Inv : Bool → World → Type 0
Inv swept w = (i : ℕ) → Holds swept w.holder w.socket i (w.phase i)

-- What a daemon without the lock is owed does not depend on the lock or the socket.
Holds-lockless :
    (b : Bool) (h s h' s' : Option ℕ) (j : ℕ) (p : Phase)
    → h ≢ some j
    → Holds b h s j p
    → Holds b h' s' j p
Holds-lockless b h s h' s' j preparing ne held = tt
Holds-lockless b h s h' s' j opening ne held = tt
Holds-lockless b h s h' s' j locking ne held = tt
Holds-lockless b h s h' s' j removing ne held = absurd (ne held)
Holds-lockless b h s h' s' j binding ne held = absurd (ne held.0)
Holds-lockless b h s h' s' j restricting ne held = absurd (ne held.0)
Holds-lockless b h s h' s' j serving ne held = absurd (ne held.0)
Holds-lockless b h s h' s' j dead ne held = tt
Holds-lockless b h s h' s' j leaving ne held = tt
Holds-lockless b h s h' s' j ended ne held = tt
Holds-lockless b h s h' s' j (stopped e) ne held = tt

not_another : (k i j : ℕ) → some k ≡ some j → (k == i) ≡ true → (j == i) ≡ false → ⊥
not_another k i j q e apart = absurd (cc (==-self i, ap (λ n. n == i) (some-injective q), e, apart))

-- One daemon goes to a phase; the others keep theirs.
Inv-at_phase :
    (b : Bool) (w : World) (i : ℕ) (p : Phase) (h s : Option ℕ)
    → Inv b w
    → Holds b h s i p
    → ((j : ℕ)
        → (j == i) ≡ false
        → Holds b w.holder w.socket j (w.phase j)
        → Holds b h s j (w.phase j))
    → Inv b (record { holder = h; socket = s; phase = at_phase w.phase i p })
Inv-at_phase b w i p h s inv own others j = elim (Bool-cases (j == i)) [
  | inl e ↦
      subst (λ k. Holds b h s k (at_phase w.phase i p k)) (sym ((==_iff j i).0 e))
        (rw (==-self i) own)
  | inr e ↦ rw (e) (others j e (inv j))
]

-- The lock that a daemon drops is not another's.
released-other :
    (b : Bool) (h s : Option ℕ) (i j : ℕ) (p : Phase)
    → (j == i) ≡ false
    → Holds b h s j p
    → Holds b (released i h) s j p
released-other b none s i j p apart held = held
released-other b (some k) s i j p apart held = elim (Bool-cases (k == i)) [
  | inl e ↦ rw (e) (Holds-lockless b (some k) s none s j p (λ q. not_another k i j q e apart) held)
  | inr e ↦ rw (e) held
]

stops-Inv : (b : Bool) (i : ℕ) (e : ServeError) (w : World) → Inv b w → Inv b (stops i e w)
unfolding stops
stops-Inv b i e w inv =
    Inv-at_phase b w i (stopped e) (released i w.holder) w.socket inv tt
      (λ j apart. released-other b w.holder w.socket i j (w.phase j) apart)

crash-Inv : (b : Bool) (i : ℕ) (w : World) → Inv b w → Inv b (crash i w)
unfolding crash
crash-Inv b i w inv =
    Inv-at_phase b w i dead (released i w.holder) w.socket inv tt
      (λ j apart. released-other b w.holder w.socket i j (w.phase j) apart)

goes-Inv :
    (b : Bool) (i : ℕ) (p : Phase) (w : World)
    → Inv b w
    → Holds b w.holder w.socket i p
    → Inv b (goes i p w)
goes-Inv b i p w inv own = Inv-at_phase b w i p w.holder w.socket inv own (λ j apart held. held)

-- The lock's holder changes the socket: nobody else is owed one.
Inv-change :
    (b : Bool) (w : World) (i : ℕ) (p : Phase) (s : Option ℕ)
    → Inv b w
    → w.holder ≡ some i
    → Holds b w.holder s i p
    → Inv b (record w { socket = s; phase = at_phase w.phase i p })
Inv-change b w i p s inv locked own = Inv-at_phase b w i p w.holder s inv own (λ j apart.
    Holds-lockless b w.holder w.socket w.holder s j (w.phase j)
      (λ q. not_another i i j (sym locked ∙ q) (==-self i) apart))

flock-Inv :
    (b : Bool) (i : ℕ) (w : World) (o : Option ℕ) → w.holder ≡ o → Inv b w → Inv b (flock i o w)
unfolding flock
flock-Inv b i w none free inv = Inv-at_phase b w i removing (some i) w.socket inv refl (λ j apart.
    Holds-lockless b w.holder w.socket (some i) w.socket j (w.phase j) (λ q. absurd (cc)))
flock-Inv b i w (some k) taken inv = stops-Inv b i already_running w inv

bind_socket-Inv :
    (b : Bool) (i : ℕ) (w : World) (o : Option ℕ)
    → w.holder ≡ some i
    → Inv b w
    → Inv b (bind_socket i o w)
unfolding bind_socket
bind_socket-Inv b i w none locked inv =
    Inv-change b w i restricting (some i) inv locked (locked, inl refl)
bind_socket-Inv b i w (some k) locked inv = stops-Inv b i bind w inv

call_granted-Inv :
    (b : Bool) (i : ℕ) (p : Phase) (w : World)
    → Inv b w
    → Holds b w.holder w.socket i p
    → Inv b (call_granted i p w)
unfolding call_granted
call_granted-Inv b i preparing w inv own = goes-Inv b i opening w inv tt
call_granted-Inv b i opening w inv own = goes-Inv b i locking w inv tt
call_granted-Inv b i locking w inv own = flock-Inv b i w w.holder refl inv
call_granted-Inv b i removing w inv own = Inv-change b w i binding none inv own (own, refl)
call_granted-Inv b i binding w inv own = bind_socket-Inv b i w w.socket own.0 inv
call_granted-Inv b i restricting w inv own = goes-Inv b i serving w inv own
call_granted-Inv b i serving w inv own = inv
call_granted-Inv b i dead w inv own = inv
call_granted-Inv b i leaving w inv own = inv
call_granted-Inv b i ended w inv own = inv
call_granted-Inv b i (stopped e) w inv own = inv

call_failed-Inv : (b : Bool) (i : ℕ) (p : Phase) (w : World) → Inv b w → Inv b (call_failed i p w)
unfolding call_failed
call_failed-Inv b i preparing w inv = stops-Inv b i socket_dir w inv
call_failed-Inv b i opening w inv = stops-Inv b i lock w inv
call_failed-Inv b i locking w inv = stops-Inv b i lock w inv
call_failed-Inv b i removing w inv = stops-Inv b i stale_socket w inv
call_failed-Inv b i binding w inv = stops-Inv b i bind w inv
call_failed-Inv b i restricting w inv = stops-Inv b i permissions w inv
call_failed-Inv b i serving w inv = inv
call_failed-Inv b i dead w inv = inv
call_failed-Inv b i leaving w inv = inv
call_failed-Inv b i ended w inv = inv
call_failed-Inv b i (stopped e) w inv = inv

call_unfit-Inv :
    (b : Bool) (i : ℕ) (e : ServeError) (p : Phase) (w : World)
    → Inv b w
    → Inv b (call_unfit i e p w)
unfolding call_unfit
call_unfit-Inv b i e preparing w inv = stops-Inv b i e w inv
call_unfit-Inv b i e opening w inv = call_failed-Inv b i opening w inv
call_unfit-Inv b i e locking w inv = call_failed-Inv b i locking w inv
call_unfit-Inv b i e removing w inv = call_failed-Inv b i removing w inv
call_unfit-Inv b i e binding w inv = call_failed-Inv b i binding w inv
call_unfit-Inv b i e restricting w inv = call_failed-Inv b i restricting w inv
call_unfit-Inv b i e serving w inv = call_failed-Inv b i serving w inv
call_unfit-Inv b i e dead w inv = call_failed-Inv b i dead w inv
call_unfit-Inv b i e leaving w inv = call_failed-Inv b i leaving w inv
call_unfit-Inv b i e ended w inv = call_failed-Inv b i ended w inv
call_unfit-Inv b i e (stopped x) w inv = call_failed-Inv b i (stopped x) w inv

call-Inv : (b : Bool) (i : ℕ) (a : Answer) (w : World) → Inv b w → Inv b (call i a w)
unfolding call
call-Inv b i granted w inv = call_granted-Inv b i (w.phase i) w inv (inv i)
call-Inv b i failed w inv = call_failed-Inv b i (w.phase i) w inv
call-Inv b i (unfit e) w inv = call_unfit-Inv b i e (w.phase i) w inv

leave_select-Inv : (b : Bool) (i : ℕ) (w : World) → Inv b w → Inv b (leave_select i w)
unfolding leave_select
leave_select-Inv b i w inv =
    Inv-at_phase b w i leaving (released i w.holder) w.socket inv tt
      (λ j apart. released-other b w.holder w.socket i j (w.phase j) apart)

-- After a clean-up the path is free or as it was.
Holds-swept :
    (b : Bool) (h s : Option ℕ) (j : ℕ) (p : Phase) → Holds b h s j p → Holds true h none j p
Holds-swept b h s j preparing held = tt
Holds-swept b h s j opening held = tt
Holds-swept b h s j locking held = tt
Holds-swept b h s j removing held = held
Holds-swept b h s j binding held = (held.0, refl)
Holds-swept b h s j restricting held = (held.0, inr (refl, refl))
Holds-swept b h s j serving held = (held.0, inr (refl, refl))
Holds-swept b h s j dead held = tt
Holds-swept b h s j leaving held = tt
Holds-swept b h s j ended held = tt
Holds-swept b h s j (stopped e) held = tt

Own-true : (b : Bool) (s : Option ℕ) (j : ℕ) → Own b s j → Own true s j
Own-true b s j (inl own) = inl own
Own-true b s j (inr gone) = inr (refl, gone.1)

Holds-true : (b : Bool) (h s : Option ℕ) (j : ℕ) (p : Phase) → Holds b h s j p → Holds true h s j p
Holds-true b h s j preparing held = tt
Holds-true b h s j opening held = tt
Holds-true b h s j locking held = tt
Holds-true b h s j removing held = held
Holds-true b h s j binding held = held
Holds-true b h s j restricting held = (held.0, Own-true b s j held.1)
Holds-true b h s j serving held = (held.0, Own-true b s j held.1)
Holds-true b h s j dead held = tt
Holds-true b h s j leaving held = tt
Holds-true b h s j ended held = tt
Holds-true b h s j (stopped e) held = tt

Inv-true : (b : Bool) (w : World) → Inv b w → Inv true w
Inv-true b w inv j = Holds-true b w.holder w.socket j (w.phase j) (inv j)

Inv-swept : (b : Bool) (w : World) → Inv b w → Inv true (record w { socket = none })
Inv-swept b w inv j = Holds-swept b w.holder w.socket j (w.phase j) (inv j)

clean_up-Inv : (b : Bool) (i : ℕ) (a : Answer) (w : World) → Inv b w → Inv true (clean_up i a w)
unfolding clean_up
clean_up-Inv b i granted w inv =
    goes-Inv true i ended (record w { socket = none }) (Inv-swept b w inv) tt
clean_up-Inv b i failed w inv = goes-Inv true i ended w (Inv-true b w inv) tt
clean_up-Inv b i (unfit e) w inv = goes-Inv true i ended w (Inv-true b w inv) tt

Step-Inv : (b : Bool) {c : Bool} {v w : World} → Step c v w → Inv b v → Inv (c || b) w
Step-Inv b (calls {w} i a) inv = call-Inv b i a w inv
Step-Inv b (crashes {w} i) inv = crash-Inv b i w inv
Step-Inv b (leaves {w} i told) inv = leave_select-Inv b i w inv
Step-Inv b (cleans {w} i a told) inv = clean_up-Inv b i a w inv

pub Reach-Inv : {left : Option ℕ} {b : Bool} {w : World} → Reach left b w → Inv b w
Reach-Inv start = λ i. tt
Reach-Inv (further {b} r step) = Step-Inv b step (Reach-Inv r)
