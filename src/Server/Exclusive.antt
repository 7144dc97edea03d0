-- ===== src/Server/Exclusive.antt =====
-- No two daemons serve on one socket path, however their calls and their deaths are interleaved.
use project_persona.Prelude.{
  Bool, true, ◌||◌, ℕ, ◌≡◌, refl, ◌⊎◌, inl, inr, false, Option, none, some, ◌==◌, Bool-cases, sym,
  ◌∙◌, subst, ap, some-injective, ==_iff,
}
use project_persona.Server.{
  Phase, preparing, locking, binding, serving, dead, stopped, ServeError, World, stops, flock,
  bind_socket, call_granted, call_failed, call_unfit, call, Answer, granted, failed, unfit, crash,
  leave_select, clean_up, leaving, ended, Step, calls, crashes, leaves, cleans, Reach, further,
}
use project_persona.Server.Inv.{Holds, Own, Reach-Inv}

pub serving-owns :
    {left : Option ℕ} {b : Bool} {w : World} (i : ℕ)
    → Reach left b w
    → w.phase i ≡ serving
    → (w.holder ≡ some i) × Own b w.socket i
serving-owns {b} {w} i r h = subst (Holds b w.holder w.socket i) h (Reach-Inv r i)

-- Of the daemons that start on one socket path, in any order of their calls, their failures, their
-- deaths and their ends with the clean-up, any two that serve are the same one; and the socket at
-- the path is its own, or there is none there because a daemon that ended cleaned it up.
pub one_server :
    {left : Option ℕ} {b : Bool} {w : World} (i j : ℕ)
    → Reach left b w
    → w.phase i ≡ serving
    → w.phase j ≡ serving
    → (i ≡ j) × ((w.socket ≡ some i) ⊎ ((b ≡ true) × (w.socket ≡ none)))
one_server i j r hi hj = (
  some-injective (sym (serving-owns i r hi).0 ∙ (serving-owns j r hj).0),
  (serving-owns i r hi).1,
)

-- A call of one daemon does not move another.
flock-other :
    (i j : ℕ) (o : Option ℕ) (w : World) → (j == i) ≡ false → (flock i o w).phase j ≡ w.phase j
unfolding flock stops
flock-other i j none w apart = rw (apart) refl
flock-other i j (some k) w apart = rw (apart) refl

bind_socket-other :
    (i j : ℕ) (o : Option ℕ) (w : World)
    → (j == i) ≡ false
    → (bind_socket i o w).phase j ≡ w.phase j
unfolding bind_socket stops
bind_socket-other i j none w apart = rw (apart) refl
bind_socket-other i j (some k) w apart = rw (apart) refl

call_granted-other :
    (i j : ℕ) (p : Phase) (w : World) → (j == i) ≡ false → (call_granted i p w).phase j ≡ w.phase j
unfolding call_granted
call_granted-other i j locking w apart = flock-other i j w.holder w apart
call_granted-other i j binding w apart = bind_socket-other i j w.socket w apart
call_granted-other i j serving w apart = refl
call_granted-other i j dead w apart = refl
call_granted-other i j leaving w apart = refl
call_granted-other i j ended w apart = refl
call_granted-other i j (stopped x) w apart = refl
call_granted-other i j p w apart = rw (apart) refl

call_failed-other :
    (i j : ℕ) (p : Phase) (w : World) → (j == i) ≡ false → (call_failed i p w).phase j ≡ w.phase j
unfolding call_failed stops
call_failed-other i j serving w apart = refl
call_failed-other i j dead w apart = refl
call_failed-other i j leaving w apart = refl
call_failed-other i j ended w apart = refl
call_failed-other i j (stopped x) w apart = refl
call_failed-other i j p w apart = rw (apart) refl

call_unfit-other :
    (i j : ℕ) (e : ServeError) (p : Phase) (w : World)
    → (j == i) ≡ false
    → (call_unfit i e p w).phase j ≡ w.phase j
unfolding call_unfit stops
call_unfit-other i j e preparing w apart = rw (apart) refl
call_unfit-other i j e p w apart = call_failed-other i j p w apart

pub call-other :
    (i j : ℕ) (a : Answer) (w : World) → (j == i) ≡ false → (call i a w).phase j ≡ w.phase j
unfolding call
call-other i j granted w apart = call_granted-other i j (w.phase i) w apart
call-other i j failed w apart = call_failed-other i j (w.phase i) w apart
call-other i j (unfit e) w apart = call_unfit-other i j e (w.phase i) w apart

-- A daemon that serves makes no more of these calls.
call-serving : (i : ℕ) (a : Answer) (w : World) → w.phase i ≡ serving → call i a w ≡ w
unfolding call call_granted call_failed call_unfit
call-serving i granted w h = rw (h, call_granted) refl
call-serving i failed w h = rw (h, call_failed) refl
call-serving i (unfit e) w h = rw (h, call_unfit) refl

clean_up-other :
    (i j : ℕ) (a : Answer) (w : World) → (j == i) ≡ false → (clean_up i a w).phase j ≡ w.phase j
unfolding clean_up
clean_up-other i j granted w apart = rw (apart) refl
clean_up-other i j failed w apart = rw (apart) refl
clean_up-other i j (unfit e) w apart = rw (apart) refl

-- What can end a daemon that serves.
abbrev pub Gone : World → World → ℕ → Type 0
Gone v w i = (w ≡ crash i v) ⊎ (w ≡ leave_select i v)

serving-stays :
    {c : Bool} {v w : World} (i : ℕ)
    → Step c v w
    → v.phase i ≡ serving
    → (w.phase i ≡ serving) ⊎ Gone v w i
unfolding crash leave_select
serving-stays i (calls {w} j a) h = elim (Bool-cases (i == j)) [
  | inl same ↦ inl (
      ap (λ u. u.phase i)
        (call-serving j a w (subst (λ k. w.phase k ≡ serving) ((==_iff i j).0 same) h))
      ∙ h)
  | inr apart ↦ inl (call-other j i a w apart ∙ h)
]
serving-stays i (crashes {w} j) h = elim (Bool-cases (i == j)) [
  | inl same ↦ inr (inl (ap (λ k. crash k w) (sym ((==_iff i j).0 same))))
  | inr apart ↦ inl (rw (apart) h)
]
serving-stays i (leaves {w} j told) h = elim (Bool-cases (i == j)) [
  | inl same ↦ inr (inr (ap (λ k. leave_select k w) (sym ((==_iff i j).0 same))))
  | inr apart ↦ inl (rw (apart) h)
]
serving-stays i (cleans {w} j a told) h = elim (Bool-cases (i == j)) [
  | inl same ↦ absurd (cc (ap w.phase ((==_iff i j).0 same), h, told))
  | inr apart ↦ inl (clean_up-other j i a w apart ∙ h)
]

-- Whatever step comes next, a daemon that serves at a socket path goes on serving there, unless it
-- is the one that dies or is told to stop; and the socket at the path is its own, or there is none
-- there because a daemon that ended cleaned it up, by this step or before.
pub serving-kept :
    {left : Option ℕ} {b c : Bool} {v w : World} (i : ℕ)
    → Reach left b v
    → Step c v w
    → v.phase i ≡ serving
    → ((w.phase i ≡ serving) × ((w.socket ≡ some i) ⊎ (((c || b) ≡ true) × (w.socket ≡ none))))
      ⊎ ((w ≡ crash i v) ⊎ (w ≡ leave_select i v))
serving-kept i r step h = elim (serving-stays i step h) [
  | inl on ↦ inl (on, (serving-owns i (further r step) on).1)
  | inr gone ↦ inr gone
]
