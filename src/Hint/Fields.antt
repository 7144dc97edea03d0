-- ===== src/Hint/Fields.antt =====
-- The loop over the parameters, seen as a list of fields that fill slots in any order.
use mathlib.Core.Path.{subst, fun_ext}
use mathlib.Core.List.{Permᴰ, append-nil}
use mathlib.Core.List.Permᴰ
use project_persona.Prelude.{
  ◌≡◌, refl, ap, Option, none, some, List, [], ◌∷◌, ◌++◌, arith, Result, ok, ◌>>=◌, >>=-eq-ok,
  ok-injective, ℕ,
}
use project_persona.Text.{Bytes}
use project_persona.Assurance.{IdentityAssurance, PresenceLevel}
use project_persona.Hint.{
  SvidHint, HintParseError, Seen, unseen, Field, source, identity_assurance, presence, age, put,
  read_param, read_params, finish,
}

-- Each parameter reads as the field in the same place.
abbrev pub ReadAs : List Bytes → List Field → Type 0
ReadAs [] [] = Unit
ReadAs [] (f ∷ fs) = ⊥
ReadAs (p ∷ ps) [] = ⊥
ReadAs (p ∷ ps) (f ∷ fs) = (read_param p ≡ ok f) × ReadAs ps fs

abbrev pub fields : SvidHint → List Field
fields h =
    source h.source ∷ identity_assurance h.identity_assurance ∷ presence h.presence ∷ age h.age ∷ []

pub put_all : Seen → List Field → Result HintParseError Seen
put_all seen [] = ok seen
put_all seen (f ∷ fs) = do seen' ← put seen f; put_all seen' fs

abbrev slot {ℓ} : {A : Type ℓ} → (A → Field) → Option A → List Field
slot f none = []
slot f (some a) = f a ∷ []

abbrev seen_fields : Seen → List Field
seen_fields s =
    slot source s.source
    ++ (slot identity_assurance s.identity_assurance
        ++ (slot presence s.presence ++ slot age s.age))

Perm-seen :
    {l : List Field} {s t : Seen} → s ≡ t → Permᴰ l (seen_fields s) → Permᴰ l (seen_fields t)
Perm-seen {l} e p = subst (λ r. Permᴰ l (seen_fields r)) e p

insert_third : (f : Field) (a b c : List Field) → Permᴰ (f ∷ (a ++ (b ++ c))) (a ++ (b ++ f ∷ c))
insert_third f a b c =
    Permᴰ.trans (Permᴰ.symm (Permᴰ.middle f a (b ++ c)))
      (Permᴰ.append_left a (Permᴰ.symm (Permᴰ.middle f b c)))

insert_last :
    (f : Field) (a b c : List Field)
    → Permᴰ (f ∷ (a ++ (b ++ (c ++ [])))) (a ++ (b ++ (c ++ f ∷ [])))
insert_last f a b c =
    Permᴰ.trans (insert_third f a b (c ++ []))
      (Permᴰ.append_left a (Permᴰ.append_left b (Permᴰ.symm (Permᴰ.middle f c []))))

put-perm_at :
    (o : Option Bytes) (i : Option IdentityAssurance) (p : Option PresenceLevel) (n : Option ℕ)
    (f : Field) {t : Seen}
    → put (record { source = o; identity_assurance = i; presence = p; age = n }) f ≡ ok t
    → Permᴰ
        (f ∷ slot source o ++ (slot identity_assurance i ++ (slot presence p ++ slot age n)))
        (seen_fields t)
unfolding put
put-perm_at none i p n (source v) h =
    Perm-seen (ok-injective h)
      (Permᴰ.refl (source v ∷ slot identity_assurance i ++ (slot presence p ++ slot age n)))
put-perm_at o none p n (identity_assurance v) h = Perm-seen (ok-injective h) (
    Permᴰ.symm
      (Permᴰ.middle (identity_assurance v) (slot source o) (slot presence p ++ slot age n)))
put-perm_at o i none n (presence v) h =
    Perm-seen (ok-injective h)
      (insert_third (presence v) (slot source o) (slot identity_assurance i) (slot age n))
put-perm_at o i p none (age v) h =
    Perm-seen (ok-injective h)
      (insert_last (age v) (slot source o) (slot identity_assurance i) (slot presence p))
put-perm_at (some x) i p n (source v) h = absurd (cc)
put-perm_at o (some x) p n (identity_assurance v) h = absurd (cc)
put-perm_at o i (some x) n (presence v) h = absurd (cc)
put-perm_at o i p (some x) (age v) h = absurd (cc)

put-perm :
    (s : Seen) (f : Field) {t : Seen} → put s f ≡ ok t → Permᴰ (f ∷ seen_fields s) (seen_fields t)
put-perm s f h = put-perm_at s.source s.identity_assurance s.presence s.age f h

put-swap :
    (s : Seen) (a b : Field) {t u : Seen}
    → put s a ≡ ok t
    → put t b ≡ ok u
    → (put s b >>= λ r. put r a) ≡ ok u
unfolding put
put-swap s (source v) b h k = ground arith
put-swap s _ b h k = ground arith

put_all-perm :
    (fs : List Field) (s : Seen) {t : Seen}
    → put_all s fs ≡ ok t
    → Permᴰ (fs ++ seen_fields s) (seen_fields t)
unfolding put_all
put_all-perm [] s h = Perm-seen (ok-injective h) (Permᴰ.refl (seen_fields s))
put_all-perm (f ∷ fs) s h =
    let (r, first, rest) = >>=-eq-ok (put s f) (λ q. put_all q fs) h in
    Permᴰ.trans (Permᴰ.symm (Permᴰ.middle f fs (seen_fields s)))
      (Permᴰ.trans (Permᴰ.append_left fs (put-perm s f first)) (put_all-perm fs r rest))

put_all-cons :
    (s : Seen) (f : Field) (fs : List Field) {t u : Seen}
    → put s f ≡ ok t
    → put_all t fs ≡ ok u
    → put_all s (f ∷ fs) ≡ ok u
unfolding put_all
put_all-cons s f fs h k = rw h k

put_all-cons_inv :
    (s : Seen) (f : Field) (fs : List Field) {u : Seen}
    → put_all s (f ∷ fs) ≡ ok u
    → (t : Seen) × (put s f ≡ ok t) × (put_all t fs ≡ ok u)
unfolding put_all
put_all-cons_inv s f fs h = >>=-eq-ok (put s f) (λ q. put_all q fs) h

-- Fields that fill the slots in one order fill them in every order.
pub put_all-Permᴰ :
    {fs gs : List Field}
    → Permᴰ fs gs
    → (s : Seen) {t : Seen} → put_all s fs ≡ ok t
    → put_all s gs ≡ ok t
put_all-Permᴰ Permᴰ.nil s h = h
put_all-Permᴰ (Permᴰ.cons {a} {b} {l₁} {l₂} e p) s h =
    let (r, first, rest) = put_all-cons_inv s a l₁ h in
    put_all-cons s b l₂ (rw e at first) (put_all-Permᴰ p r rest)
put_all-Permᴰ (Permᴰ.swap {a} {b} {a'} {b'} {l} e e') s h =
    let (r, first, rest) = put_all-cons_inv s a (b ∷ l) h in
    let (q, second, rest') = put_all-cons_inv r b l rest in
    let (m, one, two) = >>=-eq-ok (put s b) (λ r. put r a) (put-swap s a b first second) in
    put_all-cons s a' (b' ∷ l) (rw e' at one) (put_all-cons m b' l (rw e at two) rest')
put_all-Permᴰ (Permᴰ.trans p q) s h = put_all-Permᴰ q s (put_all-Permᴰ p s h)

-- The loop reads each parameter as a field and puts them in turn.
pub read_params-fields :
    (ps : List Bytes) (s : Seen) {t : Seen}
    → read_params s ps ≡ ok t
    → (fs : List Field) × ReadAs ps fs × (put_all s fs ≡ ok t)
unfolding read_params put_all
read_params-fields [] s h = ([], tt, h)
read_params-fields (p ∷ ps) s h =
    let (f, read, more) = >>=-eq-ok (read_param p) (λ f. put s f >>= λ r. read_params r ps) h in
    let (r, first, rest) = >>=-eq-ok (put s f) (λ r. read_params r ps) more in
    let (fs, reads, all) = read_params-fields ps r rest in (f ∷ fs, (read, reads), rw first all)

pub fields-read_params :
    (ps : List Bytes) (fs : List Field) (s : Seen) → ReadAs ps fs → read_params s ps ≡ put_all s fs
unfolding read_params put_all
fields-read_params [] [] s h = refl
fields-read_params [] (f ∷ fs) s h = elim h [ ]
fields-read_params (p ∷ ps) [] s h = elim h [ ]
fields-read_params (p ∷ ps) (f ∷ fs) s h =
    rw h.0 (ap (λ k. put s f >>= k) (fun_ext (λ r. fields-read_params ps fs r h.1)))

pub put_all-fields : (h : SvidHint) → (put_all unseen (fields h) >>= finish) ≡ ok h
unfolding put_all put finish
put_all-fields h = refl

finish-fields_at :
    (o : Option Bytes) (i : Option IdentityAssurance) (p : Option PresenceLevel) (n : Option ℕ)
    {h : SvidHint}
    → finish (record { source = o; identity_assurance = i; presence = p; age = n }) ≡ ok h
    → slot source o ++ (slot identity_assurance i ++ (slot presence p ++ slot age n)) ≡ fields h
unfolding finish
finish-fields_at (some o) (some i) (some p) (some n) e = ap fields (ok-injective e)
finish-fields_at (some o) (some i) (some p) none e = cc
finish-fields_at (some o) (some i) none n e = cc
finish-fields_at (some o) none p n e = cc
finish-fields_at none i p n e = cc

-- What fills all four slots is a rearrangement of the four fields of the result.
pub put_all-finish :
    (fs : List Field) {t : Seen} {h : SvidHint}
    → put_all unseen fs ≡ ok t
    → finish t ≡ ok h
    → Permᴰ fs (fields h)
put_all-finish fs {t} e k =
    subst (λ gs. Permᴰ fs gs) (finish-fields_at t.source t.identity_assurance t.presence t.age k)
      (subst (λ gs. Permᴰ gs (seen_fields t)) (append-nil fs) (put_all-perm fs unseen e))
