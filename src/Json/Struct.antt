-- ===== src/Json/Struct.antt =====
-- What a `Struct` holds that `claims_struct` made.
use project_persona.Prelude.{
  ℕ, ◌≡◌, refl, ap, Bool-cases, Option, none, some, inl, inr, if◌then◌else◌, some-injective,
}
use project_persona.Text.{Bytes, same}
use project_persona.Json.{
  Json, null, boolean, number, string, array, object, Members, no_member, member, Value, Fields,
  no_field, field, find_member, get, as_str, json_to_protobuf, struct_from_map,
}

-- The value of a field.
unfoldable pub find_field : Bytes → Fields → Option Value
find_field key no_field = none
find_field key (field name v fs) = if same name key then some v else find_field key fs

-- The conversion of a value, where there is one.
abbrev pub converted : (Bytes → Option ℕ) → Option Json → Option Value
converted as_f64 none = none
converted as_f64 (some v) = some (json_to_protobuf as_f64 v)

-- The fields are the members, each converted, and no others.
pub find_field-struct_from_map :
    (as_f64 : Bytes → Option ℕ) (key : Bytes) (ms : Members)
    → find_field key (struct_from_map as_f64 ms) ≡ converted as_f64 (find_member key ms)
unfolding find_field find_member json_to_protobuf
find_field-struct_from_map as_f64 key no_member = refl
find_field-struct_from_map as_f64 key (member name v ms) = elim (Bool-cases (same name key)) [
  | inl e ↦ rw (e, find_field, find_member, if◌then◌else◌) refl
  | inr e ↦
      rw (e, find_field, find_member, if◌then◌else◌) (find_field-struct_from_map as_f64 key ms)
]

-- A value with a member that is a text is an object.
pub as_str-get :
    (key : Bytes) (v : Json) (s : Bytes)
    → as_str (get key v) ≡ some s
    → (ms : Members) × (v ≡ object ms) × (find_member key ms ≡ some (string s))
unfolding as_str get
as_str-get key (object ms) s h = (ms, refl, text (find_member key ms) s h)
  where
    text : (o : Option Json) (s : Bytes) → as_str o ≡ some s → o ≡ some (string s)
    text (some (string t)) s h = ap (λ t. some (string t)) (some-injective h)
    text none s h = absurd cc
    text (some null) s h = absurd cc
    text (some (boolean b)) s h = absurd cc
    text (some (number n)) s h = absurd cc
    text (some (array vs)) s h = absurd cc
    text (some (object ms)) s h = absurd cc
as_str-get key null s h = absurd cc
as_str-get key (boolean b) s h = absurd cc
as_str-get key (number n) s h = absurd cc
as_str-get key (string t) s h = absurd cc
as_str-get key (array vs) s h = absurd cc
