-- ===== src/Json.antt =====
-- JSON values as serde_json holds them, and hire-grpc/src/service.rs: `claims_struct`, which turns the
-- claims of a token into a protobuf `Struct`. A number is its text; the double that serde_json reads
-- it as is a parameter.
pub mod Struct
use project_persona.Prelude.{ℕ, Bool, Option, none, some, List, [], ◌∷◌, if◌then◌else◌}
use project_persona.Text.{Bytes, same}

mutual
  pub data Json : Type 0 where
    null : Json
    boolean : Bool → Json
    number string : Bytes → Json
    array : Items → Json
    object : Members → Json

  pub data Items : Type 0 where
    no_item : Items
    item : Json → Items → Items

  pub data Members : Type 0 where
    no_member : Members
    member : Bytes → Json → Members → Members

-- `prost_types::Value`, and the lists and the structs of it. A double is its bits.
mutual
  pub data Value : Type 0 where
    null_value : Value
    bool_value : Bool → Value
    number_value : ℕ → Value
    string_value : Bytes → Value
    list_value : Values → Value
    struct_value : Fields → Value

  pub data Values : Type 0 where
    no_value : Values
    value : Value → Values → Values

  pub data Fields : Type 0 where
    no_field : Fields
    field : Bytes → Value → Fields → Fields

-- `Value::get` on an object, and nothing on any other value.
unfoldable pub find_member : Bytes → Members → Option Json
find_member key no_member = none
find_member key (member name v ms) = if same name key then some v else find_member key ms

unfoldable pub get : Bytes → Json → Option Json
get key (object ms) = find_member key ms
get key v = none

unfoldable pub as_str : Option Json → Option Bytes
as_str (some (string s)) = some s
as_str v = none

unfoldable pub number_of : Option ℕ → Bytes → Value
number_of (some f) n = number_value f
number_of none n = string_value n

unfoldable mutual
  pub json_to_protobuf : (Bytes → Option ℕ) → Json → Value
  json_to_protobuf as_f64 null = null_value
  json_to_protobuf as_f64 (boolean b) = bool_value b
  json_to_protobuf as_f64 (number n) = number_of (as_f64 n) n
  json_to_protobuf as_f64 (string s) = string_value s
  json_to_protobuf as_f64 (array vs) = list_value (list_from_items as_f64 vs)
  json_to_protobuf as_f64 (object ms) = struct_value (struct_from_map as_f64 ms)

  pub list_from_items : (Bytes → Option ℕ) → Items → Values
  list_from_items as_f64 no_item = no_value
  list_from_items as_f64 (item v vs) = value (json_to_protobuf as_f64 v) (list_from_items as_f64 vs)

  pub struct_from_map : (Bytes → Option ℕ) → Members → Fields
  struct_from_map as_f64 no_member = no_field
  struct_from_map as_f64 (member name v ms) =
      field name (json_to_protobuf as_f64 v) (struct_from_map as_f64 ms)

unfoldable pub claims_struct : (Bytes → Option ℕ) → Json → Option Fields
claims_struct as_f64 (object ms) = some (struct_from_map as_f64 ms)
claims_struct as_f64 v = none
