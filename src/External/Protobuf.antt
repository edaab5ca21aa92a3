-- ===== src/External/Protobuf.antt =====
-- What src/*.cc use of `google::protobuf`: the well-known types `Struct` and `Value`, the number
-- type `double` of a value, and `JsonStringToMessage`.
use jwt_verify_lib.Prelude.{ℕ, Bool, List, Option, Bytes}

-- A value by its `kind_case()`, with what the accessor of that case returns.
pub data Kind (Struct Value Double : Type 0) : Type 0 where
  kind_not_set null_value : Kind Struct Value Double
  number_value : Double → Kind Struct Value Double
  string_value : Bytes → Kind Struct Value Double
  bool_value : Bool → Kind Struct Value Double
  struct_value : Struct → Kind Struct Value Double
  list_value : List Value → Kind Struct Value Double

pub record Protobuf : Type 1 where
  pub Struct : Type 0
  pub Value : Type 0
  pub Double : Type 0
  -- A default-constructed message.
  pub empty_struct : Struct
  -- `fields()` in the order of an iteration, and its `find`.
  pub fields : Struct → List (Bytes × Value)
  pub find : Struct → Bytes → Option Value
  pub kind : Value → Kind Struct Value Double
  -- `d < 0` and `static_cast<uint64_t>(d)`.
  pub is_negative : Double → Bool
  pub to_uint64 : Double → ℕ
  -- Whether the status is ok, and the message afterwards, from the message before.
  pub json_string_to_message : Bytes → Struct → Bool × Struct
