-- ===== src/StructUtils.antt =====
-- `class StructUtils`: typed reads of the fields of a protobuf `Struct`
-- (jwt_verify_lib/struct_utils.h, src/struct_utils.cc). A read returns its result beside what the
-- output parameter holds afterwards.
pub mod Laws
mod Tests
use jwt_verify_lib.Prelude.{
  ℕ, Bool, true, false, List, [], ◌∷◌, ◌++◌, Option, none, some, Bytes, if◌then◌else◌,
}
use jwt_verify_lib.External.Protobuf.{
  Protobuf, Kind, kind_not_set, null_value, number_value, string_value, bool_value, struct_value,
  list_value,
}

-- `enum FindResult`.
pub data FindResult : Type 0 where
  ok missing wrong_type not_positive : FindResult

-- `== OK`, `== MISSING`, `== WRONG_TYPE` and `== NOT_POSITIVE`.
abbrev pub is_found : FindResult → Bool
is_found ok = true
is_found _ = false

abbrev pub is_missing : FindResult → Bool
is_missing missing = true
is_missing _ = false

abbrev pub is_wrong_type : FindResult → Bool
is_wrong_type wrong_type = true
is_wrong_type _ = false

abbrev pub is_not_positive : FindResult → Bool
is_not_positive not_positive = true
is_not_positive _ = false

module _ ⦃pb : Protobuf⦄ where
  open pb use {Struct, Value, Double, find, kind, is_negative, to_uint64}

  -- `GetString`.
  unfoldable pub get_string : Struct → Bytes → Bytes → FindResult × Bytes
  get_string s name value = elim (find s name) [
    | none ↦ (missing, value)
    | some v ↦ elim (kind v) [ string_value t ↦ (ok, t) | _ ↦ (wrong_type, value) ]
  ]

  -- `GetUInt64`.
  unfoldable pub get_uint64 : Struct → Bytes → ℕ → FindResult × ℕ
  get_uint64 s name value = elim (find s name) [
    | none ↦ (missing, value)
    | some v ↦ elim (kind v) [
      | number_value d ↦ if is_negative d then (not_positive, value) else (ok, to_uint64 d)
      | _ ↦ (wrong_type, value)
    ]
  ]

  -- `GetBoolean`.
  unfoldable pub get_boolean : Struct → Bytes → Bool → FindResult × Bool
  get_boolean s name value = elim (find s name) [
    | none ↦ (missing, value)
    | some v ↦ elim (kind v) [ bool_value b ↦ (ok, b) | _ ↦ (wrong_type, value) ]
  ]

  -- `GetStruct`.
  unfoldable pub get_struct : Struct → Bytes → Struct → FindResult × Struct
  get_struct s name value = elim (find s name) [
    | none ↦ (missing, value)
    | some v ↦ elim (kind v) [ struct_value t ↦ (ok, t) | _ ↦ (wrong_type, value) ]
  ]

  -- The loop of `GetStringList`: the strings before the first value of another kind are pushed.
  unfoldable pub push_strings : List Value → List Bytes → FindResult × List Bytes
  push_strings [] list = (ok, list)
  push_strings (v ∷ vs) list = elim (kind v) [
    | string_value t ↦ push_strings vs (list ++ t ∷ [])
    | _ ↦ (wrong_type, list)
  ]

  -- `GetStringList`.
  unfoldable pub get_string_list : Struct → Bytes → List Bytes → FindResult × List Bytes
  unfolding push_strings
  get_string_list s name list = elim (find s name) [
    | none ↦ (missing, list)
    | some v ↦ elim (kind v) [
      | string_value t ↦ (ok, list ++ t ∷ [])
      | list_value vs ↦ push_strings vs list
      | _ ↦ (wrong_type, list)
    ]
  ]
