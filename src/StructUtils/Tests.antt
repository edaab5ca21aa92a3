-- ===== src/StructUtils/Tests.antt =====
-- The theorems about the reads at concrete messages.
use jwt_verify_lib.Prelude.{◌≡◌, ◌≢◌, refl, true, false, if◌then◌else◌, [], ◌∷◌, ◌++◌, bytes, ◌=ᵇ◌}
use jwt_verify_lib.Sample.{
  sample_protobuf, Fields, Items, no_fields, field, array, item, end, text, number, values,
}
use jwt_verify_lib.StructUtils.{
  ok, wrong_type, get_string, get_uint64, get_boolean, get_struct, get_string_list,
}
use jwt_verify_lib.StructUtils.Laws.{
  all_are_strings, leading_strings, get_string_list_of_list, failed_reads_keep,
}

-- A string before a number.
abbrev mixed : Items
mixed = item (text (bytes "a")) (item (number false 1) end)

abbrev message : Fields
message = field (bytes "aud") (array mixed) no_fields

list_example : get_string_list message (bytes "aud") (bytes "old" ∷ []) ≡ (
  if all_are_strings (values mixed) then ok else wrong_type,
  bytes "old" ∷ [] ++ leading_strings (values mixed),
)
unfolding ◌=ᵇ◌
list_example = get_string_list_of_list message (bytes "aud") (bytes "old" ∷ []) refl refl

reads_example :
    ((get_string message (bytes "iss") (bytes "x")).0 ≢ ok
      → (get_string message (bytes "iss") (bytes "x")).1 ≡ bytes "x")
    × ((get_uint64 message (bytes "iss") 5).0 ≢ ok → (get_uint64 message (bytes "iss") 5).1 ≡ 5)
    × ((get_boolean message (bytes "iss") true).0 ≢ ok
        → (get_boolean message (bytes "iss") true).1 ≡ true)
    × ((get_struct message (bytes "iss") no_fields).0 ≢ ok
        → (get_struct message (bytes "iss") no_fields).1 ≡ no_fields)
reads_example = failed_reads_keep message (bytes "iss") (bytes "x") 5 true no_fields
