-- ===== src/Jwt/Tests.antt =====
-- The theorems about tokens at concrete texts and times.
use jwt_verify_lib.Prelude.{
  ◌≡◌, ◌≢◌, ◌↔◌, ◌⊎◌, ◌+◌, ◌-◌, ◌^◌, ◌≤◌, ◌<◌, refl, [], ◌∷◌, Bytes, bytes, arith,
}
use jwt_verify_lib.Status.{ok, jwt_not_yet_valid, jwt_expired}
use jwt_verify_lib.Sample.{sample_protobuf, sample_absl, header, payload}
use jwt_verify_lib.Prelude.{◌=ᵇ◌}
use jwt_verify_lib.StructUtils.{get_string, get_uint64, get_string_list, push_strings}
use jwt_verify_lib.Jwt.{
  Jwt, new_jwt, parse_from_string, copy, verify_time_constraint, is_implemented,
  parse_header_fields, parse_names, parse_times, parse_id_and_audiences, parse_header,
  parse_payload, parse_signature, parse_pieces,
}
use jwt_verify_lib.Jwt.Spec.{Parses}
use jwt_verify_lib.Jwt.Parsing.{parse_from_string_iff}
use jwt_verify_lib.Jwt.Copying.{copy-parse_from_string}
use jwt_verify_lib.Jwt.Time.{verify_time_constraint_iff, verify_time_constraint_wraps}

abbrev text : Bytes
text = bytes "head.load.sig"

-- The object after a parse of the text.
abbrev token : Jwt
token = record new_jwt {
  jwt = text;
  header_str = bytes "head";
  header_str_base64url = bytes "head";
  header_pb = header;
  payload_str = bytes "load";
  payload_str_base64url = bytes "load";
  payload_pb = payload;
  signature = bytes "sig";
  alg = bytes "HS256";
  kid = bytes "k1";
  iss = bytes "me";
  audiences = bytes "https://svc/" ∷ [];
  exp = 200;
}

-- An object that was used before: its `nbf` stays, and its audience is kept beside the new one.
abbrev used : Jwt
used = record new_jwt { nbf = 70; sub = bytes "them"; audiences = bytes "old" ∷ [] }

abbrev used_again : Jwt
used_again = record token {
  nbf = 70;
  sub = bytes "them";
  audiences = bytes "old" ∷ bytes "https://svc/" ∷ [];
}

-- Empty pieces are skipped, so that a text with more than two dots is accepted, with its whole text.
parses_with_dots :
    parse_from_string (bytes "..head.load...sig.") new_jwt
    ≡ (record token { jwt = bytes "..head.load...sig." }, ok)
unfolding parse_from_string parse_pieces parse_header parse_payload parse_signature
    parse_header_fields parse_names parse_times parse_id_and_audiences get_string get_uint64
    get_string_list push_strings is_implemented ◌=ᵇ◌
parses_with_dots = refl

parse_example : (parse_from_string text new_jwt ≡ (token, ok)) ↔ Parses text new_jwt token
parse_example = parse_from_string_iff text new_jwt token

copy_example : copy (parse_from_string text new_jwt).0 ≡ (parse_from_string text new_jwt).0
copy_example = copy-parse_from_string text

time_example :
    ((verify_time_constraint token 100 60 ≡ jwt_not_yet_valid) ↔ (100 + 60 < token.nbf))
    × ((verify_time_constraint token 100 60 ≡ jwt_expired)
        ↔ ((token.nbf ≤ 100 + 60) × (token.exp ≢ 0) × (token.exp + 60 < 100)))
    × ((verify_time_constraint token 100 60 ≡ ok)
        ↔ ((token.nbf ≤ 100 + 60) × ((token.exp ≡ 0) ⊎ (100 ≤ token.exp + 60))))
time_example = verify_time_constraint_iff token 100 60 (omega arith) (omega arith)

-- A token that expires in the last second.
abbrev lasting : Jwt
lasting = record token { exp = 2 ^ 64 - 1 }

wraps_example : verify_time_constraint lasting 100 60 ≡ jwt_expired
wraps_example =
    verify_time_constraint_wraps lasting 100 60 (omega arith) (omega arith) (omega arith)
      (omega arith) (omega arith)
