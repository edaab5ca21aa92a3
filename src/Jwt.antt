-- ===== src/Jwt.antt =====
-- `struct Jwt` (jwt_verify_lib/jwt.h, src/jwt.cc): a token, its parser, its copies and its time
-- constraint. A `uint64_t` is a natural number whose sums are taken modulo 2 ^ 64.
mod Object
pub mod Spec
mod Fields
mod Statuses
pub mod Parsing
pub mod Copying
pub mod Time
mod Tests
pub use Object.*
use jwt_verify_lib.Prelude.{
  ℕ, ◌+◌, ◌%◌, ◌^◌, Bool, true, false, not, ◌&&◌, List, [], ◌∷◌, Bytes, bytes, ◌=ᵇ◌, ◌==◌, ltb,
  if◌then◌else◌, any,
}
use jwt_verify_lib.Status.{
  Status, ok, jwt_not_yet_valid, jwt_expired, jwt_bad_format, jwt_header_parse_error_bad_base64,
  jwt_header_parse_error_bad_json, jwt_header_bad_alg, jwt_header_not_implemented_alg,
  jwt_header_bad_kid, jwt_payload_parse_error_bad_base64, jwt_payload_parse_error_bad_json,
  jwt_payload_parse_error_iss_not_string, jwt_payload_parse_error_sub_not_string,
  jwt_payload_parse_error_iat_not_integer, jwt_payload_parse_error_iat_not_positive,
  jwt_payload_parse_error_nbf_not_integer, jwt_payload_parse_error_nbf_not_positive,
  jwt_payload_parse_error_exp_not_integer, jwt_payload_parse_error_exp_not_positive,
  jwt_payload_parse_error_jti_not_string, jwt_payload_parse_error_aud_not_string,
  jwt_signature_parse_error_bad_base64,
}
use jwt_verify_lib.External.Protobuf.{Protobuf}
use jwt_verify_lib.External.Absl.{Absl}
use jwt_verify_lib.StructUtils.{
  is_found, is_wrong_type, is_not_positive, get_string, get_uint64, get_string_list,
}

-- `isImplemented`.
unfoldable pub is_implemented : Bytes → Bool
is_implemented alg =
    any (λ a. a =ᵇ alg)
      (bytes "ES256"
        ∷ bytes "ES384"
        ∷ bytes "ES512"
        ∷ bytes "HS256"
        ∷ bytes "HS384"
        ∷ bytes "HS512"
        ∷ bytes "RS256"
        ∷ bytes "RS384"
        ∷ bytes "RS512"
        ∷ bytes "PS256"
        ∷ bytes "PS384"
        ∷ bytes "PS512"
        ∷ bytes "EdDSA"
        ∷ [])

-- `kClockSkewInSecond`.
abbrev pub clock_skew_in_second : ℕ
clock_skew_in_second = 60

module _ ⦃pb : Protobuf⦄ where
  open pb use {json_string_to_message}

  -- The reads from the decoded header.
  unfoldable pub parse_header_fields : Jwt → Parse (Unit {0})
  parse_header_fields = do
    j ← get
    let (found, alg) = get_string j.header_pb (bytes "alg") j.alg
    put (record j { alg = alg })
    return_if (not (is_found found)) jwt_header_bad_alg
    return_if (not (is_implemented alg)) jwt_header_not_implemented_alg
    j ← get
    let (found, kid) = get_string j.header_pb (bytes "kid") j.kid
    put (record j { kid = kid })
    return_if (is_wrong_type found) jwt_header_bad_kid

  -- The claims with a string.
  unfoldable pub parse_names : Jwt → Parse (Unit {0})
  parse_names = do
    j ← get
    let (found, iss) = get_string j.payload_pb (bytes "iss") j.iss
    put (record j { iss = iss })
    return_if (is_wrong_type found) jwt_payload_parse_error_iss_not_string
    j ← get
    let (found, sub) = get_string j.payload_pb (bytes "sub") j.sub
    put (record j { sub = sub })
    return_if (is_wrong_type found) jwt_payload_parse_error_sub_not_string

  -- The claims with a time.
  unfoldable pub parse_times : Jwt → Parse (Unit {0})
  parse_times = do
    j ← get
    let (found, iat) = get_uint64 j.payload_pb (bytes "iat") j.iat
    put (record j { iat = iat })
    return_if (is_wrong_type found) jwt_payload_parse_error_iat_not_integer
    return_if (is_not_positive found) jwt_payload_parse_error_iat_not_positive
    j ← get
    let (found, nbf) = get_uint64 j.payload_pb (bytes "nbf") j.nbf
    put (record j { nbf = nbf })
    return_if (is_wrong_type found) jwt_payload_parse_error_nbf_not_integer
    return_if (is_not_positive found) jwt_payload_parse_error_nbf_not_positive
    j ← get
    let (found, exp) = get_uint64 j.payload_pb (bytes "exp") j.exp
    put (record j { exp = exp })
    return_if (is_wrong_type found) jwt_payload_parse_error_exp_not_integer
    return_if (is_not_positive found) jwt_payload_parse_error_exp_not_positive

  -- The claims behind the times.
  unfoldable pub parse_id_and_audiences : Jwt → Parse (Unit {0})
  parse_id_and_audiences = do
    j ← get
    let (found, jti) = get_string j.payload_pb (bytes "jti") j.jti
    put (record j { jti = jti })
    return_if (is_wrong_type found) jwt_payload_parse_error_jti_not_string
    j ← get
    let (found, audiences) = get_string_list j.payload_pb (bytes "aud") j.audiences
    put (record j { audiences = audiences })
    return_if (is_wrong_type found) jwt_payload_parse_error_aud_not_string

  -- The object and the status that a run of the parser leaves.
  abbrev pub finish : Parse (Unit {0}) → Jwt × Status
  finish (next _ j) = (j, ok)
  finish (stop s j) = (j, s)

  module _ ⦃ab : Absl⦄ where
    open ab use {web_safe_base64_unescape, str_split_skip_empty}

    -- The first section: base64url, JSON, and the fields.
    unfoldable pub parse_header : Bytes → Jwt → Parse (Unit {0})
    parse_header piece = do
      j ← get
      let (decoded, text) = web_safe_base64_unescape piece
      put (record j { header_str_base64url = piece; header_str = text })
      return_if (not decoded) jwt_header_parse_error_bad_base64
      j ← get
      let (is_json, message) = json_string_to_message j.header_str j.header_pb
      put (record j { header_pb = message })
      return_if (not is_json) jwt_header_parse_error_bad_json
      parse_header_fields

    -- The second section.
    unfoldable pub parse_payload : Bytes → Jwt → Parse (Unit {0})
    parse_payload piece = do
      j ← get
      let (decoded, text) = web_safe_base64_unescape piece
      put (record j { payload_str_base64url = piece; payload_str = text })
      return_if (not decoded) jwt_payload_parse_error_bad_base64
      j ← get
      let (is_json, message) = json_string_to_message j.payload_str j.payload_pb
      put (record j { payload_pb = message })
      return_if (not is_json) jwt_payload_parse_error_bad_json
      parse_names
      parse_times
      parse_id_and_audiences

    -- The third section.
    unfoldable pub parse_signature : Bytes → Jwt → Parse (Unit {0})
    parse_signature piece = do
      j ← get
      let (decoded, text) = web_safe_base64_unescape piece
      put (record j { signature = text })
      return_if (not decoded) jwt_signature_parse_error_bad_base64

    -- The sections, if there are three.
    unfoldable pub parse_pieces : List Bytes → Jwt → Parse (Unit {0})
    parse_pieces (header ∷ payload ∷ signature ∷ []) = do
      parse_header header
      parse_payload payload
      parse_signature signature
    parse_pieces _ = return_if true jwt_bad_format

    -- `Jwt::parseFromString`.
    unfoldable pub parse_from_string : Bytes → Jwt → Jwt × Status
    parse_from_string text j =
        finish (parse_pieces (str_split_skip_empty text b'.') (record j { jwt = text }))

    -- `Jwt::operator=`; the status is dropped.
    unfoldable pub assign : Jwt → Jwt → Jwt
    assign rhs j = (parse_from_string rhs.jwt j).0

    -- `Jwt(const Jwt&)`.
    unfoldable pub copy : Jwt → Jwt
    copy rhs = assign rhs new_jwt

-- `Jwt::verifyTimeConstraint`.
unfoldable pub verify_time_constraint : ⦃pb : Protobuf⦄ → Jwt → ℕ → ℕ → Status
verify_time_constraint j now clock_skew =
    if ltb ((now + clock_skew) % 2 ^ 64) j.nbf
    then jwt_not_yet_valid
    else if not (j.exp == 0) && ltb ((j.exp + clock_skew) % 2 ^ 64) now
    then jwt_expired
    else ok
