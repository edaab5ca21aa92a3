-- ===== src/Status.antt =====
-- The status codes of the library and the base class that records the first failure:
-- jwt_verify_lib/status.h and src/status.cc.
pub mod Laws
mod Tests
use Prim.Native.String.{String}
use jwt_verify_lib.Prelude.{if◌then◌else◌}
use mathlib.Core.Bool.{Bool, true, false}

-- `enum class Status`.
pub data Status : Type 0 where
  ok : Status
  jwt_missed : Status
  jwt_not_yet_valid : Status
  jwt_expired : Status
  jwt_bad_format : Status
  jwt_header_parse_error_bad_base64 : Status
  jwt_header_parse_error_bad_json : Status
  jwt_header_bad_alg : Status
  jwt_header_not_implemented_alg : Status
  jwt_header_bad_kid : Status
  jwt_payload_parse_error_bad_base64 : Status
  jwt_payload_parse_error_bad_json : Status
  jwt_payload_parse_error_iss_not_string : Status
  jwt_payload_parse_error_sub_not_string : Status
  jwt_payload_parse_error_iat_not_integer : Status
  jwt_payload_parse_error_iat_not_positive : Status
  jwt_payload_parse_error_nbf_not_integer : Status
  jwt_payload_parse_error_nbf_not_positive : Status
  jwt_payload_parse_error_exp_not_integer : Status
  jwt_payload_parse_error_exp_not_positive : Status
  jwt_payload_parse_error_jti_not_string : Status
  jwt_payload_parse_error_aud_not_string : Status
  jwt_signature_parse_error_bad_base64 : Status
  jwt_ed25519_signature_wrong_length : Status
  jwt_unknown_issuer : Status
  jwt_audience_not_allowed : Status
  jwt_verification_fail : Status
  jwt_multiple_tokens : Status
  jwks_parse_error : Status
  jwks_no_keys : Status
  jwks_bad_keys : Status
  jwks_no_valid_keys : Status
  jwks_kid_alg_mismatch : Status
  jwks_rsa_parse_error : Status
  jwks_ec_create_key_fail : Status
  jwks_ec_x_or_y_bad_base64 : Status
  jwks_ec_parse_error : Status
  jwks_oct_bad_base64 : Status
  jwks_okp_x_bad_base64 : Status
  jwks_okp_x_wrong_length : Status
  jwks_fetch_fail : Status
  jwks_missing_kty : Status
  jwks_bad_kty : Status
  jwks_not_implemented_kty : Status
  jwks_rsa_key_bad_alg : Status
  jwks_rsa_key_missing_n : Status
  jwks_rsa_key_bad_n : Status
  jwks_rsa_key_missing_e : Status
  jwks_rsa_key_bad_e : Status
  jwks_ec_key_bad_alg : Status
  jwks_ec_key_bad_crv : Status
  jwks_ec_key_alg_or_crv_unsupported : Status
  jwks_ec_key_alg_not_compatible_with_crv : Status
  jwks_ec_key_missing_x : Status
  jwks_ec_key_bad_x : Status
  jwks_ec_key_missing_y : Status
  jwks_ec_key_bad_y : Status
  jwks_hmac_key_bad_alg : Status
  jwks_hmac_key_missing_k : Status
  jwks_hmac_key_bad_k : Status
  jwks_okp_key_bad_alg : Status
  jwks_okp_key_missing_crv : Status
  jwks_okp_key_bad_crv : Status
  jwks_okp_key_crv_unsupported : Status
  jwks_okp_key_missing_x : Status
  jwks_okp_key_bad_x : Status
  jwks_x509_bio_write_error : Status
  jwks_x509_parse_error : Status
  jwks_x509_get_pubkey_error : Status
  jwks_pem_not_implemented_kty : Status
  jwks_pem_bad_base64 : Status
  jwks_pem_get_raw_ed25519_error : Status
  jwks_bio_alloc_error : Status

-- `status == Status::Ok`.
unfoldable pub is_ok : Status → Bool
is_ok ok = true
is_ok _ = false

-- `getStatusString`.
pub get_status_string : Status → String
get_status_string ok = "OK"
get_status_string jwt_missed = "Jwt is missing"
get_status_string jwt_not_yet_valid = "Jwt not yet valid"
get_status_string jwt_expired = "Jwt is expired"
get_status_string jwt_bad_format =
    "Jwt is not in the form of Header.Payload.Signature with two dots and 3 sections"
get_status_string jwt_header_parse_error_bad_base64 = "Jwt header is an invalid Base64url encoded"
get_status_string jwt_header_parse_error_bad_json = "Jwt header is an invalid JSON"
get_status_string jwt_header_bad_alg = "Jwt header [alg] field is required and must be a string"
get_status_string jwt_header_not_implemented_alg = "Jwt header [alg] is not supported"
get_status_string jwt_header_bad_kid = "Jwt header [kid] field is not a string"
get_status_string jwt_payload_parse_error_bad_base64 = "Jwt payload is an invalid Base64url encoded"
get_status_string jwt_payload_parse_error_bad_json = "Jwt payload is an invalid JSON"
get_status_string jwt_payload_parse_error_iss_not_string = "Jwt payload [iss] field is not a string"
get_status_string jwt_payload_parse_error_sub_not_string = "Jwt payload [sub] field is not a string"
get_status_string jwt_payload_parse_error_iat_not_integer =
    "Jwt payload [iat] field is not an integer"
get_status_string jwt_payload_parse_error_iat_not_positive =
    "Jwt payload [iat] field is not a positive integer"
get_status_string jwt_payload_parse_error_nbf_not_integer =
    "Jwt payload [nbf] field is not an integer"
get_status_string jwt_payload_parse_error_nbf_not_positive =
    "Jwt payload [nbf] field is not a positive integer"
get_status_string jwt_payload_parse_error_exp_not_integer =
    "Jwt payload [exp] field is not an integer"
get_status_string jwt_payload_parse_error_exp_not_positive =
    "Jwt payload [exp] field is not a positive integer"
get_status_string jwt_payload_parse_error_jti_not_string = "Jwt payload [jti] field is not a string"
get_status_string jwt_payload_parse_error_aud_not_string =
    "Jwt payload [aud] field is not a string or string list"
get_status_string jwt_signature_parse_error_bad_base64 =
    "Jwt signature is an invalid Base64url encoded"
get_status_string jwt_ed25519_signature_wrong_length = "Jwt ED25519 signature is wrong length"
get_status_string jwt_unknown_issuer = "Jwt issuer is not configured"
get_status_string jwt_audience_not_allowed = "Audiences in Jwt are not allowed"
get_status_string jwt_verification_fail = "Jwt verification fails"
get_status_string jwt_multiple_tokens = "Found multiple Jwt tokens"
get_status_string jwks_parse_error = "Jwks is an invalid JSON"
get_status_string jwks_no_keys = "Jwks does not have [keys] field"
get_status_string jwks_bad_keys = "[keys] in Jwks is not an array"
get_status_string jwks_no_valid_keys = "Jwks doesn't have any valid public key"
get_status_string jwks_kid_alg_mismatch = "Jwks doesn't have key to match kid or alg from Jwt"
get_status_string jwks_rsa_parse_error = "Jwks RSA [n] or [e] field is missing or has a parse error"
get_status_string jwks_ec_create_key_fail = "Jwks EC create key fail"
get_status_string jwks_ec_x_or_y_bad_base64 = "Jwks EC [x] or [y] field is an invalid Base64."
get_status_string jwks_ec_parse_error = "Jwks EC [x] and [y] fields have a parse error."
get_status_string jwks_oct_bad_base64 = "Jwks Oct key is an invalid Base64"
get_status_string jwks_okp_x_bad_base64 = "Jwks OKP [x] field is an invalid Base64."
get_status_string jwks_okp_x_wrong_length = "Jwks OKP [x] field is wrong length."
get_status_string jwks_fetch_fail = "Jwks remote fetch is failed"
get_status_string jwks_missing_kty = "[kty] is missing in [keys]"
get_status_string jwks_bad_kty = "[kty] is bad in [keys]"
get_status_string jwks_not_implemented_kty = "[kty] is not supported in [keys]"
get_status_string jwks_rsa_key_bad_alg = "[alg] is not started with [RS] or [PS] for an RSA key"
get_status_string jwks_rsa_key_missing_n = "[n] field is missing for a RSA key"
get_status_string jwks_rsa_key_bad_n = "[n] field is not string for a RSA key"
get_status_string jwks_rsa_key_missing_e = "[e] field is missing for a RSA key"
get_status_string jwks_rsa_key_bad_e = "[e] field is not string for a RSA key"
get_status_string jwks_ec_key_bad_alg = "[alg] is not started with [ES] for an EC key"
get_status_string jwks_ec_key_bad_crv = "[crv] field is not string for an EC key"
get_status_string jwks_ec_key_alg_or_crv_unsupported =
    "[crv] or [alg] field is not supported for an EC key"
get_status_string jwks_ec_key_alg_not_compatible_with_crv =
    "[crv] field specified is not compatible with [alg] for an EC key"
get_status_string jwks_ec_key_missing_x = "[x] field is missing for an EC key"
get_status_string jwks_ec_key_bad_x = "[x] field is not string for an EC key"
get_status_string jwks_ec_key_missing_y = "[y] field is missing for an EC key"
get_status_string jwks_ec_key_bad_y = "[y] field is not string for an EC key"
get_status_string jwks_hmac_key_bad_alg = "[alg] does not start with [HS] for an HMAC key"
get_status_string jwks_hmac_key_missing_k = "[k] field is missing for an HMAC key"
get_status_string jwks_hmac_key_bad_k = "[k] field is not string for an HMAC key"
get_status_string jwks_okp_key_bad_alg = "[alg] is not [EdDSA] for an OKP key"
get_status_string jwks_okp_key_missing_crv = "[crv] field is missing for an OKP key"
get_status_string jwks_okp_key_bad_crv = "[crv] field is not string for an OKP key"
get_status_string jwks_okp_key_crv_unsupported = "[crv] field is not supported for an OKP key"
get_status_string jwks_okp_key_missing_x = "[x] field is missing for an OKP key"
get_status_string jwks_okp_key_bad_x = "[x] field is not string for an OKP key"
get_status_string jwks_x509_bio_write_error = "X509 parse pubkey internal fails: memory allocation"
get_status_string jwks_x509_parse_error = "X509 parse pubkey fails"
get_status_string jwks_x509_get_pubkey_error = "X509 parse pubkey internal fails: get pubkey"
get_status_string jwks_pem_not_implemented_kty = "PEM Key type is not supported"
get_status_string jwks_pem_bad_base64 = "PEM pubkey parse fails"
get_status_string jwks_pem_get_raw_ed25519_error = "PEM failed to get raw ED25519 key"
get_status_string jwks_bio_alloc_error = "Failed to create BIO due to memory allocation failure"

-- `WithStatus`: the field `status_`.
pub record WithStatus : Type 0 where
  pub status : Status

-- The constructor.
abbrev pub with_status : WithStatus
with_status = record { status = ok }

-- `updateStatus`: only the first failure is kept.
unfoldable pub update_status : Status → WithStatus → WithStatus
unfolding is_ok
update_status s w = if is_ok w.status then record w { status = s } else w

-- `resetStatus`.
unfoldable pub reset_status : Status → WithStatus → WithStatus
reset_status s w = record w { status = s }
