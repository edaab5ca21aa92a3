-- ===== src/Status/Laws.antt =====
-- What the status strings and the first-failure record guarantee.
use Prim.Native.String.{String}
use text.Mathlib.Text.{◌==◌}
use jwt_verify_lib.Prelude.{
  ◌≡◌, refl, sym, ◌∙◌, ap, ◌↔◌, ◌⊎◌, ◌≢◌, inl, inr, true, false, Option, none, some, List, [], ◌∷◌,
  arith, Bool-cases, false, if◌then◌else◌,
}
use mathlib.Core.Bool.{false≢true}
use mathlib.Core.Option.{some-injective}
use jwt_verify_lib.Status.{Status, is_ok, get_status_string, WithStatus, update_status}
use jwt_verify_lib.Status.{
  ok, jwt_missed, jwt_not_yet_valid, jwt_expired, jwt_bad_format, jwt_header_parse_error_bad_base64,
  jwt_header_parse_error_bad_json, jwt_header_bad_alg, jwt_header_not_implemented_alg,
  jwt_header_bad_kid, jwt_payload_parse_error_bad_base64, jwt_payload_parse_error_bad_json,
  jwt_payload_parse_error_iss_not_string, jwt_payload_parse_error_sub_not_string,
  jwt_payload_parse_error_iat_not_integer, jwt_payload_parse_error_iat_not_positive,
  jwt_payload_parse_error_nbf_not_integer, jwt_payload_parse_error_nbf_not_positive,
  jwt_payload_parse_error_exp_not_integer, jwt_payload_parse_error_exp_not_positive,
  jwt_payload_parse_error_jti_not_string, jwt_payload_parse_error_aud_not_string,
  jwt_signature_parse_error_bad_base64, jwt_ed25519_signature_wrong_length, jwt_unknown_issuer,
  jwt_audience_not_allowed, jwt_verification_fail, jwt_multiple_tokens, jwks_parse_error,
  jwks_no_keys, jwks_bad_keys, jwks_no_valid_keys, jwks_kid_alg_mismatch, jwks_rsa_parse_error,
  jwks_ec_create_key_fail, jwks_ec_x_or_y_bad_base64, jwks_ec_parse_error, jwks_oct_bad_base64,
  jwks_okp_x_bad_base64, jwks_okp_x_wrong_length, jwks_fetch_fail, jwks_missing_kty, jwks_bad_kty,
  jwks_not_implemented_kty, jwks_rsa_key_bad_alg, jwks_rsa_key_missing_n, jwks_rsa_key_bad_n,
  jwks_rsa_key_missing_e, jwks_rsa_key_bad_e, jwks_ec_key_bad_alg, jwks_ec_key_bad_crv,
  jwks_ec_key_alg_or_crv_unsupported, jwks_ec_key_alg_not_compatible_with_crv,
  jwks_ec_key_missing_x, jwks_ec_key_bad_x, jwks_ec_key_missing_y, jwks_ec_key_bad_y,
  jwks_hmac_key_bad_alg, jwks_hmac_key_missing_k, jwks_hmac_key_bad_k, jwks_okp_key_bad_alg,
  jwks_okp_key_missing_crv, jwks_okp_key_bad_crv, jwks_okp_key_crv_unsupported,
  jwks_okp_key_missing_x, jwks_okp_key_bad_x, jwks_x509_bio_write_error, jwks_x509_parse_error,
  jwks_x509_get_pubkey_error, jwks_pem_not_implemented_kty, jwks_pem_bad_base64,
  jwks_pem_get_raw_ed25519_error, jwks_bio_alloc_error,
}

ok_of_is_ok : (s : Status) → is_ok s ≡ true → s ≡ ok
unfolding is_ok
ok_of_is_ok ok h = refl
ok_of_is_ok _ h = absurd (false≢true h)

pub is_ok_iff : (s : Status) → (is_ok s ≡ true) ↔ (s ≡ ok)
unfolding is_ok
is_ok_iff s = (ok_of_is_ok s, λ e. ap is_ok e)

pub ok-cases : (s : Status) → (s ≡ ok) ⊎ ((is_ok s ≡ false) × (s ≢ ok))
ok-cases s = elim (Bool-cases (is_ok s)) [
  | inl h ↦ inl (ok_of_is_ok s h)
  | inr h ↦ inr (h, λ e. false≢true (sym h ∙ (is_ok_iff s).1 e))
]

abbrev all_statuses : List Status
all_statuses =
    ok ∷ jwt_missed ∷ jwt_not_yet_valid ∷ jwt_expired ∷ jwt_bad_format
    ∷ jwt_header_parse_error_bad_base64 ∷ jwt_header_parse_error_bad_json ∷ jwt_header_bad_alg
    ∷ jwt_header_not_implemented_alg ∷ jwt_header_bad_kid ∷ jwt_payload_parse_error_bad_base64
    ∷ jwt_payload_parse_error_bad_json ∷ jwt_payload_parse_error_iss_not_string
    ∷ jwt_payload_parse_error_sub_not_string ∷ jwt_payload_parse_error_iat_not_integer
    ∷ jwt_payload_parse_error_iat_not_positive ∷ jwt_payload_parse_error_nbf_not_integer
    ∷ jwt_payload_parse_error_nbf_not_positive ∷ jwt_payload_parse_error_exp_not_integer
    ∷ jwt_payload_parse_error_exp_not_positive ∷ jwt_payload_parse_error_jti_not_string
    ∷ jwt_payload_parse_error_aud_not_string ∷ jwt_signature_parse_error_bad_base64
    ∷ jwt_ed25519_signature_wrong_length ∷ jwt_unknown_issuer ∷ jwt_audience_not_allowed
    ∷ jwt_verification_fail ∷ jwt_multiple_tokens ∷ jwks_parse_error ∷ jwks_no_keys ∷ jwks_bad_keys
    ∷ jwks_no_valid_keys ∷ jwks_kid_alg_mismatch ∷ jwks_rsa_parse_error ∷ jwks_ec_create_key_fail
    ∷ jwks_ec_x_or_y_bad_base64 ∷ jwks_ec_parse_error ∷ jwks_oct_bad_base64 ∷ jwks_okp_x_bad_base64
    ∷ jwks_okp_x_wrong_length ∷ jwks_fetch_fail ∷ jwks_missing_kty ∷ jwks_bad_kty
    ∷ jwks_not_implemented_kty ∷ jwks_rsa_key_bad_alg ∷ jwks_rsa_key_missing_n ∷ jwks_rsa_key_bad_n
    ∷ jwks_rsa_key_missing_e ∷ jwks_rsa_key_bad_e ∷ jwks_ec_key_bad_alg ∷ jwks_ec_key_bad_crv
    ∷ jwks_ec_key_alg_or_crv_unsupported ∷ jwks_ec_key_alg_not_compatible_with_crv
    ∷ jwks_ec_key_missing_x ∷ jwks_ec_key_bad_x ∷ jwks_ec_key_missing_y ∷ jwks_ec_key_bad_y
    ∷ jwks_hmac_key_bad_alg ∷ jwks_hmac_key_missing_k ∷ jwks_hmac_key_bad_k ∷ jwks_okp_key_bad_alg
    ∷ jwks_okp_key_missing_crv ∷ jwks_okp_key_bad_crv ∷ jwks_okp_key_crv_unsupported
    ∷ jwks_okp_key_missing_x ∷ jwks_okp_key_bad_x ∷ jwks_x509_bio_write_error
    ∷ jwks_x509_parse_error ∷ jwks_x509_get_pubkey_error ∷ jwks_pem_not_implemented_kty
    ∷ jwks_pem_bad_base64 ∷ jwks_pem_get_raw_ed25519_error ∷ jwks_bio_alloc_error ∷ []

find_status : String → List Status → Option Status
find_status m [] = none
find_status m (s ∷ l) = elim (get_status_string s == m) [ true ↦ some s | false ↦ find_status m l ]

find_status_self : (s : Status) → find_status (get_status_string s) all_statuses ≡ some s
unfolding find_status get_status_string
find_status_self ok = refl
find_status_self jwt_missed = refl
find_status_self jwt_not_yet_valid = refl
find_status_self jwt_expired = refl
find_status_self jwt_bad_format = refl
find_status_self jwt_header_parse_error_bad_base64 = refl
find_status_self jwt_header_parse_error_bad_json = refl
find_status_self jwt_header_bad_alg = refl
find_status_self jwt_header_not_implemented_alg = refl
find_status_self jwt_header_bad_kid = refl
find_status_self jwt_payload_parse_error_bad_base64 = refl
find_status_self jwt_payload_parse_error_bad_json = refl
find_status_self jwt_payload_parse_error_iss_not_string = refl
find_status_self jwt_payload_parse_error_sub_not_string = refl
find_status_self jwt_payload_parse_error_iat_not_integer = refl
find_status_self jwt_payload_parse_error_iat_not_positive = refl
find_status_self jwt_payload_parse_error_nbf_not_integer = refl
find_status_self jwt_payload_parse_error_nbf_not_positive = refl
find_status_self jwt_payload_parse_error_exp_not_integer = refl
find_status_self jwt_payload_parse_error_exp_not_positive = refl
find_status_self jwt_payload_parse_error_jti_not_string = refl
find_status_self jwt_payload_parse_error_aud_not_string = refl
find_status_self jwt_signature_parse_error_bad_base64 = refl
find_status_self jwt_ed25519_signature_wrong_length = refl
find_status_self jwt_unknown_issuer = refl
find_status_self jwt_audience_not_allowed = refl
find_status_self jwt_verification_fail = refl
find_status_self jwt_multiple_tokens = refl
find_status_self jwks_parse_error = refl
find_status_self jwks_no_keys = refl
find_status_self jwks_bad_keys = refl
find_status_self jwks_no_valid_keys = refl
find_status_self jwks_kid_alg_mismatch = refl
find_status_self jwks_rsa_parse_error = refl
find_status_self jwks_ec_create_key_fail = refl
find_status_self jwks_ec_x_or_y_bad_base64 = refl
find_status_self jwks_ec_parse_error = refl
find_status_self jwks_oct_bad_base64 = refl
find_status_self jwks_okp_x_bad_base64 = refl
find_status_self jwks_okp_x_wrong_length = refl
find_status_self jwks_fetch_fail = refl
find_status_self jwks_missing_kty = refl
find_status_self jwks_bad_kty = refl
find_status_self jwks_not_implemented_kty = refl
find_status_self jwks_rsa_key_bad_alg = refl
find_status_self jwks_rsa_key_missing_n = refl
find_status_self jwks_rsa_key_bad_n = refl
find_status_self jwks_rsa_key_missing_e = refl
find_status_self jwks_rsa_key_bad_e = refl
find_status_self jwks_ec_key_bad_alg = refl
find_status_self jwks_ec_key_bad_crv = refl
find_status_self jwks_ec_key_alg_or_crv_unsupported = refl
find_status_self jwks_ec_key_alg_not_compatible_with_crv = refl
find_status_self jwks_ec_key_missing_x = refl
find_status_self jwks_ec_key_bad_x = refl
find_status_self jwks_ec_key_missing_y = refl
find_status_self jwks_ec_key_bad_y = refl
find_status_self jwks_hmac_key_bad_alg = refl
find_status_self jwks_hmac_key_missing_k = refl
find_status_self jwks_hmac_key_bad_k = refl
find_status_self jwks_okp_key_bad_alg = refl
find_status_self jwks_okp_key_missing_crv = refl
find_status_self jwks_okp_key_bad_crv = refl
find_status_self jwks_okp_key_crv_unsupported = refl
find_status_self jwks_okp_key_missing_x = refl
find_status_self jwks_okp_key_bad_x = refl
find_status_self jwks_x509_bio_write_error = refl
find_status_self jwks_x509_parse_error = refl
find_status_self jwks_x509_get_pubkey_error = refl
find_status_self jwks_pem_not_implemented_kty = refl
find_status_self jwks_pem_bad_base64 = refl
find_status_self jwks_pem_get_raw_ed25519_error = refl
find_status_self jwks_bio_alloc_error = refl

-- Two statuses with the same message are the same status: the text identifies the failure.
pub get_status_string-injective : (s t : Status) → get_status_string s ≡ get_status_string t → s ≡ t
get_status_string-injective s t e =
    some-injective s t
      (sym (find_status_self s) ∙ ap (λ m. find_status m all_statuses) e ∙ find_status_self t)

-- A sequence of updates.
pub update_all : List Status → WithStatus → WithStatus
update_all [] w = w
update_all (s ∷ l) w = update_all l (update_status s w)

-- The first status of a list that is not `ok`, and `ok` where there is none.
pub first_failure : List Status → Status
first_failure [] = ok
first_failure (s ∷ l) = if is_ok s then first_failure l else s

-- After any sequence of updates the status of an object that was `Ok` is the first failure among
-- them, or `Ok` where there is none; a failure that the object had before stays.
pub update_all-first_failure :
    (l : List Status) (w : WithStatus)
    → (update_all l w).status ≡ (if is_ok w.status then first_failure l else w.status)
unfolding update_all first_failure update_status
update_all-first_failure [] w = ground (arith, is_ok_iff w.status)
update_all-first_failure (s ∷ l) w =
    ground (arith, update_all-first_failure l (update_status s w), is_ok_iff w.status)
