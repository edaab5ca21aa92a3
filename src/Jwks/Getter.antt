-- ===== src/Jwks/Getter.antt =====
-- `class KeyGetter` of src/jwks.cc: key objects from text. A method returns its result beside the
-- status object of the getter.
use jwt_verify_lib.Prelude.{ℕ, not, ◌&&◌, Option, none, some, Bytes, ◌==◌, length, if◌then◌else◌}
use jwt_verify_lib.Status.{
  WithStatus, update_status, jwks_bio_alloc_error, jwks_pem_bad_base64, jwks_ec_create_key_fail,
  jwks_ec_x_or_y_bad_base64, jwks_ec_parse_error, jwks_rsa_parse_error, jwks_okp_x_bad_base64,
  jwks_okp_x_wrong_length,
}
use jwt_verify_lib.External.Absl.{Absl}
use jwt_verify_lib.External.Ssl.{Ssl}

module _ ⦃ssl : Ssl⦄ where
  open ssl use {EvpPkey, bio_new_mem_buf, pem_read_bio_pubkey}

  -- `createEvpPkeyFromPem`.
  unfoldable pub create_evp_pkey_from_pem : Bytes → WithStatus → Option EvpPkey × WithStatus
  create_evp_pkey_from_pem pkey_pem getter = elim (bio_new_mem_buf pkey_pem) [
    | none ↦ (none, update_status jwks_bio_alloc_error getter)
    | some buf ↦ elim (pem_read_bio_pubkey buf) [
      | none ↦ (none, update_status jwks_pem_bad_base64 getter)
      | some key ↦ (some key, getter)
    ]
  ]

  module _ ⦃ab : Absl⦄ where
    open ab use {web_safe_base64_unescape}
    open ssl use {
      Rsa, EcKey, BigNum, bn_bin2bn, bn_cmp_word, rsa_of, ec_key_new_by_curve_name,
      ec_key_set_public_key_affine_coordinates,
    }

    -- `createBigNumFromBase64UrlString`.
    unfoldable pub create_big_num_from_base64_url_string : Bytes → Option BigNum
    create_big_num_from_base64_url_string s =
        let (decoded, text) = web_safe_base64_unescape s in
        if not decoded then none else bn_bin2bn text

    -- `createEcKeyFromJwkEC`.
    unfoldable pub create_ec_key_from_jwk_ec :
        ℕ → Bytes → Bytes → WithStatus → Option EcKey × WithStatus
    create_ec_key_from_jwk_ec nid x y getter = elim (ec_key_new_by_curve_name nid) [
      | none ↦ (none, update_status jwks_ec_create_key_fail getter)
      | some ec_key ↦ elim (create_big_num_from_base64_url_string x) [
        | none ↦ (none, update_status jwks_ec_x_or_y_bad_base64 getter)
        | some bn_x ↦ elim (create_big_num_from_base64_url_string y) [
          | none ↦ (none, update_status jwks_ec_x_or_y_bad_base64 getter)
          | some bn_y ↦
              let (set, ec_key') = ec_key_set_public_key_affine_coordinates ec_key bn_x bn_y in
              if set == 0
              then (none, update_status jwks_ec_parse_error getter)
              else (some ec_key', getter)
        ]
      ]
    ]

    -- `createRsaFromJwk`.
    unfoldable pub create_rsa_from_jwk : Bytes → Bytes → WithStatus → Option Rsa × WithStatus
    create_rsa_from_jwk n e getter = elim (create_big_num_from_base64_url_string n) [
      | none ↦ (none, update_status jwks_rsa_parse_error getter)
      | some bn_n ↦ elim (create_big_num_from_base64_url_string e) [
        | none ↦ (none, update_status jwks_rsa_parse_error getter)
        | some bn_e ↦
            if not (bn_cmp_word bn_e 3 == 0) && not (bn_cmp_word bn_e 65537 == 0)
            then (none, update_status jwks_rsa_parse_error getter)
            else (some (rsa_of bn_n bn_e), getter)
      ]
    ]

    -- `createRawKeyFromJwkOKP`, which uses its `nid` nowhere.
    unfoldable pub create_raw_key_from_jwk_okp : ℕ → Bytes → WithStatus → Bytes × WithStatus
    create_raw_key_from_jwk_okp keylen x getter =
        let (decoded, x_decoded) = web_safe_base64_unescape x in
        (
          x_decoded,
          if not decoded
              then update_status jwks_okp_x_bad_base64 getter
              else if not (length x_decoded == keylen)
              then update_status jwks_okp_x_wrong_length getter
              else getter,
        )
