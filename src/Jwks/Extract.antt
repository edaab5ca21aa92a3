-- ===== src/Jwks/Extract.antt =====
-- The key of one entry of a key set: `extractJwk…` and `extractX509` of src/jwks.cc. A function
-- returns the key as it leaves it beside its status.
use jwt_verify_lib.Prelude.{
  ℕ, Bool, not, ◌&&◌, ◌||◌, [], Option, none, some, Bytes, bytes, ◌=ᵇ◌, ◌==◌, leb, ltb, ◌^◌, length,
  is_empty, has_prefix_of_length, if◌then◌else◌,
}
use jwt_verify_lib.Status.{
  Status, ok, with_status, jwks_missing_kty, jwks_bad_kty, jwks_not_implemented_kty,
  jwks_rsa_key_bad_alg, jwks_rsa_key_missing_n, jwks_rsa_key_bad_n, jwks_rsa_key_missing_e,
  jwks_rsa_key_bad_e, jwks_ec_key_bad_alg, jwks_ec_key_bad_crv, jwks_ec_key_alg_or_crv_unsupported,
  jwks_ec_key_alg_not_compatible_with_crv, jwks_ec_key_missing_x, jwks_ec_key_bad_x,
  jwks_ec_key_missing_y, jwks_ec_key_bad_y, jwks_hmac_key_bad_alg, jwks_hmac_key_missing_k,
  jwks_hmac_key_bad_k, jwks_oct_bad_base64, jwks_okp_key_bad_alg, jwks_okp_key_missing_crv,
  jwks_okp_key_bad_crv, jwks_okp_key_crv_unsupported, jwks_okp_key_missing_x, jwks_okp_key_bad_x,
  jwks_x509_bio_write_error, jwks_x509_parse_error, jwks_x509_get_pubkey_error,
}
use jwt_verify_lib.External.Protobuf.{Protobuf}
use jwt_verify_lib.External.Absl.{Absl}
use jwt_verify_lib.External.Ssl.{Ssl}
use jwt_verify_lib.StructUtils.{is_missing, is_wrong_type, get_string}
use jwt_verify_lib.Jwks.Key.{Pubkey}
use jwt_verify_lib.Jwks.Getter.{
  create_ec_key_from_jwk_ec, create_rsa_from_jwk, create_raw_key_from_jwk_okp,
}

-- `alg_` and `crv_` name the same curve.
unfoldable pub is_compatible : Bytes → Bytes → Bool
is_compatible alg crv =
    alg =ᵇ bytes "ES256" && crv =ᵇ bytes "P-256"
    || (alg =ᵇ bytes "ES384" && crv =ᵇ bytes "P-384"
        || alg =ᵇ bytes "ES512" && crv =ᵇ bytes "P-521")

module _ ⦃pb : Protobuf⦄ ⦃ab : Absl⦄ ⦃ssl : Ssl⦄ where
  open pb use {Struct}
  open ab use {web_safe_base64_unescape}
  open ssl use {
    nid_x9_62_prime256v1, nid_secp384r1, nid_secp521r1, ed25519_public_key_len, bio_new_mem,
    bio_write, pem_read_bio_x509, x509_get_pubkey, evp_pkey_get1_rsa,
  }

  -- A string that must be there, for the rest of an extraction.
  unfoldable pub require_string :
      Struct → Bytes → Status → Status → Pubkey → (Bytes → Pubkey × Status) → Pubkey × Status
  require_string jwk_pb name missing wrong jwk rest =
      let (code, value) = get_string jwk_pb name [] in
      if is_missing code
      then (jwk, missing)
      else if is_wrong_type code
      then (jwk, wrong)
      else rest value

  -- `extractJwkFromJwkRSA`.
  unfoldable pub extract_jwk_from_jwk_rsa : Struct → Pubkey → Pubkey × Status
  extract_jwk_from_jwk_rsa jwk_pb jwk =
      if not (is_empty jwk.alg)
        && (ltb (length jwk.alg) 2
            || not (has_prefix_of_length 2 (bytes "RS") jwk.alg)
              && not (has_prefix_of_length 2 (bytes "PS") jwk.alg))
      then (jwk, jwks_rsa_key_bad_alg)
      else require_string jwk_pb (bytes "n") jwks_rsa_key_missing_n jwks_rsa_key_bad_n jwk λ n_str.
        require_string jwk_pb (bytes "e") jwks_rsa_key_missing_e jwks_rsa_key_bad_e jwk λ e_str.
          let (rsa, getter) = create_rsa_from_jwk n_str e_str with_status in
          (record jwk { rsa = rsa }, getter.status)

  -- The curve by `alg_` or `crv_`: its number and its name.
  unfoldable pub curve_of : Bytes → Bytes → Option (ℕ × Bytes)
  curve_of alg crv =
      if alg =ᵇ bytes "ES256" || crv =ᵇ bytes "P-256"
      then some (nid_x9_62_prime256v1, bytes "P-256")
      else if alg =ᵇ bytes "ES384" || crv =ᵇ bytes "P-384"
      then some (nid_secp384r1, bytes "P-384")
      else if alg =ᵇ bytes "ES512" || crv =ᵇ bytes "P-521"
      then some (nid_secp521r1, bytes "P-521")
      else none

  -- The end of `extractJwkFromJwkEC`, on the curve.
  unfoldable pub extract_point : Struct → ℕ → Pubkey → Pubkey × Status
  extract_point jwk_pb nid jwk =
      require_string jwk_pb (bytes "x") jwks_ec_key_missing_x jwks_ec_key_bad_x jwk λ x_str.
        require_string jwk_pb (bytes "y") jwks_ec_key_missing_y jwks_ec_key_bad_y jwk λ y_str.
          let (ec_key, getter) = create_ec_key_from_jwk_ec nid x_str y_str with_status in
          (record jwk { ec_key = ec_key }, getter.status)

  -- `extractJwkFromJwkEC` behind the read of "crv", which is stored already.
  unfoldable pub extract_curve : Struct → Pubkey → Pubkey × Status
  extract_curve jwk_pb jwk =
      if not (is_empty jwk.alg) && not (is_empty jwk.crv) && not (is_compatible jwk.alg jwk.crv)
      then (jwk, jwks_ec_key_alg_not_compatible_with_crv)
      else let crv = if is_empty jwk.alg && is_empty jwk.crv then bytes "P-256" else jwk.crv in
        elim (curve_of jwk.alg crv) [
          | none ↦ (record jwk { crv = crv }, jwks_ec_key_alg_or_crv_unsupported)
          | some (nid, name) ↦ extract_point jwk_pb nid (record jwk { crv = name })
        ]

  -- `extractJwkFromJwkEC`.
  unfoldable pub extract_jwk_from_jwk_ec : Struct → Pubkey → Pubkey × Status
  extract_jwk_from_jwk_ec jwk_pb jwk =
      if not (is_empty jwk.alg)
        && (ltb (length jwk.alg) 2 || not (has_prefix_of_length 2 (bytes "ES") jwk.alg))
      then (jwk, jwks_ec_key_bad_alg)
      else let (code, crv_str) = get_string jwk_pb (bytes "crv") [] in
        if is_wrong_type code
        then (jwk, jwks_ec_key_bad_crv)
        else extract_curve jwk_pb (record jwk { crv = if is_missing code then [] else crv_str })

  -- `extractJwkFromJwkOct`.
  unfoldable pub extract_jwk_from_jwk_oct : Struct → Pubkey → Pubkey × Status
  extract_jwk_from_jwk_oct jwk_pb jwk =
      if not (is_empty jwk.alg)
        && not (jwk.alg =ᵇ bytes "HS256")
        && not (jwk.alg =ᵇ bytes "HS384")
        && not (jwk.alg =ᵇ bytes "HS512")
      then (jwk, jwks_hmac_key_bad_alg)
      else require_string jwk_pb (bytes "k") jwks_hmac_key_missing_k jwks_hmac_key_bad_k jwk
          λ k_str.
            let (decoded, key) = web_safe_base64_unescape k_str in
            if not decoded || is_empty key
            then (jwk, jwks_oct_bad_base64)
            else (record jwk { hmac_key = key }, ok)

  -- `extractJwkFromJwkOKP`.
  unfoldable pub extract_jwk_from_jwk_okp : Struct → Pubkey → Pubkey × Status
  extract_jwk_from_jwk_okp jwk_pb jwk =
      if not (is_empty jwk.alg) && not (jwk.alg =ᵇ bytes "EdDSA")
      then (jwk, jwks_okp_key_bad_alg)
      else require_string jwk_pb (bytes "crv") jwks_okp_key_missing_crv jwks_okp_key_bad_crv jwk
          λ crv_str.
            let jwk' = record jwk { crv = crv_str } in
            if not (crv_str =ᵇ bytes "Ed25519")
            then (jwk', jwks_okp_key_crv_unsupported)
            else require_string jwk_pb (bytes "x") jwks_okp_key_missing_x jwks_okp_key_bad_x jwk'
                λ x_str.
                  let (raw, getter) =
                    create_raw_key_from_jwk_okp ed25519_public_key_len x_str with_status in
                  (record jwk' { okp_key_raw = raw }, getter.status)

  -- The choice by "kty" in `extractJwk`.
  unfoldable pub extract_by_kty : Struct → Pubkey → Pubkey × Status
  extract_by_kty jwk_pb jwk =
      if jwk.kty =ᵇ bytes "EC"
      then extract_jwk_from_jwk_ec jwk_pb jwk
      else if jwk.kty =ᵇ bytes "RSA"
      then extract_jwk_from_jwk_rsa jwk_pb jwk
      else if jwk.kty =ᵇ bytes "oct"
      then extract_jwk_from_jwk_oct jwk_pb jwk
      else if jwk.kty =ᵇ bytes "OKP"
      then extract_jwk_from_jwk_okp jwk_pb jwk
      else (jwk, jwks_not_implemented_kty)

  -- `extractJwk`. The results of the reads of "kid" and "alg" are not tested.
  unfoldable pub extract_jwk : Struct → Pubkey → Pubkey × Status
  extract_jwk jwk_pb jwk =
      let (code, kty) = get_string jwk_pb (bytes "kty") jwk.kty in
      if is_missing code
      then (jwk, jwks_missing_kty)
      else if is_wrong_type code
      then (jwk, jwks_bad_kty)
      else extract_by_kty jwk_pb (record jwk {
        kty = kty;
        kid = (get_string jwk_pb (bytes "kid") jwk.kid).1;
        alg = (get_string jwk_pb (bytes "alg") jwk.alg).1;
      })

  -- `extractX509`.
  unfoldable pub extract_x509 : Bytes → Pubkey → Pubkey × Status
  extract_x509 key jwk =
      let (written, bio) = bio_write bio_new_mem key in
      let (x509, bio') = pem_read_bio_x509 bio in
      if written == 0 || leb (2 ^ 31) written
      then (record jwk { bio = some bio }, jwks_x509_bio_write_error)
      else let jwk' = record jwk { bio = some bio'; x509 = x509 } in
        elim x509 [
          | none ↦ (jwk', jwks_x509_parse_error)
          | some cert ↦ elim (x509_get_pubkey cert) [
            | none ↦ (jwk', jwks_x509_get_pubkey_error)
            | some tmp_pkey ↦ elim (evp_pkey_get1_rsa tmp_pkey) [
              | none ↦ (record jwk' { rsa = none }, jwks_x509_get_pubkey_error)
              | some rsa ↦ (record jwk' { rsa = some rsa }, ok)
            ]
          ]
        ]
