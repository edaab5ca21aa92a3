-- ===== src/Jwks/Tests.antt =====
-- The theorems about key sets at concrete texts.
use jwt_verify_lib.Prelude.{◌≡◌, ◌≢◌, ◌⊎◌, [], ◌∷◌, ◌++◌, refl, inl, Bytes, bytes, arith, ◌=ᵇ◌}
use jwt_verify_lib.Status.{ok}
use jwt_verify_lib.Sample.{
  sample_protobuf, sample_absl, sample_ssl, key_set, sample_get_key, key_set_items, array, values,
}
use jwt_verify_lib.Jwks.{create_from, jwks}
use jwt_verify_lib.Jwks.{
  Jwks, Pubkey, new_pubkey, new_jwks, pem, create_from_pem_core, add_key_from_pem,
}
use jwt_verify_lib.StructUtils.{get_string}
use jwt_verify_lib.Sample.{Fields, field, text, no_fields}
use jwt_verify_lib.Jwks.{
  extract_jwk_from_jwk_ec, extract_curve, is_compatible, curve_of, extract_point, require_string,
  create_ec_key_from_jwk_ec, create_big_num_from_base64_url_string,
}
use jwt_verify_lib.Jwks.Curve.{HasCurve, given_curve, extract_jwk_from_jwk_ec-HasCurve}
use jwt_verify_lib.Jwks.Usable.{IsLabel, IsUsable, oct_key}
use jwt_verify_lib.Jwks.Pem.{IsIn, named, add_key_from_pem-cases}
use jwt_verify_lib.Jwks.Invariant.{AreUsable, create_from-AreUsable, add_key_from_pem-AreUsable}
use jwt_verify_lib.Jwks.Loop.{extracted, set_status, create_from-keys}

keys_example : create_from (bytes "keys") jwks ≡ record {
  keys = extracted (values key_set_items);
  base = record { status = set_status (values key_set_items) };
}
unfolding ◌=ᵇ◌
keys_example =
    create_from-keys (bytes "keys") key_set (array key_set_items) (values key_set_items) refl refl
      refl

pem_AreUsable_example : AreUsable (create_from (bytes "rsa") pem)
pem_AreUsable_example = create_from-AreUsable sample_get_key (bytes "rsa") pem

abbrev old_keys : Jwks
old_keys = record new_jwks {
  keys = record new_pubkey { kty = bytes "oct"; hmac_key = bytes "sig" } ∷ [];
}

-- The text has an Ed25519 key, and its algorithm leaves the curve name.
add_AreUsable_example :
    AreUsable (add_key_from_pem (bytes "ed") (bytes "k2") (bytes "EdDSA") old_keys).0
add_AreUsable_example =
    add_key_from_pem-AreUsable sample_get_key (bytes "ed") (bytes "k2") (bytes "EdDSA") old_keys
      (inl (ground arith)) (oct_key refl refl, tt)

add_example :
    ((k : Pubkey) × (crv : Bytes) × ((create_from_pem_core (bytes "ed") new_jwks).keys ≡ k ∷ [])
      × IsIn (bytes "ed") k
      × IsUsable k
      × IsLabel (bytes "ES384") k.crv crv
      × (add_key_from_pem (bytes "ed") (bytes "k2") (bytes "ES384") old_keys ≡ (
        record old_keys { keys = old_keys.keys ++ named (bytes "k2") (bytes "ES384") crv k ∷ [] },
        ok,
      )))
    ⊎ (((create_from_pem_core (bytes "ed") new_jwks).keys ≡ [])
        × ((create_from_pem_core (bytes "ed") new_jwks).base.status ≢ ok)
        × (add_key_from_pem (bytes "ed") (bytes "k2") (bytes "ES384") old_keys
            ≡ (old_keys, (create_from_pem_core (bytes "ed") new_jwks).base.status)))
add_example =
    add_key_from_pem-cases sample_get_key (bytes "ed") (bytes "k2") (bytes "ES384") old_keys

-- An entry with an algorithm and without a curve.
abbrev ec_entry : Fields
ec_entry = field (bytes "x") (text (bytes "1")) (field (bytes "y") (text (bytes "2")) no_fields)

abbrev es384_key : Pubkey
es384_key = record new_pubkey { kty = bytes "EC"; alg = bytes "ES384" }

ec_extracts : (extract_jwk_from_jwk_ec ec_entry es384_key).1 ≡ ok
unfolding extract_jwk_from_jwk_ec extract_curve is_compatible curve_of extract_point require_string
    get_string create_ec_key_from_jwk_ec create_big_num_from_base64_url_string ◌=ᵇ◌
ec_extracts = refl

ec_HasCurve_example :
    HasCurve ec_entry
      (bytes "ES384")
      (given_curve ec_entry)
      (extract_jwk_from_jwk_ec ec_entry es384_key).0
ec_HasCurve_example = extract_jwk_from_jwk_ec-HasCurve ec_entry es384_key ec_extracts
