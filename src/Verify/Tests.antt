-- ===== src/Verify/Tests.antt =====
-- The theorems about verification at concrete tokens and keys.
use jwt_verify_lib.Prelude.{
  ◌=ᵇ◌, ◌≡◌, ◌≢◌, ◌↔◌, ◌⊎◌, refl, inl, true, none, some, List, [], ◌∷◌, Bytes, bytes, All, Some,
  arith,
}
use jwt_verify_lib.Status.{
  ok, update_status, jwt_ed25519_signature_wrong_length, jwks_kid_alg_mismatch,
}
use jwt_verify_lib.Sample.{
  sample_protobuf, sample_absl, sample_ssl, sample_starts_with, sample_memcmp, sample_get_key,
}
use jwt_verify_lib.CheckAudience.Canonical.{canonical}
use jwt_verify_lib.Jwt.{Jwt, new_jwt, clock_skew_in_second}
use jwt_verify_lib.Jwks.{
  Pubkey, new_pubkey, Jwks, new_jwks, create_evp_pkey_from_pem, push_pem_key, create_from_pem_core,
  add_key_from_pem,
}
use jwt_verify_lib.Verify.{
  verify_keys, is_key_for, check_signature, check_oct, ok_if, digest_for,
  verify_jwt_without_time_checking, verify_jwt_with_audiences, verify_signature_oct,
}
use jwt_verify_lib.Verify.Hmac.{verify_signature_oct_iff}
use jwt_verify_lib.Verify.Keys.{IsKeyFor}
use jwt_verify_lib.Verify.Search.{
  HasSigner, verify_jwt_without_time_checking-ok_iff, verify_jwt_without_time_checking-wrong_length,
  verify_jwt_without_time_checking-mismatch_iff,
}
use jwt_verify_lib.Verify.Misnamed.{add_key_from_pem-verify_same}
use jwt_verify_lib.Verify.Order.{IsInTime, verify_jwt_with_audiences_iff}

abbrev token : Jwt
token = record new_jwt {
  header_str_base64url = bytes "head";
  payload_str_base64url = bytes "load";
  signature = bytes "sig";
  alg = bytes "HS256";
  kid = bytes "k1";
  audiences = bytes "https://svc/" ∷ [];
  nbf = 50;
  exp = 200;
}

abbrev other_key : Pubkey
other_key = record new_pubkey { kty = bytes "oct"; kid = bytes "k2"; hmac_key = bytes "sig" }

abbrev key : Pubkey
key = record new_pubkey { kty = bytes "oct"; kid = bytes "k1"; hmac_key = bytes "sig" }

abbrev keys : List Pubkey
keys = other_key ∷ key ∷ []

verifies : verify_jwt_without_time_checking token keys ≡ ok
unfolding verify_jwt_without_time_checking verify_keys is_key_for check_signature check_oct ok_if
    digest_for verify_signature_oct ◌=ᵇ◌
verifies = refl

ok_iff_example : (verify_jwt_without_time_checking token keys ≡ ok) ↔ HasSigner token keys
ok_iff_example =
    verify_jwt_without_time_checking-ok_iff token keys (λ w. ground arith, (λ w. ground arith, tt))

mismatch_iff_example :
    (verify_jwt_without_time_checking token (other_key ∷ []) ≡ jwks_kid_alg_mismatch)
    ↔ All (λ k. ¬ IsKeyFor token k) (other_key ∷ [])
mismatch_iff_example = verify_jwt_without_time_checking-mismatch_iff token (other_key ∷ [])

hmac_example :
    (verify_signature_oct (some (bytes "sig")) (some 256) (some (bytes "sig")) (some (bytes "text"))
      ≡ true)
    ↔ (sample_ssl.hmac 256 (bytes "sig") (bytes "text") ≡ some (bytes "sig"))
hmac_example = verify_signature_oct_iff sample_memcmp (bytes "sig") (bytes "sig") (bytes "text") 256

abbrev services : List Bytes
services = bytes "http://svc" ∷ []

with_audiences_example :
    (verify_jwt_with_audiences token keys services 100 ≢ none)
    × ((verify_jwt_with_audiences token keys services 100 ≡ some ok) ↔ (
        ((services ≡ [])
          ⊎ Some (λ a. Some (λ c. canonical c ≡ canonical a) services) token.audiences)
        × (IsInTime token 100 clock_skew_in_second
            × (verify_jwt_without_time_checking token keys ≡ ok))))
with_audiences_example =
    verify_jwt_with_audiences_iff sample_starts_with token keys services 100 ((omega arith, tt))
      ((omega arith, tt)) (omega arith) (omega arith)

abbrev okp_key : Pubkey
okp_key = record new_pubkey { kty = bytes "OKP"; crv = bytes "Ed25519" }

-- The token that `verifies` accepts.
wrong_length_example :
    verify_jwt_without_time_checking token (other_key ∷ okp_key ∷ keys)
    ≡ jwt_ed25519_signature_wrong_length
wrong_length_example =
    verify_jwt_without_time_checking-wrong_length token (other_key ∷ []) okp_key keys
      ((λ w. ground arith), tt) (ground arith) (refl, refl, λ e. ground arith)

-- The key of an Ed25519 text.
abbrev raw_key : Pubkey
raw_key = record new_pubkey {
  kty = bytes "OKP";
  crv = bytes "Ed25519";
  okp_key_raw = bytes "0123456789abcdef0123456789abcdef";
}

reads_raw_key : (create_from_pem_core (bytes "ed") new_jwks).keys ≡ raw_key ∷ []
unfolding create_from_pem_core create_evp_pkey_from_pem push_pem_key update_status ◌=ᵇ◌
reads_raw_key = refl

abbrev key_ring : Jwks
key_ring = record new_jwks { keys = keys }

verify_same_example :
    ((add_key_from_pem (bytes "ed") (bytes "k3") (bytes "ES256") key_ring).1 ≡ ok)
    × ((verify_jwt_without_time_checking token
            (add_key_from_pem (bytes "ed") (bytes "k3") (bytes "ES256") key_ring).0.keys
          ≡ ok)
        ↔ (verify_jwt_without_time_checking token key_ring.keys ≡ ok))
verify_same_example =
    add_key_from_pem-verify_same sample_get_key token (bytes "ed") (bytes "k3") (bytes "ES256")
      (bytes "P-256") key_ring raw_key reads_raw_key refl (inl (refl, refl))
