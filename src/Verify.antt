-- ===== src/Verify.antt =====
-- Verification of a token against a key set (jwt_verify_lib/verify.h, src/verify.cc). The calls of
-- `ERR_clear_error`, which empty a queue that the code never reads, are left out.
mod Signatures
pub mod Hmac
pub mod Keys
pub mod Search
pub mod Order
pub mod Misnamed
mod Tests
unfoldable pub use Signatures.{
  verify_signature_rsa, verify_signature_rsa_pss, verify_halves, verify_signature_ec,
  verify_signature_oct, verify_signature_ed25519,
}
use jwt_verify_lib.Prelude.{
  ℕ, ◌+◌, ◌-◌, ◌/◌, Bool, true, false, not, ◌&&◌, ◌||◌, List, [], ◌∷◌, ◌++◌, Option, none, some,
  Bytes, bytes, ◌=ᵇ◌, is_empty, has_prefix_of_length, if◌then◌else◌,
}
use jwt_verify_lib.Status.{
  Status, is_ok, ok, jwt_audience_not_allowed, jwt_verification_fail, jwks_kid_alg_mismatch,
  jwt_ed25519_signature_wrong_length,
}
use jwt_verify_lib.External.Protobuf.{Protobuf}
use jwt_verify_lib.External.Absl.{Absl}
use jwt_verify_lib.External.Ssl.{Ssl}
use jwt_verify_lib.CheckAudience.{◌>>=◌, check_audience, are_audiences_allowed}
use jwt_verify_lib.Jwt.{Jwt, verify_time_constraint, clock_skew_in_second}
use jwt_verify_lib.Jwks.{Pubkey}

-- `status == Status::JwtEd25519SignatureWrongLength`.
unfoldable pub is_wrong_length : Status → Bool
is_wrong_length jwt_ed25519_signature_wrong_length = true
is_wrong_length _ = false

-- `status == Status::Ok || status == Status::JwtEd25519SignatureWrongLength`: then it is returned.
unfoldable pub ends_search : Status → Option Status
ends_search status = if is_ok status || is_wrong_length status then some status else none

-- `return Status::Ok` where the test succeeds.
unfoldable pub ok_if : Bool → Option Status
ok_if test = if test then some ok else none

module _ ⦃pb : Protobuf⦄ ⦃ssl : Ssl⦄ where
  open ssl use {Md, evp_sha256, evp_sha384, evp_sha512}

  -- The digests that the loop chooses by `jwt.alg_`.
  unfoldable pub digest_for : Bool → Bool → Option Md
  digest_for is_384 is_512 =
      if is_384 then evp_sha384 else if is_512 then evp_sha512 else evp_sha256

  -- The two `continue` tests of the loop.
  unfoldable pub is_key_for : Jwt → Pubkey → Bool
  is_key_for jwt jwk =
      not (not (is_empty jwt.kid) && not (is_empty jwk.kid) && not (jwk.kid =ᵇ jwt.kid))
      && not (not (is_empty jwk.alg) && not (jwk.alg =ᵇ jwt.alg))

  -- The branch for "EC".
  unfoldable pub check_ec : Jwt → Bytes → Pubkey → Option Status
  check_ec jwt signed_data jwk =
      let md = digest_for (jwt.alg =ᵇ bytes "ES384") (jwt.alg =ᵇ bytes "ES512") in
      ok_if (verify_signature_ec jwk.ec_key md (some jwt.signature) (some signed_data))

  -- The branch for "RSA".
  unfoldable pub check_rsa : Jwt → Bytes → Pubkey → Option Status
  check_rsa jwt signed_data jwk =
      let md =
        digest_for (jwt.alg =ᵇ bytes "RS384" || jwt.alg =ᵇ bytes "PS384")
          (jwt.alg =ᵇ bytes "RS512" || jwt.alg =ᵇ bytes "PS512") in
      (if has_prefix_of_length 2 (bytes "RS") jwt.alg
        then ok_if (verify_signature_rsa jwk.rsa md (some jwt.signature) (some signed_data))
        else if has_prefix_of_length 2 (bytes "PS") jwt.alg
        then ok_if (verify_signature_rsa_pss jwk.rsa md (some jwt.signature) (some signed_data))
        else none)

  -- The branch for "oct".
  unfoldable pub check_oct : Jwt → Bytes → Pubkey → Option Status
  check_oct jwt signed_data jwk =
      let md = digest_for (jwt.alg =ᵇ bytes "HS384") (jwt.alg =ᵇ bytes "HS512") in
      ok_if (verify_signature_oct (some jwk.hmac_key) md (some jwt.signature) (some signed_data))

  -- The branch for "OKP" with "Ed25519".
  unfoldable pub check_okp : Jwt → Bytes → Pubkey → Option Status
  check_okp jwt signed_data jwk =
      ends_search (verify_signature_ed25519 jwk.okp_key_raw jwt.signature signed_data)

  -- The rest of a round: `some` is the status that is returned.
  unfoldable pub check_signature : Jwt → Bytes → Pubkey → Option Status
  check_signature jwt signed_data jwk =
      if jwk.kty =ᵇ bytes "EC"
      then check_ec jwt signed_data jwk
      else if jwk.kty =ᵇ bytes "RSA"
      then check_rsa jwt signed_data jwk
      else if jwk.kty =ᵇ bytes "oct"
      then check_oct jwt signed_data jwk
      else if jwk.kty =ᵇ bytes "OKP" && jwk.crv =ᵇ bytes "Ed25519"
      then check_okp jwt signed_data jwk
      else none

  -- The loop over the keys, with `kid_alg_matched`.
  unfoldable pub verify_keys : Jwt → Bytes → List Pubkey → Bool → Status
  verify_keys jwt signed_data [] kid_alg_matched =
      if kid_alg_matched then jwt_verification_fail else jwks_kid_alg_mismatch
  verify_keys jwt signed_data (jwk ∷ keys) kid_alg_matched = elim (is_key_for jwt jwk) [
    | false ↦ verify_keys jwt signed_data keys kid_alg_matched
    | true ↦ elim (check_signature jwt signed_data jwk) [
      | some status ↦ status
      | none ↦ verify_keys jwt signed_data keys true
    ]
  ]

  -- `signed_data`.
  abbrev pub signed_data_of : Jwt → Bytes
  signed_data_of jwt = jwt.header_str_base64url ++ b'.' ∷ jwt.payload_str_base64url

  -- `verifyJwtWithoutTimeChecking`, on the keys of the set.
  unfoldable pub verify_jwt_without_time_checking : Jwt → List Pubkey → Status
  verify_jwt_without_time_checking jwt keys = verify_keys jwt (signed_data_of jwt) keys false

  -- `verifyJwt(jwt, jwks, now, clock_skew)`.
  unfoldable pub verify_jwt : Jwt → List Pubkey → ℕ → ℕ → Status
  verify_jwt jwt keys now clock_skew =
      let time_status = verify_time_constraint jwt now clock_skew in
      if not (is_ok time_status) then time_status else verify_jwt_without_time_checking jwt keys

  -- `verifyJwt(jwt, jwks)`; `clock` is `absl::ToUnixSeconds(absl::Now())` as a `uint64_t`.
  unfoldable pub verify_jwt_by_clock : Jwt → List Pubkey → ℕ → Status
  verify_jwt_by_clock jwt keys clock = verify_jwt jwt keys clock clock_skew_in_second

  -- `verifyJwt(jwt, jwks, audiences, now)`; `none` is an exception of the audience check.
  unfoldable pub verify_jwt_with_audiences :
      ⦃ab : Absl⦄ → Jwt → List Pubkey → List Bytes → ℕ → Option Status
  verify_jwt_with_audiences jwt keys audiences now = do
    checker ← check_audience audiences
    allowed ← are_audiences_allowed checker jwt.audiences
    some (
        if not allowed
        then jwt_audience_not_allowed
        else verify_jwt jwt keys now clock_skew_in_second)

  -- `verifyJwt(jwt, jwks, audiences)`, with the same clock.
  unfoldable pub verify_jwt_with_audiences_by_clock :
      ⦃ab : Absl⦄ → Jwt → List Pubkey → List Bytes → ℕ → Option Status
  verify_jwt_with_audiences_by_clock jwt keys audiences clock =
      verify_jwt_with_audiences jwt keys audiences clock
