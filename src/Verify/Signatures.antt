-- ===== src/Verify/Signatures.antt =====
-- The functions `verifySignature…` of src/verify.cc. A pointer and a length are an optional text.
use jwt_verify_lib.Prelude.{
  ◌/◌, Bool, false, not, ◌&&◌, Option, none, some, Bytes, ◌==◌, length, take, drop, if◌then◌else◌,
}
use jwt_verify_lib.Status.{Status, ok, jwt_ed25519_signature_wrong_length, jwt_verification_fail}
use jwt_verify_lib.External.Ssl.{Ssl}

module _ ⦃ssl : Ssl⦄ where
  open ssl use {
    Rsa, EcKey, Md, evp_pkey_set1_rsa, evp_digest_verify_init, evp_digest_verify_update,
    evp_digest_verify_final, evp_pkey_ctx_set_rsa_padding_pss, evp_pkey_ctx_set_rsa_mgf1_md,
    evp_digest_verify, evp_digest_init, evp_digest_update, evp_digest_final, ecdsa_sig_new,
    ecdsa_do_verify, bn_bin2bn, hmac, crypto_memcmp, ed25519_verify, ed25519_signature_len,
  }

  -- `verifySignatureRSA`.
  unfoldable pub verify_signature_rsa : Option Rsa → Option Md → Option Bytes → Option Bytes → Bool
  verify_signature_rsa (some key) (some md) (some signature) (some signed_data) =
      let (set, evp_pkey) = evp_pkey_set1_rsa key in
      let (init, ctx) = evp_digest_verify_init md evp_pkey in
      let (update, ctx') = evp_digest_verify_update ctx signed_data in
      if not (set == 1)
      then false
      else init == 1 && update == 1 && evp_digest_verify_final ctx' signature == 1
  verify_signature_rsa _ _ _ _ = false

  -- `verifySignatureRSAPSS`.
  unfoldable pub verify_signature_rsa_pss :
      Option Rsa → Option Md → Option Bytes → Option Bytes → Bool
  verify_signature_rsa_pss (some key) (some md) (some signature) (some signed_data) =
      let (set, evp_pkey) = evp_pkey_set1_rsa key in
      let (init, ctx) = evp_digest_verify_init md evp_pkey in
      let (padding, ctx') = evp_pkey_ctx_set_rsa_padding_pss ctx in
      let (mgf1, ctx'') = evp_pkey_ctx_set_rsa_mgf1_md ctx' md in
      if not (set == 1)
      then false
      else init == 1
        && padding == 1
        && mgf1 == 1
        && evp_digest_verify ctx'' signature signed_data == 1
  verify_signature_rsa_pss _ _ _ _ = false

  -- The end of `verifySignatureEC`: the two halves of the signature are `r` and `s`.
  unfoldable pub verify_halves : EcKey → Bytes → Bytes → Bool
  verify_halves key digest signature =
      let half = length signature / 2 in
      elim (bn_bin2bn (take half signature)) [
        | none ↦ false
        | some r ↦ elim (bn_bin2bn (take half (drop half signature))) [
          | none ↦ false
          | some s ↦ ecdsa_do_verify digest r s key == 1
        ]
      ]

  -- `verifySignatureEC`.
  unfoldable pub verify_signature_ec : Option EcKey → Option Md → Option Bytes → Option Bytes → Bool
  unfolding verify_halves
  verify_signature_ec (some key) (some md) (some signature) (some signed_data) =
      let (init, ctx) = evp_digest_init md in
      let (update, ctx') = evp_digest_update ctx signed_data in
      let (final, digest) = evp_digest_final ctx' in
      if init == 0
      then false
      else if update == 0
      then false
      else if final == 0
      then false
      else if not ecdsa_sig_new
      then false
      else verify_halves key digest signature
  verify_signature_ec _ _ _ _ = false

  -- `verifySignatureOct`.
  unfoldable pub verify_signature_oct :
      Option Bytes → Option Md → Option Bytes → Option Bytes → Bool
  verify_signature_oct (some key) (some md) (some signature) (some signed_data) =
      elim (hmac md key signed_data) [
        | none ↦ false
        | some out ↦
            if not (length out == length signature)
            then false
            else crypto_memcmp out signature (length signature) == 0
      ]
  verify_signature_oct _ _ _ _ = false

  -- `verifySignatureEd25519`.
  unfoldable pub verify_signature_ed25519 : Bytes → Bytes → Bytes → Status
  verify_signature_ed25519 key signature signed_data =
      if not (length signature == ed25519_signature_len)
      then jwt_ed25519_signature_wrong_length
      else if ed25519_verify signed_data signature key == 1
      then ok
      else jwt_verification_fail
