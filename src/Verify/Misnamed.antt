-- ===== src/Verify/Misnamed.antt =====
-- An Ed25519 key that `addKeyFromPem` of src/jwks.cc gives the curve name of an EC algorithm, in the
-- search of src/verify.cc.
use jwt_verify_lib.Prelude.{
  ◌≡◌, ◌↔◌, inl, inr, refl, sym, ◌∙◌, ap, Bool, true, false, List, [], ◌∷◌, ◌++◌, none,
  Option-cases, Bool-cases, Bytes, bytes, ◌=ᵇ◌, arith,
}
use mathlib.Core.List.{nil≢cons}
use jwt_verify_lib.Status.{ok}
use jwt_verify_lib.External.Protobuf.{Protobuf}
use jwt_verify_lib.External.Ssl.{Ssl, GetKeyLaw}
use jwt_verify_lib.Jwt.{Jwt}
use jwt_verify_lib.Jwks.{Jwks, Pubkey, new_jwks, create_from_pem_core, add_key_from_pem}
use jwt_verify_lib.Jwks.Usable.{IsAlgCurve, IsLabel}
use jwt_verify_lib.Jwks.Pem.{named, add_key_from_pem-cases}
use jwt_verify_lib.Verify.{
  is_key_for, check_signature, verify_keys, signed_data_of, verify_jwt_without_time_checking,
}

module _ ⦃pb : Protobuf⦄ ⦃ssl : Ssl⦄ where
  -- The search with a key behind the others that is tried without a result.
  verify_keys-last :
      (jwt : Jwt) (text : Bytes) (k : Pubkey) (keys : List Pubkey) (matched : Bool)
      → check_signature jwt text k ≡ none
      → (verify_keys jwt text (keys ++ k ∷ []) matched ≡ ok)
        ↔ (verify_keys jwt text keys matched ≡ ok)
  unfolding verify_keys
  verify_keys-last jwt text k [] matched h = elim (Bool-cases (is_key_for jwt k)) [
    | inl e ↦ rw (e, verify_keys, h) (ground arith)
    | inr e ↦ rw (e, verify_keys) ((λ g. g), (λ g. g))
  ]
  verify_keys-last jwt text k (x ∷ keys) matched h = elim (Bool-cases (is_key_for jwt x)) [
    | inl e ↦ elim (Option-cases (check_signature jwt text x)) [
      | inl f ↦ rw (e, verify_keys, f) (verify_keys-last jwt text k keys true h)
      | inr (s, f) ↦ rw (e, verify_keys, f) ((λ g. g), (λ g. g))
    ]
    | inr e ↦ rw (e, verify_keys) (verify_keys-last jwt text k keys matched h)
  ]

  misnamed-none :
      (jwt : Jwt) (text : Bytes) (k : Pubkey) (alg : Bytes)
      → k.kty ≡ bytes "OKP"
      → IsAlgCurve alg k.crv
      → check_signature jwt text k ≡ none
  unfolding check_signature ◌=ᵇ◌
  misnamed-none jwt text k alg e (inl (_, c)) = rw (e, c) refl
  misnamed-none jwt text k alg e (inr (inl (_, c))) = rw (e, c) refl
  misnamed-none jwt text k alg e (inr (inr (_, c))) = rw (e, c) refl

  -- A curve name that an EC algorithm leaves is the one of the algorithm.
  relabelled :
      (alg crv old new : Bytes) → IsAlgCurve alg crv → IsLabel alg old new → IsAlgCurve alg new
  relabelled alg crv old new h (inl l) = l
  relabelled alg crv old new (inl (e, _)) (inr ((n, m, o), _)) = absurd (n e)
  relabelled alg crv old new (inr (inl (e, _))) (inr ((n, m, o), _)) = absurd (m e)
  relabelled alg crv old new (inr (inr (e, _))) (inr ((n, m, o), _)) = absurd (o e)

  -- Where OpenSSL returns the RSA and EC keys of its `EVP_PKEY` objects, adding a PEM text that gives
  -- a key of type "OKP" under the algorithm ES256, ES384 or ES512 returns `Ok`, and has no effect on
  -- the verification: a token without time checking is accepted with the new set exactly if it is
  -- accepted with the set before.
  pub add_key_from_pem-verify_same :
      (law : GetKeyLaw ssl) (jwt : Jwt) (text kid alg crv : Bytes) (j : Jwks) (k : Pubkey)
      → (create_from_pem_core text new_jwks).keys ≡ k ∷ []
      → k.kty ≡ bytes "OKP"
      → IsAlgCurve alg crv
      → ((add_key_from_pem text kid alg j).1 ≡ ok)
        × ((verify_jwt_without_time_checking jwt (add_key_from_pem text kid alg j).0.keys ≡ ok)
            ↔ (verify_jwt_without_time_checking jwt j.keys ≡ ok))
  unfolding verify_jwt_without_time_checking
  add_key_from_pem-verify_same law jwt text kid alg crv j k only kty h =
      elim (add_key_from_pem-cases law text kid alg j) [
        | inl (k', crv', only', _, _, label, e) ↦
            let same : k' ≡ k = cc in
            let curve = relabelled alg crv k'.crv crv' h label in
            let idle =
              misnamed-none jwt (signed_data_of jwt) (named kid alg crv' k') alg
                (ap (λ i. i.kty) same ∙ kty) curve in
            rw e (
              refl,
              verify_keys-last jwt (signed_data_of jwt) (named kid alg crv' k') j.keys false idle,
            )
        | inr (empty, _, _) ↦ absurd (nil≢cons (sym empty ∙ only))
      ]
