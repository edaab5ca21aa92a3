-- ===== src/Verify/Keys.antt =====
-- Which keys of a set decide the verification of a token.
use jwt_verify_lib.Prelude.{
  ◌≡◌, ◌≢◌, ◌↔◌, ◌⊎◌, inl, inr, Bool, true, ◌&&◌, ◌||◌, [], some, Bytes, bytes, ◌=ᵇ◌, eq_iff,
  length, take, has_prefix_of_length, Bool-cases, arith,
}
use jwt_verify_lib.Status.{Status, is_ok, ok, jwt_ed25519_signature_wrong_length}
use jwt_verify_lib.External.Protobuf.{Protobuf}
use jwt_verify_lib.External.Ssl.{Ssl}
use jwt_verify_lib.Jwt.{Jwt}
use jwt_verify_lib.Jwks.{Pubkey}
use jwt_verify_lib.Verify.{
  is_wrong_length, ends_search, ok_if, digest_for, is_key_for, check_ec, check_rsa, check_oct,
  check_okp, check_signature, verify_signature_ec, verify_signature_rsa, verify_signature_rsa_pss,
  verify_signature_oct, verify_signature_ed25519,
}

module _ ⦃pb : Protobuf⦄ ⦃ssl : Ssl⦄ where
  open ssl use {ed25519_signature_len, ed25519_verify}

  -- The key may be used for the token: the key ids agree where both have one, and the algorithms
  -- agree where the key has one.
  abbrev pub IsKeyFor : Jwt → Pubkey → Type 0
  IsKeyFor jwt jwk =
      ((jwt.kid ≡ []) ⊎ (jwk.kid ≡ []) ⊎ (jwk.kid ≡ jwt.kid))
      × ((jwk.alg ≡ []) ⊎ (jwk.alg ≡ jwt.alg))

  -- The signature of the token is one of the key, by the scheme of the key's type.
  pub data SignedBy (jwt : Jwt) (text : Bytes) (jwk : Pubkey) : Type 0 where
    by_ec :
        jwk.kty ≡ bytes "EC"
        → verify_signature_ec jwk.ec_key
            (digest_for (jwt.alg =ᵇ bytes "ES384") (jwt.alg =ᵇ bytes "ES512"))
            (some jwt.signature)
            (some text)
          ≡ true
        → SignedBy jwt text jwk
    by_rsa :
        jwk.kty ≡ bytes "RSA"
        → has_prefix_of_length 2 (bytes "RS") jwt.alg ≡ true
        → verify_signature_rsa jwk.rsa
            (digest_for
              (jwt.alg =ᵇ bytes "RS384" || jwt.alg =ᵇ bytes "PS384")
              (jwt.alg =ᵇ bytes "RS512" || jwt.alg =ᵇ bytes "PS512"))
            (some jwt.signature)
            (some text)
          ≡ true
        → SignedBy jwt text jwk
    by_rsa_pss :
        jwk.kty ≡ bytes "RSA"
        → has_prefix_of_length 2 (bytes "PS") jwt.alg ≡ true
        → verify_signature_rsa_pss jwk.rsa
            (digest_for
              (jwt.alg =ᵇ bytes "RS384" || jwt.alg =ᵇ bytes "PS384")
              (jwt.alg =ᵇ bytes "RS512" || jwt.alg =ᵇ bytes "PS512"))
            (some jwt.signature)
            (some text)
          ≡ true
        → SignedBy jwt text jwk
    by_hmac :
        jwk.kty ≡ bytes "oct"
        → verify_signature_oct
            (some jwk.hmac_key)
            (digest_for (jwt.alg =ᵇ bytes "HS384") (jwt.alg =ᵇ bytes "HS512"))
            (some jwt.signature)
            (some text)
          ≡ true
        → SignedBy jwt text jwk
    by_ed25519 :
        jwk.kty ≡ bytes "OKP"
        → jwk.crv ≡ bytes "Ed25519"
        → length jwt.signature ≡ ed25519_signature_len
        → ed25519_verify text jwt.signature jwk.okp_key_raw ≡ 1
        → SignedBy jwt text jwk

  pub is_key_for_iff : (jwt : Jwt) (jwk : Pubkey) → (is_key_for jwt jwk ≡ true) ↔ IsKeyFor jwt jwk
  unfolding is_key_for
  is_key_for_iff jwt jwk = ground (arith, eq_iff jwk.kid jwt.kid, eq_iff jwk.alg jwt.alg)

  ok_if-eq_iff : (b : Bool) → (ok_if b ≡ some ok) ↔ (b ≡ true)
  unfolding ok_if
  ok_if-eq_iff b = ground arith

  -- A round of the loop returns `Ok` exactly on a valid signature.
  check_okp_iff :
      (jwt : Jwt) (text : Bytes) (jwk : Pubkey)
      → (check_okp jwt text jwk ≡ some ok) ↔ (
          (length jwt.signature ≡ ed25519_signature_len)
          × (ed25519_verify text jwt.signature jwk.okp_key_raw ≡ 1))
  unfolding check_okp ends_search verify_signature_ed25519 is_ok is_wrong_length
  check_okp_iff jwt text jwk = ground arith

  check_rsa_sound :
      (jwt : Jwt) (text : Bytes) (jwk : Pubkey)
      → jwk.kty ≡ bytes "RSA"
      → check_rsa jwt text jwk ≡ some ok
      → SignedBy jwt text jwk
  unfolding check_rsa
  check_rsa_sound jwt text jwk kty h =
      elim (Bool-cases (has_prefix_of_length 2 (bytes "RS") jwt.alg)) [
        | inl p ↦ by_rsa kty p ((ok_if-eq_iff _).0 (ground arith))
        | inr n ↦ elim (Bool-cases (has_prefix_of_length 2 (bytes "PS") jwt.alg)) [
          | inl p ↦ by_rsa_pss kty p ((ok_if-eq_iff _).0 (ground arith))
          | inr m ↦ absurd (ground arith)
        ]
      ]

  pub check_sound :
      (jwt : Jwt) (text : Bytes) (jwk : Pubkey)
      → check_signature jwt text jwk ≡ some ok
      → SignedBy jwt text jwk
  unfolding check_signature check_ec check_oct
  check_sound jwt text jwk h = elim (Bool-cases (jwk.kty =ᵇ bytes "EC")) [
    | inl e ↦ by_ec ((eq_iff _ _).0 e) ((ok_if-eq_iff _).0 (ground arith))
    | inr e ↦ elim (Bool-cases (jwk.kty =ᵇ bytes "RSA")) [
      | inl f ↦ check_rsa_sound jwt text jwk ((eq_iff _ _).0 f) (ground arith)
      | inr f ↦ elim (Bool-cases (jwk.kty =ᵇ bytes "oct")) [
        | inl g ↦ by_hmac ((eq_iff _ _).0 g) ((ok_if-eq_iff _).0 (ground arith))
        | inr g ↦ elim (Bool-cases (jwk.kty =ᵇ bytes "OKP" && jwk.crv =ᵇ bytes "Ed25519")) [
          | inl k ↦
              let okp = (check_okp_iff jwt text jwk).0 (ground arith) in
              by_ed25519 ((eq_iff _ _).0 (ground arith)) ((eq_iff _ _).0 (ground arith)) okp.0 okp.1
          | inr k ↦ absurd (ground arith)
        ]
      ]
    ]
  ]

  pub check_complete :
      (jwt : Jwt) (text : Bytes) (jwk : Pubkey)
      → SignedBy jwt text jwk
      → check_signature jwt text jwk ≡ some ok
  unfolding check_signature check_ec check_rsa check_oct
  check_complete jwt text jwk (by_ec e v) =
      ground (arith, eq_iff jwk.kty (bytes "EC"), ok_if-eq_iff true)
  check_complete jwt text jwk (by_rsa e p v) =
      ground (arith, eq_iff jwk.kty (bytes "EC"), eq_iff jwk.kty (bytes "RSA"), ok_if-eq_iff true)
  check_complete jwt text jwk (by_rsa_pss e p v) = ground (
    arith,
    eq_iff jwk.kty (bytes "EC"),
    eq_iff jwk.kty (bytes "RSA"),
    eq_iff jwk.kty (bytes "oct"),
    eq_iff jwk.kty (bytes "OKP"),
    eq_iff (take 2 jwt.alg) (bytes "RS"),
    eq_iff (take 2 jwt.alg) (bytes "PS"),
    ok_if-eq_iff true,
  )
  check_complete jwt text jwk (by_hmac e v) = ground (
    arith,
    eq_iff jwk.kty (bytes "EC"),
    eq_iff jwk.kty (bytes "RSA"),
    eq_iff jwk.kty (bytes "oct"),
    eq_iff jwk.kty (bytes "OKP"),
    ok_if-eq_iff true,
  )
  check_complete jwt text jwk (by_ed25519 e c l v) = ground (
    arith,
    eq_iff jwk.kty (bytes "EC"),
    eq_iff jwk.kty (bytes "RSA"),
    eq_iff jwk.kty (bytes "oct"),
    eq_iff jwk.kty (bytes "OKP"),
    eq_iff jwk.crv (bytes "Ed25519"),
    check_okp_iff jwt text jwk,
  )

  ok_if-eq-some : (b : Bool) (status : Status) → ok_if b ≡ some status → status ≡ ok
  unfolding ok_if
  ok_if-eq-some b status h = ground arith

  check_okp-eq-some :
      (jwt : Jwt) (text : Bytes) (jwk : Pubkey) (status : Status)
      → check_okp jwt text jwk ≡ some status
      → (status ≡ ok)
        ⊎ ((status ≡ jwt_ed25519_signature_wrong_length)
            × (length jwt.signature ≢ ed25519_signature_len))
  unfolding check_okp ends_search verify_signature_ed25519 is_ok is_wrong_length
  check_okp-eq-some jwt text jwk status h = ground arith

  check_rsa-eq-some :
      (jwt : Jwt) (text : Bytes) (jwk : Pubkey) (status : Status)
      → check_rsa jwt text jwk ≡ some status
      → status ≡ ok
  unfolding check_rsa ok_if
  check_rsa-eq-some jwt text jwk status h = ground arith

  -- A round that fails on the length of an Ed25519 signature.
  abbrev pub HasWrongLength : Jwt → Pubkey → Type 0
  HasWrongLength jwt jwk =
      (jwk.kty ≡ bytes "OKP")
      × (jwk.crv ≡ bytes "Ed25519")
      × (length jwt.signature ≢ ed25519_signature_len)

  -- What a round may return.
  pub check_signature-eq-some :
      (jwt : Jwt) (text : Bytes) (jwk : Pubkey) (status : Status)
      → check_signature jwt text jwk ≡ some status
      → (status ≡ ok) ⊎ ((status ≡ jwt_ed25519_signature_wrong_length) × HasWrongLength jwt jwk)
  unfolding check_signature check_ec check_oct ok_if
  check_signature-eq-some jwt text jwk status h = ground (
    arith,
    check_rsa-eq-some jwt text jwk status,
    check_okp-eq-some jwt text jwk status,
    eq_iff jwk.kty (bytes "OKP"),
    eq_iff jwk.crv (bytes "Ed25519"),
  )

  pub check_wrong_length :
      (jwt : Jwt) (text : Bytes) (jwk : Pubkey)
      → HasWrongLength jwt jwk
      → check_signature jwt text jwk ≡ some jwt_ed25519_signature_wrong_length
  unfolding check_signature check_okp ends_search verify_signature_ed25519 is_ok is_wrong_length
  check_wrong_length jwt text jwk (kty, crv, wrong) = ground (
    arith,
    eq_iff jwk.kty (bytes "EC"),
    eq_iff jwk.kty (bytes "RSA"),
    eq_iff jwk.kty (bytes "oct"),
    eq_iff jwk.kty (bytes "OKP"),
    eq_iff jwk.crv (bytes "Ed25519"),
  )
