-- ===== src/Jwks/Usable.antt =====
-- The keys that an extraction gives can be used with the key type that they name.
use jwt_verify_lib.Prelude.{
  ◌&&◌, ltb, has_prefix_of_length, ◌≡◌, ◌≢◌, refl, sym, ◌∙◌, Bool, true, false, Option, none, some,
  [], ◌∷◌, arith, Bytes, bytes, ◌=ᵇ◌, eq_iff, is_empty, not, if◌then◌else◌, Bool-cases, length, inl,
  inr, ◌⊎◌, ℕ, ◌||◌,
}
use mathlib.Core.Bool.{false≢true}
use jwt_verify_lib.Status.{
  jwks_missing_kty, jwks_bad_kty, jwks_ec_key_bad_alg, jwks_ec_key_bad_crv,
  jwks_ec_key_alg_not_compatible_with_crv, jwks_oct_bad_base64, jwks_ec_key_alg_or_crv_unsupported,
  Status, ok, is_ok, with_status, update_status,
}
use jwt_verify_lib.Status.Laws.{is_ok_iff}
use jwt_verify_lib.External.Protobuf.{Protobuf}
use jwt_verify_lib.External.Absl.{Absl}
use jwt_verify_lib.External.Ssl.{Ssl}
use jwt_verify_lib.StructUtils.{is_missing, is_wrong_type, get_string}
use jwt_verify_lib.Jwks.{
  Pubkey, require_string, create_rsa_from_jwk, create_ec_key_from_jwk_ec,
  create_raw_key_from_jwk_okp, extract_jwk_from_jwk_rsa, curve_of, is_compatible, extract_point,
  extract_curve, extract_jwk_from_jwk_ec, extract_jwk_from_jwk_oct, extract_jwk_from_jwk_okp,
  extract_by_kty, extract_jwk,
}

-- The curve of an EC algorithm, by RFC 7518.
abbrev pub IsAlgCurve : Bytes → Bytes → Type 0
IsAlgCurve alg crv =
    ((alg ≡ bytes "ES256") × (crv ≡ bytes "P-256"))
    ⊎ ((alg ≡ bytes "ES384") × (crv ≡ bytes "P-384"))
    ⊎ ((alg ≡ bytes "ES512") × (crv ≡ bytes "P-521"))

abbrev pub IsOther : Bytes → Type 0
IsOther alg = (alg ≢ bytes "ES256") × (alg ≢ bytes "ES384") × (alg ≢ bytes "ES512")

-- The curve name that a key gets with an algorithm, where it had one before.
abbrev pub IsLabel : Bytes → Bytes → Bytes → Type 0
IsLabel alg old new = IsAlgCurve alg new ⊎ (IsOther alg × (new ≡ old))

module _ ⦃ssl : Ssl⦄ where
  -- The key holds what the verification with its type reads: the object of the library, the secret,
  -- or the curve name "Ed25519" and a raw key of its length.
  pub data IsUsable (k : Pubkey) : Type 0 where
    rsa_key : k.kty ≡ bytes "RSA" → k.rsa ≢ none → IsUsable k
    ec_key : k.kty ≡ bytes "EC" → k.ec_key ≢ none → IsUsable k
    oct_key : k.kty ≡ bytes "oct" → is_empty k.hmac_key ≡ false → IsUsable k
    okp_key :
        k.kty ≡ bytes "OKP"
        → k.crv ≡ bytes "Ed25519"
        → length k.okp_key_raw ≡ ssl.ed25519_public_key_len
        → IsUsable k

  -- An extraction that succeeds gives a key with the property.
  abbrev pub Gives : (Pubkey → Type 0) → Pubkey × Status → Type 0
  Gives P r = r.1 ≡ ok → P r.0

  module _ (P : Pubkey → Type 0) where
    pub fails-Gives : (k : Pubkey) (s : Status) → is_ok s ≡ false → Gives P (k, s)
    fails-Gives k s h e = absurd (false≢true (sym h ∙ (is_ok_iff s).1 e))

    pub guard-Gives :
        (b : Bool) (k : Pubkey) (s : Status) (r : Pubkey × Status)
        → is_ok s ≡ false
        → Gives P r
        → Gives P (if b then (k, s) else r)
    guard-Gives true k s r h g = fails-Gives k s h
    guard-Gives false k s r h g = g

    pub guard_off-Gives :
        (b : Bool) (k : Pubkey) (s : Status) (r : Pubkey × Status)
        → is_ok s ≡ false
        → (b ≡ false → Gives P r)
        → Gives P (if b then (k, s) else r)
    guard_off-Gives true k s r h g = fails-Gives k s h
    guard_off-Gives false k s r h g = g refl

    pub require_string-Gives :
        ⦃pb : Protobuf⦄ ⦃ab : Absl⦄ (m : pb.Struct) (name : Bytes) (missing wrong : Status)
        (k : Pubkey) (rest : Bytes → Pubkey × Status)
        → is_ok missing ≡ false
        → is_ok wrong ≡ false
        → ((t : Bytes) → Gives P (rest t))
        → Gives P (require_string m name missing wrong k rest)
    unfolding require_string
    require_string-Gives m name missing wrong k rest h h' g =
        guard-Gives (is_missing (get_string m name []).0) k missing _ h (
          guard-Gives (is_wrong_type (get_string m name []).0) k wrong _ h'
            (g (get_string m name []).1))

  module _ ⦃ab : Absl⦄ where
    create_rsa_from_jwk-ok :
        (n e : Bytes)
        → (create_rsa_from_jwk n e with_status).1.status ≡ ok
        → (create_rsa_from_jwk n e with_status).0 ≢ none
    unfolding create_rsa_from_jwk update_status
    create_rsa_from_jwk-ok n e h k = ground arith

    create_ec_key_from_jwk_ec-ok :
        (nid : ℕ) (x y : Bytes)
        → (create_ec_key_from_jwk_ec nid x y with_status).1.status ≡ ok
        → (create_ec_key_from_jwk_ec nid x y with_status).0 ≢ none
    unfolding create_ec_key_from_jwk_ec update_status
    create_ec_key_from_jwk_ec-ok nid x y h k = ground arith

    create_raw_key_from_jwk_okp-ok :
        (n : ℕ) (x : Bytes)
        → (create_raw_key_from_jwk_okp n x with_status).1.status ≡ ok
        → length (create_raw_key_from_jwk_okp n x with_status).0 ≡ n
    unfolding create_raw_key_from_jwk_okp update_status
    create_raw_key_from_jwk_okp-ok n x h = ground arith

    module _ ⦃pb : Protobuf⦄ (m : pb.Struct) (jwk : Pubkey) where
      extract_jwk_from_jwk_rsa-Gives :
          jwk.kty ≡ bytes "RSA" → Gives IsUsable (extract_jwk_from_jwk_rsa m jwk)
      unfolding extract_jwk_from_jwk_rsa is_ok
      extract_jwk_from_jwk_rsa-Gives kty = guard-Gives IsUsable _ jwk _ _ refl (
          require_string-Gives IsUsable m (bytes "n") _ _ jwk _ refl refl λ n.
            require_string-Gives IsUsable m (bytes "e") _ _ jwk _ refl refl
              λ e h. rsa_key kty (create_rsa_from_jwk-ok n e h))

      extract_point-Gives :
          (nid : ℕ) → jwk.kty ≡ bytes "EC" → Gives IsUsable (extract_point m nid jwk)
      unfolding extract_point is_ok
      extract_point-Gives nid kty =
          require_string-Gives IsUsable m (bytes "x") _ _ jwk _ refl refl λ x.
            require_string-Gives IsUsable m (bytes "y") _ _ jwk _ refl refl
              λ y h. ec_key kty (create_ec_key_from_jwk_ec-ok nid x y h)

      extract_jwk_from_jwk_oct-Gives :
          jwk.kty ≡ bytes "oct" → Gives IsUsable (extract_jwk_from_jwk_oct m jwk)
      unfolding extract_jwk_from_jwk_oct is_ok
      extract_jwk_from_jwk_oct-Gives kty = guard-Gives IsUsable _ jwk _ _ refl (
          require_string-Gives IsUsable m (bytes "k") _ _ jwk _ refl refl
            λ k. decoded (ab.web_safe_base64_unescape k))
        where
          decoded :
              (r : Bool × Bytes)
              → Gives IsUsable (
                  if not r.0 || is_empty r.1
                  then (jwk, jwks_oct_bad_base64)
                  else (record jwk { hmac_key = r.1 }, ok))
          decoded (false, key) = fails-Gives IsUsable jwk _ refl
          decoded (true, []) = fails-Gives IsUsable jwk _ refl
          decoded (true, c ∷ key) = λ h. oct_key kty refl

      extract_jwk_from_jwk_okp-Gives :
          jwk.kty ≡ bytes "OKP" → Gives IsUsable (extract_jwk_from_jwk_okp m jwk)
      unfolding extract_jwk_from_jwk_okp is_ok
      extract_jwk_from_jwk_okp-Gives kty = guard-Gives IsUsable _ jwk _ _ refl (
          require_string-Gives IsUsable m (bytes "crv") _ _ jwk _ refl refl λ c.
            guard_off-Gives IsUsable (not (c =ᵇ bytes "Ed25519")) (record jwk { crv = c }) _ _ refl
              λ off.
                let crv : c ≡ bytes "Ed25519" = ground (arith, eq_iff c (bytes "Ed25519")) in
                require_string-Gives IsUsable m (bytes "x") _ _ (record jwk { crv = c }) _ refl refl
                  λ x h.
                    okp_key kty crv (create_raw_key_from_jwk_okp-ok ssl.ed25519_public_key_len x h))

    module _ ⦃pb : Protobuf⦄ (m : pb.Struct) where
      curve_of-Gives :
          (jwk : Pubkey) (crv : Bytes) (curve : Option (ℕ × Bytes))
          → jwk.kty ≡ bytes "EC"
          → Gives IsUsable (elim curve [
            | none ↦ (record jwk { crv = crv }, jwks_ec_key_alg_or_crv_unsupported)
            | some (nid, name) ↦ extract_point m nid (record jwk { crv = name })
          ])
      unfolding is_ok
      curve_of-Gives jwk crv none kty = fails-Gives IsUsable (record jwk { crv = crv }) _ refl
      curve_of-Gives jwk crv (some (nid, name)) kty =
          extract_point-Gives m (record jwk { crv = name }) nid kty

      extract_curve-Gives :
          (jwk : Pubkey) → jwk.kty ≡ bytes "EC" → Gives IsUsable (extract_curve m jwk)
      unfolding extract_curve is_ok
      extract_curve-Gives jwk kty =
          let crv = if is_empty jwk.alg && is_empty jwk.crv then bytes "P-256" else jwk.crv in
          guard-Gives IsUsable
            (not (is_empty jwk.alg)
              && not (is_empty jwk.crv)
              && not (is_compatible jwk.alg jwk.crv))
            jwk jwks_ec_key_alg_not_compatible_with_crv _ refl
            (curve_of-Gives jwk crv (curve_of jwk.alg crv) kty)

      extract_jwk_from_jwk_ec-Gives :
          (jwk : Pubkey) → jwk.kty ≡ bytes "EC" → Gives IsUsable (extract_jwk_from_jwk_ec m jwk)
      unfolding extract_jwk_from_jwk_ec is_ok
      extract_jwk_from_jwk_ec-Gives jwk kty =
          let (code, crv_str) = get_string m (bytes "crv") [] in
          guard-Gives IsUsable
            (not (is_empty jwk.alg)
              && (ltb (length jwk.alg) 2 || not (has_prefix_of_length 2 (bytes "ES") jwk.alg)))
            jwk jwks_ec_key_bad_alg _ refl
            (guard-Gives IsUsable (is_wrong_type code) jwk jwks_ec_key_bad_crv _ refl (
              extract_curve-Gives (record jwk { crv = if is_missing code then [] else crv_str })
                kty))

      extract_by_kty-Gives : (jwk : Pubkey) → Gives IsUsable (extract_by_kty m jwk)
      unfolding extract_by_kty is_ok
      extract_by_kty-Gives jwk = elim (Bool-cases (jwk.kty =ᵇ bytes "EC")) [
        | inl e ↦ rw e (extract_jwk_from_jwk_ec-Gives jwk ((eq_iff _ _).0 e))
        | inr e ↦ rw e (elim (Bool-cases (jwk.kty =ᵇ bytes "RSA")) [
          | inl f ↦ rw f (extract_jwk_from_jwk_rsa-Gives m jwk ((eq_iff _ _).0 f))
          | inr f ↦ rw f (elim (Bool-cases (jwk.kty =ᵇ bytes "oct")) [
            | inl g ↦ rw g (extract_jwk_from_jwk_oct-Gives m jwk ((eq_iff _ _).0 g))
            | inr g ↦ rw g (elim (Bool-cases (jwk.kty =ᵇ bytes "OKP")) [
              | inl k ↦ rw k (extract_jwk_from_jwk_okp-Gives m jwk ((eq_iff _ _).0 k))
              | inr k ↦ rw k (fails-Gives IsUsable jwk _ refl)
            ])
          ])
        ])
      ]

      -- An entry of a key set that can be extracted gives a key that can be used.
      pub extract_jwk-IsUsable :
          (jwk : Pubkey) → (extract_jwk m jwk).1 ≡ ok → IsUsable (extract_jwk m jwk).0
      unfolding extract_jwk is_ok
      extract_jwk-IsUsable jwk =
          let (code, kty) = get_string m (bytes "kty") jwk.kty in
          guard-Gives IsUsable (is_missing code) jwk jwks_missing_kty _ refl (
            guard-Gives IsUsable (is_wrong_type code) jwk jwks_bad_kty _ refl (
              extract_by_kty-Gives (record jwk {
                kty = kty;
                kid = (get_string m (bytes "kid") jwk.kid).1;
                alg = (get_string m (bytes "alg") jwk.alg).1;
              })))
