-- ===== src/Jwks/Curve.antt =====
-- The curve of an EC key and its algorithm (src/jwks.cc, `extractJwkFromJwkEC`).
use jwt_verify_lib.Prelude.{
  ℕ, ◌≡◌, ◌≢◌, ◌∷◌, Option, List, ◌↔◌, ◌⊎◌, refl, true, false, not, ◌&&◌, ◌||◌, none, some, [],
  Bytes, bytes, eq_iff, is_empty, ltb, length, has_prefix_of_length, if◌then◌else◌, arith,
}
use jwt_verify_lib.Status.{
  ok, is_ok, with_status, jwks_ec_key_bad_alg, jwks_ec_key_bad_crv,
  jwks_ec_key_alg_not_compatible_with_crv, jwks_ec_key_alg_or_crv_unsupported,
}
use jwt_verify_lib.External.Protobuf.{Protobuf}
use jwt_verify_lib.External.Absl.{Absl}
use jwt_verify_lib.External.Ssl.{Ssl}
use jwt_verify_lib.StructUtils.{is_missing, is_wrong_type, get_string}
use jwt_verify_lib.Jwks.{
  Pubkey, require_string, create_ec_key_from_jwk_ec, is_compatible, curve_of, extract_point,
  extract_curve, extract_jwk_from_jwk_ec,
}
use jwt_verify_lib.Jwks.Usable.{IsAlgCurve, guard_off-Gives, Gives, fails-Gives, guard-Gives}

module _ ⦃ssl : Ssl⦄ ⦃ab : Absl⦄ ⦃pb : Protobuf⦄ where
  open ssl use {nid_x9_62_prime256v1, nid_secp384r1, nid_secp521r1}

  -- The name of a curve, and the number that OpenSSL has for it.
  abbrev pub IsCurve : Bytes → ℕ → Type 0
  IsCurve crv nid =
      ((crv ≡ bytes "P-256") × (nid ≡ nid_x9_62_prime256v1))
      ⊎ ((crv ≡ bytes "P-384") × (nid ≡ nid_secp384r1))
      ⊎ ((crv ≡ bytes "P-521") × (nid ≡ nid_secp521r1))

  -- The curve of a key by its algorithm and the curve that its entry names, where empty names are
  -- missing: the one of the algorithm, and of the entry if it names one; else P-256.
  abbrev pub IsChosen : Bytes → Bytes → Bytes → Type 0
  IsChosen alg given crv =
      ((alg ≡ []) ⊎ IsAlgCurve alg crv)
      × ((given ≡ []) ⊎ (given ≡ crv))
      × ((alg ≢ []) ⊎ ((given ≢ []) ⊎ (crv ≡ bytes "P-256")))

  -- The curve that the entry names, empty if it names none.
  abbrev pub given_curve : pb.Struct → Bytes
  given_curve m =
      let (code, crv) = get_string m (bytes "crv") [] in if is_missing code then [] else crv

  -- The point of the entry on the curve with the number.
  abbrev pub point_of : pb.Struct → ℕ → Option ssl.EcKey
  point_of m nid =
      (create_ec_key_from_jwk_ec nid (get_string m (bytes "x") []).1 (get_string m (bytes "y") []).1
        with_status).0

  -- The key keeps the algorithm, and is the point of the entry on the chosen curve.
  abbrev pub HasCurve : pb.Struct → Bytes → Bytes → Pubkey → Type 0
  HasCurve m alg given k =
      (k.alg ≡ alg)
      × IsChosen alg given k.crv
      × ((nid : ℕ) × IsCurve k.crv nid × (k.ec_key ≡ point_of m nid))

  curve_of-IsCurve :
      (alg crv : Bytes) (nid : ℕ) (name : Bytes)
      → curve_of alg crv ≡ some (nid, name)
      → IsCurve name nid
  unfolding curve_of
  curve_of-IsCurve alg crv nid name e = ground arith

  -- The curve that the code goes on with, by the algorithm and the stored curve.
  abbrev chosen : Bytes → Bytes → Bytes
  chosen alg crv = if is_empty alg && is_empty crv then bytes "P-256" else crv

  empty_iff : {A : Type 0} → (xs : List A) → (is_empty xs ≡ true) ↔ (xs ≡ [])
  empty_iff [] = (λ _. refl, λ _. refl)
  empty_iff (x ∷ xs) = ground arith

  curve_of-IsChosen :
      (alg crv : Bytes) (nid : ℕ) (name : Bytes)
      → (not (is_empty alg) && not (is_empty crv) && not (is_compatible alg crv)) ≡ false
      → curve_of alg (chosen alg crv) ≡ some (nid, name)
      → IsChosen alg crv name
  unfolding curve_of is_compatible
  curve_of-IsChosen alg crv nid name h e = ground (
    arith,
    eq_iff alg (bytes "ES256"),
    eq_iff alg (bytes "ES384"),
    eq_iff alg (bytes "ES512"),
    eq_iff crv (bytes "P-256"),
    eq_iff crv (bytes "P-384"),
    eq_iff crv (bytes "P-521"),
    eq_iff (chosen alg crv) (bytes "P-256"),
    empty_iff alg,
    empty_iff crv,
  )

  extract_point-Gives :
      (m : pb.Struct) (nid : ℕ) (k : Pubkey) (alg given : Bytes)
      → k.alg ≡ alg
      → IsChosen alg given k.crv
      → IsCurve k.crv nid
      → Gives (HasCurve m alg given) (extract_point m nid k)
  unfolding extract_point require_string is_ok
  extract_point-Gives m nid k alg given h chosen curve =
      let P = HasCurve m alg given in
      guard-Gives P (is_missing (get_string m (bytes "x") []).0) k _ _ refl (
        guard-Gives P (is_wrong_type (get_string m (bytes "x") []).0) k _ _ refl (
          guard-Gives P (is_missing (get_string m (bytes "y") []).0) k _ _ refl (
            guard-Gives P (is_wrong_type (get_string m (bytes "y") []).0) k _ _ refl
              λ _. (h, chosen, (nid, curve, refl)))))

  by_curve-Gives :
      (m : pb.Struct) (k : Pubkey) (given : Bytes) (curve : Option (ℕ × Bytes))
      → ((nid : ℕ) (name : Bytes)
          → curve ≡ some (nid, name)
          → IsChosen k.alg given name × IsCurve name nid)
      → Gives (HasCurve m k.alg given) (elim curve [
        | none ↦ (record k { crv = chosen k.alg k.crv }, jwks_ec_key_alg_or_crv_unsupported)
        | some (nid, name) ↦ extract_point m nid (record k { crv = name })
      ])
  unfolding is_ok
  by_curve-Gives m k given none h =
      fails-Gives (HasCurve m k.alg given) (record k { crv = chosen k.alg k.crv }) _ refl
  by_curve-Gives m k given (some (nid, name)) h =
      let (picked, curve) = h nid name refl in
      extract_point-Gives m nid (record k { crv = name }) k.alg given refl picked curve

  extract_curve-Gives :
      (m : pb.Struct) (k : Pubkey) → Gives (HasCurve m k.alg k.crv) (extract_curve m k)
  unfolding extract_curve is_ok
  extract_curve-Gives m k =
      guard_off-Gives (HasCurve m k.alg k.crv)
        (not (is_empty k.alg) && not (is_empty k.crv) && not (is_compatible k.alg k.crv)) k
        jwks_ec_key_alg_not_compatible_with_crv _ refl
        λ off. by_curve-Gives m k k.crv (curve_of k.alg (chosen k.alg k.crv)) λ nid name e. (
          curve_of-IsChosen k.alg k.crv nid name off e,
          curve_of-IsCurve k.alg (chosen k.alg k.crv) nid name e,
        )

  -- An EC entry that can be extracted gives a key with the algorithm that it had, on the right curve:
  -- where the algorithm is not empty, the curve is the algorithm's (P-256 for ES256, P-384 for ES384,
  -- P-521 for ES512); where the entry names a curve, it is that one; where there is neither, it is
  -- P-256. The EC key is what the code makes of the entry's "x" and "y" on the curve with OpenSSL's
  -- number for that name.
  pub extract_jwk_from_jwk_ec-HasCurve :
      (m : pb.Struct) (k : Pubkey)
      → (extract_jwk_from_jwk_ec m k).1 ≡ ok
      → HasCurve m k.alg (given_curve m) (extract_jwk_from_jwk_ec m k).0
  unfolding extract_jwk_from_jwk_ec is_ok
  extract_jwk_from_jwk_ec-HasCurve m k =
      let P = HasCurve m k.alg (given_curve m) in
      guard-Gives P
        (not (is_empty k.alg)
          && (ltb (length k.alg) 2 || not (has_prefix_of_length 2 (bytes "ES") k.alg)))
        k jwks_ec_key_bad_alg _ refl
        (guard-Gives P (is_wrong_type (get_string m (bytes "crv") []).0) k jwks_ec_key_bad_crv _
          refl (extract_curve-Gives m (record k { crv = given_curve m })))
