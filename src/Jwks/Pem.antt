-- ===== src/Jwks/Pem.antt =====
-- Keys from a PEM text (src/jwks.cc): the two outcomes of a creation, and what an addition does to
-- a set.
use jwt_verify_lib.Prelude.{
  ℕ, ◌≡◌, ◌≢◌, ◌⊎◌, inl, inr, refl, sym, ◌∙◌, Bool, true, false, none, some, [], ◌∷◌, ◌++◌, arith,
  Bytes, bytes, not, if◌then◌else◌, Option-cases, length, ◌==◌, ==_iff, eq_iff, ap, ◌||◌, ◌&&◌,
}
use mathlib.Core.Bool.{false≢true}
use jwt_verify_lib.Status.{
  ok, is_ok, WithStatus, with_status, update_status, jwks_pem_get_raw_ed25519_error,
}
use jwt_verify_lib.Status.Laws.{is_ok_iff}
use jwt_verify_lib.External.Ssl.{Ssl, GetKeyLaw}
use jwt_verify_lib.Jwks.{
  Jwks, Pubkey, new_pubkey, new_jwks, push_pem_key, push_key, create_from_pem_core, create_from_pem,
  name_pem_key, add_key_from_pem, create_evp_pkey_from_pem, crv_of_alg, fail,
}
use jwt_verify_lib.Jwks.Usable.{IsLabel, IsUsable, rsa_key, ec_key, okp_key}

module _ ⦃ssl : Ssl⦄ where
  open ssl use {
    Bio, bio_new_mem_buf, pem_read_bio_pubkey, EvpPkey, evp_pkey_id, evp_pkey_rsa, evp_pkey_ec,
    evp_pkey_get1_rsa, evp_pkey_get1_ec_key, evp_pkey_get_raw_public_key, ed25519_public_key_len,
    boringssl_fips, evp_pkey_ed25519,
  }

  -- The key with the names that the caller gives, and a curve.
  abbrev pub named : Bytes → Bytes → Bytes → Pubkey → Pubkey
  named kid alg crv k = record k { kid = kid; alg = alg; crv = crv }

  -- The key has the type of OpenSSL's object and what OpenSSL returns for it.
  abbrev pub IsOf : EvpPkey → Pubkey → Type 0
  IsOf evp k =
      ((evp_pkey_id evp ≡ evp_pkey_rsa) × (k.kty ≡ bytes "RSA") × (k.rsa ≡ evp_pkey_get1_rsa evp))
      ⊎ ((evp_pkey_id evp ≡ evp_pkey_ec)
          × (k.kty ≡ bytes "EC")
          × (k.ec_key ≡ evp_pkey_get1_ec_key evp))
      ⊎ ((evp_pkey_id evp ≡ evp_pkey_ed25519)
          × (k.kty ≡ bytes "OKP")
          × (evp_pkey_get_raw_public_key evp ≡ (1, k.okp_key_raw)))

  -- The key is of the object that OpenSSL reads from the text.
  abbrev pub IsIn : Bytes → Pubkey → Type 0
  IsIn text k =
      (b : Bio) × (evp : EvpPkey) × (bio_new_mem_buf text ≡ some b)
      × (pem_read_bio_pubkey b ≡ some evp)
      × IsOf evp k

  -- A set with one usable key with the property, or an empty one that has failed.
  abbrev IsOneOrFailed : (Pubkey → Type 0) → Jwks → Type 0
  IsOneOrFailed P j =
      ((k : Pubkey) × IsUsable k × P k × (j ≡ record { keys = k ∷ []; base = with_status }))
      ⊎ ((j.keys ≡ []) × (is_ok j.base.status ≡ false))

  if_intro :
      (P : Jwks → Type 0) (b : Bool) (i j : Jwks)
      → (b ≡ true → P i)
      → (b ≡ false → P j)
      → P (if b then i else j)
  if_intro P true i j h k = h refl
  if_intro P false i j h k = k refl

  is_one : (n : ℕ) (fits : Bool) → (not (n == 1) || not fits) ≡ false → n ≡ 1
  is_one n fits e = ground arith

  module _ (law : GetKeyLaw ssl) where
    push_pem_key-IsOneOrFailed : (k : EvpPkey) → IsOneOrFailed (IsOf k) (push_pem_key k new_jwks)
    unfolding push_pem_key update_status is_ok
    push_pem_key-IsOneOrFailed k =
        if_intro (IsOneOrFailed (IsOf k)) (evp_pkey_id k == evp_pkey_rsa) _ _
          (λ e.
            let (r, held) = law.0 k ((==_iff _ _).0 e) in
            inl (
              record new_pubkey { kty = bytes "RSA"; rsa = evp_pkey_get1_rsa k },
              rsa_key refl (λ n. ground arith),
              inl ((==_iff _ _).0 e, refl, refl),
              refl,
            ))
          λ _.
            if_intro (IsOneOrFailed (IsOf k)) (evp_pkey_id k == evp_pkey_ec) _ _
              (λ e.
                let (r, held) = law.1 k ((==_iff _ _).0 e) in
                inl (
                  record new_pubkey { kty = bytes "EC"; ec_key = evp_pkey_get1_ec_key k },
                  ec_key refl (λ n. ground arith),
                  inr (inl ((==_iff _ _).0 e, refl, refl)),
                  refl,
                ))
              λ _.
                if_intro (IsOneOrFailed (IsOf k))
                  (not boringssl_fips && evp_pkey_id k == evp_pkey_ed25519) _ _
                  (λ e. raw (ground arith) (evp_pkey_get_raw_public_key k) refl)
                  λ _. inr (refl, refl)
      where
        raw :
            evp_pkey_id k ≡ evp_pkey_ed25519
            → (r : ℕ × Bytes) → evp_pkey_get_raw_public_key k ≡ r
            → IsOneOrFailed (IsOf k) (
                if not (r.0 == 1) || not (length r.1 == ed25519_public_key_len)
                then fail jwks_pem_get_raw_ed25519_error new_jwks
                else push_key
                    (record new_pubkey {
                      kty = bytes "OKP";
                      crv = bytes "Ed25519";
                      okp_key_raw = r.1;
                    })
                    new_jwks)
        raw i r q =
            if_intro (IsOneOrFailed (IsOf k))
              (not (r.0 == 1) || not (length r.1 == ed25519_public_key_len)) _ _
              (λ _. inr (refl, refl))
              λ e. inl (
                _,
                okp_key refl refl (ground arith),
                inr (
                    inr (
                      i,
                      refl,
                      q ∙ ap (λ n. (n, r.1)) (is_one r.0 (length r.1 == ed25519_public_key_len) e),
                    )),
                refl,
              )

    -- The status of the getter is ok exactly if it returns a key.
    create_evp_pkey_from_pem-cases :
        (text : Bytes)
        → ((k : EvpPkey) × (b : Bio) × (bio_new_mem_buf text ≡ some b)
            × (pem_read_bio_pubkey b ≡ some k)
            × (create_evp_pkey_from_pem text with_status ≡ (some k, with_status)))
          ⊎ ((w : WithStatus) × (create_evp_pkey_from_pem text with_status ≡ (none, w))
              × (is_ok w.status ≡ false))
    unfolding create_evp_pkey_from_pem update_status is_ok
    create_evp_pkey_from_pem-cases text = elim (Option-cases (ssl.bio_new_mem_buf text)) [
      | inl e ↦ rw (e, create_evp_pkey_from_pem) (inr (_, refl, refl))
      | inr (b, e) ↦ (elim (Option-cases (ssl.pem_read_bio_pubkey b)) [
        | inl f ↦
            rw (e, create_evp_pkey_from_pem, f, create_evp_pkey_from_pem) (inr (_, refl, refl))
        | inr (k, f) ↦
            rw (e, create_evp_pkey_from_pem, f, create_evp_pkey_from_pem)
              (inl (k, b, refl, f, refl))
      ])
    ]

    pub create_from_pem_core-IsOneOrFailed :
        (text : Bytes) → IsOneOrFailed (IsIn text) (create_from_pem_core text new_jwks)
    unfolding create_from_pem_core update_status is_ok
    create_from_pem_core-IsOneOrFailed text = elim (create_evp_pkey_from_pem-cases text) [
      | inl (k, b, h, g, e) ↦
          rw (e, create_from_pem_core, e)
            (elim (push_pem_key-IsOneOrFailed k) [
              | inl (key, usable, of, q) ↦ inl (key, usable, (b, k, h, g, of), q)
              | inr failed ↦ inr failed
            ])
      | inr (w, e, f) ↦ rw (e, create_from_pem_core, e) (inr (refl, f))
    ]

    create_from_pem_lem :
        (text kid alg : Bytes) (k : Pubkey)
        → create_from_pem_core text new_jwks ≡ record { keys = k ∷ []; base = with_status }
        → create_from_pem text kid alg
          ≡ record { keys = named kid alg (crv_of_alg alg k.crv) k ∷ []; base = with_status }
    unfolding create_from_pem name_pem_key is_ok
    create_from_pem_lem text kid alg k e = rw e refl

    -- The code's choice of a curve is the one of the algorithm, or leaves the curve.
    crv_of_alg-IsLabel : (alg crv : Bytes) → IsLabel alg crv (crv_of_alg alg crv)
    unfolding crv_of_alg
    crv_of_alg-IsLabel alg crv =
        ground (
          arith,
          eq_iff alg (bytes "ES256"),
          eq_iff alg (bytes "ES384"),
          eq_iff alg (bytes "ES512"),
        )

    -- Where OpenSSL returns the RSA and EC keys of its `EVP_PKEY` objects, adding a PEM key to a set
    -- is all or nothing. Either the text gives one key, which has the type and the content of the
    -- object that OpenSSL reads from it, and can be used: then the status is `Ok`,
    -- and the set ends with that key, with the given key id and algorithm, and with the curve of the
    -- algorithm (P-256 for ES256, P-384 for ES384, P-521 for ES512), or, for every other algorithm,
    -- with the curve name that it has. Or the text gives none: then the status is the failure of
    -- reading it, and the set is as before.
    pub add_key_from_pem-cases :
        (text kid alg : Bytes) (j : Jwks)
        → ((k : Pubkey) × (crv : Bytes) × ((create_from_pem_core text new_jwks).keys ≡ k ∷ [])
            × IsIn text k
            × IsUsable k
            × IsLabel alg k.crv crv
            × (add_key_from_pem text kid alg j
                ≡ (record j { keys = j.keys ++ named kid alg crv k ∷ [] }, ok)))
          ⊎ (((create_from_pem_core text new_jwks).keys ≡ [])
              × ((create_from_pem_core text new_jwks).base.status ≢ ok)
              × (add_key_from_pem text kid alg j
                  ≡ (j, (create_from_pem_core text new_jwks).base.status)))
    unfolding add_key_from_pem create_from_pem is_ok
    add_key_from_pem-cases text kid alg j = elim (create_from_pem_core-IsOneOrFailed text) [
      | inl (k, usable, read, e) ↦ inl (
        k,
        crv_of_alg alg k.crv,
        ap (λ i. i.keys) e,
        read,
        usable,
        crv_of_alg-IsLabel alg k.crv,
        rw (create_from_pem_lem text kid alg k e) refl,
      )
      | inr (e, f) ↦ inr (
        e,
        (λ g. absurd (false≢true (sym f ∙ (is_ok_iff _).1 g))),
        rw (f, add_key_from_pem, f) refl,
      )
    ]
