-- ===== src/Jwks/Invariant.antt =====
-- Which operations of src/jwks.cc that make a set of keys, or add one, leave usable keys only.
use jwt_verify_lib.Prelude.{
  ◌≡◌, ◌≢◌, refl, Bool, true, false, none, List, [], ◌∷◌, ◌++◌, arith, Bytes, bytes, not,
  if◌then◌else◌, Bool-cases, Option-cases, is_empty, All, All-append, inl, inr, ◌⊎◌, ◌∙◌, subst,
}
use jwt_verify_lib.Status.{jwks_bad_keys, ok, is_ok}
use jwt_verify_lib.Status.Laws.{is_ok_iff}
use jwt_verify_lib.External.Protobuf.{Protobuf, Kind, struct_value, list_value}
use jwt_verify_lib.External.Absl.{Absl}
use jwt_verify_lib.External.Ssl.{Ssl, GetKeyLaw}
use jwt_verify_lib.Jwks.{
  Jwks, Pubkey, new_pubkey, new_jwks, KeyFormat, jwks, pem, extract_jwk, extract_x509,
  create_from_x509, string_or_empty, add_kind, add_entry, add_entries, close_entries,
  create_from_pem_core, create_from_message, should_check_x509, create_from_jwks_core, create_from,
  add_key_from_pem, fail,
}
use jwt_verify_lib.Jwks.Pem.{named, create_from_pem_core-IsOneOrFailed, add_key_from_pem-cases}
use jwt_verify_lib.Jwks.Usable.{
  IsOther, IsLabel, IsUsable, rsa_key, ec_key, oct_key, okp_key, extract_jwk-IsUsable,
}

module _ ⦃ssl : Ssl⦄ where
  -- The keys that the set holds can be used.
  abbrev pub AreUsable : Jwks → Type 0
  AreUsable j = All IsUsable j.keys

  if-AreUsable :
      (b : Bool) (i j : Jwks) → AreUsable i → AreUsable j → AreUsable (if b then i else j)
  if-AreUsable true i j h k = h
  if-AreUsable false i j h k = k

  module _ ⦃pb : Protobuf⦄ ⦃ab : Absl⦄ where
    open pb use {Struct, Value, Double, kind, fields}

    add_kind-AreUsable :
        (k : Kind Struct Value Double) (j : Jwks) → AreUsable j → AreUsable (add_kind k j)
    unfolding add_kind
    add_kind-AreUsable (struct_value s) j h =
        elim (Bool-cases (is_ok (extract_jwk s new_pubkey).1)) [
          | inl e ↦ rw e (
              All-append IsUsable j.keys _ h
                (extract_jwk-IsUsable s new_pubkey ((is_ok_iff _).0 e), tt))
          | inr e ↦ rw e h
        ]
    add_kind-AreUsable _ j h = h

    add_entries-AreUsable :
        (vs : List Value) (j : Jwks) → AreUsable j → AreUsable (add_entries vs j)
    unfolding add_entries add_entry
    add_entries-AreUsable [] j h = h
    add_entries-AreUsable (v ∷ vs) j h =
        add_entries-AreUsable vs (add_entry v j) (add_kind-AreUsable (kind v) j h)

    close_entries-AreUsable : (j : Jwks) → AreUsable j → AreUsable (close_entries j)
    unfolding close_entries
    close_entries-AreUsable j h = if-AreUsable (is_empty j.keys) _ _ h h

    extract_x509-ok :
        (text : Bytes) (k : Pubkey)
        → (extract_x509 text k).1 ≡ ok
        → (extract_x509 text k).0.rsa ≢ none
    unfolding extract_x509
    extract_x509-ok text k h e = ground arith

    create_from_x509-AreUsable :
        (fs : List (Bytes × Value)) (keys : List Pubkey)
        → All IsUsable keys
        → All IsUsable (create_from_x509 fs keys).0
    unfolding create_from_x509
    create_from_x509-AreUsable [] keys h = h
    create_from_x509-AreUsable ((name, v) ∷ fs) keys h =
        let r = extract_x509 (string_or_empty (kind v)) new_pubkey in
        elim (Bool-cases (is_ok r.1)) [
          | inl e ↦ rw e (
              create_from_x509-AreUsable fs
                (keys ++ record r.0 { kid = name; kty = bytes "RSA" } ∷ [])
                (All-append IsUsable keys _ h (
                  rsa_key refl
                      (extract_x509-ok (string_or_empty (kind v)) new_pubkey ((is_ok_iff _).0 e)),
                  tt,
                )))
          | inr e ↦ rw e h
        ]

    of_value-AreUsable :
        (k : Kind Struct Value Double) (j : Jwks)
        → AreUsable j
        → AreUsable (elim k [
          | list_value values ↦ close_entries (add_entries values j)
          | _ ↦ fail jwks_bad_keys j
        ])
    of_value-AreUsable (list_value values) j h =
        close_entries-AreUsable (add_entries values j) (add_entries-AreUsable values j h)
    of_value-AreUsable _ j h = h

    create_from_message-AreUsable :
        (m : Struct) (j : Jwks) → AreUsable j → AreUsable (create_from_message m j)
    unfolding create_from_message
    create_from_message-AreUsable m j h = elim (Option-cases (pb.find m (bytes "keys"))) [
      | inl e ↦
          rw (e, create_from_message)
            (if-AreUsable (should_check_x509 m) _ _ (create_from_x509-AreUsable (fields m) j.keys h)
              h)
      | inr (v, e) ↦ rw (e, create_from_message) (of_value-AreUsable (kind v) j h)
    ]

    create_from_jwks_core-AreUsable :
        (text : Bytes) (j : Jwks) → AreUsable (create_from_jwks_core text j)
    unfolding create_from_jwks_core
    create_from_jwks_core-AreUsable text j =
        let (parsed, m) = pb.json_string_to_message text pb.empty_struct in
        if-AreUsable (not parsed) _ _ tt
          (create_from_message-AreUsable m (record j { keys = [] }) tt)

    -- Where OpenSSL returns the RSA and EC keys of its `EVP_PKEY` objects, every key of a set that is
    -- made from a text, in JSON or PEM, can be used: it holds what the verification with its type
    -- reads, also where the status of the set is a failure.
    pub create_from-AreUsable :
        (law : GetKeyLaw ssl) (text : Bytes) (format : KeyFormat)
        → AreUsable (create_from text format)
    unfolding create_from
    create_from-AreUsable law text jwks = create_from_jwks_core-AreUsable text new_jwks
    create_from-AreUsable law text pem = elim (create_from_pem_core-IsOneOrFailed law text) [
      | inl (k, usable, _, e) ↦ rw e ((usable, tt))
      | inr (e, _) ↦ rw e tt
    ]

  -- A key with names can still be used, if it keeps its curve or is of another type.
  named-IsUsable :
      (kid alg crv : Bytes) (k : Pubkey)
      → (k.kty ≢ bytes "OKP") ⊎ (crv ≡ k.crv)
      → IsUsable k
      → IsUsable (named kid alg crv k)
  named-IsUsable kid alg crv k h (rsa_key e f) = rsa_key e f
  named-IsUsable kid alg crv k h (ec_key e f) = ec_key e f
  named-IsUsable kid alg crv k h (oct_key e f) = oct_key e f
  named-IsUsable kid alg crv k (inl far) (okp_key e c f) = absurd (far e)
  named-IsUsable kid alg crv k (inr same) (okp_key e c f) = okp_key e (same ∙ c) f

  -- The algorithm is none of ES256, ES384 and ES512, or the text gives no key of type "OKP".
  abbrev pub KeepsCurve : Bytes → Bytes → Type 0
  KeepsCurve text alg =
      IsOther alg ⊎ All (λ k. k.kty ≢ bytes "OKP") (create_from_pem_core text new_jwks).keys

  label_kept :
      (text alg crv : Bytes) (k : Pubkey)
      → KeepsCurve text alg
      → (create_from_pem_core text new_jwks).keys ≡ k ∷ []
      → IsLabel alg k.crv crv
      → (k.kty ≢ bytes "OKP") ⊎ (crv ≡ k.crv)
  label_kept text alg crv k (inr far) e l = inl (subst (All (λ i. i.kty ≢ bytes "OKP")) e far).0
  label_kept text alg crv k (inl (n, m, o)) e (inl (inl (i, _))) = absurd (n i)
  label_kept text alg crv k (inl (n, m, o)) e (inl (inr (inl (i, _)))) = absurd (m i)
  label_kept text alg crv k (inl (n, m, o)) e (inl (inr (inr (i, _)))) = absurd (o i)
  label_kept text alg crv k (inl _) e (inr (_, same)) = inr same

  -- Where OpenSSL returns the RSA and EC keys of its `EVP_PKEY` objects, and where the algorithm is
  -- none of ES256, ES384 and ES512 or the text gives no key of type "OKP", adding a PEM key to a set
  -- of usable keys leaves a set of usable keys.
  pub add_key_from_pem-AreUsable :
      (law : GetKeyLaw ssl) (text kid alg : Bytes) (j : Jwks)
      → KeepsCurve text alg
      → AreUsable j
      → AreUsable (add_key_from_pem text kid alg j).0
  add_key_from_pem-AreUsable law text kid alg j keeps h =
      elim (add_key_from_pem-cases law text kid alg j) [
        | inl (k, crv, only, _, usable, label, e) ↦
            let kept = label_kept text alg crv k keeps only label in
            rw e (All-append IsUsable j.keys _ h (named-IsUsable kid alg crv k kept usable, tt))
        | inr (_, _, e) ↦ rw e h
      ]
