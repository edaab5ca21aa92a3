-- ===== src/Verify/Search.antt =====
-- The search for a key: when it succeeds, and when no key fits.
use jwt_verify_lib.Prelude.{
  ◌++◌, ◌≡◌, ◌≢◌, ◌↔◌, ◌⊎◌, inl, inr, refl, Bool, true, false, List, [], ◌∷◌, none, some, Bytes,
  All, Some, Bool-cases, Option-cases, arith,
}
use jwt_verify_lib.Status.{Status, ok, jwt_ed25519_signature_wrong_length, jwks_kid_alg_mismatch}
use jwt_verify_lib.External.Protobuf.{Protobuf}
use jwt_verify_lib.External.Ssl.{Ssl}
use jwt_verify_lib.Jwt.{Jwt}
use jwt_verify_lib.Jwks.{Pubkey}
use jwt_verify_lib.Verify.{
  is_key_for, check_signature, verify_keys, signed_data_of, verify_jwt_without_time_checking,
}
use jwt_verify_lib.Verify.Keys.{
  IsKeyFor, SignedBy, HasWrongLength, is_key_for_iff, check_sound, check_complete,
  check_signature-eq-some, check_wrong_length,
}

module _ ⦃pb : Protobuf⦄ ⦃ssl : Ssl⦄ where
  open ssl use {ed25519_signature_len}

  -- Some key may be used for the token and has signed it.
  abbrev pub HasSigner : Jwt → List Pubkey → Type 0
  HasSigner jwt keys = Some (λ k. IsKeyFor jwt k × SignedBy jwt (signed_data_of jwt) k) keys

  keys_sound :
      (jwt : Jwt) (keys : List Pubkey) (matched : Bool)
      → verify_keys jwt (signed_data_of jwt) keys matched ≡ ok
      → HasSigner jwt keys
  unfolding verify_keys
  keys_sound jwt [] matched h = absurd (ground arith)
  keys_sound jwt (k ∷ keys) matched h = elim (Bool-cases (is_key_for jwt k)) [
    | inr e ↦ inr (keys_sound jwt keys matched (ground arith))
    | inl e ↦ elim (Option-cases (check_signature jwt (signed_data_of jwt) k)) [
      | inl c ↦ inr (keys_sound jwt keys true (ground arith))
      | inr (status, c) ↦
          inl ((is_key_for_iff jwt k).0 e, check_sound jwt (signed_data_of jwt) k (ground arith))
    ]
  ]

  -- No key that may be used for the token stops the search on the length of the signature.
  abbrev pub IsUninterrupted : Jwt → List Pubkey → Type 0
  IsUninterrupted jwt keys = All (λ k. ¬ (IsKeyFor jwt k × HasWrongLength jwt k)) keys

  keys_complete :
      (jwt : Jwt) (keys : List Pubkey) (matched : Bool)
      → IsUninterrupted jwt keys
      → HasSigner jwt keys
      → verify_keys jwt (signed_data_of jwt) keys matched ≡ ok
  unfolding verify_keys
  keys_complete jwt [] matched l h = elim h [ ]
  keys_complete jwt (k ∷ keys) matched (l, ls) (inl (for, signed)) =
      rw ((is_key_for_iff jwt k).1 for, verify_keys)
        (rw (check_complete jwt (signed_data_of jwt) k signed, verify_keys) refl)
  keys_complete jwt (k ∷ keys) matched (l, ls) (inr later) = elim (Bool-cases (is_key_for jwt k)) [
    | inr e ↦ rw (e, verify_keys) (keys_complete jwt keys matched ls later)
    | inl e ↦ elim (Option-cases (check_signature jwt (signed_data_of jwt) k)) [
      | inl c ↦ rw (e, c, verify_keys) (keys_complete jwt keys true ls later)
      | inr (status, c) ↦ elim (check_signature-eq-some jwt (signed_data_of jwt) k status c) [
        | inl good ↦ rw (e, c, verify_keys) good
        | inr (_, wrong) ↦ absurd (l ((is_key_for_iff jwt k).0 e, wrong))
      ]
    ]
  ]

  -- Where no key for the token stops the search on the length of an Ed25519 signature, a token
  -- passes exactly if some key that may be used for it has signed it.
  pub verify_jwt_without_time_checking-ok_iff :
      (jwt : Jwt) (keys : List Pubkey)
      → IsUninterrupted jwt keys
      → (verify_jwt_without_time_checking jwt keys ≡ ok) ↔ HasSigner jwt keys
  unfolding verify_jwt_without_time_checking
  verify_jwt_without_time_checking-ok_iff jwt keys h =
      (keys_sound jwt keys false, keys_complete jwt keys false h)

  -- A token passes only if some key that may be used for it has signed it, whatever the keys.
  pub verify_jwt_without_time_checking_sound :
      (jwt : Jwt) (keys : List Pubkey)
      → verify_jwt_without_time_checking jwt keys ≡ ok
      → HasSigner jwt keys
  unfolding verify_jwt_without_time_checking
  verify_jwt_without_time_checking_sound jwt keys = keys_sound jwt keys false

  -- Behind keys that may not be used for the token, an Ed25519 key that may be used ends the
  -- search with the length error where the signature does not have the length of Ed25519, even
  -- where a later key has signed the token.
  pub verify_jwt_without_time_checking-wrong_length :
      (jwt : Jwt) (before : List Pubkey) (k : Pubkey) (keys : List Pubkey)
      → All (λ b. ¬ IsKeyFor jwt b) before
      → IsKeyFor jwt k
      → HasWrongLength jwt k
      → verify_jwt_without_time_checking jwt (before ++ k ∷ keys)
        ≡ jwt_ed25519_signature_wrong_length
  unfolding verify_jwt_without_time_checking verify_keys
  verify_jwt_without_time_checking-wrong_length jwt [] k keys tt f w =
      let usable = (is_key_for_iff jwt k).1 f in
      let stops = check_wrong_length jwt (signed_data_of jwt) k w in
      rw (usable, verify_keys) (rw (stops, verify_keys) refl)
  verify_jwt_without_time_checking-wrong_length jwt (b ∷ before) k keys (n, ns) f w =
      elim (Bool-cases (is_key_for jwt b)) [
        | inl e ↦ absurd (n ((is_key_for_iff jwt b).0 e))
        | inr e ↦
            rw (e, verify_keys)
              (verify_jwt_without_time_checking-wrong_length jwt before k keys ns f w)
      ]

  matched-ne-mismatch :
      (jwt : Jwt) (text : Bytes) (keys : List Pubkey)
      → verify_keys jwt text keys true ≢ jwks_kid_alg_mismatch
  unfolding verify_keys
  matched-ne-mismatch jwt text [] e = ground arith
  matched-ne-mismatch jwt text (k ∷ keys) e = elim (Bool-cases (is_key_for jwt k)) [
    | inr f ↦ matched-ne-mismatch jwt text keys (rw (f, verify_keys) at e)
    | inl f ↦ elim (Option-cases (check_signature jwt text k)) [
      | inl c ↦ matched-ne-mismatch jwt text keys (rw (f, c, verify_keys) at e)
      | inr (status, c) ↦
          let outcome = check_signature-eq-some jwt text k status c in
          let same : status ≡ jwks_kid_alg_mismatch = rw (f, c, verify_keys) at e in ground arith
    ]
  ]

  unmatched_iff :
      (jwt : Jwt) (text : Bytes) (keys : List Pubkey)
      → (verify_keys jwt text keys false ≡ jwks_kid_alg_mismatch) ↔ All (λ k. ¬ IsKeyFor jwt k) keys
  unfolding verify_keys
  unmatched_iff jwt text [] = (λ _. tt, λ _. refl)
  unmatched_iff jwt text (k ∷ keys) = elim (Bool-cases (is_key_for jwt k)) [
    | inr e ↦
        let rest = unmatched_iff jwt text keys in
        let other : ¬ IsKeyFor jwt k = λ f. cc ((is_key_for_iff jwt k).1 f) in
        rw (e, verify_keys) ((λ m. (other, rest.0 m), λ a. rest.1 a.1))
    | inl e ↦ (
      λ m. absurd (matched m e (Option-cases (check_signature jwt text k))),
      λ a. absurd (a.0 ((is_key_for_iff jwt k).0 e)),
    )
  ]
    where
      matched :
          verify_keys jwt text (k ∷ keys) false ≡ jwks_kid_alg_mismatch
          → is_key_for jwt k ≡ true
          → (check_signature jwt text k ≡ none)
            ⊎ ((status : Status) × (check_signature jwt text k ≡ some status))
          → ⊥
      matched m e (inl c) = matched-ne-mismatch jwt text keys (rw (e, c, verify_keys) at m)
      matched m e (inr (status, c)) =
          let outcome = check_signature-eq-some jwt text k status c in
          let same : status ≡ jwks_kid_alg_mismatch = rw (e, c, verify_keys) at m in ground arith

  -- The status says that no key fits the token's key id and algorithm exactly if none does.
  pub verify_jwt_without_time_checking-mismatch_iff :
      (jwt : Jwt) (keys : List Pubkey)
      → (verify_jwt_without_time_checking jwt keys ≡ jwks_kid_alg_mismatch)
        ↔ All (λ k. ¬ IsKeyFor jwt k) keys
  unfolding verify_jwt_without_time_checking
  verify_jwt_without_time_checking-mismatch_iff jwt keys =
      unmatched_iff jwt (signed_data_of jwt) keys
