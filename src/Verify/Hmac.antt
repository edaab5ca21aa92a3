-- ===== src/Verify/Hmac.antt =====
-- Verification with a shared secret.
use mathlib.Core.Path.{subst}
use jwt_verify_lib.Prelude.{
  ◌≡◌, ◌↔◌, refl, inl, inr, ap, true, [], ◌∷◌, some, Bytes, length, take, Option-cases, arith,
}
use jwt_verify_lib.External.Ssl.{Ssl, MemcmpLaw}
use jwt_verify_lib.Verify.{verify_signature_oct}

take-length : (s : Bytes) → take (length s) s ≡ s
take-length [] = refl
take-length (c ∷ s) = ap (◌∷◌ c) (take-length s)

take_of_same_length : (s t : Bytes) → length s ≡ length t → take (length t) s ≡ s
take_of_same_length s t e = subst (λ n. take n s ≡ s) e (take-length s)

module _ ⦃ssl : Ssl⦄ (law : MemcmpLaw ssl) where
  -- Where `CRYPTO_memcmp` tests equality, a shared secret accepts exactly the code that HMAC computes
  -- for the data, and nothing longer or shorter.
  pub verify_signature_oct_iff :
      (key signature signed_data : Bytes) (md : ssl.Md)
      → (verify_signature_oct (some key) (some md) (some signature) (some signed_data) ≡ true)
        ↔ (ssl.hmac md key signed_data ≡ some signature)
  unfolding verify_signature_oct
  verify_signature_oct_iff key signature signed_data md =
      elim (Option-cases (ssl.hmac md key signed_data)) [
        | inl e ↦ ground arith
        | inr (out, e) ↦ ground (
          arith,
          law out signature (length signature),
          take-length signature,
          take_of_same_length out signature,
        )
      ]
