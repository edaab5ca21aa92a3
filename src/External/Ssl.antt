-- ===== src/External/Ssl.antt =====
-- What src/jwks.cc and src/verify.cc use of BoringSSL. A pointer that may be null is an `Option`,
-- an `int` result is its 32-bit pattern, and a function that writes to an object through a pointer
-- returns the object beside its result. Where the code does not test an allocation, it succeeds.
use jwt_verify_lib.Prelude.{ℕ, ◌≡◌, ◌↔◌, Bool, Option, some, Bytes, length, ◌≤◌, take}

pub record Ssl : Type 1 where
  pub Rsa : Type 0
  pub EcKey : Type 0
  pub EvpPkey : Type 0
  pub BigNum : Type 0
  pub X509 : Type 0
  pub Bio : Type 0
  pub Md : Type 0
  pub MdCtx : Type 0
  -- Digests, and verification with a context.
  pub evp_sha256 : Option Md
  pub evp_sha384 : Option Md
  pub evp_sha512 : Option Md
  pub evp_pkey_set1_rsa : Rsa → ℕ × EvpPkey
  pub evp_digest_verify_init : Md → EvpPkey → ℕ × MdCtx
  pub evp_digest_verify_update : MdCtx → Bytes → ℕ × MdCtx
  pub evp_digest_verify_final : MdCtx → Bytes → ℕ
  pub evp_pkey_ctx_set_rsa_padding_pss : MdCtx → ℕ × MdCtx
  pub evp_pkey_ctx_set_rsa_mgf1_md : MdCtx → Md → ℕ × MdCtx
  -- The context, the signature and the data.
  pub evp_digest_verify : MdCtx → Bytes → Bytes → ℕ
  pub evp_digest_init : Md → ℕ × MdCtx
  pub evp_digest_update : MdCtx → Bytes → ℕ × MdCtx
  -- The digest with its length.
  pub evp_digest_final : MdCtx → ℕ × Bytes
  -- Whether `ECDSA_SIG_new` returns an object.
  pub ecdsa_sig_new : Bool
  -- The digest, `r`, `s` and the key.
  pub ecdsa_do_verify : Bytes → BigNum → BigNum → EcKey → ℕ
  -- The digest type, the key and the data; the code with its length.
  pub hmac : Md → Bytes → Bytes → Option Bytes
  pub crypto_memcmp : Bytes → Bytes → ℕ → ℕ
  -- The data, the signature and the key.
  pub ed25519_verify : Bytes → Bytes → Bytes → ℕ
  pub ed25519_signature_len : ℕ
  pub ed25519_public_key_len : ℕ
  -- Numbers and keys.
  pub bn_bin2bn : Bytes → Option BigNum
  pub bn_cmp_word : BigNum → ℕ → ℕ
  -- An object of `RSA_new` with its fields `n` and `e` set.
  pub rsa_of : BigNum → BigNum → Rsa
  pub ec_key_new_by_curve_name : ℕ → Option EcKey
  pub ec_key_set_public_key_affine_coordinates : EcKey → BigNum → BigNum → ℕ × EcKey
  pub nid_x9_62_prime256v1 : ℕ
  pub nid_secp384r1 : ℕ
  pub nid_secp521r1 : ℕ
  -- PEM and X.509.
  pub bio_new_mem_buf : Bytes → Option Bio
  pub bio_new_mem : Bio
  pub bio_write : Bio → Bytes → ℕ × Bio
  pub pem_read_bio_pubkey : Bio → Option EvpPkey
  pub pem_read_bio_x509 : Bio → Option X509 × Bio
  pub x509_get_pubkey : X509 → Option EvpPkey
  pub evp_pkey_get1_rsa : EvpPkey → Option Rsa
  pub evp_pkey_get1_ec_key : EvpPkey → Option EcKey
  pub evp_pkey_id : EvpPkey → ℕ
  pub evp_pkey_rsa : ℕ
  pub evp_pkey_ec : ℕ
  pub evp_pkey_ed25519 : ℕ
  -- The result, and the bytes written, as many as `out_len` says.
  pub evp_pkey_get_raw_public_key : EvpPkey → ℕ × Bytes
  -- Whether `BORINGSSL_FIPS` is defined.
  pub boringssl_fips : Bool

-- "CRYPTO_memcmp returns zero iff the `len` bytes at `a` and `b` are equal."
abbrev pub MemcmpLaw : Ssl → Type 0
MemcmpLaw s =
    (a b : Bytes) (len : ℕ)
    → len ≤ length a
    → len ≤ length b
    → (s.crypto_memcmp a b len ≡ 0) ↔ (take len a ≡ take len b)

-- `EVP_PKEY_get1_RSA` and `EVP_PKEY_get1_EC_KEY` return the key of an `EVP_PKEY` of their type, and
-- null only for one of another type.
abbrev pub GetKeyLaw : Ssl → Type 0
GetKeyLaw s =
    ((k : s.EvpPkey)
      → s.evp_pkey_id k ≡ s.evp_pkey_rsa
      → (r : s.Rsa) × (s.evp_pkey_get1_rsa k ≡ some r))
    × ((k : s.EvpPkey)
        → s.evp_pkey_id k ≡ s.evp_pkey_ec
        → (e : s.EcKey) × (s.evp_pkey_get1_ec_key k ≡ some e))
