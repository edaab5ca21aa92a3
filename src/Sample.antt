-- ===== src/Sample.antt =====
-- Small stand-ins for the libraries, and a token with its key, on which the tests evaluate the
-- code. Base64 is the identity, and a message authentication code is the key itself.
use mathlib.Core.Bool.{false≢true}
use jwt_verify_lib.Prelude.{
  ℕ, ◌-◌, refl, Bool, true, false, List, [], ◌∷◌, ◌++◌, Option, none, some, Bytes, bytes, ◌=ᵇ◌,
  eq_iff, ◌==◌, length, take, drop, is_empty, if◌then◌else◌, arith,
}
use jwt_verify_lib.External.Protobuf.{
  Protobuf, Kind, number_value, string_value, struct_value, list_value,
}
use jwt_verify_lib.External.Absl.{Absl, StartsWithLaw}
use jwt_verify_lib.External.Ssl.{Ssl, MemcmpLaw, GetKeyLaw}

mutual
  -- JSON values; a number has a sign and a size.
  pub data Json : Type 0 where
    number : Bool → ℕ → Json
    text : Bytes → Json
    array : Items → Json
    object : Fields → Json

  pub data Items : Type 0 where
    end : Items
    item : Json → Items → Items

  pub data Fields : Type 0 where
    no_fields : Fields
    field : Bytes → Json → Fields → Fields

abbrev pub values : Items → List Json
values end = []
values (item v vs) = v ∷ values vs

abbrev entries : Fields → List (Bytes × Json)
entries no_fields = []
entries (field name v vs) = (name, v) ∷ entries vs

abbrev lookup : Fields → Bytes → Option Json
lookup no_fields name = none
lookup (field n v vs) name = if n =ᵇ name then some v else lookup vs name

abbrev kind_of : Json → Kind Fields Json (Bool × ℕ)
kind_of (number negative n) = number_value (negative, n)
kind_of (text t) = string_value t
kind_of (array vs) = list_value (values vs)
kind_of (object fs) = struct_value fs

abbrev pub header : Fields
header =
    field (bytes "alg") (text (bytes "HS256")) (field (bytes "kid") (text (bytes "k1")) no_fields)

abbrev pub audiences : Items
audiences = item (text (bytes "https://svc/")) end

abbrev pub payload : Fields
payload =
    field (bytes "iss") (text (bytes "me"))
      (field (bytes "exp") (number false 200) (field (bytes "aud") (array audiences) no_fields))

-- An entry with a shared secret, and one without a type.
abbrev pub secret : Json
secret = object (
    field (bytes "kty") (text (bytes "oct"))
      (field (bytes "kid") (text (bytes "k1")) (field (bytes "k") (text (bytes "sig")) no_fields)))

abbrev pub key_set_items : Items
key_set_items = item (object no_fields) (item secret end)

abbrev pub key_set : Fields
key_set = field (bytes "keys") (array key_set_items) no_fields

-- The texts that the stand-in can read.
abbrev read_json : Bytes → Fields → Bool × Fields
read_json t old =
    if t =ᵇ bytes "head"
    then (true, header)
    else if t =ᵇ bytes "load"
    then (true, payload)
    else if t =ᵇ bytes "keys"
    then (true, key_set)
    else (false, old)

instance abbrev pub sample_protobuf : Protobuf
sample_protobuf = record {
  Struct = Fields;
  Value = Json;
  Double = Bool × ℕ;
  empty_struct = no_fields;
  fields = entries;
  find = lookup;
  kind = kind_of;
  is_negative = λ d. d.0;
  to_uint64 = λ d. d.1;
  json_string_to_message = read_json;
}

abbrev has_prefix : Bytes → Bytes → Bool
has_prefix t [] = true
has_prefix [] (p ∷ ps) = false
has_prefix (c ∷ t) (p ∷ ps) = if c == p then has_prefix t ps else false

-- Puts a byte before the first piece.
abbrev onto_first : ℕ → List Bytes → List Bytes
onto_first c [] = (c ∷ []) ∷ []
onto_first c (p ∷ ps) = (c ∷ p) ∷ ps

abbrev split : Bytes → ℕ → List Bytes
split [] d = [] ∷ []
split (c ∷ t) d = if c == d then [] ∷ split t d else onto_first c (split t d)

abbrev skip_empty : List Bytes → List Bytes
skip_empty [] = []
skip_empty (p ∷ ps) = if is_empty p then skip_empty ps else p ∷ skip_empty ps

instance abbrev pub sample_absl : Absl
sample_absl = record {
  starts_with = has_prefix;
  ends_with = λ t s. drop (length t - length s) t =ᵇ s;
  web_safe_base64_unescape = λ t. (true, t);
  str_split_skip_empty = λ t d. skip_empty (split t d);
}

pub sample_starts_with : StartsWithLaw sample_absl
sample_starts_with t [] = (λ _. (t, refl), λ _. refl)
sample_starts_with [] (p ∷ ps) = (λ e. absurd (false≢true e), λ h. ground arith)
sample_starts_with (c ∷ t) (p ∷ ps) = ground (arith, sample_starts_with t ps)

instance abbrev pub sample_ssl : Ssl
sample_ssl = record {
  Rsa = ℕ;
  EcKey = ℕ;
  EvpPkey = ℕ;
  BigNum = Bytes;
  X509 = ℕ;
  Bio = Bytes;
  Md = ℕ;
  MdCtx = Bytes;
  evp_sha256 = some 256;
  evp_sha384 = some 384;
  evp_sha512 = some 512;
  evp_pkey_set1_rsa = λ r. (1, r);
  evp_digest_verify_init = λ _ _. (1, []);
  evp_digest_verify_update = λ ctx t. (1, ctx ++ t);
  evp_digest_verify_final = λ ctx s. if ctx =ᵇ s then 1 else 0;
  evp_pkey_ctx_set_rsa_padding_pss = λ ctx. (1, ctx);
  evp_pkey_ctx_set_rsa_mgf1_md = λ ctx _. (1, ctx);
  evp_digest_verify = λ _ s t. if s =ᵇ t then 1 else 0;
  evp_digest_init = λ _. (1, []);
  evp_digest_update = λ ctx t. (1, ctx ++ t);
  evp_digest_final = λ ctx. (1, ctx);
  ecdsa_sig_new = true;
  ecdsa_do_verify = λ digest r s _. if digest =ᵇ (r ++ s) then 1 else 0;
  hmac = λ _ key _. some key;
  crypto_memcmp = λ a b n. if take n a =ᵇ take n b then 0 else 1;
  ed25519_verify = λ t s _. if s =ᵇ t then 1 else 0;
  ed25519_signature_len = 64;
  ed25519_public_key_len = 32;
  bn_bin2bn = λ t. some t;
  bn_cmp_word = λ _ _. 1;
  rsa_of = λ n _. length n;
  ec_key_new_by_curve_name = λ nid. some nid;
  ec_key_set_public_key_affine_coordinates = λ k _ _. (1, k);
  nid_x9_62_prime256v1 = 415;
  nid_secp384r1 = 715;
  nid_secp521r1 = 716;
  bio_new_mem_buf = λ t. some t;
  bio_new_mem = [];
  bio_write = λ b t. (length t, b ++ t);
  pem_read_bio_pubkey =
      λ b. if b =ᵇ bytes "rsa" then some 6 else if b =ᵇ bytes "ed" then some 949 else none;
  pem_read_bio_x509 = λ b. (some 0, b);
  x509_get_pubkey = λ _. some 6;
  evp_pkey_get1_rsa = λ k. if k == 6 then some 1 else none;
  evp_pkey_get1_ec_key = λ k. if k == 408 then some 1 else none;
  evp_pkey_id = λ k. k;
  evp_pkey_rsa = 6;
  evp_pkey_ec = 408;
  evp_pkey_ed25519 = 949;
  evp_pkey_get_raw_public_key = λ _. (1, bytes "0123456789abcdef0123456789abcdef");
  boringssl_fips = false;
}

pub sample_memcmp : MemcmpLaw sample_ssl
sample_memcmp a b n h k = ground (arith, eq_iff (take n a) (take n b))

pub sample_get_key : GetKeyLaw sample_ssl
sample_get_key = (λ k e. (1, rw e refl), λ k e. (1, rw e refl))
