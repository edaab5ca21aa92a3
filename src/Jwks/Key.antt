-- ===== src/Jwks/Key.antt =====
-- `struct Jwks::Pubkey` (jwt_verify_lib/jwks.h): a key in a key set.
use jwt_verify_lib.Prelude.{Option, none, [], Bytes}
use jwt_verify_lib.External.Ssl.{Ssl}

module _ ⦃ssl : Ssl⦄ where
  pub record Pubkey : Type 0 where
    pub hmac_key : Bytes
    pub kid : Bytes
    pub kty : Bytes
    pub alg : Bytes
    pub crv : Bytes
    pub rsa : Option ssl.Rsa
    pub ec_key : Option ssl.EcKey
    pub okp_key_raw : Bytes
    pub bio : Option ssl.Bio
    pub x509 : Option ssl.X509

  -- `new Pubkey()`.
  abbrev pub new_pubkey : Pubkey
  new_pubkey = record {
    hmac_key = [];
    kid = [];
    kty = [];
    alg = [];
    crv = [];
    rsa = none;
    ec_key = none;
    okp_key_raw = [];
    bio = none;
    x509 = none;
  }
