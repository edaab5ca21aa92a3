-- ===== src/Jwt/Object.antt =====
-- The fields of `struct Jwt` (jwt_verify_lib/jwt.h), and functions that update them and may
-- return early with a status.
use jwt_verify_lib.Prelude.{ℕ, Bool, true, false, List, [], Bytes}
use jwt_verify_lib.Status.{Status}
use jwt_verify_lib.External.Protobuf.{Protobuf}

module _ ⦃pb : Protobuf⦄ where
  open pb use {Struct, empty_struct}

  pub record Jwt : Type 0 where
    pub jwt : Bytes
    pub header_str : Bytes
    pub header_str_base64url : Bytes
    pub header_pb : Struct
    pub payload_str : Bytes
    pub payload_str_base64url : Bytes
    pub payload_pb : Struct
    pub signature : Bytes
    pub alg : Bytes
    pub kid : Bytes
    pub iss : Bytes
    pub audiences : List Bytes
    pub sub : Bytes
    pub iat : ℕ
    pub nbf : ℕ
    pub exp : ℕ
    pub jti : Bytes

  -- `Jwt()`.
  abbrev pub new_jwt : Jwt
  new_jwt = record {
    jwt = [];
    header_str = [];
    header_str_base64url = [];
    header_pb = empty_struct;
    payload_str = [];
    payload_str_base64url = [];
    payload_pb = empty_struct;
    signature = [];
    alg = [];
    kid = [];
    iss = [];
    audiences = [];
    sub = [];
    iat = 0;
    nbf = 0;
    exp = 0;
    jti = [];
  }

  -- The parser goes on with an updated object, or returns a status and leaves the object as it is.
  pub data Parse (A : Type 0) : Type 0 where
    next : A → Jwt → Parse A
    stop : Status → Jwt → Parse A

  infixl 5 ◌>>=◌
  abbrev pub ◌>>=◌ : {A B : Type 0} → (Jwt → Parse A) → (A → Jwt → Parse B) → Jwt → Parse B
  ◌>>=◌ m f j = elim (m j) [ next a j' ↦ f a j' | stop s j' ↦ stop s j' ]

  infixl 5 ◌>>◌
  abbrev pub ◌>>◌ : {B : Type 0} → (Jwt → Parse (Unit {0})) → (Jwt → Parse B) → Jwt → Parse B
  m >> k = m >>= λ _. k

  abbrev pub get : Jwt → Parse Jwt
  get j = next j j

  -- Stores a new object.
  abbrev pub put : Jwt → Jwt → Parse (Unit {0})
  put j' j = next tt j'

  -- `if (test) return status;`
  abbrev pub return_if : Bool → Status → Jwt → Parse (Unit {0})
  return_if true status j = stop status j
  return_if false status j = next tt j
