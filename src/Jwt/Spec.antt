-- ===== src/Jwt/Spec.antt =====
-- A description of the tokens that the parser accepts, and of what it stores, without its order of
-- reads: a relation between the text, the object before and the object afterwards.
use jwt_verify_lib.Prelude.{◌≡◌, true, [], ◌∷◌, Bytes, bytes}
use jwt_verify_lib.External.Protobuf.{Protobuf}
use jwt_verify_lib.External.Absl.{Absl}
use jwt_verify_lib.StructUtils.Laws.{HasString, ReadsString, ReadsUint64, ReadsStrings}
use jwt_verify_lib.Jwt.{is_implemented, Jwt}

module _ ⦃pb : Protobuf⦄ where
  -- The header holds an implemented algorithm, and a key id that is missing or a string.
  pub record ReadsHeader (old new : Jwt) : Type 0 where
    pub alg : HasString new.header_pb (bytes "alg") new.alg
    pub implemented : is_implemented new.alg ≡ true
    pub kid : ReadsString new.header_pb (bytes "kid") old.kid new.kid

  -- Each claim is missing or of its type. Of a claim that is missing the old value stays.
  pub record ReadsPayload (old new : Jwt) : Type 0 where
    pub iss : ReadsString new.payload_pb (bytes "iss") old.iss new.iss
    pub sub : ReadsString new.payload_pb (bytes "sub") old.sub new.sub
    pub iat : ReadsUint64 new.payload_pb (bytes "iat") old.iat new.iat
    pub nbf : ReadsUint64 new.payload_pb (bytes "nbf") old.nbf new.nbf
    pub exp : ReadsUint64 new.payload_pb (bytes "exp") old.exp new.exp
    pub jti : ReadsString new.payload_pb (bytes "jti") old.jti new.jti
    pub aud : ReadsStrings new.payload_pb (bytes "aud") old.audiences new.audiences

  module _ ⦃ab : Absl⦄ where
    open pb use {json_string_to_message}
    open ab use {web_safe_base64_unescape, str_split_skip_empty}

    -- The text is a token, and `new` is `old` after a parse of it.
    pub record Parses (text : Bytes) (old new : Jwt) : Type 0 where
      pub whole : new.jwt ≡ text
      pub signature_piece : Bytes
      pub pieces :
          str_split_skip_empty text b'.'
          ≡ new.header_str_base64url ∷ new.payload_str_base64url ∷ signature_piece ∷ []
      pub header_str : web_safe_base64_unescape new.header_str_base64url ≡ (true, new.header_str)
      pub header_pb : json_string_to_message new.header_str old.header_pb ≡ (true, new.header_pb)
      pub header : ReadsHeader old new
      pub payload_str : web_safe_base64_unescape new.payload_str_base64url ≡ (true, new.payload_str)
      pub payload_pb :
          json_string_to_message new.payload_str old.payload_pb ≡ (true, new.payload_pb)
      pub payload : ReadsPayload old new
      pub signature : web_safe_base64_unescape signature_piece ≡ (true, new.signature)
