-- ===== src/Jwt/Statuses.antt =====
-- A part of the parser that returns early returns a failure.
use jwt_verify_lib.Prelude.{◌≡◌, ◌≢◌, refl, List, [], ◌∷◌, Bytes, arith}
use jwt_verify_lib.Status.{ok}
use jwt_verify_lib.External.Protobuf.{Protobuf}
use jwt_verify_lib.External.Absl.{Absl}
use jwt_verify_lib.Jwt.{
  ◌>>=◌, ◌>>◌, Jwt, Parse, next, stop, parse_header_fields, parse_header, parse_names, parse_times,
  parse_id_and_audiences, parse_payload, parse_signature, parse_pieces,
}

module _ ⦃pb : Protobuf⦄ where
  abbrev pub StopsWithFailure : (Jwt → Parse (Unit {0})) → Type 0
  StopsWithFailure m = (j j' : Jwt) → m j ≢ stop ok j'

  >>-StopsWithFailure :
      (m f : Jwt → Parse (Unit {0}))
      → StopsWithFailure m
      → StopsWithFailure f
      → StopsWithFailure (m >> f)
  >>-StopsWithFailure m f h k j j' e = go (m j) refl
    where
      go : (r : Parse (Unit {0})) → m j ≡ r → ⊥
      go (next tt j₁) q = k j₁ j' (rw (q, ◌>>=◌) at e)
      go (stop s j₁) q = h j j' (ground arith)

  header_fields-StopsWithFailure : StopsWithFailure parse_header_fields
  unfolding parse_header_fields
  header_fields-StopsWithFailure j j' = ground arith

  names-StopsWithFailure : StopsWithFailure parse_names
  unfolding parse_names
  names-StopsWithFailure j j' = ground arith

  times-StopsWithFailure : StopsWithFailure parse_times
  unfolding parse_times
  times-StopsWithFailure j j' = ground arith

  id_and_audiences-StopsWithFailure : StopsWithFailure parse_id_and_audiences
  unfolding parse_id_and_audiences
  id_and_audiences-StopsWithFailure j j' = ground arith

  claims-StopsWithFailure :
      StopsWithFailure (parse_names >> (parse_times >> parse_id_and_audiences))
  claims-StopsWithFailure =
      >>-StopsWithFailure _ _ names-StopsWithFailure
        (>>-StopsWithFailure _ _ times-StopsWithFailure id_and_audiences-StopsWithFailure)

  module _ ⦃ab : Absl⦄ where
    open pb use {json_string_to_message}
    open ab use {web_safe_base64_unescape}

    -- The object before the reads of the header, and before those of the payload.
    abbrev pub with_header : Bytes → Jwt → Jwt
    with_header piece j = record j {
      header_str_base64url = piece;
      header_str = (web_safe_base64_unescape piece).1;
      header_pb = (json_string_to_message (web_safe_base64_unescape piece).1 j.header_pb).1;
    }

    abbrev pub with_payload : Bytes → Jwt → Jwt
    with_payload piece j = record j {
      payload_str_base64url = piece;
      payload_str = (web_safe_base64_unescape piece).1;
      payload_pb = (json_string_to_message (web_safe_base64_unescape piece).1 j.payload_pb).1;
    }

    header-StopsWithFailure : (piece : Bytes) → StopsWithFailure (parse_header piece)
    unfolding parse_header
    header-StopsWithFailure piece j j' =
        ground (arith, header_fields-StopsWithFailure (with_header piece j) j')

    payload-StopsWithFailure : (piece : Bytes) → StopsWithFailure (parse_payload piece)
    unfolding parse_payload
    payload-StopsWithFailure piece j j' =
        ground (arith, claims-StopsWithFailure (with_payload piece j) j')

    signature-StopsWithFailure : (piece : Bytes) → StopsWithFailure (parse_signature piece)
    unfolding parse_signature
    signature-StopsWithFailure piece j j' = ground arith

    pub pieces-StopsWithFailure : (pieces : List Bytes) → StopsWithFailure (parse_pieces pieces)
    unfolding parse_pieces
    pieces-StopsWithFailure (h ∷ p ∷ s ∷ []) =
        >>-StopsWithFailure _ _ (header-StopsWithFailure h)
          (>>-StopsWithFailure _ _ (payload-StopsWithFailure p) (signature-StopsWithFailure s))
    pieces-StopsWithFailure _ = λ j j'. ground arith
