-- ===== src/Jwt/Copying.antt =====
-- Copies of tokens, which parse the text again, and a parse into an object that was used before.
use jwt_verify_lib.Prelude.{◌≡◌, refl, sym, ap, ◌∙◌, List, [], ◌∷◌, ◌++◌, none, Bytes, bytes, arith}
use jwt_verify_lib.External.Protobuf.{Protobuf}
use jwt_verify_lib.External.Absl.{Absl}
use jwt_verify_lib.Jwt.{
  ◌>>=◌, ◌>>◌, Jwt, new_jwt, Parse, next, stop, finish, parse_header_fields, parse_header,
  parse_names, parse_times, parse_id_and_audiences, parse_payload, parse_signature, parse_pieces,
  parse_from_string, assign, copy,
}
use jwt_verify_lib.Jwt.Statuses.{with_header, with_payload}

module _ ⦃pb : Protobuf⦄ where
  abbrev KeepsText : (Jwt → Parse (Unit {0})) → Type 0
  KeepsText m = (j : Jwt) → (finish (m j)).0.jwt ≡ j.jwt

  >>-KeepsText : (m f : Jwt → Parse (Unit {0})) → KeepsText m → KeepsText f → KeepsText (m >> f)
  >>-KeepsText m f h k j = go (m j) refl
    where
      go : (r : Parse (Unit {0})) → m j ≡ r → (finish ((m >> f) j)).0.jwt ≡ j.jwt
      go (next tt j₁) e = rw (e, ◌>>=◌) (k j₁ ∙ ap (λ r. (finish r).0.jwt) (sym e) ∙ h j)
      go (stop s j₁) e = rw (e, ◌>>=◌) (ap (λ r. (finish r).0.jwt) (sym e) ∙ h j)

  header_fields-KeepsText : KeepsText parse_header_fields
  unfolding parse_header_fields
  header_fields-KeepsText j = ground arith

  names-KeepsText : KeepsText parse_names
  unfolding parse_names
  names-KeepsText j = ground arith

  times-KeepsText : KeepsText parse_times
  unfolding parse_times
  times-KeepsText j = ground arith

  id_and_audiences-KeepsText : KeepsText parse_id_and_audiences
  unfolding parse_id_and_audiences
  id_and_audiences-KeepsText j = ground arith

  claims-KeepsText : KeepsText (parse_names >> (parse_times >> parse_id_and_audiences))
  claims-KeepsText =
      >>-KeepsText parse_names (parse_times >> parse_id_and_audiences) names-KeepsText
        (>>-KeepsText parse_times parse_id_and_audiences times-KeepsText id_and_audiences-KeepsText)

  module _ ⦃ab : Absl⦄ where
    open ab use {str_split_skip_empty}

    header-KeepsText : (piece : Bytes) → KeepsText (parse_header piece)
    unfolding parse_header
    header-KeepsText piece j = ground (arith, header_fields-KeepsText (with_header piece j))

    payload-KeepsText : (piece : Bytes) → KeepsText (parse_payload piece)
    unfolding parse_payload
    payload-KeepsText piece j = ground (arith, claims-KeepsText (with_payload piece j))

    signature-KeepsText : (piece : Bytes) → KeepsText (parse_signature piece)
    unfolding parse_signature
    signature-KeepsText piece j = ground arith

    pieces-KeepsText : (pieces : List Bytes) → KeepsText (parse_pieces pieces)
    unfolding parse_pieces
    pieces-KeepsText (h ∷ p ∷ s ∷ []) =
        >>-KeepsText (parse_header h) (parse_payload p >> parse_signature s) (header-KeepsText h) (
          >>-KeepsText (parse_payload p) (parse_signature s) (payload-KeepsText p)
            (signature-KeepsText s))
    pieces-KeepsText _ = λ j. refl

    jwt-parse_from_string : (text : Bytes) (j : Jwt) → (parse_from_string text j).0.jwt ≡ text
    unfolding parse_from_string
    jwt-parse_from_string text j =
        pieces-KeepsText (str_split_skip_empty text b'.') (record j { jwt = text })

    -- The copy of an object into which one text was parsed equals the object, also where the parse
    -- failed half way.
    pub copy-parse_from_string :
        (text : Bytes)
        → copy (parse_from_string text new_jwt).0 ≡ (parse_from_string text new_jwt).0
    unfolding copy assign
    copy-parse_from_string text =
        ap (λ t. (parse_from_string t new_jwt).0) (jwt-parse_from_string text new_jwt)

    -- What a successful parse leaves of the object's past.
    pub record IsStale (old new : Jwt) : Type 0 where
      pub kid : pb.find new.header_pb (bytes "kid") ≡ none → new.kid ≡ old.kid
      pub iss : pb.find new.payload_pb (bytes "iss") ≡ none → new.iss ≡ old.iss
      pub sub : pb.find new.payload_pb (bytes "sub") ≡ none → new.sub ≡ old.sub
      pub iat : pb.find new.payload_pb (bytes "iat") ≡ none → new.iat ≡ old.iat
      pub nbf : pb.find new.payload_pb (bytes "nbf") ≡ none → new.nbf ≡ old.nbf
      pub exp : pb.find new.payload_pb (bytes "exp") ≡ none → new.exp ≡ old.exp
      pub jti : pb.find new.payload_pb (bytes "jti") ≡ none → new.jti ≡ old.jti
      pub aud : (added : List Bytes) × (new.audiences ≡ old.audiences ++ added)
