-- ===== src/Jwt/Parsing.antt =====
-- The parser accepts exactly the texts of the specification, and stores what it says.
use jwt_verify_lib.Prelude.{◌≡◌, ◌↔◌, refl, ap, ◌∙◌, true, List, [], ◌∷◌, Bytes, arith}
use jwt_verify_lib.Status.{ok}
use jwt_verify_lib.External.Protobuf.{Protobuf}
use jwt_verify_lib.External.Absl.{Absl}
use jwt_verify_lib.Jwt.{
  ◌>>◌, Jwt, next, finish, parse_header_fields, parse_header, parse_names, parse_times,
  parse_id_and_audiences, parse_payload, parse_signature, parse_pieces, parse_from_string,
}
use jwt_verify_lib.Jwt.Spec.{ReadsHeader, ReadsPayload, Parses}
use jwt_verify_lib.Jwt.Statuses.{with_header, with_payload, pieces-StopsWithFailure}
use jwt_verify_lib.Jwt.Fields.{
  header_fields_frame, header_fields_run, claims_frame, claims_run, >>-eq-next, >>_of_next,
}

-- The specification of the fields looks at these fields only.
module _ ⦃pb : Protobuf⦄ {a b a' b' : Jwt} where
  header_moves :
      a.kid ≡ a'.kid
      → b.header_pb ≡ b'.header_pb
      → b.alg ≡ b'.alg
      → b.kid ≡ b'.kid
      → ReadsHeader a b
      → ReadsHeader a' b'
  header_moves p q r t h = record {
    alg = rw (← q, ← r) h.alg;
    implemented = rw (← r) h.implemented;
    kid = rw (← q, ← p, ← t) h.kid;
  }

record SameClaims ⦃pb : Protobuf⦄ (a b : Jwt) : Type 0 where
  iss : a.iss ≡ b.iss
  sub : a.sub ≡ b.sub
  iat : a.iat ≡ b.iat
  nbf : a.nbf ≡ b.nbf
  exp : a.exp ≡ b.exp
  jti : a.jti ≡ b.jti
  aud : a.audiences ≡ b.audiences

module _ ⦃pb : Protobuf⦄ {a b a' b' : Jwt} where
  payload_moves :
      b.payload_pb ≡ b'.payload_pb
      → SameClaims a a'
      → SameClaims b b'
      → ReadsPayload a b
      → ReadsPayload a' b'
  payload_moves q o n h = record {
    iss = rw (← q, ← o.iss, ← n.iss) h.iss;
    sub = rw (← q, ← o.sub, ← n.sub) h.sub;
    iat = rw (← q, ← o.iat, ← n.iat) h.iat;
    nbf = rw (← q, ← o.nbf, ← n.nbf) h.nbf;
    exp = rw (← q, ← o.exp, ← n.exp) h.exp;
    jti = rw (← q, ← o.jti, ← n.jti) h.jti;
    aud = rw (← q, ← o.aud, ← n.aud) h.aud;
  }

module _ ⦃pb : Protobuf⦄ ⦃ab : Absl⦄ where
  open pb use {json_string_to_message}
  open ab use {web_safe_base64_unescape, str_split_skip_empty}

  header_iff :
      (piece : Bytes) (j j' : Jwt)
      → (parse_header piece j ≡ next tt j') ↔ (
          ((web_safe_base64_unescape piece).0 ≡ true)
          × ((json_string_to_message (web_safe_base64_unescape piece).1 j.header_pb).0 ≡ true)
          × (parse_header_fields (with_header piece j) ≡ next tt j'))
  unfolding parse_header
  header_iff piece j j' = ground arith

  payload_iff :
      (piece : Bytes) (j j' : Jwt)
      → (parse_payload piece j ≡ next tt j') ↔ (
          ((web_safe_base64_unescape piece).0 ≡ true)
          × ((json_string_to_message (web_safe_base64_unescape piece).1 j.payload_pb).0 ≡ true)
          × ((parse_names >> (parse_times >> parse_id_and_audiences)) (with_payload piece j)
              ≡ next tt j'))
  unfolding parse_payload
  payload_iff piece j j' = ground arith

  signature_iff :
      (piece : Bytes) (j j' : Jwt)
      → (parse_signature piece j ≡ next tt j') ↔ (
          ((web_safe_base64_unescape piece).0 ≡ true)
          × (record j { signature = (web_safe_base64_unescape piece).1 } ≡ j'))
  unfolding parse_signature
  signature_iff piece j j' = ground arith

  -- A text that parses meets the specification.
  pieces_sound :
      (h p s : Bytes) (old j' : Jwt) (text : Bytes)
      → str_split_skip_empty text b'.' ≡ h ∷ p ∷ s ∷ []
      → parse_pieces (h ∷ p ∷ s ∷ []) (record old { jwt = text }) ≡ next tt j'
      → Parses text old j'
  unfolding parse_pieces
  pieces_sound h p s old j' text split run =
      let j = record old { jwt = text } in
      let (j₁, header, run₁) =
        >>-eq-next (parse_header h) (parse_payload p >> parse_signature s) j run in
      let (j₂, payload, signature) = >>-eq-next (parse_payload p) (parse_signature s) j₁ run₁ in
      let a = (header_iff h j j₁).0 header in
      let f = header_fields_frame (with_header h j) j₁ a.2 in
      let b = (payload_iff p j₁ j₂).0 payload in
      let g = claims_frame (with_payload p j₁) j₂ b.2 in
      let c = (signature_iff s j₂ j').0 signature in
      record {
        whole = ground arith;
        signature_piece = s;
        pieces = ground arith;
        header_str = ground arith;
        header_pb = ground arith;
        header = header_moves (ground arith) (ground arith) (ground arith) (ground arith) f.reads;
        payload_str = ground arith;
        payload_pb = ground arith;
        payload = payload_moves (ground arith) (ground arith) (ground arith) g.reads;
        signature = ground arith;
      }

  -- The objects between the sections of a run that ends with `j'`.
  abbrev header_done : Jwt → Jwt → Jwt
  header_done j j' = record j {
    jwt = j'.jwt;
    header_str_base64url = j'.header_str_base64url;
    header_str = j'.header_str;
    header_pb = j'.header_pb;
    alg = j'.alg;
    kid = j'.kid;
  }

  abbrev payload_done : Jwt → Jwt → Jwt
  payload_done j j' = record j' { signature = j.signature }

  module _ (text : Bytes) (j j' : Jwt) (r : Parses text j j') where
    header_run :
        parse_header j'.header_str_base64url (record j { jwt = text }) ≡ next tt (header_done j j')
    header_run =
        (header_iff j'.header_str_base64url (record j { jwt = text }) (header_done j j')).1 (
          ground arith,
          ground arith,
          header_fields_run (with_header j'.header_str_base64url (record j { jwt = text }))
              (header_done j j')
              (record { reads = header_moves refl refl refl refl r.header; frame = ground arith }),
        )

    payload_run :
        parse_payload j'.payload_str_base64url (header_done j j') ≡ next tt (payload_done j j')
    payload_run = (payload_iff j'.payload_str_base64url (header_done j j') (payload_done j j')).1 (
      ground arith,
      ground arith,
      claims_run (with_payload j'.payload_str_base64url (header_done j j')) (payload_done j j')
          (record {
            reads = payload_moves refl (ground arith) (ground arith) r.payload;
            frame = ground arith;
          }),
    )

    signature_run : parse_signature r.signature_piece (payload_done j j') ≡ next tt j'
    signature_run =
        (signature_iff r.signature_piece (payload_done j j') j').1 (ground arith, ground arith)

    pieces_complete :
        parse_pieces
          (j'.header_str_base64url ∷ j'.payload_str_base64url ∷ r.signature_piece ∷ [])
          (record j { jwt = text })
        ≡ next tt j'
    unfolding parse_pieces
    pieces_complete =
        >>_of_next (parse_header j'.header_str_base64url) _ _ _ header_run
        ∙ >>_of_next (parse_payload j'.payload_str_base64url) _ _ _ payload_run
        ∙ signature_run

  pieces_shape :
      (pieces : List Bytes) (j j' : Jwt)
      → parse_pieces pieces j ≡ next tt j'
      → (h p s : Bytes) × (pieces ≡ h ∷ p ∷ s ∷ [])
  unfolding parse_pieces
  pieces_shape (h ∷ p ∷ s ∷ []) j j' e = (h, p, s, refl)
  pieces_shape _ j j' e = absurd (ground arith)

  finish-eq-ok :
      (pieces : List Bytes) (j j' : Jwt)
      → finish (parse_pieces pieces j) ≡ (j', ok)
      → parse_pieces pieces j ≡ next tt j'
  finish-eq-ok pieces j j' e = ground (arith, pieces-StopsWithFailure pieces j j')

  -- A parse returns `Ok` and leaves the object `new` exactly if the text meets the specification
  -- with `new`: exactly three non-empty sections between the dots of the text, where empty ones do
  -- not count, so that there may be more than two dots; each of the three base64url; JSON objects in
  -- the first two; an implemented "alg"; every other field that is read missing or of its type; and
  -- the values of these fields, where a missing one leaves the value that the object had before.
  pub parse_from_string_iff :
      (text : Bytes) (old new : Jwt)
      → (parse_from_string text old ≡ (new, ok)) ↔ Parses text old new
  unfolding parse_from_string
  parse_from_string_iff text old new = (sound, complete)
    where
      start : Jwt
      start = record old { jwt = text }

      sound :
          finish (parse_pieces (str_split_skip_empty text b'.') start) ≡ (new, ok)
          → Parses text old new
      sound e =
          let run = finish-eq-ok (str_split_skip_empty text b'.') start new e in
          let (h, p, s, split) = pieces_shape (str_split_skip_empty text b'.') start new run in
          pieces_sound h p s old new text split (rw split at run)

      complete :
          Parses text old new
          → finish (parse_pieces (str_split_skip_empty text b'.') start) ≡ (new, ok)
      complete r = rw r.pieces (ap finish (pieces_complete text old new r))
