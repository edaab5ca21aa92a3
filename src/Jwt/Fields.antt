-- ===== src/Jwt/Fields.antt =====
-- The reads of the header's fields and of the claims, against their specification.
use jwt_verify_lib.Prelude.{◌≡◌, ◌↔◌, refl, ◌∙◌, true, false, bytes, arith}
use jwt_verify_lib.External.Protobuf.{Protobuf}
use jwt_verify_lib.StructUtils.{
  is_found, is_wrong_type, is_not_positive, get_string, get_uint64, get_string_list,
}
use jwt_verify_lib.StructUtils.Laws.{
  get_string-eq-ok_iff, get_string_iff, get_uint64_iff, get_string_list_iff,
}
use jwt_verify_lib.Jwt.{
  ◌>>=◌, ◌>>◌, is_implemented, Jwt, Parse, next, stop, parse_header_fields, parse_names,
  parse_times, parse_id_and_audiences,
}
use jwt_verify_lib.Jwt.Spec.{ReadsHeader, ReadsPayload}

module _ ⦃pb : Protobuf⦄ where
  -- Inversion and computation of a sequence.
  pub >>-eq-next :
      (m f : Jwt → Parse (Unit {0})) (j : Jwt) {j' : Jwt}
      → (m >> f) j ≡ next tt j'
      → (j₁ : Jwt) × (m j ≡ next tt j₁) × (f j₁ ≡ next tt j')
  >>-eq-next m f j {j'} h = go (m j) refl
    where
      go : (r : Parse (Unit {0})) → m j ≡ r → (j₁ : Jwt) × (m j ≡ next tt j₁) × (f j₁ ≡ next tt j')
      go (next tt j₁) e = (j₁, e, rw (e, ◌>>=◌) at h)
      go (stop s j₁) e = absurd (ground arith)

  pub >>_of_next :
      (m f : Jwt → Parse (Unit {0})) (j j₁ : Jwt) → m j ≡ next tt j₁ → (m >> f) j ≡ f j₁
  >>_of_next m f j j₁ e = rw (e, ◌>>=◌)

  -- The object after each part, where the part goes on.
  abbrev after_header_fields : Jwt → Jwt
  after_header_fields j = record j {
    alg = (get_string j.header_pb (bytes "alg") j.alg).1;
    kid = (get_string j.header_pb (bytes "kid") j.kid).1;
  }

  abbrev after_names : Jwt → Jwt
  after_names j = record j {
    iss = (get_string j.payload_pb (bytes "iss") j.iss).1;
    sub = (get_string j.payload_pb (bytes "sub") j.sub).1;
  }

  abbrev after_times : Jwt → Jwt
  after_times j = record j {
    iat = (get_uint64 j.payload_pb (bytes "iat") j.iat).1;
    nbf = (get_uint64 j.payload_pb (bytes "nbf") j.nbf).1;
    exp = (get_uint64 j.payload_pb (bytes "exp") j.exp).1;
  }

  abbrev after_id_and_audiences : Jwt → Jwt
  after_id_and_audiences j = record j {
    jti = (get_string j.payload_pb (bytes "jti") j.jti).1;
    audiences = (get_string_list j.payload_pb (bytes "aud") j.audiences).1;
  }

  header_fields_iff :
      (j j' : Jwt)
      → (parse_header_fields j ≡ next tt j') ↔ (
          (is_found (get_string j.header_pb (bytes "alg") j.alg).0 ≡ true)
          × (is_implemented (get_string j.header_pb (bytes "alg") j.alg).1 ≡ true)
          × (is_wrong_type (get_string j.header_pb (bytes "kid") j.kid).0 ≡ false)
          × (after_header_fields j ≡ j'))
  unfolding parse_header_fields
  header_fields_iff j j' = ground arith

  names_iff :
      (j j' : Jwt)
      → (parse_names j ≡ next tt j') ↔ (
          (is_wrong_type (get_string j.payload_pb (bytes "iss") j.iss).0 ≡ false)
          × (is_wrong_type (get_string j.payload_pb (bytes "sub") j.sub).0 ≡ false)
          × (after_names j ≡ j'))
  unfolding parse_names
  names_iff j j' = ground arith

  times_iff :
      (j j' : Jwt)
      → (parse_times j ≡ next tt j') ↔ (
          (is_wrong_type (get_uint64 j.payload_pb (bytes "iat") j.iat).0 ≡ false)
          × (is_not_positive (get_uint64 j.payload_pb (bytes "iat") j.iat).0 ≡ false)
          × (is_wrong_type (get_uint64 j.payload_pb (bytes "nbf") j.nbf).0 ≡ false)
          × (is_not_positive (get_uint64 j.payload_pb (bytes "nbf") j.nbf).0 ≡ false)
          × (is_wrong_type (get_uint64 j.payload_pb (bytes "exp") j.exp).0 ≡ false)
          × (is_not_positive (get_uint64 j.payload_pb (bytes "exp") j.exp).0 ≡ false)
          × (after_times j ≡ j'))
  unfolding parse_times
  times_iff j j' = ground arith

  id_and_audiences_iff :
      (j j' : Jwt)
      → (parse_id_and_audiences j ≡ next tt j') ↔ (
          (is_wrong_type (get_string j.payload_pb (bytes "jti") j.jti).0 ≡ false)
          × (is_wrong_type (get_string_list j.payload_pb (bytes "aud") j.audiences).0 ≡ false)
          × (after_id_and_audiences j ≡ j'))
  unfolding parse_id_and_audiences
  id_and_audiences_iff j j' = ground arith

  -- The header of the new object is read, and nothing else changes.
  pub record HeaderFrame (j j' : Jwt) : Type 0 where
    pub reads : ReadsHeader j j'
    pub frame : j' ≡ record j { alg = j'.alg; kid = j'.kid }

  pub header_fields_frame : (j j' : Jwt) → (parse_header_fields j ≡ next tt j') → HeaderFrame j j'
  header_fields_frame j j' h =
      let t = (header_fields_iff j j').0 h in
      rw (← t.3) (record {
        reads = record {
          alg = (get_string-eq-ok_iff j.header_pb (bytes "alg") j.alg _).0 (ground arith);
          implemented = t.1;
          kid = (get_string_iff j.header_pb (bytes "kid") j.kid _).0 (t.2, refl);
        };
        frame = refl;
      })

  pub header_fields_run : (j j' : Jwt) → HeaderFrame j j' → parse_header_fields j ≡ next tt j'
  header_fields_run j j' h = (header_fields_iff j j').1 (
      ground (
        arith,
        get_string-eq-ok_iff j.header_pb (bytes "alg") j.alg j'.alg,
        get_string_iff j.header_pb (bytes "kid") j.kid j'.kid,
      ))

  pub record PayloadFrame (j j' : Jwt) : Type 0 where
    pub reads : ReadsPayload j j'
    pub frame : j' ≡ record j {
      iss = j'.iss;
      sub = j'.sub;
      iat = j'.iat;
      nbf = j'.nbf;
      exp = j'.exp;
      jti = j'.jti;
      audiences = j'.audiences;
    }

  pub claims_frame :
      (j j' : Jwt)
      → (parse_names >> (parse_times >> parse_id_and_audiences)) j ≡ next tt j'
      → PayloadFrame j j'
  claims_frame j j' h =
      let (j₁, names, h₁) = >>-eq-next parse_names (parse_times >> parse_id_and_audiences) j h in
      let (j₂, times, h₂) = >>-eq-next parse_times parse_id_and_audiences j₁ h₁ in
      let n = (names_iff j j₁).0 names in
      let t = (times_iff j₁ j₂).0 times in
      let i = (id_and_audiences_iff j₂ j').0 h₂ in
      record {
        reads = record {
          iss = (get_string_iff j'.payload_pb (bytes "iss") j.iss j'.iss).0 (ground arith);
          sub = (get_string_iff j'.payload_pb (bytes "sub") j.sub j'.sub).0 (ground arith);
          iat = (get_uint64_iff j'.payload_pb (bytes "iat") j.iat j'.iat).0 (ground arith);
          nbf = (get_uint64_iff j'.payload_pb (bytes "nbf") j.nbf j'.nbf).0 (ground arith);
          exp = (get_uint64_iff j'.payload_pb (bytes "exp") j.exp j'.exp).0 (ground arith);
          jti = (get_string_iff j'.payload_pb (bytes "jti") j.jti j'.jti).0 (ground arith);
          aud =
              (get_string_list_iff j'.payload_pb (bytes "aud") j.audiences j'.audiences).0
                (ground arith);
        };
        frame = ground arith;
      }

  module _ (j j' : Jwt) (h : PayloadFrame j j') where
    names_run : parse_names j ≡ next tt (after_names j)
    names_run = (names_iff j _).1 (
        ground (
          arith,
          (get_string_iff j'.payload_pb (bytes "iss") j.iss j'.iss).1 h.reads.iss,
          (get_string_iff j'.payload_pb (bytes "sub") j.sub j'.sub).1 h.reads.sub,
        ))

    times_run : parse_times (after_names j) ≡ next tt (after_times (after_names j))
    times_run = (times_iff (after_names j) _).1 (
        ground (
          arith,
          (get_uint64_iff j'.payload_pb (bytes "iat") j.iat j'.iat).1 h.reads.iat,
          (get_uint64_iff j'.payload_pb (bytes "nbf") j.nbf j'.nbf).1 h.reads.nbf,
          (get_uint64_iff j'.payload_pb (bytes "exp") j.exp j'.exp).1 h.reads.exp,
        ))

    id_and_audiences_run : parse_id_and_audiences (after_times (after_names j)) ≡ next tt j'
    id_and_audiences_run = (id_and_audiences_iff (after_times (after_names j)) j').1 (
        ground (
          arith,
          (get_string_iff j'.payload_pb (bytes "iss") j.iss j'.iss).1 h.reads.iss,
          (get_string_iff j'.payload_pb (bytes "sub") j.sub j'.sub).1 h.reads.sub,
          (get_uint64_iff j'.payload_pb (bytes "iat") j.iat j'.iat).1 h.reads.iat,
          (get_uint64_iff j'.payload_pb (bytes "nbf") j.nbf j'.nbf).1 h.reads.nbf,
          (get_uint64_iff j'.payload_pb (bytes "exp") j.exp j'.exp).1 h.reads.exp,
          (get_string_iff j'.payload_pb (bytes "jti") j.jti j'.jti).1 h.reads.jti,
          (get_string_list_iff j'.payload_pb (bytes "aud") j.audiences j'.audiences).1 h.reads.aud,
        ))

    pub claims_run : (parse_names >> (parse_times >> parse_id_and_audiences)) j ≡ next tt j'
    claims_run =
        >>_of_next parse_names (parse_times >> parse_id_and_audiences) j (after_names j) names_run
        ∙ >>_of_next parse_times parse_id_and_audiences (after_names j)
            (after_times (after_names j)) times_run
        ∙ id_and_audiences_run
