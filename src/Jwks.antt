-- ===== src/Jwks.antt =====
-- `class Jwks` (jwt_verify_lib/jwks.h, src/jwks.cc): a set of keys and the status of its creation.
-- An object of the class is a record, and a method returns the new record.
mod Key
mod Getter
mod Extract
mod Set
pub mod Usable
pub mod Curve
pub mod Loop
pub mod Pem
pub mod Invariant
mod Tests
pub use Key.{Pubkey, new_pubkey}
unfoldable pub use Getter.*
unfoldable pub use Extract.*
unfoldable pub use Set.*
use jwt_verify_lib.Prelude.{
  ℕ, suc, Bool, true, false, not, ◌&&◌, ◌||◌, List, [], ◌∷◌, ◌++◌, Option, none, some, Bytes, bytes,
  ◌=ᵇ◌, ◌==◌, length, is_empty, if◌then◌else◌,
}
use jwt_verify_lib.Status.{
  Status, ok, is_ok, WithStatus, with_status, update_status, reset_status, jwks_pem_bad_base64,
  jwks_pem_not_implemented_kty, jwks_pem_get_raw_ed25519_error, jwks_parse_error, jwks_no_keys,
  jwks_bad_keys, jwks_no_valid_keys,
}
use jwt_verify_lib.External.Protobuf.{Protobuf, Kind, string_value, struct_value, list_value}
use jwt_verify_lib.External.Absl.{Absl}
use jwt_verify_lib.External.Ssl.{Ssl}

-- The prefix and the suffix of a certificate; byte 10 ends a line.
abbrev pub x509_cert_prefix : Bytes
x509_cert_prefix = bytes "-----BEGIN CERTIFICATE-----" ++ 10 ∷ []

abbrev pub x509_cert_suffix : Bytes
x509_cert_suffix = 10 ∷ bytes "-----END CERTIFICATE-----" ++ 10 ∷ []

-- `enum Type`.
pub data KeyFormat : Type 0 where
  jwks pem : KeyFormat

module _ ⦃ssl : Ssl⦄ ⦃pb : Protobuf⦄ ⦃ab : Absl⦄ where
  open pb use {Struct, Value, Double, empty_struct, fields, find, kind, json_string_to_message}
  open ab use {starts_with, ends_with}

  -- One field in the loop of `shouldCheckX509`.
  unfoldable pub is_certificate : Bytes × Value → Bool
  is_certificate (name, value) = not (is_empty name) && elim (kind value) [
    | string_value cert ↦ starts_with cert x509_cert_prefix && ends_with cert x509_cert_suffix
    | _ ↦ false
  ]

  all_certificates : List (Bytes × Value) → Bool
  all_certificates [] = true
  all_certificates (f ∷ rest) = is_certificate f && all_certificates rest

  -- `shouldCheckX509`.
  unfoldable pub should_check_x509 : Struct → Bool
  unfolding all_certificates
  should_check_x509 jwks_pb = not (is_empty (fields jwks_pb)) && all_certificates (fields jwks_pb)

  -- `string_value()`, which is empty for a value of another kind.
  abbrev pub string_or_empty : Kind Struct Value Double → Bytes
  string_or_empty (string_value s) = s
  string_or_empty _ = []

  -- The loop of `createFromX509`.
  unfoldable pub create_from_x509 : List (Bytes × Value) → List Pubkey → List Pubkey × Status
  create_from_x509 [] keys = (keys, ok)
  create_from_x509 ((name, value) ∷ rest) keys =
      let (key, status) = extract_x509 (string_or_empty (kind value)) new_pubkey in
      let later =
        create_from_x509 rest (keys ++ record key { kid = name; kty = bytes "RSA" } ∷ []) in
      if not (is_ok status) then (keys, status) else later

  -- The body of the loop of `createFromJwksCore`, by the kind of the value.
  unfoldable pub add_kind : Kind Struct Value Double → Jwks → Jwks
  add_kind (struct_value s) j =
      let (key, status) = extract_jwk s new_pubkey in
      if is_ok status
      then record (push_key key j) { base = reset_status status j.base }
      else fail status j
  add_kind _ j = j

  -- The body on one value.
  unfoldable pub add_entry : Value → Jwks → Jwks
  add_entry value j = add_kind (kind value) j

  -- The loop.
  unfoldable pub add_entries : List Value → Jwks → Jwks
  add_entries [] j = j
  add_entries (v ∷ vs) j = add_entries vs (add_entry v j)

  -- The status after the loop.
  unfoldable pub close_entries : Jwks → Jwks
  close_entries j =
      if is_empty j.keys
      then fail jwks_no_valid_keys j
      else record j { base = reset_status ok j.base }

  -- `createFromJwksCore` on the message.
  unfoldable pub create_from_message : Struct → Jwks → Jwks
  create_from_message jwks_pb j = elim (find jwks_pb (bytes "keys")) [
    | none ↦
        if should_check_x509 jwks_pb
        then (let (keys, status) = create_from_x509 (fields jwks_pb) j.keys in
            fail status (record j { keys = keys }))
        else fail jwks_no_keys j
    | some v ↦ elim (kind v) [
      | list_value values ↦ close_entries (add_entries values j)
      | _ ↦ fail jwks_bad_keys j
    ]
  ]

  -- `createFromJwksCore`.
  unfoldable pub create_from_jwks_core : Bytes → Jwks → Jwks
  create_from_jwks_core jwks_json j =
      let j' = record j { keys = [] } in
      let (parsed, jwks_pb) = json_string_to_message jwks_json empty_struct in
      if not parsed then fail jwks_parse_error j' else create_from_message jwks_pb j'

  -- `Jwks::createFrom`.
  unfoldable pub create_from : Bytes → KeyFormat → Jwks
  create_from pkey jwks = create_from_jwks_core pkey new_jwks
  create_from pkey pem = create_from_pem_core pkey new_jwks
