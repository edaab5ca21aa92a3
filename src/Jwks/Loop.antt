-- ===== src/Jwks/Loop.antt =====
-- The loop over the entries of a JSON key set (src/jwks.cc, `createFromJwksCore`), against a
-- description that extracts each entry on its own.
use mathlib.Core.List.{append_assoc, append-nil}
use jwt_verify_lib.Prelude.{
  ◌≡◌, refl, sym, ◌∙◌, ap, inl, inr, true, some, List, [], ◌∷◌, ◌++◌, arith, Bytes, bytes, is_empty,
  if◌then◌else◌, Bool-cases,
}
use jwt_verify_lib.Status.{Status, ok, is_ok, update_status, reset_status, jwks_no_valid_keys}
use jwt_verify_lib.Status.Laws.{is_ok_iff}
use jwt_verify_lib.External.Protobuf.{Protobuf, Kind, struct_value, list_value}
use jwt_verify_lib.External.Absl.{Absl}
use jwt_verify_lib.External.Ssl.{Ssl}
use jwt_verify_lib.Jwks.{
  Jwks, new_jwks, Pubkey, new_pubkey, extract_jwk, add_kind, add_entry, add_entries, close_entries,
  jwks, create_from_jwks_core, create_from_message, create_from,
}

is_empty-append {ℓ} :
    {A : Type ℓ} (xs ys : List A)
    → is_empty (xs ++ ys) ≡ true
    → (is_empty xs ≡ true) × (is_empty ys ≡ true)
is_empty-append [] ys h = (refl, h)
is_empty-append (x ∷ xs) ys h = ground arith

module _ ⦃ssl : Ssl⦄ ⦃pb : Protobuf⦄ ⦃ab : Absl⦄ where
  open pb use {Struct, Value, Double, empty_struct, find, kind, json_string_to_message}

  -- The keys that one entry gives, and its failure, by its kind.
  unfoldable pub keys_of_kind : Kind Struct Value Double → List Pubkey
  keys_of_kind (struct_value s) =
      let r = extract_jwk s new_pubkey in if is_ok r.1 then r.0 ∷ [] else []
  keys_of_kind _ = []

  unfoldable pub failure_of_kind : Kind Struct Value Double → Status
  failure_of_kind (struct_value s) = (extract_jwk s new_pubkey).1
  failure_of_kind _ = ok

  -- The keys of the entries that give one, in their order.
  unfoldable pub extracted : List Value → List Pubkey
  extracted [] = []
  extracted (v ∷ vs) = keys_of_kind (kind v) ++ extracted vs

  -- The first failure among the entries, else `ok`.
  unfoldable pub first_bad : List Value → Status
  first_bad [] = ok
  first_bad (v ∷ vs) = let s = failure_of_kind (kind v) in if is_ok s then first_bad vs else s

  -- The status that a set of these entries has.
  unfoldable pub set_status : List Value → Status
  set_status values =
      if is_empty (extracted values)
      then (if is_ok (first_bad values) then jwks_no_valid_keys else first_bad values)
      else ok

  add_kind-keys :
      (k : Kind Struct Value Double) (j : Jwks) → (add_kind k j).keys ≡ j.keys ++ keys_of_kind k
  unfolding add_kind keys_of_kind
  add_kind-keys (struct_value s) j = ground (arith, append-nil j.keys)
  add_kind-keys _ j = sym (append-nil j.keys)

  add_entries-keys : (vs : List Value) (j : Jwks) → (add_entries vs j).keys ≡ j.keys ++ extracted vs
  unfolding add_entries add_entry extracted
  add_entries-keys [] j = sym (append-nil j.keys)
  add_entries-keys (v ∷ vs) j =
      add_entries-keys vs (add_entry v j)
      ∙ ap (λ k. k ++ extracted vs) (add_kind-keys (kind v) j)
      ∙ append_assoc j.keys (keys_of_kind (kind v)) (extracted vs)

  -- An entry that gives no key updates the status with its failure.
  add_kind-status :
      (k : Kind Struct Value Double) (j : Jwks)
      → is_empty (keys_of_kind k) ≡ true
      → (add_kind k j).base ≡ update_status (failure_of_kind k) j.base
  unfolding add_kind keys_of_kind failure_of_kind update_status
  add_kind-status (struct_value s) j h = ground (arith, is_ok_iff j.base.status)
  add_kind-status _ j h = ground (arith, is_ok_iff j.base.status)

  -- Where no entry gives a key, the status is the first failure, an earlier one included.
  add_entries-status :
      (vs : List Value) (j : Jwks)
      → is_empty (extracted vs) ≡ true
      → (add_entries vs j).base.status
        ≡ (if is_ok j.base.status then first_bad vs else j.base.status)
  unfolding add_entries add_entry extracted first_bad update_status
  add_entries-status [] j h = ground (arith, is_ok_iff j.base.status)
  add_entries-status (v ∷ vs) j h =
      let (h0, h1) = is_empty-append (keys_of_kind (kind v)) (extracted vs) h in
      ground (
        arith,
        add_entries-status vs (add_entry v j) h1,
        add_kind-status (kind v) j h0,
        is_ok_iff j.base.status,
        is_ok_iff (failure_of_kind (kind v)),
      )

  close_entries-eq :
      (j : Jwks) (keys : List Pubkey) (s : Status)
      → j.keys ≡ keys
      → (is_empty keys ≡ true → j.base.status ≡ s)
      → close_entries j ≡ record {
        keys = keys;
        base = record {
          status = if is_empty keys then (if is_ok s then jwks_no_valid_keys else s) else ok;
        };
      }
  unfolding close_entries reset_status update_status
  close_entries-eq j keys s h k = elim (Bool-cases (is_empty keys)) [
    | inl e ↦ ground (arith, k e, is_ok_iff s)
    | inr e ↦ ground arith
  ]

  -- A key set made from a JSON text whose "keys" is a list: its keys are those of the entries that
  -- give one, in their order, and its status is ok when there is one, else the first failure
  -- among the entries, else `JwksNoValidKeys`.
  pub create_from-keys :
      (text : Bytes) (message : Struct) (v : Value) (values : List Value)
      → json_string_to_message text empty_struct ≡ (true, message)
      → find message (bytes "keys") ≡ some v
      → kind v ≡ list_value values
      → create_from text jwks
        ≡ record { keys = extracted values; base = record { status = set_status values } }
  unfolding create_from create_from_jwks_core create_from_message set_status is_ok
  create_from-keys text message v values e f h =
      rw (e, create_from_message, f, create_from_message, h)
        (close_entries-eq (add_entries values new_jwks) (extracted values) (first_bad values)
          (add_entries-keys values new_jwks) (add_entries-status values new_jwks))
