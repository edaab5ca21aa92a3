-- ===== src/Jwks/Set.antt =====
-- The fields of `class Jwks`, and the sets that are made from a PEM text (src/jwks.cc).
use jwt_verify_lib.Prelude.{
  not, ◌&&◌, ◌||◌, List, [], ◌∷◌, ◌++◌, none, some, Bytes, bytes, ◌=ᵇ◌, ◌==◌, length, if◌then◌else◌,
}
use jwt_verify_lib.Status.{
  Status, ok, is_ok, WithStatus, with_status, update_status, jwks_pem_bad_base64,
  jwks_pem_not_implemented_kty, jwks_pem_get_raw_ed25519_error,
}
use jwt_verify_lib.External.Ssl.{Ssl}
use jwt_verify_lib.Jwks.Key.{Pubkey, new_pubkey}
use jwt_verify_lib.Jwks.Getter.{create_evp_pkey_from_pem}

module _ ⦃ssl : Ssl⦄ where
  open ssl use {
    EvpPkey, evp_pkey_id, evp_pkey_rsa, evp_pkey_ec, evp_pkey_ed25519, evp_pkey_get1_rsa,
    evp_pkey_get1_ec_key, evp_pkey_get_raw_public_key, ed25519_public_key_len, boringssl_fips,
  }

  -- The fields `keys_` and `status_`.
  pub record Jwks : Type 0 where
    pub keys : List Pubkey
    pub base : WithStatus

  -- `Jwks()`.
  abbrev pub new_jwks : Jwks
  new_jwks = record { keys = []; base = with_status }

  -- `updateStatus` of the set.
  abbrev pub fail : Status → Jwks → Jwks
  fail status j = record j { base = update_status status j.base }

  -- `keys_.push_back`.
  abbrev pub push_key : Pubkey → Jwks → Jwks
  push_key key j = record j { keys = j.keys ++ key ∷ [] }

  -- The `switch` of `createFromPemCore`.
  unfoldable pub push_pem_key : EvpPkey → Jwks → Jwks
  push_pem_key evp_pkey j =
      if evp_pkey_id evp_pkey == evp_pkey_rsa
      then push_key (record new_pubkey { kty = bytes "RSA"; rsa = evp_pkey_get1_rsa evp_pkey }) j
      else if evp_pkey_id evp_pkey == evp_pkey_ec
      then push_key (record new_pubkey { kty = bytes "EC"; ec_key = evp_pkey_get1_ec_key evp_pkey })
          j
      else if not boringssl_fips && evp_pkey_id evp_pkey == evp_pkey_ed25519
      then (let (result, raw_key) = evp_pkey_get_raw_public_key evp_pkey in
          if not (result == 1) || not (length raw_key == ed25519_public_key_len)
          then fail jwks_pem_get_raw_ed25519_error j
          else push_key
              (record new_pubkey {
                kty = bytes "OKP";
                crv = bytes "Ed25519";
                okp_key_raw = raw_key;
              })
              j)
      else fail jwks_pem_not_implemented_kty j

  -- `createFromPemCore`.
  unfoldable pub create_from_pem_core : Bytes → Jwks → Jwks
  create_from_pem_core pkey_pem j =
      let (evp_pkey, e) = create_evp_pkey_from_pem pkey_pem with_status in
      let j' = fail e.status (record j { keys = [] }) in
      elim evp_pkey [ none ↦ j' | some pkey ↦ push_pem_key pkey j' ]

  -- The curve that `createFromPem` sets for a known algorithm.
  unfoldable pub crv_of_alg : Bytes → Bytes → Bytes
  crv_of_alg alg crv =
      if alg =ᵇ bytes "ES256"
      then bytes "P-256"
      else if alg =ᵇ bytes "ES384"
      then bytes "P-384"
      else if alg =ᵇ bytes "ES512"
      then bytes "P-521"
      else crv

  -- The end of `createFromPem`, on the set that was read.
  unfoldable pub name_pem_key : Bytes → Bytes → Jwks → Jwks
  name_pem_key kid alg ret = elim ret.keys [
    | [] ↦ fail jwks_pem_bad_base64 ret
    | jwk ∷ rest ↦ elim rest [
      | [] ↦ record ret {
        keys = record jwk { kid = kid; alg = alg; crv = crv_of_alg alg jwk.crv } ∷ [];
      }
      | _ ∷ _ ↦ fail jwks_pem_bad_base64 ret
    ]
  ]

  -- `Jwks::createFromPem`; `createFrom` with `PEM` is `createFromPemCore` on a new set.
  unfoldable pub create_from_pem : Bytes → Bytes → Bytes → Jwks
  create_from_pem pkey kid alg =
      let ret = create_from_pem_core pkey new_jwks in
      if not (is_ok ret.base.status) then ret else name_pem_key kid alg ret

  -- `Jwks::addKeyFromPem`.
  unfoldable pub add_key_from_pem : Bytes → Bytes → Bytes → Jwks → Jwks × Status
  add_key_from_pem pkey kid alg j =
      let tmp = create_from_pem pkey kid alg in
      if not (is_ok tmp.base.status)
      then (j, tmp.base.status)
      else (record j { keys = j.keys ++ tmp.keys }, ok)
