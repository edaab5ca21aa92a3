-- ===== src/CheckAudience.antt =====
-- `class CheckAudience` (jwt_verify_lib/check_audience.h, src/check_audience.cc). `none` is the
-- `std::out_of_range` of `substr`; a `size_t` has 64 bits, and its subtraction wraps.
pub mod Canonical
pub mod Laws
mod Tests
use jwt_verify_lib.Prelude.{
  ℕ, ◌+◌, ◌-◌, ◌%◌, ◌^◌, Bool, true, false, List, [], ◌∷◌, Option, none, some, Bytes, bytes, ◌=ᵇ◌,
  ◌==◌, if◌then◌else◌, length, is_empty, any, char_at, substr, leb,
}
use jwt_verify_lib.External.Absl.{Absl}

infixl 5 ◌>>=◌
abbrev pub ◌>>=◌ {ℓ κ} : {A : Type ℓ} {B : Type κ} → Option A → (A → Option B) → Option B
none >>= k = none
some a >>= k = k a

abbrev pub http_scheme_prefix : Bytes
http_scheme_prefix = bytes "http://"

abbrev pub https_scheme_prefix : Bytes
https_scheme_prefix = bytes "https://"

-- `std::set::insert`, where the order of the elements is never observed.
unfoldable pub insert : Bytes → List Bytes → List Bytes
insert a set = if any (λ b. b =ᵇ a) set then set else a ∷ set

-- The end of `sanitizeAudience`: `end_pos`, the second test, and the result.
unfoldable pub cut_audience : Bytes → ℕ → Bool → Option Bytes
cut_audience aud beg_pos sanitized =
    let cut : ℕ × Bool =
      if char_at aud (length aud - 1) == b'/'
      then (length aud - 1, true)
      else (length aud, sanitized) in
    let (end_pos, sanitized') = cut in
    if sanitized' then substr aud beg_pos ((end_pos + 2 ^ 64 - beg_pos) % 2 ^ 64) else some aud

module _ ⦃ab : Absl⦄ where
  open ab use {starts_with}

  -- `beg_pos`, and `sanitized` after the first test of `sanitizeAudience`.
  unfoldable pub scheme_end : Bytes → ℕ × Bool
  scheme_end aud =
      if starts_with aud http_scheme_prefix
      then (length http_scheme_prefix, true)
      else if starts_with aud https_scheme_prefix
      then (length https_scheme_prefix, true)
      else (0, false)

  -- `sanitizeAudience`.
  unfoldable pub sanitize_audience : Bytes → Option Bytes
  sanitize_audience aud =
      if is_empty aud
      then some aud
      else let (beg_pos, sanitized) = scheme_end aud in cut_audience aud beg_pos sanitized

  -- The loop of the constructor, which inserts into `config_audiences_`.
  unfoldable pub insert_all : List Bytes → List Bytes → Option (List Bytes)
  insert_all [] set = some set
  insert_all (aud ∷ auds) set = do clean ← sanitize_audience aud; insert_all auds (insert clean set)

  -- `CheckAudience::CheckAudience`.
  unfoldable pub check_audience : List Bytes → Option (List Bytes)
  unfolding insert_all
  check_audience config_audiences = insert_all config_audiences []

  -- The loop of `areAudiencesAllowed`.
  unfoldable pub find_allowed : List Bytes → List Bytes → Option Bool
  find_allowed set [] = some false
  find_allowed set (aud ∷ auds) = do
    clean ← sanitize_audience aud
    let rest = find_allowed set auds
    if any (λ b. b =ᵇ clean) set then some true else rest

  -- `areAudiencesAllowed`, on the set that the constructor built.
  unfoldable pub are_audiences_allowed : List Bytes → List Bytes → Option Bool
  unfolding find_allowed
  are_audiences_allowed config_audiences jwt_audiences =
      if is_empty config_audiences then some true else find_allowed config_audiences jwt_audiences
