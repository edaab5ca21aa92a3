-- ===== src/External/Absl.antt =====
-- What src/*.cc use of Abseil, and what its documentation says of those functions.
use jwt_verify_lib.Prelude.{ℕ, ◌≡◌, ◌↔◌, Bool, true, List, ◌++◌, Bytes}

pub record Absl : Type 0 where
  pub starts_with : Bytes → Bytes → Bool
  pub ends_with : Bytes → Bytes → Bool
  -- The returned flag, and the destination afterwards.
  pub web_safe_base64_unescape : Bytes → Bool × Bytes
  -- `StrSplit(text, delimiter, SkipEmpty())`.
  pub str_split_skip_empty : Bytes → ℕ → List Bytes

-- "Returns whether a given string `text` begins with `prefix`."
abbrev pub StartsWithLaw : Absl → Type 0
StartsWithLaw a =
    (text prefix : Bytes)
    → (a.starts_with text prefix ≡ true) ↔ ((rest : Bytes) × (text ≡ prefix ++ rest))
