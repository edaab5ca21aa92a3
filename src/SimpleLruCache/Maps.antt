-- ===== src/SimpleLruCache/Maps.antt =====
-- What the cache uses of `absl::flat_hash_map`, as an association list whose order stands for the
-- order of an iteration. The template argument `EQ` is an interface.
use jwt_verify_lib.Prelude.{
  ℕ, ◌≡◌, ◌↔◌, Bool, true, List, [], ◌∷◌, Option, none, some, if◌then◌else◌,
}

pub record KeyEq (K : Type 0) : Type 0 where
  pub is_equal : K → K → Bool
  pub is_equal_iff : (j k : K) → (is_equal j k ≡ true) ↔ (j ≡ k)

module _ {K : Type 0} ⦃eq : KeyEq K⦄ where
  open eq use {is_equal}

  -- `find`, with the value of the entry.
  unfoldable pub find : K → List (K × ℕ) → Option ℕ
  find k [] = none
  find k ((j, p) ∷ m) = if is_equal j k then some p else find k m

  -- `erase` of the entry that `find` finds.
  unfoldable pub erase : K → List (K × ℕ) → List (K × ℕ)
  erase k [] = []
  erase k ((j, p) ∷ m) = if is_equal j k then m else (j, p) ∷ erase k m

  -- `m[k] = p`.
  unfoldable pub assign : K → ℕ → List (K × ℕ) → List (K × ℕ)
  assign k p [] = (k, p) ∷ []
  assign k p ((j, q) ∷ m) = if is_equal j k then (j, p) ∷ m else (j, q) ∷ assign k p m
