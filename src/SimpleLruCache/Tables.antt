-- ===== src/SimpleLruCache/Tables.antt =====
-- The laws of the maps of the cache (simple_lru_cache/simple_lru_cache_inl.h), which rest on the
-- equality of the keys alone.
use jwt_verify_lib.Prelude.{
  ℕ, ◌≡◌, ◌≢◌, refl, sym, ap, ◌∙◌, subst, true, false, List, [], ◌∷◌, inl, inr, none, some,
  if◌then◌else◌, Bool-cases, length, suc, ◌≤◌, arith,
}
use jwt_verify_lib.SimpleLruCache.Maps.{KeyEq, find, erase, assign}
use mathlib.Core.Option.{none-ne-some}

module _ {K : Type 0} ⦃eq : KeyEq K⦄ where
  open eq use {is_equal, is_equal_iff}

  pub is_equal_refl : (k : K) → is_equal k k ≡ true
  is_equal_refl k = (is_equal_iff k k).1 refl

  pub apart : (j k : K) → is_equal j k ≡ false → k ≢ j
  apart j k e p = let h = (is_equal_iff j k).1 (sym p) in ground arith

  pub find-assign : (k : K) (p : ℕ) (m : List (K × ℕ)) → find k (assign k p m) ≡ some p
  unfolding find assign
  find-assign k p [] = rw (is_equal_refl k) refl
  find-assign k p ((j, q) ∷ m) = elim (Bool-cases (is_equal j k)) [
    | inl e ↦ rw (e, e) refl
    | inr e ↦ rw (e, e) (find-assign k p m)
  ]

  -- A key equals at most one of two different keys.
  other : (k k' : K) (i : K) → k ≢ k' → is_equal i k ≡ true → is_equal i k' ≡ false
  other k k' i n e = elim (Bool-cases (is_equal i k')) [
    | inl f ↦ absurd (n (sym ((is_equal_iff i k).0 e) ∙ (is_equal_iff i k').0 f))
    | inr f ↦ f
  ]

  pub find-assign_other :
      (k k' : K) (p : ℕ) (m : List (K × ℕ)) → k ≢ k' → find k' (assign k p m) ≡ find k' m
  unfolding find assign
  find-assign_other k k' p [] n = elim (Bool-cases (is_equal k k')) [
    | inl e ↦ absurd (n ((is_equal_iff k k').0 e))
    | inr e ↦ rw e refl
  ]
  find-assign_other k k' p ((j, q) ∷ m) n = elim (Bool-cases (is_equal j k)) [
    | inl e ↦ rw e (rw (other k k' j n e) refl)
    | inr e ↦ rw e (ap (λ r. if is_equal j k' then some q else r) (find-assign_other k k' p m n))
  ]

  pub find-erase_other : (k k' : K) (m : List (K × ℕ)) → k ≢ k' → find k' (erase k m) ≡ find k' m
  unfolding find erase
  find-erase_other k k' [] n = refl
  find-erase_other k k' ((j, q) ∷ m) n = elim (Bool-cases (is_equal j k)) [
    | inl e ↦ rw e (rw (other k k' j n e) refl)
    | inr e ↦ rw e (ap (λ r. if is_equal j k' then some q else r) (find-erase_other k k' m n))
  ]

  -- A map has at most one entry for a key.
  abbrev pub IsUnique : List (K × ℕ) → Type 0
  IsUnique [] = Unit
  IsUnique ((j, _) ∷ m) = (find j m ≡ none) × IsUnique m

  pub find-erase : (k : K) (m : List (K × ℕ)) → IsUnique m → find k (erase k m) ≡ none
  unfolding find erase
  find-erase k [] u = refl
  find-erase k ((j, q) ∷ m) (n, u) = elim (Bool-cases (is_equal j k)) [
    | inl e ↦ rw e (subst (λ i. find i m ≡ none) ((is_equal_iff j k).0 e) n)
    | inr e ↦ rw (e, e) (find-erase k m u)
  ]

  -- What an erased map has, the map had.
  pub find-erase_back :
      (k j : K) (r : ℕ) (m : List (K × ℕ))
      → IsUnique m
      → find j (erase k m) ≡ some r
      → find j m ≡ some r
  find-erase_back k j r m u f = elim (Bool-cases (is_equal k j)) [
    | inl e ↦ absurd (
        none-ne-some r
          (sym (find-erase k m u) ∙ ap (λ i. find i (erase k m)) ((is_equal_iff k j).0 e) ∙ f))
    | inr e ↦ sym (find-erase_other k j m (λ q. apart k j e (sym q))) ∙ f
  ]

  pub IsUnique-erase : (k : K) (m : List (K × ℕ)) → IsUnique m → IsUnique (erase k m)
  unfolding erase
  IsUnique-erase k [] u = tt
  IsUnique-erase k ((j, q) ∷ m) (n, u) = elim (Bool-cases (is_equal j k)) [
    | inl e ↦ rw e u
    | inr e ↦ rw e (find-erase_other k j m (apart j k e) ∙ n, IsUnique-erase k m u)
  ]

  pub IsUnique-assign : (k : K) (p : ℕ) (m : List (K × ℕ)) → IsUnique m → IsUnique (assign k p m)
  unfolding assign find
  IsUnique-assign k p [] u = (refl, tt)
  IsUnique-assign k p ((j, q) ∷ m) (n, u) = elim (Bool-cases (is_equal j k)) [
    | inl e ↦ rw e (n, u)
    | inr e ↦ rw e (find-assign_other k j p m (apart j k e) ∙ n, IsUnique-assign k p m u)
  ]

  pub length-erase :
      (k : K) (p : ℕ) (m : List (K × ℕ)) → find k m ≡ some p → length m ≡ suc (length (erase k m))
  unfolding find erase
  length-erase k p [] f = absurd (ground arith)
  length-erase k p ((j, q) ∷ m) f = elim (Bool-cases (is_equal j k)) [
    | inl e ↦ rw e refl
    | inr e ↦
        rw e
          (ap suc (length-erase k p m (subst (λ b. (if b then some q else find k m) ≡ some p) e f)))
  ]

  pub length-assign : (k : K) (p : ℕ) (m : List (K × ℕ)) → length (assign k p m) ≤ suc (length m)
  unfolding assign
  length-assign k p [] = omega arith
  length-assign k p ((j, q) ∷ m) = elim (Bool-cases (is_equal j k)) [
    | inl e ↦ rw e (omega arith)
    | inr e ↦ rw e (omega (arith, length-assign k p m))
  ]
