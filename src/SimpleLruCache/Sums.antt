-- ===== src/SimpleLruCache/Sums.antt =====
-- Sums over the entries of a map of the cache (simple_lru_cache/simple_lru_cache_inl.h).
use jwt_verify_lib.Prelude.{
  ℕ, ◌+◌, ◌%◌, ◌^◌, ◌≡◌, ◌≢◌, refl, sym, ap, ◌∙◌, subst, List, [], ◌∷◌, none, some, inl, inr,
  if◌then◌else◌, Bool-cases, arith,
}
use jwt_verify_lib.SimpleLruCache.Words.{add_64, sub_64}
use jwt_verify_lib.SimpleLruCache.Maps.{KeyEq, find, erase, assign}
use jwt_verify_lib.SimpleLruCache.Tables.{
  IsUnique, is_equal_refl, find-erase, find-erase_back, IsUnique-erase,
}
use mathlib.Core.Option.{some-injective, none-ne-some}

-- The sum of a measure of the values.
abbrev pub total {ℓ} : {K : Type ℓ} → (ℕ → ℕ) → List (K × ℕ) → ℕ
total f [] = 0
total f ((_, e) ∷ m) = f e + total f m

pub total-ext {ℓ} :
    {K : Type ℓ} (f g : ℕ → ℕ) (m : List (K × ℕ)) → ((e : ℕ) → f e ≡ g e) → total f m ≡ total g m
total-ext f g [] h = refl
total-ext f g ((_, e) ∷ m) h = omega (arith, h e, total-ext f g m h)

module _ {K : Type 0} ⦃eq : KeyEq K⦄ where
  open eq use {is_equal, is_equal_iff}

  pub total-erase :
      (f : ℕ → ℕ) (k : K) (e : ℕ) (m : List (K × ℕ))
      → find k m ≡ some e
      → total f m ≡ f e + total f (erase k m)
  unfolding find erase
  total-erase f k e [] h = absurd (none-ne-some e h)
  total-erase f k e ((j, q) ∷ m) h = elim (Bool-cases (is_equal j k)) [
    | inl i ↦
        let s = some-injective _ _ (subst (λ b. (if b then some q else find k m) ≡ some e) i h) in
        rw i (ap (λ p. f p + total f m) s)
    | inr i ↦
        let rest =
          total-erase f k e m (subst (λ b. (if b then some q else find k m) ≡ some e) i h) in
        rw i (omega (arith, rest))
  ]

  pub total-assign :
      (f : ℕ → ℕ) (k : K) (p : ℕ) (m : List (K × ℕ))
      → find k m ≡ none
      → total f (assign k p m) ≡ total f m + f p
  unfolding find assign
  total-assign f k p [] h = omega arith
  total-assign f k p ((j, q) ∷ m) h = elim (Bool-cases (is_equal j k)) [
    | inl i ↦
        absurd (none-ne-some q (sym (subst (λ b. (if b then some q else find k m) ≡ none) i h)))
    | inr i ↦
        let rest =
          total-assign f k p m (subst (λ b. (if b then some q else find k m) ≡ none) i h) in
        rw i (omega (arith, rest))
  ]

  -- Measures that agree on the values that are found have the same sum.
  pub total-same :
      (f g : ℕ → ℕ) (m : List (K × ℕ))
      → IsUnique m
      → ((k : K) (e : ℕ) → find k m ≡ some e → f e ≡ g e)
      → total f m ≡ total g m
  unfolding find
  total-same f g [] u h = refl
  total-same f g ((j, q) ∷ m) (n, u) h =
      let first = h j q (rw (is_equal_refl j) refl) in
      let rest = total-same f g m u (λ k e r. elim (Bool-cases (is_equal j k)) [
        | inl i ↦ absurd (none-ne-some e (sym n ∙ ap (λ s. find s m) ((is_equal_iff j k).0 i) ∙ r))
        | inr i ↦ h k e (rw i r)
      ]) in
      omega (arith, first, rest)

  -- Measures that agree on the values of all other keys.
  pub total-change :
      (f g : ℕ → ℕ) (k : K) (e : ℕ) (m : List (K × ℕ))
      → IsUnique m
      → find k m ≡ some e
      → ((j : K) (r : ℕ) → j ≢ k → find j m ≡ some r → f r ≡ g r)
      → total g m + f e ≡ total f m + g e
  total-change f g k e m u h other =
      let same = total-same f g (erase k m) (IsUnique-erase k m u) (λ j r q.
        other j r
          (λ i. none-ne-some r (sym (find-erase k m u) ∙ ap (λ s. find s (erase k m)) (sym i) ∙ q))
          (find-erase_back k j r m u q)) in
      omega (arith, same, total-erase f k e m h, total-erase g k e m h)

-- The differences and sums of the counters, where a counter is a sum modulo 2 ^ 64.
pub sub_64-total : (u t : ℕ) → sub_64 ((u + t) % 2 ^ 64) u ≡ t % 2 ^ 64
sub_64-total u t = omega arith

pub add_64-total : (u t : ℕ) → add_64 (t % 2 ^ 64) u ≡ (t + u) % 2 ^ 64
add_64-total u t = omega arith
