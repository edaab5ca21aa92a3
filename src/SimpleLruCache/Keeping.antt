-- ===== src/SimpleLruCache/Keeping.antt =====
-- What an operation of simple_lru_cache/simple_lru_cache_inl.h leaves as it was.
use jwt_verify_lib.Prelude.{
  ℕ, ◌≡◌, refl, subst, List, [], ◌∷◌, ◌++◌, Option, inl, inr, some, Bool-cases,
}
use jwt_verify_lib.SimpleLruCache.{KeyEq, Ptr, Cache, remove_expired_entries, is_not_negative}
use jwt_verify_lib.SimpleLruCache.Claims.{IsSteady, IsSteady-refl, IsSteady-trans}
use jwt_verify_lib.SimpleLruCache.Valid.{
  IsValid, IsHeld, drop_elem, drop_elem-IsValid, drop_elem-IsHeld, drop_elem-IsSteady,
}
use jwt_verify_lib.SimpleLruCache.Dropping.{drop_all, Drops}
use jwt_verify_lib.SimpleLruCache.Expiring.{discard_idle-Drops}

module _ {K : Type 0} ⦃eq : KeyEq K⦄ where
  -- What is held outlives the drops.
  pub drop_all-IsHeld :
      (c : Cache K) (xs ys : List Ptr) (k : K) (v : Ptr)
      → IsValid c (xs ++ ys)
      → IsHeld c k v
      → IsHeld (drop_all xs c) k v
  drop_all-IsHeld c [] ys k v valid held = held
  drop_all-IsHeld c (x ∷ xs) ys k v valid held =
      drop_all-IsHeld (drop_elem x c) xs ys k v (drop_elem-IsValid c [] x (xs ++ ys) valid)
        (drop_elem-IsHeld c [] x (xs ++ ys) k v valid held)

  -- And the drops leave the deferred elements alone.
  pub drop_all-IsSteady :
      (c : Cache K) (xs ys : List Ptr) → IsValid c (xs ++ ys) → IsSteady c (drop_all xs c)
  drop_all-IsSteady c [] ys valid = IsSteady-refl c
  drop_all-IsSteady c (x ∷ xs) ys valid =
      IsSteady-trans (drop_elem-IsSteady c [] x (xs ++ ys) valid)
        (drop_all-IsSteady (drop_elem x c) xs ys (drop_elem-IsValid c [] x (xs ++ ys) valid))

  -- The state of a cache with the invariants, in which what was held still is, and the deferred
  -- elements are as they were.
  abbrev pub Keeps : Cache K → Cache K → List Ptr → Type 0
  Keeps c c' es = IsValid c' es × ((k : K) (v : Ptr) → IsHeld c k v → IsHeld c' k v) × IsSteady c c'

  pub Drops-Keeps :
      (c : Cache K) (es : List Ptr) (o : Option (Cache K))
      → IsValid c es
      → Drops c es o
      → (c' : Cache K) × (es' : List Ptr) × (o ≡ some c') × Keeps c c' es'
  Drops-Keeps c es o valid d =
      let start = subst (IsValid c) d.parts valid in
      (
        drop_all d.gone c,
        d.left,
        d.result,
        (
          d.valid,
          (λ k v held. drop_all-IsHeld c d.gone d.left k v start held),
          drop_all-IsSteady c d.gone d.left start,
        ),
      )

  pub remove_expired_entries-Keeps :
      (now : ℕ) (es : List Ptr) (c : Cache K)
      → IsValid c es
      → (c' : Cache K) × (es' : List Ptr) × (remove_expired_entries now c ≡ some c')
        × Keeps c c' es'
  unfolding remove_expired_entries
  remove_expired_entries-Keeps now es c valid = elim (Bool-cases (is_not_negative c.max_idle)) [
    | inl h ↦ rw h (Drops-Keeps c es _ valid (discard_idle-Drops c.max_idle now es c h valid).0)
    | inr h ↦ rw h (c, es, refl, (valid, (λ k v held. held), IsSteady-refl c))
  ]
