-- ===== src/SimpleLruCache/Finding.antt =====
-- `lookup` of simple_lru_cache/simple_lru_cache_inl.h of a value that is held, and behind an insertion.
use jwt_verify_lib.Prelude.{ℕ, ◌≡◌, sym, ap, ◌∙◌, List, ◌⊎◌, inl, inr, none, some}
use jwt_verify_lib.SimpleLruCache.{KeyEq, find, Ptr, null, Cache, lookup, insert_pinned}
use jwt_verify_lib.SimpleLruCache.Claims.{IsFree}
use jwt_verify_lib.SimpleLruCache.Valid.{IsValid, IsHeld}
use jwt_verify_lib.SimpleLruCache.Pinning.{lookup-IsHeld}
use jwt_verify_lib.SimpleLruCache.Inserting.{insert_pinned-IsClaimed}
use mathlib.Core.Option.{some-injective, none-ne-some}

module _ {K : Type 0} ⦃eq : KeyEq K⦄ where
  -- A key has one held value.
  same_value :
      (c : Cache K) (k : K) (v w : Ptr)
      → IsHeld c k v
      → ((find k c.table ≡ none) × (w ≡ null)) ⊎ IsHeld c k w
      → w ≡ v
  same_value c k v w (e, f, p, _) (inl (g, _)) = absurd (none-ne-some e (sym g ∙ f))
  same_value c k v w (e, f, p, _) (inr (r, g, q, _)) =
      let i = some-injective _ _ (sym g ∙ f) in sym q ∙ ap (λ s. (c.cell s).value) i ∙ p

  -- On a cache with the representation invariants, a lookup of a key under which a value is held
  -- returns the value, and it is held still.
  pub held-lookup :
      (k : K) (v : Ptr) (now : ℕ) (c : Cache K) (es : List Ptr)
      → IsValid c es
      → IsHeld c k v
      → (c' : Cache K) × (es' : List Ptr) × (lookup k now c ≡ some (c', v))
        × IsValid c' es'
        × IsHeld c' k v
  held-lookup k v now c es valid held =
      let (c', es', w, q, (valid', kept, _), found) = lookup-IsHeld k now es c valid in
      let held' = kept k v held in
      let same = same_value c' k v w held' found in
      (c', es', q ∙ ap (λ r. some (c', r)) same, valid', held')

  -- On a cache with the representation invariants, and at an address that no element has: behind
  -- `insertPinned` a lookup of the key, at any time, returns the value that was inserted, however few
  -- units there are, and whatever the key had before.
  pub insert_pinned-lookup :
      (c : Cache K) (es : List Ptr) (p v : Ptr) (k : K) (units now later : ℕ)
      → IsValid c es
      → IsFree c es p
      → (c₁ : Cache K) × (c₂ : Cache K) × (insert_pinned p k v units now c ≡ some c₁)
        × (lookup k later c₁ ≡ some (c₂, v))
        × IsHeld c₂ k v
  insert_pinned-lookup c es p v k units now later valid free =
      let (c₁, es₁, q, valid₁, _, held, _) =
        insert_pinned-IsClaimed c es p v k units now valid free in
      let (c₂, _, r, _, held₂) = held-lookup k v later c₁ es₁ valid₁ held in (c₁, c₂, q, r, held₂)
