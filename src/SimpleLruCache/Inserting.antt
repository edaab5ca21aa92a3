-- ===== src/SimpleLruCache/Inserting.antt =====
-- `insertPinned` of simple_lru_cache/simple_lru_cache_inl.h, on a cache with the
-- representation invariants.
use jwt_verify_lib.Prelude.{
  ℕ, ◌≡◌, sym, subst, false, List, [], ◌++◌, ◌⊎◌, inl, inr, none, some, Option-cases,
}
use jwt_verify_lib.SimpleLruCache.{
  KeyEq, find, Ptr, Cache, is_overfull_internal, remove, discard, insert_pinned,
}
use jwt_verify_lib.SimpleLruCache.Valid.{IsValid, IsHeld, drop_elem-IsHeld, drop_elem-IsSteady}
use jwt_verify_lib.SimpleLruCache.Dropping.{remove_listed}
use jwt_verify_lib.SimpleLruCache.Claims.{IsFree, IsSteady-refl, IsSteady-trans}
use jwt_verify_lib.SimpleLruCache.Deferring.{IsClaimed, Removes}
use jwt_verify_lib.SimpleLruCache.Removing.{
  remove-missing, remove_unpinned-Removes, remove-Removes, Keeps-IsClaimed,
}
use jwt_verify_lib.SimpleLruCache.Keeping.{Keeps}
use jwt_verify_lib.SimpleLruCache.Late.{split_at}
use jwt_verify_lib.SimpleLruCache.Eviction.{evict}
use jwt_verify_lib.SimpleLruCache.Adding.{inserted}

module _ {K : Type 0} ⦃eq : KeyEq K⦄ where
  -- The removal of a key without pinned element.
  pub remove-Keeps :
      (c : Cache K) (es : List Ptr) (k : K)
      → IsValid c es
      → ((r : Ptr) → find k c.table ≡ some r → (c.cell r).pin ≡ 0)
      → (es' : List Ptr) × Keeps c (remove k c) es'
        × (find k (remove k c).table ≡ none)
        × ((p : Ptr) → IsFree c es p → IsFree (remove k c) es' p)
  unfolding evict discard
  remove-Keeps c es k valid unpinned = elim (Option-cases (find k c.table)) [
    | inl f ↦
        rw (remove-missing c k f)
          (es, (valid, (λ j v held. held), IsSteady-refl c), f, (λ p free. free))
    | inr (e, f) ↦
        let (xs, ys, parts) = split_at e es ((valid.entries k e f).waits (unpinned e f)) in
        let start = subst (IsValid c) parts valid in
        let (q, valid', gone, _) = remove_listed c xs e ys k start f in
        let removes =
          subst (λ s. Removes c s k (remove k c) (xs ++ ys)) (sym parts)
            (remove_unpinned-Removes c xs e ys k start f) in
        (
          xs ++ ys,
          rw q (
            valid',
            (λ j v held. drop_elem-IsHeld c xs e ys j v start held),
            drop_elem-IsSteady c xs e ys start,
          ),
          removes.gone,
          removes.free,
        )
  ]

  -- On a cache with the representation invariants, `insertPinned` at an address that no element has,
  -- of a key without pinned element, ends and keeps the invariants: its value is held, what was held
  -- still is, and the units fit or no element waits on the list.
  pub insert_pinned-IsHeld :
      (c : Cache K) (es : List Ptr) (p v : Ptr) (k : K) (units now : ℕ)
      → IsValid c es
      → IsFree c es p
      → ((r : Ptr) → find k c.table ≡ some r → (c.cell r).pin ≡ 0)
      → (c' : Cache K) × (es' : List Ptr) × (insert_pinned p k v units now c ≡ some c')
        × Keeps c c' es'
        × IsHeld c' k v
        × ((is_overfull_internal c' ≡ false) ⊎ (es' ≡ []))
  unfolding insert_pinned
  insert_pinned-IsHeld c es p v k units now valid free unpinned =
      let (es₁, (valid₁, kept₁, same₁), missing, still_free) = remove-Keeps c es k valid unpinned in
      let (c', es', q, (valid', kept', same'), held, fits) =
        inserted (remove k c) es₁ p v k units now valid₁ (still_free p free) missing in
      (
        c',
        es',
        q,
        (valid', (λ j w h. kept' j w (kept₁ j w h)), IsSteady-trans same₁ same'),
        held,
        fits,
      )

  -- On a cache with the representation invariants, `insertPinned` at an address that no element has
  -- ends and keeps the invariants, whatever the key: its value is held, what a client had to release,
  -- in the table or deferred, it has still, and the units fit or no element waits on the list.
  pub insert_pinned-IsClaimed :
      (c : Cache K) (es : List Ptr) (p v : Ptr) (k : K) (units now : ℕ)
      → IsValid c es
      → IsFree c es p
      → (c' : Cache K) × (es' : List Ptr) × (insert_pinned p k v units now c ≡ some c')
        × IsValid c' es'
        × ((j : K) (w : Ptr) → IsClaimed c j w → IsClaimed c' j w)
        × IsHeld c' k v
        × ((is_overfull_internal c' ≡ false) ⊎ (es' ≡ []))
  unfolding insert_pinned
  insert_pinned-IsClaimed c es p v k units now valid free =
      let (es₁, removes) = remove-Removes c es k valid in
      let (c', es', q, kept, held, fits) =
        inserted (remove k c) es₁ p v k units now removes.valid (removes.free p free)
          removes.gone in
      (
        c',
        es',
        q,
        kept.0,
        (λ j w claim. Keeps-IsClaimed (remove k c) c' es' kept j w (removes.claims j w claim)),
        held,
        fits,
      )
