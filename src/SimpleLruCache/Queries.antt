-- ===== src/SimpleLruCache/Queries.antt =====
-- `updateSize`, and the methods of simple_lru_cache/simple_lru_cache_inl.h that read the cache.
use jwt_verify_lib.Prelude.{
  ℕ, Bool, true, false, not, ◌||◌, List, Option, none, some, ◌==◌, if◌then◌else◌, length, map,
}
use jwt_verify_lib.SimpleLruCache.Steps.{◌>>=◌}
use jwt_verify_lib.SimpleLruCache.Words.{add_64, sub_64, mul_64, div_64, minus_one, k_sec_to_usec}
use jwt_verify_lib.SimpleLruCache.Maps.{KeyEq, find}
use jwt_verify_lib.SimpleLruCache.Links.{Ptr, null}
use jwt_verify_lib.SimpleLruCache.State.{Cache, head, set_elem}
use jwt_verify_lib.SimpleLruCache.Loops.{garbage_collect}
use jwt_verify_lib.SimpleLruCache.Deferred.{resize_loop, in_deferred_table, count_deferred_entries}

module _ {K : Type 0} ⦃eq : KeyEq K⦄ where
  -- `updateSize` of an element of the table.
  unfoldable pub resize_elem : Ptr → ℕ → Cache K → Cache K
  resize_elem e units c =
      let old = (c.cell e).units in
      record (set_elem e (record (c.cell e) { units = units }) c) {
        units = add_64 (sub_64 c.units old) units;
        pinned_units =
            if not ((c.cell e).pin == 0)
            then add_64 (sub_64 c.pinned_units old) units
            else c.pinned_units;
      }

  -- `updateSize` of the deferred elements.
  unfoldable pub resize_deferred : K → Ptr → ℕ → Cache K → Option (Cache K)
  resize_deferred k value units c = elim (find k c.defer) [
    | none ↦ some c
    | some first ↦ resize_loop c.allocated first value units first c
  ]

  -- Whether the table has an element for the key, and the value where one is given.
  unfoldable pub in_table : K → Ptr → Cache K → Bool
  in_table k value c = elim (find k c.table) [
    | none ↦ false
    | some e ↦ value == null || value == (c.cell e).value
  ]

  -- `updateSize`.
  unfoldable pub update_size : K → Ptr → ℕ → Cache K → Option (Cache K)
  update_size k value units c = do
    c ← elim (find k c.table) [
      | none ↦ resize_deferred k value units c
      | some e ↦
          if in_table k value c
          then some (resize_elem e units c)
          else resize_deferred k value units c
    ]
    garbage_collect c

  -- `stillInUse`.
  unfoldable pub still_in_use : K → Ptr → Cache K → Option Bool
  still_in_use k value c = if in_table k value c then some true else in_deferred_table k value c

  -- `deferredSize` and `deferredEntries`.
  unfoldable pub deferred_size : Cache K → Option ℕ
  deferred_size c = do (entries, size) ← count_deferred_entries c.defer 0 0 c; some size

  unfoldable pub deferred_entries : Cache K → Option ℕ
  deferred_entries c = do (entries, size) ← count_deferred_entries c.defer 0 0 c; some entries

  -- `getLastUseTime` and `getInsertionTime`, which differ in an assertion only.
  unfoldable pub get_last_use_time : K → Cache K → ℕ
  get_last_use_time k c = elim (find k c.table) [ none ↦ minus_one | some e ↦ (c.cell e).last_use ]

  -- `ageOfLRUItemInMicroseconds`; a cycle is a microsecond.
  unfoldable pub age_of_lru_item_in_microseconds : ℕ → Cache K → ℕ
  age_of_lru_item_in_microseconds now c =
      if c.links.prev head == head
      then 0
      else div_64 (mul_64 k_sec_to_usec (sub_64 now (c.cell (c.links.prev head)).last_use))
          k_sec_to_usec

  -- `entries`.
  unfoldable pub entries : Cache K → ℕ
  entries c = length c.table

  -- The elements that the iterator from `begin` to `end` shows: key, value and time.
  unfoldable pub iterate : Cache K → List (K × Ptr × ℕ)
  iterate c = map (λ (k, e). (k, (c.cell e).value, (c.cell e).last_use)) c.table
