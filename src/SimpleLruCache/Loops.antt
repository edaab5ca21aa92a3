-- ===== src/SimpleLruCache/Loops.antt =====
-- The loops over the list of the cache (simple_lru_cache/simple_lru_cache_inl.h). A loop runs on
-- fuel, as many rounds as elements were ever made, and returns `none` where the fuel runs out.
use jwt_verify_lib.Prelude.{
  ℕ, zero, suc, not, ◌&&◌, List, [], ◌∷◌, Option, none, some, ◌==◌, if◌then◌else◌,
}
use jwt_verify_lib.SimpleLruCache.Words.{sub_64, less_64, is_not_negative}
use jwt_verify_lib.SimpleLruCache.Maps.{KeyEq, find, erase}
use jwt_verify_lib.SimpleLruCache.Links.{Ptr, set_next, set_prev, unlink}
use jwt_verify_lib.SimpleLruCache.State.{
  Cache, head, is_overfull_internal, discard, remove_elem, remove,
}

module _ {K : Type 0} ⦃eq : KeyEq K⦄ where
  -- The body of the loop of `garbageCollect`; `none` is a failed assertion.
  unfoldable pub collect_elem : Ptr → Cache K → Option (Cache K)
  collect_elem e c =
      if (c.cell e).pin == 0
      then elim (find (c.cell e).key c.table) [
        | none ↦ none
        | some e' ↦
            if e' == e
            then some (
                discard e
                  (record c { table = erase (c.cell e).key c.table; links = unlink e c.links }))
            else none
      ]
      else some c

  -- The loop.
  unfoldable pub collect_loop : ℕ → Ptr → Cache K → Option (Cache K)
  collect_loop zero e c = if is_overfull_internal c && not (e == head) then none else some c
  collect_loop (suc fuel) e c =
      let rest : Option (Cache K) = elim (collect_elem e c) [
        | none ↦ none
        | some c' ↦ collect_loop fuel (c.links.prev e) c'
      ] in
      if is_overfull_internal c && not (e == head) then rest else some c

  -- `garbageCollect`.
  unfoldable pub garbage_collect : Cache K → Option (Cache K)
  garbage_collect c = collect_loop c.allocated (c.links.prev head) c

  -- The loop of `discardIdle`.
  unfoldable pub idle_loop : ℕ → ℕ → Ptr → Cache K → Option (Cache K)
  idle_loop threshold zero e c =
      if not (e == head) && less_64 (c.cell e).last_use threshold then none else some c
  idle_loop threshold (suc fuel) e c =
      let rest = idle_loop threshold fuel (c.links.prev e) (remove (c.cell e).key c) in
      if not (e == head) && less_64 (c.cell e).last_use threshold then rest else some c

  -- `discardIdle`; `now` is what the clock returns.
  unfoldable pub discard_idle : ℕ → ℕ → Cache K → Option (Cache K)
  discard_idle max_idle now c =
      if not (is_not_negative max_idle)
      then some c
      else idle_loop (sub_64 now max_idle) c.allocated (c.links.prev head) c

  -- `removeExpiredEntries`.
  unfoldable pub remove_expired_entries : ℕ → Cache K → Option (Cache K)
  remove_expired_entries now c =
      if is_not_negative c.max_idle then discard_idle c.max_idle now c else some c

  -- The loop of `removeUnpinned`, which walks in the other direction.
  unfoldable pub unpinned_loop : ℕ → Ptr → Cache K → Option (Cache K)
  unpinned_loop zero e c = if not (e == head) then none else some c
  unpinned_loop (suc fuel) e c =
      let c' = if (c.cell e).pin == 0 then remove (c.cell e).key c else c in
      let rest = unpinned_loop fuel (c.links.next e) c' in if not (e == head) then rest else some c

  -- `removeUnpinned`.
  unfoldable pub remove_unpinned : Cache K → Option (Cache K)
  remove_unpinned c = unpinned_loop c.allocated (c.links.next head) c

  -- The loop of `removeAll`, over the entries of the table.
  unfoldable pub remove_elems : List (K × Ptr) → Cache K → Cache K
  remove_elems [] c = c
  remove_elems ((_, e) ∷ entries) c = remove_elems entries (remove_elem e c)

  -- `removeAll`.
  unfoldable pub remove_all : Cache K → Cache K
  remove_all c = record (remove_elems c.table c) { table = [] }

  -- The loop of `clear`.
  unfoldable pub discard_elems : List (K × Ptr) → Cache K → Cache K
  discard_elems [] c = c
  discard_elems ((_, e) ∷ entries) c = discard_elems entries (discard e c)

  -- `clear`.
  unfoldable pub clear : Cache K → Cache K
  clear c = record (discard_elems c.table c) {
    table = [];
    links = set_prev head head (set_next head head c.links);
    units = 0;
    pinned_units = 0;
  }
