-- ===== src/SimpleLruCache/Deferred.antt =====
-- The walks over the elements of the deferred table that share a key
-- (simple_lru_cache/simple_lru_cache_inl.h): from the first element backwards.
use jwt_verify_lib.Prelude.{
  ℕ, zero, suc, Bool, true, false, not, ◌&&◌, ◌||◌, List, [], ◌∷◌, Option, none, some, ◌==◌,
  if◌then◌else◌,
}
use jwt_verify_lib.SimpleLruCache.Words.{add_64, sub_64}
use jwt_verify_lib.SimpleLruCache.Maps.{KeyEq, find, erase, assign}
use jwt_verify_lib.SimpleLruCache.Links.{Ptr, null, unlink}
use jwt_verify_lib.SimpleLruCache.State.{Cache, set_elem, discard}

module _ {K : Type 0} where
  -- `e->value == value || value == nullptr`.
  abbrev pub fits : Cache K → Ptr → Ptr → Bool
  fits c value e = (c.cell e).value == value || value == null

  -- The loop of `inDeferredTable`.
  unfoldable pub deferred_loop : ℕ → Ptr → Ptr → Ptr → Cache K → Option Bool
  deferred_loop zero first value e c = none
  deferred_loop (suc fuel) first value e c =
      let rest = deferred_loop fuel first value (c.links.prev e) c in
      if fits c value e
      then some true
      else if not (c.links.prev e == first)
      then rest
      else some false

  -- The loop of `countDeferredEntries` over one list: the number and the units of its elements.
  unfoldable pub count_loop : ℕ → Ptr → Ptr → ℕ → ℕ → Cache K → Option (ℕ × ℕ)
  count_loop zero first e entries size c = none
  count_loop (suc fuel) first e entries size c =
      let entries' = add_64 entries 1 in
      let size' = add_64 size (c.cell e).units in
      let rest = count_loop fuel first (c.links.prev e) entries' size' c in
      if not (c.links.prev e == first) then rest else some (entries', size')

  -- `countDeferredEntries`.
  unfoldable pub count_deferred_entries : List (K × Ptr) → ℕ → ℕ → Cache K → Option (ℕ × ℕ)
  count_deferred_entries [] entries size c = some (entries, size)
  count_deferred_entries ((_, first) ∷ lists) entries size c =
      elim (count_loop c.allocated first first entries size c) [
        | none ↦ none
        | some (entries', size') ↦ count_deferred_entries lists entries' size' c
      ]

  -- The loop of `updateSize` over one list.
  unfoldable pub resize_loop : ℕ → Ptr → Ptr → ℕ → Ptr → Cache K → Option (Cache K)
  resize_loop zero first value units e c = none
  resize_loop (suc fuel) first value units e c =
      let c' =
        if fits c value e
        then record (set_elem e (record (c.cell e) { units = units }) c) {
          units = add_64 (sub_64 c.units (c.cell e).units) units;
        }
        else c in
      let rest = resize_loop fuel first value units (c.links.prev e) c' in
      if not (c.links.prev e == first) then rest else some c'

  -- The loop of `releaseWithOptions`: the element at which it ends.
  unfoldable pub search_loop : ℕ → Ptr → Ptr → Ptr → Cache K → Option Ptr
  search_loop zero first value e c =
      if not (e == first) && not ((c.cell e).value == value) then none else some e
  search_loop (suc fuel) first value e c =
      let rest = search_loop fuel first value (c.links.prev e) c in
      if not (e == first) && not ((c.cell e).value == value) then rest else some e

  module _ ⦃eq : KeyEq K⦄ where
    -- `inDeferredTable`.
    unfoldable pub in_deferred_table : K → Ptr → Cache K → Option Bool
    in_deferred_table k value c = elim (find k c.defer) [
      | none ↦ some false
      | some first ↦ deferred_loop c.allocated first value first c
    ]

    -- The end of a release of a deferred element without pins.
    unfoldable pub drop_deferred : K → Ptr → Ptr → Cache K → Cache K
    drop_deferred k first e c =
        let p = c.links.prev e in
        let defer =
          if e == first
          then (if not (p == e) then assign (c.cell p).key p (erase k c.defer) else erase k c.defer)
          else c.defer in
        discard e (record c { defer = defer; links = unlink e c.links })

    -- A release of an element that was found in the deferred table; `none` is a failed assertion.
    unfoldable pub release_deferred : K → Ptr → Ptr → Cache K → Option (Cache K)
    release_deferred k first e c = elim (c.cell e).pin [
      | zero ↦ none
      | suc pin ↦
          let c' = set_elem e (record (c.cell e) { pin = pin }) c in
          some (if pin == 0 then drop_deferred k first e c' else c')
    ]
