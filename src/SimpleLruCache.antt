-- ===== src/SimpleLruCache.antt =====
-- The container of simple_lru_cache/simple_lru_cache_inl.h, in a build without assertions: a
-- method is a function on the store, and `none` is a loop that does not end within its fuel, or a
-- failed assertion behind which the behaviour is undefined.
mod Words
mod Maps
mod Links
mod State
mod Loops
mod Deferred
mod Steps
mod Queries
mod Example
mod Tests
mod LinkTests
mod LateTests
mod MixedTests
pub mod Ring
pub mod Unlinking
pub mod Linking
pub mod Tables
pub mod Sums
pub mod Eviction
pub mod Collecting
pub mod Late
pub mod Regrouping
pub mod Claims
pub mod Valid
pub mod Dropping
pub mod Expiring
pub mod Writing
pub mod Rewriting
pub mod Counting
pub mod Keeping
pub mod Deferring
pub mod Parting
pub mod Joining
pub mod Pinning
pub mod Removing
pub mod ReleaseSteps
pub mod Releasing
pub mod Adding
pub mod Inserting
pub mod Finding
pub mod Sweeping
pub mod Scoped
pub mod Limits
pub mod Searching
pub mod LateCounting
pub mod LateDropping
pub mod LateLeaving
pub mod Shrinking
pub mod LateSteps
pub mod LateReleasing
pub mod Letting
pub mod Clearing
pub mod Using
pub mod Resizing
pub mod Updating
pub mod SizeUpdates
pub mod Calls
pub mod Reaching
unfoldable pub use Words.*
unfoldable pub use Maps.*
unfoldable pub use Links.*
unfoldable pub use State.*
unfoldable pub use Loops.*
unfoldable pub use Deferred.*
unfoldable pub use Steps.*
unfoldable pub use Queries.*
use jwt_verify_lib.Prelude.{
  ℕ, zero, suc, ◌+◌, Bool, true, false, not, ◌&&◌, ◌||◌, List, [], ◌∷◌, Option, none, some, ◌==◌,
  if◌then◌else◌, length, map,
}

-- The operations on a `double` of seconds that `setTimeout` makes.
pub record Seconds : Type 1 where
  pub Double : Type 0
  -- `seconds < 0`, and `std::isinf(seconds)`.
  pub is_negative : Double → Bool
  pub is_inf : Double → Bool
  -- Whether the number of microseconds is at least that of the largest `int64_t`, and the number as
  -- one.
  pub is_too_long : Double → Bool
  pub to_cycles : Double → ℕ

module _ {K : Type 0} ⦃eq : KeyEq K⦄ where
  -- `setMaxSize`.
  unfoldable pub set_max_size : ℕ → Cache K → Option (Cache K)
  set_max_size total_units c = garbage_collect (record c { max_units = total_units })

  -- `setTimeout`; where the assertion fails, the call is ignored.
  unfoldable pub set_timeout : (s : Seconds) → s.Double → Bool → ℕ → Cache K → Option (Cache K)
  set_timeout s seconds lru now c =
      if s.is_negative seconds || s.is_inf seconds
      then some (record c { lru = lru; max_idle = minus_one })
      else if is_not_negative c.max_idle && not (same lru c.lru)
      then some c
      else let max_idle = if s.is_too_long seconds then int64_max else s.to_cycles seconds in
        discard_idle max_idle now (record c { lru = lru; max_idle = max_idle })

  -- `setMaxIdleSeconds`.
  unfoldable pub set_max_idle_seconds : (s : Seconds) → s.Double → ℕ → Cache K → Option (Cache K)
  set_max_idle_seconds s seconds now c = set_timeout s seconds true now c

  -- `setAgeBasedEviction`.
  unfoldable pub set_age_based_eviction : (s : Seconds) → s.Double → ℕ → Cache K → Option (Cache K)
  set_age_based_eviction s seconds now c = set_timeout s seconds false now c

  -- The pin of a lookup that finds the element.
  unfoldable pub pin_elem : Bool → Ptr → Cache K → Cache K
  pin_elem update e c =
      let c' =
        if (c.cell e).pin == 0
        then record c {
          pinned_units = add_64 c.pinned_units (c.cell e).units;
          links = if c.lru && update then unlink e c.links else c.links;
        }
        else c in
      set_elem e (record (c.cell e) { pin = (c.cell e).pin + 1 }) c'

  -- `lookupWithOptions`: the state, and the value. The option is `update_eviction_order()`.
  unfoldable pub lookup_with_options : K → Bool → ℕ → Cache K → Option (Cache K × Ptr)
  lookup_with_options k update now c = do
    c ← remove_expired_entries now c
    elim (find k c.table) [
      | none ↦ some (c, null)
      | some e ↦ some (pin_elem update e c, (c.cell e).value)
    ]

  -- `lookup`.
  unfoldable pub lookup : K → ℕ → Cache K → Option (Cache K × Ptr)
  lookup k now c = lookup_with_options k true now c

  -- The end of a release of an element of the table, whose pins are counted down.
  unfoldable pub unpin_elem : K → Bool → Ptr → Cache K → Cache K
  unpin_elem k update e c =
      let c' = record c {
        links = if c.lru && update then link e head c.links else c.links;
        pinned_units = sub_64 c.pinned_units (c.cell e).units;
      } in
      if is_overfull_internal c' then remove k c' else c'

  -- The second part of `releaseWithOptions`; `none` is a failed assertion.
  unfoldable pub release_in_table : K → Ptr → Bool → ℕ → Cache K → Option (Cache K)
  release_in_table k value update now c = elim (find k c.table) [
    | none ↦ none
    | some e ↦ if not ((c.cell e).value == value) then none else elim (c.cell e).pin [
      | zero ↦ none
      | suc pin ↦
          let last_use = if c.lru && update then now else (c.cell e).last_use in
          let c' = set_elem e (record (c.cell e) { pin = pin; last_use = last_use }) c in
          some (if pin == 0 then unpin_elem k update e c' else c')
    ]
  ]

  -- A release behind the search of the deferred elements, which ended at `e`.
  unfoldable pub release_found : K → Ptr → Bool → ℕ → Ptr → Ptr → Cache K → Option (Cache K)
  release_found k value update now first e c =
      if (c.cell e).value == value
      then release_deferred k first e c
      else release_in_table k value update now c

  -- `releaseWithOptions`.
  unfoldable pub release_with_options : K → Ptr → Bool → ℕ → Cache K → Option (Cache K)
  release_with_options k value update now c = elim (find k c.defer) [
    | none ↦ release_in_table k value update now c
    | some first ↦ do
      e ← search_loop c.allocated first value (c.links.prev first) c
      release_found k value update now first e c
  ]

  -- `release`.
  unfoldable pub release : K → Ptr → ℕ → Cache K → Option (Cache K)
  release k value now c = release_with_options k value true now c

  -- The new element of `insertPinned`; `fresh` is the address that `new` returns.
  unfoldable pub add_elem : Ptr → K → Ptr → ℕ → ℕ → Cache K → Cache K
  add_elem fresh k value units now c =
      let links = set_prev fresh null (set_next fresh null c.links) in
      record c {
        cell =
            set_at c.cell fresh
              (record { key = k; value = value; pin = 1; units = units; last_use = now });
        freed = set_at c.freed fresh false;
        allocated = c.allocated + 1;
        units = add_64 c.units units;
        pinned_units = add_64 c.pinned_units units;
        table = assign k fresh c.table;
        links = if not c.lru then link fresh head links else links;
      }

  -- `insertPinned`.
  unfoldable pub insert_pinned : Ptr → K → Ptr → ℕ → ℕ → Cache K → Option (Cache K)
  insert_pinned fresh k value units now c =
      garbage_collect (add_elem fresh k value units now (remove k c))

  -- `insert`; the clock is read twice.
  unfoldable pub insert : Ptr → K → Ptr → ℕ → ℕ → ℕ → Cache K → Option (Cache K)
  insert fresh k value units now later c = do
    c ← insert_pinned fresh k value units now c
    release k value later c
