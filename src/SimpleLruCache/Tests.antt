-- ===== src/SimpleLruCache/Tests.antt =====
-- The theorems about the container at a concrete run.
use jwt_verify_lib.Prelude.{
  ℕ, ◌≤◌, ◌≡◌, ◌≢◌, refl, false, List, [], ◌∷◌, Option, true, ◌⊎◌, inl, none, some, length, arith,
}
use jwt_verify_lib.SimpleLruCache.{
  find, assign, erase, Ptr, is_linked, unlink, unlink_linked, link, Cache, is_overfull_internal,
  discard, remove, collect_elem, collect_loop, garbage_collect, discard_idle, lookup, unpin_elem,
  release_in_table, release_with_options, release, add_elem, insert_pinned,
}
use jwt_verify_lib.SimpleLruCache.Example.{
  numbers, naturals, no_elem, empty_cache, one_pinned, one_waiting, two_pinned, two_waiting,
  one_pinned_is, one_waiting_is, two_pinned_is, two_waiting_is,
}
use jwt_verify_lib.SimpleLruCache.Ring.{IsRing, AreNodes}
use jwt_verify_lib.SimpleLruCache.Valid.{IsValid, IsHeld}
use jwt_verify_lib.SimpleLruCache.{sub_64}
use jwt_verify_lib.SimpleLruCache.Eviction.{IsListed, EndsWith, evict, evict_oldest, kept}
use jwt_verify_lib.SimpleLruCache.Collecting.{garbage_collect-evict_oldest}
use jwt_verify_lib.SimpleLruCache.Dropping.{Drops}
use jwt_verify_lib.SimpleLruCache.Expiring.{SplitsAt, discard_idle-Drops}
use jwt_verify_lib.SimpleLruCache.Keeping.{Keeps}
use jwt_verify_lib.SimpleLruCache.Releasing.{Released, Spares, release-Released}
use jwt_verify_lib.SimpleLruCache.Inserting.{insert_pinned-IsClaimed}
use jwt_verify_lib.SimpleLruCache.Deferring.{IsClaimed}
use jwt_verify_lib.SimpleLruCache.{remove_unpinned}
use jwt_verify_lib.SimpleLruCache.Finding.{insert_pinned-lookup}
use jwt_verify_lib.SimpleLruCache.Sweeping.{remove_unpinned-IsHeld}
use jwt_verify_lib.SimpleLruCache.Scoped.{scoped_lookup, IsFair, scoped_lookup-IsValid}
use jwt_verify_lib.SimpleLruCache.Reaching.{HasInvariants, Reached-HasInvariants, Reached-returns}
use jwt_verify_lib.SimpleLruCache.Calls.{
  IsUnused, IsUnused-IsFree, run, Reached, created, called, put_in, let_go,
}
use mathlib.Core.Option.{none-ne-some}

one-IsUnused : IsUnused empty_cache 2
unfolding find
one-IsUnused = (
  ground arith,
  ground arith,
  (λ k r f. ground arith),
  (λ k r d. absurd (none-ne-some d.first d.found)),
)

two-IsUnused : IsUnused one_waiting 3
unfolding release release_with_options release_in_table unpin_elem insert_pinned garbage_collect
    collect_loop collect_elem add_elem remove find assign is_overfull_internal link
two-IsUnused = (
  ground arith,
  ground arith,
  (λ k r f. ground arith),
  (λ k r d. absurd (none-ne-some d.first d.found)),
)

one_held : IsHeld one_pinned 7 20
unfolding release release_with_options release_in_table unpin_elem insert_pinned garbage_collect
    collect_loop collect_elem add_elem remove find assign is_overfull_internal link
one_held = (2, refl, refl, ground arith)

pub two_held : IsHeld two_pinned 8 30
unfolding release release_with_options release_in_table unpin_elem insert_pinned garbage_collect
    collect_loop collect_elem add_elem remove find assign is_overfull_internal link
two_held = (3, refl, refl, ground arith)

pub two_pinned-Reached : Reached naturals no_elem two_pinned
two_pinned-Reached =
    called
      (called (called (created 2) (put_in 2 20 7 1 100 one-IsUnused) one_pinned_is)
        (let_go 7 20 101 (inl one_held)) one_waiting_is)
      (put_in 3 30 8 1 102 two-IsUnused) two_pinned_is

pub two_waiting-Reached : Reached naturals no_elem two_waiting
two_waiting-Reached = called two_pinned-Reached (let_go 8 30 103 (inl two_held)) two_waiting_is

-- The list of the cache, as the theorem has it.
pub pinned_list : HasInvariants two_pinned
pinned_list = Reached-HasInvariants naturals no_elem two_pinned two_pinned-Reached

pub waiting_list : HasInvariants two_waiting
waiting_list = Reached-HasInvariants naturals no_elem two_waiting two_waiting-Reached

two_pinned_nothing : find 8 two_pinned.defer ≡ none
unfolding release release_with_options release_in_table unpin_elem insert_pinned garbage_collect
    collect_loop collect_elem add_elem remove find assign is_overfull_internal link
two_pinned_nothing = refl

four-IsUnused : IsUnused two_pinned 4
unfolding release release_with_options release_in_table unpin_elem insert_pinned garbage_collect
    collect_loop collect_elem add_elem remove find assign is_overfull_internal link
four-IsUnused = (
  ground arith,
  ground arith,
  (λ k r f. ground arith),
  (λ k r d. absurd (none-ne-some d.first d.found)),
)

reached-HasInvariants_example : HasInvariants two_waiting
reached-HasInvariants_example =
    Reached-HasInvariants naturals no_elem two_waiting two_waiting-Reached

reached_returns_example : run naturals two_pinned (let_go 8 30 103 (inl two_held)) ≢ none
reached_returns_example =
    Reached-returns naturals no_elem two_pinned two_pinned-Reached (let_go 8 30 103 (inl two_held))

release_example :
    (c : Cache ℕ) × (es : List Ptr) × (release 8 30 103 two_pinned ≡ some c)
    × IsValid c es
    × Spares two_pinned 8 30 c
    × Released 103 two_pinned pinned_list.0 8 two_held.0 30 c es
release_example =
    release-Released 103 pinned_list.0 two_pinned 8 30 two_pinned_nothing pinned_list.1 two_held

insert_example :
    (c : Cache ℕ) × (es : List Ptr) × (insert_pinned 4 8 40 1 104 two_pinned ≡ some c)
    × IsValid c es
    × ((k : ℕ) (v : Ptr) → IsClaimed two_pinned k v → IsClaimed c k v)
    × IsHeld c 8 40
    × ((is_overfull_internal c ≡ false) ⊎ (es ≡ []))
insert_example =
    insert_pinned-IsClaimed two_pinned pinned_list.0 4 40 8 1 104 pinned_list.1
      (IsUnused-IsFree two_pinned pinned_list.0 4 pinned_list.1 four-IsUnused)

idle_example :
    (d : Drops two_waiting waiting_list.0 (discard_idle 2 104 two_waiting)) × SplitsAt
      (sub_64 104 2)
      two_waiting
      d.gone
      d.left
idle_example = discard_idle-Drops 2 104 waiting_list.0 two_waiting refl waiting_list.1

-- Less space than the values need.
abbrev overfull_cache : Cache ℕ
overfull_cache = record two_waiting { max_units = 1 }

abbrev oldest_first : List Ptr
oldest_first = 2 ∷ 3 ∷ []

overfull_nodes : AreNodes (1 ∷ 2 ∷ 3 ∷ [])
overfull_nodes = (
  (ground arith, (ground arith, (ground arith, tt))),
  ((ground arith, (ground arith, tt)), ((ground arith, tt), (tt, tt))),
)

overfull-IsRing : IsRing overfull_cache.links 1 oldest_first
unfolding release release_with_options release_in_table unpin_elem insert_pinned garbage_collect
    collect_loop collect_elem add_elem remove find assign is_overfull_internal link
overfull-IsRing = (refl, refl, (refl, refl, (refl, refl)))

overfull-IsListed : IsListed overfull_cache oldest_first
unfolding release release_with_options release_in_table unpin_elem insert_pinned garbage_collect
    collect_loop collect_elem add_elem remove find assign is_overfull_internal link
overfull-IsListed = (refl, (refl, tt))

overfull_fuel : length oldest_first ≤ overfull_cache.allocated
unfolding release release_with_options release_in_table unpin_elem insert_pinned garbage_collect
    collect_loop collect_elem add_elem remove find assign is_overfull_internal link
overfull_fuel = omega arith

collect_example :
    EndsWith
      (garbage_collect overfull_cache)
      (evict_oldest oldest_first overfull_cache)
      (kept oldest_first overfull_cache)
collect_example =
    garbage_collect-evict_oldest oldest_first overfull_cache overfull_fuel overfull_nodes
      overfull-IsRing overfull-IsListed

-- The first element is evicted, and the second one stays.
collect_gives : kept oldest_first overfull_cache ≡ 3 ∷ []
unfolding kept evict_oldest evict discard erase unlink unlink_linked is_linked release
    release_with_options release_in_table unpin_elem insert_pinned garbage_collect collect_loop
    collect_elem add_elem remove find assign is_overfull_internal link
collect_gives = refl

found_example :
    (c : Cache ℕ) × (d : Cache ℕ) × (insert_pinned 4 8 40 1 104 two_pinned ≡ some c)
    × (lookup 8 105 c ≡ some (d, 40))
    × IsHeld d 8 40
found_example =
    insert_pinned-lookup two_pinned pinned_list.0 4 40 8 1 104 105 pinned_list.1
      (IsUnused-IsFree two_pinned pinned_list.0 4 pinned_list.1 four-IsUnused)

remove_unpinned_example :
    (c : Cache ℕ) × (remove_unpinned two_waiting ≡ some c)
    × Keeps two_waiting c []
    × ((k : ℕ) (e : Ptr) → find k c.table ≡ some e → (c.cell e).pin ≢ 0)
remove_unpinned_example = remove_unpinned-IsHeld waiting_list.0 two_waiting waiting_list.1

-- A body that returns the value it is given.
abbrev just_value : Ptr → Cache ℕ → Option (Cache ℕ × Ptr)
just_value v c = some (c, v)

just_value-IsFair : IsFair just_value
just_value-IsFair v c es valid = (c, es, v, refl, valid, (λ k w claim. claim))

scoped_example :
    (c : Cache ℕ) × (es : List Ptr) × (v : Ptr) × (scoped_lookup 7 true 104 105 just_value
        two_waiting
      ≡ some (c, v))
    × IsValid c es
scoped_example =
    scoped_lookup-IsValid 7 104 105 just_value waiting_list.0 two_waiting just_value-IsFair
      waiting_list.1
