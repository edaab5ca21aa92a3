-- ===== src/SimpleLruCache/MixedTests.antt =====
-- Two lookups of one element at a time, with and without an update of the eviction order, where each
-- release has the options of its lookup.
use jwt_verify_lib.Prelude.{ℕ, ◌≡◌, refl, true, false, Option, some}
use jwt_verify_lib.SimpleLruCache.{
  find, assign, Ptr, unlink, unlink_linked, is_linked, link, Cache, is_overfull_internal, remove,
  collect_elem, collect_loop, garbage_collect, remove_expired_entries, pin_elem,
  lookup_with_options, unpin_elem, release_in_table, release_with_options, release, add_elem,
  insert_pinned,
}
use jwt_verify_lib.SimpleLruCache.Example.{numbers, two_waiting, or_else}
use jwt_verify_lib.SimpleLruCache.Calls.{state_of}

abbrev looked_up : Option (Cache ℕ × Ptr) → Cache ℕ
looked_up r = or_else (state_of r) two_waiting

-- First a lookup that leaves the order, then a default one, and the releases in the same order.
abbrev twice_linked : Cache ℕ
twice_linked =
    let c₁ = looked_up (lookup_with_options 7 false 110 two_waiting) in
    let c₂ = looked_up (lookup_with_options 7 true 111 c₁) in
    let c₃ = or_else (release_with_options 7 20 false 112 c₂) two_waiting in
    or_else (release_with_options 7 20 true 113 c₃) two_waiting

-- The elements 2 and 3 follow each other, and the walk from the head never comes back to it.
twice_linked-next :
    (twice_linked.links.next 1 ≡ 2)
    × (twice_linked.links.next 2 ≡ 3)
    × (twice_linked.links.next 3 ≡ 2)
unfolding release release_with_options release_in_table unpin_elem insert_pinned garbage_collect
    collect_loop collect_elem add_elem remove find assign is_overfull_internal link
    lookup_with_options remove_expired_entries pin_elem unlink unlink_linked is_linked
twice_linked-next = (refl, refl, refl)

-- First a default lookup, then one that leaves the order, and the releases in the same order.
abbrev never_linked : Cache ℕ
never_linked =
    let c₁ = looked_up (lookup_with_options 7 true 110 two_waiting) in
    let c₂ = looked_up (lookup_with_options 7 false 111 c₁) in
    let c₃ = or_else (release_with_options 7 20 true 112 c₂) two_waiting in
    or_else (release_with_options 7 20 false 113 c₃) two_waiting

-- The element 2 has no pins, and is not on the list.
never_linked-next :
    ((never_linked.cell 2).pin ≡ 0)
    × (find 7 never_linked.table ≡ some 2)
    × (is_linked never_linked.links 2 ≡ false)
unfolding release release_with_options release_in_table unpin_elem insert_pinned garbage_collect
    collect_loop collect_elem add_elem remove find assign is_overfull_internal link
    lookup_with_options remove_expired_entries pin_elem unlink unlink_linked is_linked
never_linked-next = (refl, refl, refl)
