-- ===== src/SimpleLruCache/Example.antt =====
-- A concrete run of the container: keys are numbers, and the cache holds two units.
use jwt_verify_lib.Prelude.{ℕ, ◌≡◌, refl, false, Option, none, some, ◌==◌, ==_iff}
use jwt_verify_lib.SimpleLruCache.{
  KeyEq, find, assign, Ptr, link, Elem, Cache, new_cache, is_overfull_internal, remove,
  collect_elem, collect_loop, garbage_collect, unpin_elem, release_in_table, release_with_options,
  release, add_elem, insert_pinned, Seconds,
}

instance abbrev pub numbers : KeyEq ℕ
numbers = record { is_equal = ◌==◌; is_equal_iff = ==_iff }

-- Seconds are natural numbers here.
abbrev pub naturals : Seconds
naturals = record {
  Double = ℕ;
  is_negative = λ _. false;
  is_inf = λ _. false;
  is_too_long = λ _. false;
  to_cycles = λ s. s;
}

abbrev pub no_elem : Ptr → Elem ℕ
no_elem _ = record { key = 0; value = 0; pin = 0; units = 0; last_use = 0 }

abbrev pub or_else : Option (Cache ℕ) → Cache ℕ → Cache ℕ
or_else none c = c
or_else (some c) _ = c

abbrev pub empty_cache : Cache ℕ
empty_cache = new_cache no_elem 2

-- One value is inserted, and released.
abbrev pub one_pinned : Cache ℕ
one_pinned = or_else (insert_pinned 2 7 20 1 100 empty_cache) empty_cache

abbrev pub one_waiting : Cache ℕ
one_waiting = or_else (release 7 20 101 one_pinned) empty_cache

abbrev pub two_pinned : Cache ℕ
two_pinned = or_else (insert_pinned 3 8 30 1 102 one_waiting) empty_cache

abbrev pub two_waiting : Cache ℕ
two_waiting = or_else (release 8 30 103 two_pinned) empty_cache

pub one_pinned_is : insert_pinned 2 7 20 1 100 empty_cache ≡ some one_pinned
unfolding release release_with_options release_in_table unpin_elem insert_pinned garbage_collect
    collect_loop collect_elem add_elem remove find assign is_overfull_internal link
one_pinned_is = refl

pub one_waiting_is : release 7 20 101 one_pinned ≡ some one_waiting
unfolding release release_with_options release_in_table unpin_elem insert_pinned garbage_collect
    collect_loop collect_elem add_elem remove find assign is_overfull_internal link
one_waiting_is = refl

pub two_pinned_is : insert_pinned 3 8 30 1 102 one_waiting ≡ some two_pinned
unfolding release release_with_options release_in_table unpin_elem insert_pinned garbage_collect
    collect_loop collect_elem add_elem remove find assign is_overfull_internal link
two_pinned_is = refl

pub two_waiting_is : release 8 30 103 two_pinned ≡ some two_waiting
unfolding release release_with_options release_in_table unpin_elem insert_pinned garbage_collect
    collect_loop collect_elem add_elem remove find assign is_overfull_internal link
two_waiting_is = refl
