-- ===== src/SimpleLruCache/LateTests.antt =====
-- The theorems about the deferred elements at a concrete run: a key is removed while its value is held.
use jwt_verify_lib.Prelude.{
  ℕ, ◌≡◌, refl, List, [], ◌∷◌, inl, inr, none, some, Option, ◌++◌, map, true, ◌⊎◌, arith,
}
use jwt_verify_lib.SimpleLruCache.{
  find, erase, assign, Ptr, is_linked, unlink, unlink_linked, link, Cache, is_overfull_internal,
  discard, remove, remove_elem, put_off, collect_elem, collect_loop, garbage_collect, search_loop,
  drop_deferred, release_deferred, unpin_elem, release_in_table, release_found,
  release_with_options, release, add_elem, insert_pinned,
}
use jwt_verify_lib.SimpleLruCache.Example.{numbers, naturals, no_elem, two_pinned, two_waiting}
use jwt_verify_lib.SimpleLruCache.Tests.{pinned_list, waiting_list, two_pinned-Reached}
use jwt_verify_lib.SimpleLruCache.Deferring.{IsClaimed, Removes}
use jwt_verify_lib.SimpleLruCache.Removing.{remove-Removes}
use jwt_verify_lib.SimpleLruCache.Letting.{EndsLetGo, release-IsLetGo}
use jwt_verify_lib.SimpleLruCache.Reaching.{HasInvariants, Reached-HasInvariants, Reached-IsClaimed}
use jwt_verify_lib.SimpleLruCache.Clearing.{IsUnclaimed, Empties, remove_all-Empties, clear-IsValid}
use jwt_verify_lib.SimpleLruCache.Using.{Decides, IsStored, still_in_use-Decides}
use jwt_verify_lib.SimpleLruCache.SizeUpdates.{EndsClaimed, update_size-EndsClaimed}
use jwt_verify_lib.SimpleLruCache.Valid.{IsValid}
use jwt_verify_lib.SimpleLruCache.Claims.{IsPutOff}
use jwt_verify_lib.SimpleLruCache.{remove_all, clear, still_in_use, update_size}
use mathlib.Core.Option.{none-ne-some}
use jwt_verify_lib.SimpleLruCache.Calls.{Reached, called, take_out}

-- The value that is held is removed.
abbrev two_late : Cache ℕ
two_late = remove 8 two_pinned

two_late-Reached : Reached naturals no_elem two_late
two_late-Reached = called two_pinned-Reached (take_out 8) refl

late_list : HasInvariants two_late
late_list = Reached-HasInvariants naturals no_elem two_late two_late-Reached

late-IsClaimed : IsClaimed two_late 8 30
unfolding release release_with_options release_in_table unpin_elem insert_pinned garbage_collect
    collect_loop collect_elem add_elem remove remove_elem put_off find assign is_overfull_internal
    link unlink is_linked
late-IsClaimed = inr (
  3,
  record { first = 3; ms = []; found = refl; ring = (refl, refl); once = tt; within = inl refl },
  refl,
)

remove_example : (es : List Ptr) × Removes two_pinned pinned_list.0 8 (remove 8 two_pinned) es
remove_example = remove-Removes two_pinned pinned_list.0 8 pinned_list.1

release_late_example : EndsLetGo two_late 8 30 (release 8 30 105 two_late)
release_late_example = release-IsLetGo 105 two_late late_list.0 8 30 late_list.1 late-IsClaimed

-- The release gives the value away.
abbrev values_of : Option (Cache ℕ) → List Ptr
values_of o = elim o [ none ↦ [] | some c ↦ c.removed ]

late_gives : values_of (release 8 30 105 two_late) ≡ 30 ∷ []
unfolding release release_with_options release_found release_in_table release_deferred drop_deferred
    search_loop unpin_elem insert_pinned garbage_collect collect_loop collect_elem add_elem remove
    remove_elem put_off find assign erase is_overfull_internal link unlink unlink_linked is_linked
    discard
late_gives = refl

-- Another key is removed.
kept_example : IsClaimed (remove 7 two_late) 8 30
kept_example =
    Reached-IsClaimed naturals no_elem two_late (remove 7 two_late) two_late-Reached (take_out 7)
      refl 8 30 (λ h. h) late-IsClaimed

remove_all_example : Empties two_pinned (remove_all two_pinned)
remove_all_example = remove_all-Empties two_pinned pinned_list.0 pinned_list.1

waiting-IsUnclaimed : IsUnclaimed two_waiting
unfolding release release_with_options release_in_table unpin_elem insert_pinned garbage_collect
    collect_loop collect_elem add_elem remove find assign is_overfull_internal link
waiting-IsUnclaimed k v (inl (r, f, w, n)) = ground arith
waiting-IsUnclaimed k v (inr (r, d, w)) = absurd (none-ne-some d.first d.found)

clear_example :
    IsValid (clear two_waiting) []
    × ((clear two_waiting).table ≡ [])
    × ((clear two_waiting).defer ≡ [])
    × ((clear two_waiting).removed
        ≡ two_waiting.removed ++ map (λ (k, e). (two_waiting.cell e).value) two_waiting.table)
    × ((k : ℕ) (e : Ptr) → find k two_waiting.table ≡ some e → (clear two_waiting).freed e ≡ true)
clear_example = clear-IsValid two_waiting waiting_list.0 waiting_list.1 waiting-IsUnclaimed

update_example : EndsClaimed two_late (update_size 8 30 5 two_late)
update_example = update_size-EndsClaimed 8 30 5 two_late late_list.0 late_list.1

use_example : Decides (still_in_use 8 30 two_late) (IsStored two_late 8 30 ⊎ IsPutOff two_late 8 30)
use_example = still_in_use-Decides two_late late_list.0 8 30 late_list.1 (ground arith)
