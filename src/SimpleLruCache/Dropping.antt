-- ===== src/SimpleLruCache/Dropping.antt =====
-- `garbageCollect` of simple_lru_cache/simple_lru_cache_inl.h on a cache with the representation
-- invariants.
use jwt_verify_lib.Prelude.{
  ℕ, zero, suc, ◌≤◌, ◌≡◌, refl, ap, ◌∙◌, subst, true, false, List, [], ◌∷◌, ◌++◌, ◌==◌, ==_iff,
  Option, ◌⊎◌, inl, inr, none, some, Bool-cases, length, arith,
}
use jwt_verify_lib.SimpleLruCache.Maps.{KeyEq, find, erase}
use jwt_verify_lib.SimpleLruCache.Links.{Ptr}
use jwt_verify_lib.SimpleLruCache.State.{
  Cache, head, is_overfull_internal, discard, remove_elem, remove,
}
use jwt_verify_lib.SimpleLruCache.Loops.{collect_loop, garbage_collect}
use jwt_verify_lib.SimpleLruCache.Tables.{find-erase}
use jwt_verify_lib.SimpleLruCache.Ring.{All-middle}
use jwt_verify_lib.SimpleLruCache.Eviction.{oldest, prev-oldest, evict}
use jwt_verify_lib.SimpleLruCache.Collecting.{
  collect_loop-head, collect_loop-enough, collect_loop-evict,
}
use jwt_verify_lib.SimpleLruCache.Valid.{IsValid, enough_fuel, drop_elem, drop_elem-IsValid}

module _ {K : Type 0} ⦃eq : KeyEq K⦄ where
  abbrev pub drop_all : List Ptr → Cache K → Cache K
  drop_all [] c = c
  drop_all (e ∷ es) c = drop_all es (drop_elem e c)

  -- A result that is left when some of the oldest elements are dropped: those before `ys`.
  pub record Drops (c : Cache K) (es : List Ptr) (o : Option (Cache K)) : Type 0 where
    pub gone : List Ptr
    pub left : List Ptr
    pub parts : es ≡ gone ++ left
    pub result : o ≡ some (drop_all gone c)
    pub valid : IsValid (drop_all gone c) left

  -- The oldest element is unpinned, and not the head.
  pub at_oldest :
      (c : Cache K) (e : Ptr) (es : List Ptr)
      → IsValid c (e ∷ es)
      → (c.links.prev e ≡ oldest es) × ((e == head) ≡ false) × (((c.cell e).pin == 0) ≡ true)
  at_oldest c e es valid =
      let n = valid.nodes.1.0.0 in
      let (_, _, s) = valid.ring in
      (prev-oldest c.links e es s, ground arith, (==_iff (c.cell e).pin 0).1 valid.unpinned.0)

  garbage_collect_loop :
      (fuel : ℕ) (es : List Ptr) (c : Cache K)
      → length es ≤ fuel
      → IsValid c es
      → (d : Drops c es (collect_loop fuel (oldest es) c)) × ((is_overfull_internal
              (drop_all d.gone c)
            ≡ false)
          ⊎ (d.left ≡ []))
  garbage_collect_loop fuel [] c n valid = (
    record { gone = []; left = []; parts = refl; result = collect_loop-head fuel c; valid = valid },
    inr refl,
  )
  garbage_collect_loop zero (e ∷ es) c n valid = absurd (ground arith)
  garbage_collect_loop (suc fuel) (e ∷ es) c n valid =
      let (next, m, p) = at_oldest c e es valid in
      elim (Bool-cases (is_overfull_internal c)) [
        | inr h ↦ (
          record {
            gone = [];
            left = e ∷ es;
            parts = refl;
            result = collect_loop-enough (suc fuel) e c h;
            valid = valid;
          },
          inl h,
        )
        | inl h ↦
            let (d, f) =
              garbage_collect_loop fuel es (drop_elem e c) (ground arith)
                (drop_elem-IsValid c [] e es valid) in
            (
              record {
                gone = e ∷ d.gone;
                left = d.left;
                parts = ap (λ xs. e ∷ xs) d.parts;
                result =
                    collect_loop-evict fuel e c h valid.nodes.1.0.0 p valid.listed.0
                    ∙ ap (λ q. collect_loop fuel q (drop_elem e c)) next
                    ∙ d.result;
                valid = d.valid;
              },
              f,
            )
      ]

  -- On a cache with the representation invariants `garbageCollect` ends, keeps them, and drops some of
  -- the oldest elements, after which the units fit or the list is empty.
  pub garbage_collect-Drops :
      (es : List Ptr) (c : Cache K)
      → IsValid c es
      → (d : Drops c es (garbage_collect c)) × ((is_overfull_internal (drop_all d.gone c) ≡ false)
          ⊎ (d.left ≡ []))
  unfolding garbage_collect
  garbage_collect-Drops es c valid =
      rw (prev-oldest c.links head es valid.ring)
        (garbage_collect_loop c.allocated es c (enough_fuel c es valid) valid)

  -- `remove` of the key of an element of the list drops the element.
  pub remove-drop :
      (c : Cache K) (e : Ptr)
      → ((c.cell e).pin == 0) ≡ true
      → find (c.cell e).key c.table ≡ some e
      → remove (c.cell e).key c ≡ drop_elem e c
  unfolding remove remove_elem evict discard
  remove-drop c e p f = rw (remove, f, remove_elem, p) refl

  -- `remove` of a key whose element has no pins drops it and gives its value away.
  pub remove_listed :
      (c : Cache K) (xs : List Ptr) (e : Ptr) (ys : List Ptr) (k : K)
      → IsValid c (xs ++ e ∷ ys)
      → find k c.table ≡ some e
      → (remove k c ≡ drop_elem e c)
        × IsValid (drop_elem e c) (xs ++ ys)
        × (find k (drop_elem e c).table ≡ none)
        × ((drop_elem e c).removed ≡ c.removed ++ (c.cell e).value ∷ [])
  unfolding evict discard
  remove_listed c xs e ys k valid f =
      let p = (==_iff (c.cell e).pin 0).1 (All-middle _ xs e ys valid.unpinned) in
      let q = (valid.entries k e f).keyed in
      let g = All-middle _ xs e ys valid.listed in
      (
        subst (λ j. remove j c ≡ drop_elem e c) q (remove-drop c e p g),
        drop_elem-IsValid c xs e ys valid,
        subst (λ j. find j (erase (c.cell e).key c.table) ≡ none) q
            (find-erase (c.cell e).key c.table valid.unique),
        refl,
      )
