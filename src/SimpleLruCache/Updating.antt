-- ===== src/SimpleLruCache/Updating.antt =====
-- The new sizes of the cache of simple_lru_cache/simple_lru_cache_inl.h, where the units of an element of
-- the table change, or those of a deferred one.
use jwt_verify_lib.Prelude.{
  ℕ, ◌+◌, ◌%◌, ◌^◌, ◌≡◌, ◌≢◌, refl, sym, ap, ◌∙◌, subst, true, false, List, ◌++◌, ◌==◌, ==_iff, inl,
  inr, some, Bool-cases, arith,
}
use jwt_verify_lib.SimpleLruCache.{
  KeyEq, find, erase, Ptr, Elem, Cache, set_elem, add_64, sub_64, resize_elem,
}
use jwt_verify_lib.SimpleLruCache.Ring.{IsDistinct, All-map, IsDistinct-without}
use jwt_verify_lib.SimpleLruCache.Sums.{total, total-same, total-erase, total-change}
use jwt_verify_lib.SimpleLruCache.Late.{
  IsIn, All-IsIn, split_at, sum_over, sum_over-same, sum_over-without,
}
use jwt_verify_lib.SimpleLruCache.Valid.{set_at_same, set_at_other, pinned_of, IsValid}
use jwt_verify_lib.SimpleLruCache.LateCounting.{late_not_in_table}
use jwt_verify_lib.SimpleLruCache.Resizing.{
  resized, Resizes, new_cell, with_units, with_units-Resizes, exchange,
}

module _ {K : Type 0} ⦃eq : KeyEq K⦄ where
  -- An element of the table.
  module _ (c : Cache K) (es : List Ptr) (k : K) (e : Ptr) (units : ℕ) (valid : IsValid c es)
      (f : find k c.table ≡ some e) where
    -- A measure that differs at the element only.
    changed_total :
        (g : Elem K → ℕ)
        → total (λ r. g (new_cell c es e units valid r)) c.table + g (c.cell e)
          ≡ total (λ r. g (c.cell r)) c.table + g (resized units (c.cell e))
    changed_total g =
        total-change (λ r. g (c.cell r)) (λ r. g (new_cell c es e units valid r)) k e c.table
          valid.unique f
          (λ j r far h. sym (
            ap g (
              set_at_other c.cell e (resized units (c.cell e)) r (λ i. far (
                sym (valid.entries j r h).keyed
                ∙ ap (λ s. (c.cell s).key) (sym i)
                ∙ (valid.entries k e f).keyed)))))
        ∙ ap (λ n. total (λ r. g (c.cell r)) c.table + n)
            (ap g (set_at_same c.cell e (resized units (c.cell e))))

    late_sum :
        sum_over (λ r. (new_cell c es e units valid r).units) valid.late_elems
        ≡ sum_over (λ r. (c.cell r).units) valid.late_elems
    late_sum =
        sum_over-same (λ r. (new_cell c es e units valid r).units) (λ r. (c.cell r).units)
          valid.late_elems
          (All-IsIn _ valid.late_elems (λ d i.
            ap (λ y. y.units)
              (set_at_other c.cell e (resized units (c.cell e)) d
                (λ j. late_not_in_table c es d valid i k e f (sym j)))))

    table_sized :
        add_64 (sub_64 c.units (c.cell e).units) units
        ≡ (total (λ r. (new_cell c es e units valid r).units) c.table
            + sum_over (λ r. (new_cell c es e units valid r).units) valid.late_elems)
          % 2 ^ 64
    table_sized =
        let rest = total (λ r. (c.cell r).units) (erase k c.table) in
        let late_units = sum_over (λ r. (c.cell r).units) valid.late_elems in
        let split = total-erase (λ r. (c.cell r).units) k e c.table f in
        let change = changed_total (λ y. y.units) in
        exchange c es e units valid c.units units (rest + late_units) (c.cell e).units
          (valid.sized ∙ ap (λ n. n % 2 ^ 64) (omega (arith, split)))
        ∙ ap (λ n. n % 2 ^ 64) (omega (arith, split, change, late_sum))

    table_pinned :
        (c.cell e).pin ≢ 0
        → add_64 (sub_64 c.pinned_units (c.cell e).units) units
          ≡ total (λ r. pinned_of (new_cell c es e units valid r)) c.table % 2 ^ 64
    table_pinned n =
        let m : ((c.cell e).pin == 0) ≡ false = ground arith in
        let old : pinned_of (c.cell e) ≡ (c.cell e).units = rw m refl in
        let new : pinned_of (resized units (c.cell e)) ≡ units = rw m refl in
        let rest = total (λ r. pinned_of (c.cell r)) (erase k c.table) in
        let split = total-erase (λ r. pinned_of (c.cell r)) k e c.table f in
        let change = changed_total pinned_of in
        exchange c es e units valid c.pinned_units units rest (c.cell e).units
          (valid.pinned ∙ ap (λ n. n % 2 ^ 64) (omega (arith, split, old)))
        ∙ ap (λ n. n % 2 ^ 64) (omega (arith, split, change, old, new))

    table_unpinned :
        (c.cell e).pin ≡ 0
        → c.pinned_units ≡ total (λ r. pinned_of (new_cell c es e units valid r)) c.table % 2 ^ 64
    table_unpinned p =
        let m : ((c.cell e).pin == 0) ≡ true = (==_iff (c.cell e).pin 0).1 p in
        let old : pinned_of (c.cell e) ≡ 0 = rw m refl in
        let new : pinned_of (resized units (c.cell e)) ≡ 0 = rw m refl in
        valid.pinned ∙ ap (λ n. n % 2 ^ 64) (omega (arith, changed_total pinned_of, old, new))

    resize_elem-pinned :
        ((c.cell e).pin == 0) ≡ false
        → resize_elem e units c
          ≡ with_units c es e units valid
              (add_64 (sub_64 c.units (c.cell e).units) units)
              (add_64 (sub_64 c.pinned_units (c.cell e).units) units)
    unfolding resize_elem
    resize_elem-pinned m = rw m refl

    resize_elem-unpinned :
        ((c.cell e).pin == 0) ≡ true
        → resize_elem e units c
          ≡ with_units c es e units valid
              (add_64 (sub_64 c.units (c.cell e).units) units)
              c.pinned_units
    unfolding resize_elem
    resize_elem-unpinned m = rw m refl

    -- `updateSize` of an element of the table.
    pub resize_elem-Resizes : Resizes c es (resize_elem e units c)
    resize_elem-Resizes = elim (Bool-cases ((c.cell e).pin == 0)) [
      | inl m ↦ rw (resize_elem-unpinned m) (
          with_units-Resizes c es e units valid _ _ table_sized
            (table_unpinned ((==_iff (c.cell e).pin 0).0 m)))
      | inr m ↦
          let n : (c.cell e).pin ≢ 0 = ground arith in
          rw (resize_elem-pinned m)
            (with_units-Resizes c es e units valid _ _ table_sized (table_pinned n))
    ]

  -- A deferred element.
  module _ (c : Cache K) (es : List Ptr) (e : Ptr) (units : ℕ) (valid : IsValid c es)
      (i : IsIn e valid.late_elems) where
    table_total :
        (g : Elem K → ℕ)
        → total (λ r. g (new_cell c es e units valid r)) c.table ≡ total (λ r. g (c.cell r)) c.table
    table_total g = total-same _ _ c.table valid.unique (λ k r f. ap g (
        set_at_other c.cell e (resized units (c.cell e)) r
          (late_not_in_table c es e valid i k r f)))

    late_sized :
        add_64 (sub_64 c.units (c.cell e).units) units
        ≡ (total (λ r. (new_cell c es e units valid r).units) c.table
            + sum_over (λ r. (new_cell c es e units valid r).units) valid.late_elems)
          % 2 ^ 64
    late_sized =
        let (us, vs, parts) = split_at e valid.late_elems i in
        let units_of = λ (r : Ptr). (c.cell r).units in
        let new_units = λ (r : Ptr). (new_cell c es e units valid r).units in
        let (_, far) = IsDistinct-without us e vs (subst IsDistinct parts valid.late.distinct) in
        let split = ap (sum_over units_of) parts ∙ sum_over-without units_of us e vs in
        let new_split = ap (sum_over new_units) parts ∙ sum_over-without new_units us e vs in
        let here : new_units e ≡ units =
          ap (λ y. y.units) (set_at_same c.cell e (resized units (c.cell e))) in
        let rest : sum_over new_units (us ++ vs) ≡ sum_over units_of (us ++ vs) =
          sum_over-same new_units units_of (us ++ vs) (
            All-map (us ++ vs)
              (λ d n.
                ap (λ y. y.units)
                  (set_at_other c.cell e (resized units (c.cell e)) d (λ j. n (sym j))))
              far) in
        exchange c es e units valid c.units units
          (total units_of c.table + sum_over units_of (us ++ vs)) (c.cell e).units
          (valid.sized ∙ ap (λ n. n % 2 ^ 64) (omega (arith, split)))
        ∙ ap (λ n. n % 2 ^ 64) (omega (arith, new_split, here, rest, table_total (λ y. y.units)))

    pub resize_late-Resizes : Resizes c es (record (set_elem e (resized units (c.cell e)) c) {
      units = add_64 (sub_64 c.units (c.cell e).units) units;
    })
    resize_late-Resizes =
        with_units-Resizes c es e units valid _ c.pinned_units late_sized
          (valid.pinned ∙ ap (λ n. n % 2 ^ 64) (sym (table_total pinned_of)))
