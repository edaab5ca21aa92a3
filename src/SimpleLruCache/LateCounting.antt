-- ===== src/SimpleLruCache/LateCounting.antt =====
-- A release of simple_lru_cache/simple_lru_cache_inl.h that leaves pins on a deferred element.
use jwt_verify_lib.Prelude.{
  ◌+◌, ◌%◌, ◌^◌, ◌≡◌, ◌≢◌, sym, ap, ◌∙◌, subst, List, ◌∷◌, ◌==◌, ==_iff, inl, inr, some, Bool-cases,
  arith,
}
use jwt_verify_lib.SimpleLruCache.Maps.{KeyEq, find}
use jwt_verify_lib.SimpleLruCache.Links.{Ptr, set_at}
use jwt_verify_lib.SimpleLruCache.State.{Elem, Cache, set_elem}
use jwt_verify_lib.SimpleLruCache.Ring.{NotIn, All-map, All-everywhere}
use jwt_verify_lib.SimpleLruCache.Sums.{total, total-ext, total-same}
use jwt_verify_lib.SimpleLruCache.Late.{
  IsIn, All-at, sum_over, sum_over-same, IsLate, unlinked-NotIn, unpinned-NotIn,
}
use jwt_verify_lib.SimpleLruCache.Valid.{set_at_same, set_at_other, pinned_of, IsValid, IsHeld}
use jwt_verify_lib.SimpleLruCache.Writing.{All-set_at}

module _ {K : Type 0} ⦃eq : KeyEq K⦄ where
  module _ (c : Cache K) (es : List Ptr) (e : Ptr) (valid : IsValid c es)
      (i : IsIn e valid.late_elems) where
    -- A deferred element is not one of the table, nor of the list.
    pub late_not_in_table : (k : K) (r : Ptr) → find k c.table ≡ some r → e ≢ r
    late_not_in_table k r f =
        let entry = valid.entries k r f in
        let ds = valid.late_elems in
        elim (Bool-cases ((c.cell r).pin == 0)) [
          | inl p ↦
              All-at (λ d. d ≢ r) ds e
                (unpinned-NotIn c ds valid.ring_of r valid.late ((==_iff (c.cell r).pin 0).0 p)) i
          | inr p ↦
              let n : (c.cell r).pin ≢ 0 = ground arith in
              All-at (λ d. d ≢ r) ds e
                (unlinked-NotIn c ds valid.ring_of r valid.late (entry.alone n)) i
        ]

    pub late_not_listed : NotIn e es
    late_not_listed = All-map es (λ r f j. late_not_in_table _ r f (sym j)) valid.listed

    module _ (x : Elem K) (same_key : x.key ≡ (c.cell e).key)
        (same_units : x.units ≡ (c.cell e).units) where
      -- A write of the pins of a deferred element leaves most as it was.
      pub late_cell :
          {A : Type 0} (g : Elem K → A)
          → g x ≡ g (c.cell e)
          → (r : Ptr) → g (set_at c.cell e x r) ≡ g (c.cell r)
      late_cell g h r = elim (Bool-cases (e == r)) [
        | inl m ↦
            let j = (==_iff e r).0 m in
            subst (λ s. g (set_at c.cell e x s) ≡ g (c.cell s)) j
              (ap g (set_at_same c.cell e x) ∙ h)
        | inr m ↦ let n : e ≢ r = ground arith in ap g (set_at_other c.cell e x r n)
      ]

      pub late_pinned :
          total (λ r. pinned_of (set_at c.cell e x r)) c.table
          ≡ total (λ r. pinned_of (c.cell r)) c.table
      late_pinned =
          total-same _ _ c.table valid.unique
            (λ k r f. ap pinned_of (set_at_other c.cell e x r (late_not_in_table k r f)))

      pub late_sized :
          (ds : List Ptr)
          → total (λ r. (set_at c.cell e x r).units) c.table
              + sum_over (λ r. (set_at c.cell e x r).units) ds
            ≡ total (λ r. (c.cell r).units) c.table + sum_over (λ r. (c.cell r).units) ds
      late_sized ds =
          let units = late_cell (λ y. y.units) same_units in
          omega (
            arith,
            total-ext (λ r. (set_at c.cell e x r).units) (λ r. (c.cell r).units) c.table units,
            sum_over-same (λ r. (set_at c.cell e x r).units) (λ r. (c.cell r).units) ds
                (All-everywhere ds units),
          )

      repinned-IsLate :
          x.pin ≢ 0
          → IsLate c valid.late_elems valid.ring_of
          → IsLate (set_elem e x c) valid.late_elems valid.ring_of
      repinned-IsLate n late =
          let key = late_cell (λ y. y.key) same_key in
          record {
            groups = λ k first f.
                let group = late.groups k first f in
                record {
                  ring = group.ring;
                  nodes = group.nodes;
                  keyed = All-map (first ∷ valid.ring_of k) (λ r h. key r ∙ h) group.keyed;
                  known = group.known;
                };
            members =
                All-map valid.late_elems
                  (λ d m. record {
                    alive = m.alive;
                    held = elim (Bool-cases (e == d)) [
                      | inl q ↦ λ z.
                          let j = (==_iff e d).0 q in
                          n (
                            ap (λ y. y.pin) (sym (set_at_same c.cell e x))
                            ∙ ap (λ s. (set_at c.cell e x s).pin) j
                            ∙ z)
                      | inr q ↦ λ z.
                          let far : e ≢ d = ground arith in
                          m.held (ap (λ y. y.pin) (sym (set_at_other c.cell e x d far)) ∙ z)
                    ];
                    real = m.real;
                    first = m.first;
                    found = subst (λ k. find k c.defer ≡ some m.first) (sym (key d)) m.found;
                    within = subst (λ k. IsIn d (m.first ∷ valid.ring_of k)) (sym (key d)) m.within;
                  })
                  late.members;
            distinct = late.distinct;
            unique = late.unique;
          }

      pub late_count-IsValid : x.pin ≢ 0 → IsValid (set_elem e x c) es
      late_count-IsValid n = record {
        in_lru_mode = valid.in_lru_mode;
        ring = valid.ring;
        nodes = valid.nodes;
        listed =
            All-set_at (λ y r. find y.key c.table ≡ some r) c.cell e x es late_not_listed
              valid.listed;
        unpinned = All-set_at (λ y r. y.pin ≡ 0) c.cell e x es late_not_listed valid.unpinned;
        entries = λ k r f.
            let entry = valid.entries k r f in
            let cell = set_at_other c.cell e x r (late_not_in_table k r f) in
            record {
              keyed = ap (λ y. y.key) cell ∙ entry.keyed;
              alive = entry.alive;
              real = entry.real;
              waits = λ p. entry.waits (sym (ap (λ y. y.pin) cell) ∙ p);
              alone = λ p. entry.alone (λ q. p (ap (λ y. y.pin) cell ∙ q));
            };
        unique = valid.unique;
        late_elems = valid.late_elems;
        ring_of = valid.ring_of;
        late = repinned-IsLate n valid.late;
        few = valid.few;
        sized = valid.sized ∙ ap (λ m. m % 2 ^ 64) (sym (late_sized valid.late_elems));
        pinned = valid.pinned ∙ ap (λ m. m % 2 ^ 64) (sym late_pinned);
      }

      -- What the table holds it still does.
      pub late-IsHeld :
          (k : K) (v : Ptr)
          → IsHeld c k v
          → (r : Ptr) × (find k c.table ≡ some r)
            × ((set_at c.cell e x r).value ≡ v)
            × ((set_at c.cell e x r).pin ≢ 0)
      late-IsHeld k v (r, f, w, n) =
          let cell = set_at_other c.cell e x r (late_not_in_table k r f) in
          (r, f, ap (λ y. y.value) cell ∙ w, (λ z. n (sym (ap (λ y. y.pin) cell) ∙ z)))
