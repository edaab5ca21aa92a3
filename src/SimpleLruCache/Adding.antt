-- ===== src/SimpleLruCache/Adding.antt =====
-- The new element of `insertPinned` of simple_lru_cache/simple_lru_cache_inl.h, on a cache with the
-- representation invariants.
use jwt_verify_lib.Prelude.{
  ℕ, ◌+◌, ◌%◌, ◌^◌, ◌≡◌, ◌≢◌, refl, sym, ap, ◌∙◌, subst, false, List, [], ◌∷◌, All, ◌⊎◌, inl, inr,
  none, some, All-append, Bool-cases, arith,
}
use jwt_verify_lib.SimpleLruCache.{
  KeyEq, find, assign, Ptr, null, set_at, set_next, set_prev, Elem, Cache, head,
  is_overfull_internal, garbage_collect, add_64, add_elem,
}
use jwt_verify_lib.SimpleLruCache.Links.{Links}
use jwt_verify_lib.SimpleLruCache.Ring.{Linked-frame, IsRing, NotIn, All-map}
use jwt_verify_lib.SimpleLruCache.Sums.{total, total-same, total-assign, add_64-total}
use jwt_verify_lib.SimpleLruCache.Tables.{
  find-assign, find-assign_other, IsUnique-assign, length-assign, apart,
}
use jwt_verify_lib.SimpleLruCache.Claims.{
  IsFree, late-IsDeferred, IsSteady, IsSteady-trans, IsSteady-frame,
}
use jwt_verify_lib.SimpleLruCache.Late.{All-IsIn, sum_over, sum_over-same, IsSame, IsLate-frame}
use jwt_verify_lib.SimpleLruCache.Valid.{pinned_of, IsEntry, IsValid, IsHeld}
use jwt_verify_lib.SimpleLruCache.Dropping.{drop_all, garbage_collect-Drops}
use jwt_verify_lib.SimpleLruCache.Writing.{All-set_at}
use jwt_verify_lib.SimpleLruCache.Valid.{set_at_same, set_at_other}
use jwt_verify_lib.SimpleLruCache.Keeping.{Keeps, drop_all-IsHeld, drop_all-IsSteady}
use mathlib.Core.Option.{some-injective, none-ne-some}

-- The links with those of a new element.
abbrev pub fresh_links : Ptr → Links → Links
fresh_links p l = set_prev p null (set_next p null l)

fresh_links-IsRing :
    (p : Ptr) (l : Links) (es : List Ptr)
    → p ≢ head
    → NotIn p es
    → IsRing l head es
    → IsRing (fresh_links p l) head es
fresh_links-IsRing p l es h n ring =
    Linked-frame l (fresh_links p l) head es head
      (All-map (head ∷ es) (λ r m. set_at_other l.prev p null r (λ q. m (sym q)))
        ((λ q. h (sym q)), n))
      (All-append _ es (head ∷ [])
        (All-map es (λ r m. set_at_other l.next p null r (λ q. m (sym q))) n)
        (set_at_other l.next p null head h, tt))
      ring

sum_of : {t t' b u w : ℕ} → t' ≡ t → b ≡ t' + u → u ≡ w → t + w ≡ b
sum_of p q r = omega arith

module _ {K : Type 0} ⦃eq : KeyEq K⦄ where
  open eq use {is_equal, is_equal_iff}

  module _ (c : Cache K) (es : List Ptr) (p v : Ptr) (k : K) (units now : ℕ) (valid : IsValid c es)
      (free : IsFree c es p) (missing : find k c.table ≡ none) where
    abbrev pub new_elem : Elem K
    new_elem = record { key = k; value = v; pin = 1; units = units; last_use = now }

    abbrev pub with_elem : Cache K
    with_elem = record c {
      cell = set_at c.cell p new_elem;
      freed = set_at c.freed p false;
      allocated = c.allocated + 1;
      units = add_64 c.units units;
      pinned_units = add_64 c.pinned_units units;
      table = assign k p c.table;
      links = fresh_links p c.links;
    }

    one_pin : new_elem.pin ≢ 0
    one_pin = ground arith

    add_elem_lem : add_elem p k v units now c ≡ with_elem
    unfolding add_elem
    add_elem_lem = rw valid.in_lru_mode refl

    -- What the table had, it has still.
    with_elem-find :
        (j : K) (r : Ptr) → find j c.table ≡ some r → find j (assign k p c.table) ≡ some r
    with_elem-find j r f =
        find-assign_other k j p c.table
          (λ q. none-ne-some r (sym missing ∙ ap (λ i. find i c.table) q ∙ f))
        ∙ f

    new_entry : IsEntry with_elem es k p
    new_entry =
        let cell = set_at_same c.cell p new_elem in
        record {
          keyed = ap (λ y. y.key) cell;
          alive = set_at_same c.freed p false;
          real = free.real;
          waits = λ z. absurd (one_pin (sym (ap (λ y. y.pin) cell) ∙ z));
          alone = λ _. set_at_same c.links.next p null;
        }

    with_elem-entry :
        (j : K) (r : Ptr) → find j (assign k p c.table) ≡ some r → IsEntry with_elem es j r
    with_elem-entry j r f = elim (Bool-cases (is_equal k j)) [
      | inl q ↦
          let i = (is_equal_iff k j).0 q in
          let g = subst (λ m. find m (assign k p c.table) ≡ some r) (sym i) f in
          let s = some-injective _ _ (sym (find-assign k p c.table) ∙ g) in
          subst (λ m. IsEntry with_elem es m r) i (subst (IsEntry with_elem es k) s new_entry)
      | inr q ↦
          let f' = sym (find-assign_other k j p c.table (λ m. apart k j q (sym m))) ∙ f in
          let far = free.not_in_table j r f' in
          let entry = valid.entries j r f' in
          let cell = set_at_other c.cell p new_elem r far in
          record {
            keyed = ap (λ y. y.key) cell ∙ entry.keyed;
            alive = set_at_other c.freed p false r far ∙ entry.alive;
            real = entry.real;
            waits = λ z. entry.waits (sym (ap (λ y. y.pin) cell) ∙ z);
            alone = λ z.
                set_at_other c.links.next p null r far
                ∙ entry.alone (λ y. z (ap (λ x. x.pin) cell ∙ y));
          }
    ]

    not_late : NotIn p valid.late_elems
    not_late = All-IsIn _ valid.late_elems (λ d i j.
        free.not_deferred (c.cell d).key d
          (late-IsDeferred c valid.late_elems valid.ring_of d valid.late i) (sym j))

    with_elem_same : All (IsSame c with_elem) valid.late_elems
    with_elem_same =
        All-map valid.late_elems
          (λ d n.
            let far : p ≢ d = λ i. n (sym i) in
            record {
              same_prev = set_at_other c.links.prev p null d far;
              same_next = set_at_other c.links.next p null d far;
              same_cell = set_at_other c.cell p new_elem d far;
              same_freed = set_at_other c.freed p false d far;
            })
          not_late

    with_elem-IsSteady : IsSteady c with_elem
    with_elem-IsSteady =
        IsSteady-frame c with_elem valid.late_elems valid.ring_of valid.late refl with_elem_same

    with_elem-sized :
        add_64 c.units units
        ≡ (total (λ r. (set_at c.cell p new_elem r).units) (assign k p c.table)
            + sum_over (λ r. (set_at c.cell p new_elem r).units) valid.late_elems)
          % 2 ^ 64
    with_elem-sized =
        let units_of = λ (r : Ptr). (c.cell r).units in
        let new_units = λ (r : Ptr). (set_at c.cell p new_elem r).units in
        let before = total-same new_units units_of c.table valid.unique (λ j r f.
          ap (λ y. y.units) (set_at_other c.cell p new_elem r (free.not_in_table j r f))) in
        let after = total-assign new_units k p c.table missing in
        let here : new_units p ≡ units = ap (λ y. y.units) (set_at_same c.cell p new_elem) in
        let deferred = sum_over-same new_units units_of valid.late_elems (
          All-map valid.late_elems
            (λ d n. ap (λ y. y.units) (set_at_other c.cell p new_elem d (λ i. n (sym i))))
            not_late) in
        ap (λ n. add_64 n units) valid.sized
        ∙ add_64-total units (total units_of c.table + sum_over units_of valid.late_elems)
        ∙ ap (λ n. n % 2 ^ 64) (omega (arith, before, after, here, deferred))

    with_elem-pinned :
        add_64 c.pinned_units units
        ≡ total (λ r. pinned_of (set_at c.cell p new_elem r)) (assign k p c.table) % 2 ^ 64
    with_elem-pinned =
        let before =
          total-same (λ r. pinned_of (set_at c.cell p new_elem r)) (λ r. pinned_of (c.cell r))
            c.table valid.unique
            (λ j r f. ap pinned_of (set_at_other c.cell p new_elem r (free.not_in_table j r f))) in
        let after =
          total-assign (λ r. pinned_of (set_at c.cell p new_elem r)) k p c.table missing in
        let here : pinned_of (set_at c.cell p new_elem p) ≡ units =
          ap pinned_of (set_at_same c.cell p new_elem) in
        ap (λ n. add_64 n units) valid.pinned
        ∙ add_64-total units (total (λ r. pinned_of (c.cell r)) c.table)
        ∙ ap (λ n. n % 2 ^ 64) (sum_of before after here)

    with_elem-IsValid : IsValid with_elem es
    with_elem-IsValid = record {
      in_lru_mode = valid.in_lru_mode;
      ring = fresh_links-IsRing p c.links es free.real.1 free.not_on_list valid.ring;
      nodes = valid.nodes;
      listed =
          All-map es (λ r f. with_elem-find _ r f)
            (All-set_at (λ y r. find y.key c.table ≡ some r) c.cell p new_elem es free.not_on_list
              valid.listed);
      unpinned = All-set_at (λ y r. y.pin ≡ 0) c.cell p new_elem es free.not_on_list valid.unpinned;
      entries = with_elem-entry;
      unique = IsUnique-assign k p c.table valid.unique;
      late_elems = valid.late_elems;
      ring_of = valid.ring_of;
      late = IsLate-frame c with_elem valid.late_elems valid.ring_of refl with_elem_same valid.late;
      few = omega (arith, valid.few, length-assign k p c.table);
      sized = with_elem-sized;
      pinned = with_elem-pinned;
    }

    with_elem-IsHeld : IsHeld with_elem k v
    with_elem-IsHeld =
        let cell = set_at_same c.cell p new_elem in
        (
          p,
          find-assign k p c.table,
          ap (λ y. y.value) cell,
          (λ z. one_pin (sym (ap (λ y. y.pin) cell) ∙ z)),
        )

    with_elem-IsHeld_other : (j : K) (w : Ptr) → IsHeld c j w → IsHeld with_elem j w
    with_elem-IsHeld_other j w (r, f, g, n) =
        let cell = set_at_other c.cell p new_elem r (free.not_in_table j r f) in
        (
          r,
          with_elem-find j r f,
          ap (λ y. y.value) cell ∙ g,
          (λ z. n (sym (ap (λ y. y.pin) cell) ∙ z)),
        )

    -- The new element is held, and what was held still is.
    pub inserted :
        (c' : Cache K) × (es' : List Ptr) × (garbage_collect (add_elem p k v units now c) ≡ some c')
        × Keeps c c' es'
        × IsHeld c' k v
        × ((is_overfull_internal c' ≡ false) ⊎ (es' ≡ []))
    inserted = rw add_elem_lem (
        let (d, fits) = garbage_collect-Drops es with_elem with_elem-IsValid in
        let start = subst (IsValid with_elem) d.parts with_elem-IsValid in
        let kept = drop_all-IsHeld with_elem d.gone d.left in
        (
          drop_all d.gone with_elem,
          d.left,
          d.result,
          (
            d.valid,
            (λ j w held. kept j w start (with_elem-IsHeld_other j w held)),
            IsSteady-trans with_elem-IsSteady (drop_all-IsSteady with_elem d.gone d.left start),
          ),
          kept k v start with_elem-IsHeld,
          fits,
        ))
