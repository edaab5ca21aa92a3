-- ===== src/SimpleLruCache/LateLeaving.antt =====
-- The state of the cache of simple_lru_cache/simple_lru_cache_inl.h without one deferred element, and
-- the representation invariants.
use jwt_verify_lib.Prelude.{
  ◌+◌, ◌%◌, ◌^◌, ◌≡◌, ◌≢◌, sym, ap, ◌∙◌, subst, true, List, [], ◌∷◌, ◌++◌, some, All, All-append,
  length, length-append, arith,
}
use jwt_verify_lib.SimpleLruCache.{KeyEq, find, Ptr, Elem, Cache, head, sub_64}
use jwt_verify_lib.SimpleLruCache.Links.{Links}
use jwt_verify_lib.SimpleLruCache.Ring.{Linked-frame, All-map}
use jwt_verify_lib.SimpleLruCache.Sums.{total, sub_64-total}
use jwt_verify_lib.SimpleLruCache.Late.{IsLate, IsIn, sum_over, sum_over-without}
use jwt_verify_lib.SimpleLruCache.Regrouping.{put_at, Regroups-IsLate}
use jwt_verify_lib.SimpleLruCache.Valid.{set_at_other, IsEntry, IsValid, Some-without}
use jwt_verify_lib.SimpleLruCache.Claims.{IsDeferred, late-IsDeferred}
use jwt_verify_lib.SimpleLruCache.Writing.{All-set_at}
use jwt_verify_lib.SimpleLruCache.Deferring.{NotIn-within, list_apart}
use jwt_verify_lib.SimpleLruCache.LateCounting.{
  late_not_in_table, late_not_listed, late_pinned, late_sized, late_cell,
}
use jwt_verify_lib.SimpleLruCache.LateDropping.{Shrinks, without_late, was_in, left-Regroups}

module _ {K : Type 0} ⦃eq : KeyEq K⦄ where
  module _ (c : Cache K) (es us : List Ptr) (e : Ptr) (vs : List Ptr) (valid : IsValid c es)
      (parts : valid.late_elems ≡ us ++ e ∷ vs) (x : Elem K) (same_key : x.key ≡ (c.cell e).key)
      (same_units : x.units ≡ (c.cell e).units) (first : Ptr)
      (found : find (c.cell e).key c.defer ≡ some first) (l : Links) (defer : List (K × Ptr))
      (ms : List Ptr)
      (shrinks : Shrinks c (c.cell e).key first (valid.ring_of (c.cell e).key) e l defer ms) where
    abbrev result : Cache K
    result =
        without_late c es us e vs valid parts x same_key same_units first found l defer ms shrinks

    in_late : IsIn e valid.late_elems
    in_late = was_in c es us e vs valid parts x same_key same_units first found l defer ms shrinks

    list_kept : All (λ r. (l.prev r ≡ c.links.prev r) × (l.next r ≡ c.links.next r)) (head ∷ es)
    list_kept =
        let k = (c.cell e).key in
        All-map (head ∷ es)
          (λ r h. shrinks.keeps r (
            NotIn-within r (first ∷ valid.ring_of k) valid.late_elems
              (valid.late.groups k first found).known h))
          (list_apart c es valid)

    left_sum :
        total (λ r. (c.cell r).units) c.table + sum_over (λ r. (c.cell r).units) valid.late_elems
        ≡ (c.cell e).units
          + (total (λ r. (result.cell r).units) c.table
              + sum_over (λ r. (result.cell r).units) (us ++ vs))
    left_sum =
        let units_of = λ (r : Ptr). (c.cell r).units in
        let sum = late_sized c es e valid in_late x same_key same_units (us ++ vs) in
        let split = ap (sum_over units_of) parts ∙ sum_over-without units_of us e vs in
        omega (arith, sum, split)

    left-IsLate : IsLate result (us ++ vs) (put_at (c.cell e).key ms valid.ring_of)
    left-IsLate =
        Regroups-IsLate c result (c.cell e).key valid.late_elems (us ++ vs) ms valid.ring_of
          valid.late
          (left-Regroups c es us e vs valid parts x same_key same_units first found l defer ms
            shrinks)

    -- The other deferred elements are left.
    pub left-IsDeferred :
        (r : Ptr) → IsIn r valid.late_elems → r ≢ e → IsDeferred result (c.cell r).key r
    left-IsDeferred r i far =
        let key = late_cell c es e valid in_late x same_key same_units (λ y. y.key) same_key r in
        subst (λ k. IsDeferred result k r) key
          (late-IsDeferred result (us ++ vs) (put_at (c.cell e).key ms valid.ring_of) r left-IsLate
            (Some-without _ us e vs (λ j. far (sym j)) (subst (IsIn r) parts i)))

    pub without_late-IsValid : IsValid result es
    without_late-IsValid =
        let not_listed = late_not_listed c es e valid in_late in
        let entry_kept : (k : K) (r : Ptr) → find k c.table ≡ some r → IsEntry result es k r =
          λ k r f.
            let entry = valid.entries k r f in
            let off = late_not_in_table c es e valid in_late k r f in
            let cell = set_at_other c.cell e x r off in
            record {
              keyed = ap (λ y. y.key) cell ∙ entry.keyed;
              alive = set_at_other c.freed e true r off ∙ entry.alive;
              real = entry.real;
              waits = λ p. entry.waits (sym (ap (λ y. y.pin) cell) ∙ p);
              alone = λ p. shrinks.stays r (entry.alone (λ q. p (ap (λ y. y.pin) cell ∙ q)));
            } in
        record {
          in_lru_mode = valid.in_lru_mode;
          ring =
              Linked-frame c.links l head es head (All-map (head ∷ es) (λ r h. h.0) list_kept)
                (All-append _ es (head ∷ []) (All-map es (λ r h. h.1) list_kept.1)
                  (list_kept.0.1, tt))
                valid.ring;
          nodes = valid.nodes;
          listed =
              All-set_at (λ y r. find y.key c.table ≡ some r) c.cell e x es not_listed valid.listed;
          unpinned = All-set_at (λ y r. y.pin ≡ 0) c.cell e x es not_listed valid.unpinned;
          entries = entry_kept;
          unique = valid.unique;
          late_elems = us ++ vs;
          ring_of = put_at (c.cell e).key ms valid.ring_of;
          late = left-IsLate;
          few =
              omega
                (arith, valid.few, ap length parts, length-append us vs, length-append us (e ∷ vs));
          sized =
              ap (λ m. sub_64 m (c.cell e).units) (valid.sized ∙ ap (λ m. m % 2 ^ 64) left_sum)
              ∙ sub_64-total (c.cell e).units (
                  total (λ r. (result.cell r).units) c.table
                  + sum_over (λ r. (result.cell r).units) (us ++ vs));
          pinned =
              valid.pinned
              ∙ ap (λ m. m % 2 ^ 64) (sym (late_pinned c es e valid in_late x same_key same_units));
        }
