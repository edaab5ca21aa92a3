-- ===== src/SimpleLruCache/Counting.antt =====
-- The pinned size of the cache of simple_lru_cache/simple_lru_cache_inl.h, where the counters of one
-- element change.
use jwt_verify_lib.Prelude.{
  ◌+◌, ◌%◌, ◌^◌, ◌≡◌, ◌≢◌, refl, sym, ap, ◌∙◌, false, ◌==◌, ==_iff, some, List, arith,
}
use jwt_verify_lib.SimpleLruCache.Words.{add_64, sub_64}
use jwt_verify_lib.SimpleLruCache.Maps.{KeyEq, find}
use jwt_verify_lib.SimpleLruCache.Links.{Ptr, set_at}
use jwt_verify_lib.SimpleLruCache.State.{Elem, Cache}
use jwt_verify_lib.SimpleLruCache.Sums.{total, total-change, sub_64-total, add_64-total}
use jwt_verify_lib.SimpleLruCache.Valid.{pinned_of, IsValid}
use jwt_verify_lib.SimpleLruCache.Writing.{IsCounted}
use jwt_verify_lib.SimpleLruCache.Valid.{set_at_same, set_at_other}

module _ {K : Type 0} ⦃eq : KeyEq K⦄ where
  pinned_of-zero : (x : Elem K) → x.pin ≡ 0 → pinned_of x ≡ 0
  pinned_of-zero x p = let m = (==_iff x.pin 0).1 p in rw m refl

  pub pinned_of-units : (x : Elem K) → x.pin ≢ 0 → pinned_of x ≡ x.units
  pinned_of-units x n = let m : (x.pin == 0) ≡ false = ground arith in rw m refl

  module _ (c : Cache K) (es : List Ptr) (k : K) (e : Ptr) (x : Elem K)
      (f : find k c.table ≡ some e) (valid : IsValid c es) where
    -- The sums before and after.
    written_total :
        total (λ r. pinned_of (set_at c.cell e x r)) c.table + pinned_of (c.cell e)
        ≡ total (λ r. pinned_of (c.cell r)) c.table + pinned_of x
    written_total =
        let here = ap pinned_of (set_at_same c.cell e x) in
        let change =
          total-change (λ r. pinned_of (c.cell r)) (λ r. pinned_of (set_at c.cell e x r)) k e
            c.table valid.unique f
            (λ j r far g. sym (
              ap pinned_of (
                set_at_other c.cell e x r (λ i. far (
                  sym (valid.entries j r g).keyed
                  ∙ ap (λ s. (c.cell s).key) (sym i)
                  ∙ (valid.entries k e f).keyed))))) in
        change ∙ ap (λ n. total (λ r. pinned_of (c.cell r)) c.table + n) here

    pub recounted :
        x.pin ≢ 0 → (c.cell e).pin ≢ 0 → x.units ≡ (c.cell e).units → IsCounted c e x c.pinned_units
    recounted n m s =
        let old = pinned_of-units (c.cell e) m in
        let new = pinned_of-units x n in
        valid.pinned ∙ ap (λ n. n % 2 ^ 64) (omega (arith, written_total, old, new, s))

    pub count_up :
        x.pin ≢ 0
        → (c.cell e).pin ≡ 0
        → x.units ≡ (c.cell e).units
        → IsCounted c e x (add_64 c.pinned_units (c.cell e).units)
    count_up n p s =
        let old = pinned_of-zero (c.cell e) p in
        let new = pinned_of-units x n in
        ap (λ n. add_64 n (c.cell e).units) valid.pinned
        ∙ add_64-total (c.cell e).units (total (λ r. pinned_of (c.cell r)) c.table)
        ∙ ap (λ n. n % 2 ^ 64) (omega (arith, written_total, old, new, s))

    pub drop_count :
        x.pin ≡ 0 → (c.cell e).pin ≢ 0 → IsCounted c e x (sub_64 c.pinned_units (c.cell e).units)
    drop_count p m =
        let old = pinned_of-units (c.cell e) m in
        let new = pinned_of-zero x p in
        ap (λ n. sub_64 n (c.cell e).units)
          (valid.pinned ∙ ap (λ n. n % 2 ^ 64) (omega (arith, written_total, old, new)))
        ∙ sub_64-total (c.cell e).units (total (λ r. pinned_of (set_at c.cell e x r)) c.table)
