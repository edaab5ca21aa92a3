-- ===== src/SimpleLruCache/Writing.antt =====
-- What a write of the counters of one element leaves alone in the cache of
-- simple_lru_cache/simple_lru_cache_inl.h: the other elements, the size, and the deferred elements.
use jwt_verify_lib.Prelude.{
  ℕ, ◌+◌, ◌%◌, ◌^◌, ◌≡◌, ◌≢◌, refl, sym, ap, ◌∙◌, subst, List, [], ◌∷◌, ◌++◌, ◌==◌, ==_iff, inl,
  inr, some, All, Some, Bool-cases, arith,
}
use jwt_verify_lib.SimpleLruCache.Maps.{KeyEq, find}
use jwt_verify_lib.SimpleLruCache.Links.{Ptr, null, set_at, Links, link, unlink}
use jwt_verify_lib.SimpleLruCache.State.{Elem, Cache, head, set_elem}
use jwt_verify_lib.SimpleLruCache.Ring.{
  NotIn, IsDistinct, All-middle, All-everywhere, All-map, All-both,
}
use jwt_verify_lib.SimpleLruCache.Late.{
  sum_over, sum_over-same, IsSame, unlinked-NotIn, unpinned-NotIn, late-apart,
}
use jwt_verify_lib.SimpleLruCache.Claims.{IsSteady, IsSteady-frame}
use jwt_verify_lib.SimpleLruCache.Sums.{total, total-ext}
use jwt_verify_lib.SimpleLruCache.Unlinking.{unlink_keeps}
use jwt_verify_lib.SimpleLruCache.Linking.{link_keeps}
use jwt_verify_lib.SimpleLruCache.Valid.{set_at_same, set_at_other, pinned_of, IsEntry, IsValid}

pub Some-append : {A : Type 0} (P : A → Type 0) (xs ys : List A) → Some P xs → Some P (xs ++ ys)
Some-append P [] ys h = absurd h
Some-append P (x ∷ xs) ys (inl h) = inl h
Some-append P (x ∷ xs) ys (inr h) = inr (Some-append P xs ys h)

pub Some-last : {A : Type 0} (P : A → Type 0) (xs : List A) (y : A) → P y → Some P (xs ++ y ∷ [])
Some-last P [] y h = inl h
Some-last P (x ∷ xs) y h = inr (Some-last P xs y h)

pub pinned-NotIn :
    {K : Type 0} (c : Cache K) (e : Ptr) (es : List Ptr)
    → (c.cell e).pin ≢ 0
    → All (λ r. (c.cell r).pin ≡ 0) es
    → NotIn e es
pinned-NotIn c e es n h = All-map es (λ r p q. n (ap (λ s. (c.cell s).pin) (sym q) ∙ p)) h

module _ {K : Type 0} ⦃eq : KeyEq K⦄ where
  -- Elements of the table keep the properties that a write of another one leaves alone.
  pub All-set_at :
      (P : Elem K → Ptr → Type 0) (f : Ptr → Elem K) (e : Ptr) (x : Elem K) (es : List Ptr)
      → NotIn e es
      → All (λ r. P (f r) r) es
      → All (λ r. P (set_at f e x r) r) es
  All-set_at P f e x es ne h =
      All-both es (λ r n g. subst (λ y. P y r) (sym (set_at_other f e x r (λ q. n (sym q)))) g) ne h

  -- A number is the pinned size of a cache with a write of an element.
  abbrev pub IsCounted : Cache K → Ptr → Elem K → ℕ → Type 0
  IsCounted c e x u = u ≡ total (λ r. pinned_of (set_at c.cell e x r)) c.table % 2 ^ 64

  -- A write of the counters of one element.
  abbrev pub write_elem : Ptr → Elem K → Links → ℕ → Cache K → Cache K
  write_elem e x links pinned_units c = record (set_elem e x c) {
    pinned_units = pinned_units;
    links = links;
  }

  module _ (c : Cache K) (e : Ptr) (x : Elem K) (same : x.key ≡ (c.cell e).key)
      (same_units : x.units ≡ (c.cell e).units) (l : Links) (u : ℕ) where
    -- The entries, where the other elements stay on the list or off it.
    pub written_entry :
        (es es' : List Ptr) (k : K) (r : Ptr)
        → (x.pin ≡ 0 → Some (λ q. q ≡ e) es')
        → (x.pin ≢ 0 → l.next e ≡ null)
        → (e ≢ r → Some (λ q. q ≡ r) es → Some (λ q. q ≡ r) es')
        → (e ≢ r → c.links.next r ≡ null → l.next r ≡ null)
        → IsEntry c es k r
        → IsEntry (write_elem e x l u c) es' k r
    written_entry es es' k r on off kept_on kept_off entry = elim (Bool-cases (e == r)) [
      | inl m ↦
          let i = (==_iff e r).0 m in
          subst (IsEntry (write_elem e x l u c) es' k) i (record {
            keyed =
                ap (λ y. y.key) (set_at_same c.cell e x)
                ∙ same
                ∙ ap (λ p. (c.cell p).key) i
                ∙ entry.keyed;
            alive = ap c.freed i ∙ entry.alive;
            real = ((λ h. entry.real.0 (sym i ∙ h)), (λ h. entry.real.1 (sym i ∙ h)));
            waits = λ p. on (sym (ap (λ y. y.pin) (set_at_same c.cell e x)) ∙ p);
            alone = λ n. off (λ p. n (ap (λ y. y.pin) (set_at_same c.cell e x) ∙ p));
          })
      | inr m ↦
          let n : e ≢ r = ground arith in
          let cell = set_at_other c.cell e x r n in
          record {
            keyed = ap (λ y. y.key) cell ∙ entry.keyed;
            alive = entry.alive;
            real = entry.real;
            waits = λ p. kept_on n (entry.waits (sym (ap (λ y. y.pin) cell) ∙ p));
            alone = λ p. kept_off n (entry.alone (λ q. p (ap (λ y. y.pin) cell ∙ q)));
          }
    ]

    pub written_units : (r : Ptr) → (c.cell r).units ≡ (set_at c.cell e x r).units
    written_units r = elim (Bool-cases (e == r)) [
      | inl m ↦
          let i = (==_iff e r).0 m in
          subst (λ s. (c.cell s).units ≡ (set_at c.cell e x s).units) i
            (sym (ap (λ y. y.units) (set_at_same c.cell e x) ∙ same_units))
      | inr m ↦
          let n : e ≢ r = ground arith in sym (ap (λ y. y.units) (set_at_other c.cell e x r n))
    ]

    pub written_sized :
        (ds : List Ptr)
        → c.units
          ≡ (total (λ r. (c.cell r).units) c.table + sum_over (λ r. (c.cell r).units) ds) % 2 ^ 64
        → c.units
          ≡ (total (λ r. (set_at c.cell e x r).units) c.table
              + sum_over (λ r. (set_at c.cell e x r).units) ds)
            % 2 ^ 64
    written_sized ds h =
        let in_table = total-ext _ _ c.table written_units in
        let deferred =
          sum_over-same (λ r. (c.cell r).units) (λ r. (set_at c.cell e x r).units) ds
            (All-everywhere ds written_units) in
        h ∙ ap (λ n. n % 2 ^ 64) (omega (arith, in_table, deferred))

    -- The deferred elements, where their links stay.
    written_same :
        (ds : List Ptr)
        → NotIn e ds
        → All (λ d. (l.prev d ≡ c.links.prev d) × (l.next d ≡ c.links.next d)) ds
        → All (IsSame c (write_elem e x l u c)) ds
    written_same ds ne kept =
        All-both ds
          (λ d n (p, m). record {
            same_prev = p;
            same_next = m;
            same_cell = set_at_other c.cell e x d (λ i. n (sym i));
            same_freed = refl;
          })
          ne kept

    pub rewritten_same :
        (k : K) (es : List Ptr)
        → find k c.table ≡ some e
        → (c.cell e).pin ≢ 0
        → (l ≡ c.links)
        → (valid : IsValid c es) → All (IsSame c (write_elem e x l u c)) valid.late_elems
    rewritten_same k es f n i valid =
        written_same valid.late_elems
          (unlinked-NotIn c valid.late_elems valid.ring_of e valid.late
            ((valid.entries k e f).alone n))
          (All-everywhere valid.late_elems (λ d. rw i (refl, refl)))

    pub taken_off_same :
        (xs ys : List Ptr)
        → (l ≡ unlink e c.links)
        → (valid : IsValid c (xs ++ e ∷ ys))
        → All (IsSame c (write_elem e x l u c)) valid.late_elems
    taken_off_same xs ys i valid =
        written_same valid.late_elems
          (unpinned-NotIn c valid.late_elems valid.ring_of e valid.late
            (All-middle _ xs e ys valid.unpinned))
          (All-map valid.late_elems
            (λ d m. rw i (unlink_keeps c.links head xs e ys valid.nodes valid.ring d m))
            (late-apart c valid.late_elems valid.ring_of (xs ++ e ∷ ys) valid.late valid.unpinned))

    pub put_on_same :
        (k : K) (es : List Ptr)
        → find k c.table ≡ some e
        → (c.cell e).pin ≢ 0
        → (l ≡ link e head c.links)
        → (valid : IsValid c es) → All (IsSame c (write_elem e x l u c)) valid.late_elems
    put_on_same k es f n i valid =
        let entry = valid.entries k e f in
        let not_late =
          unlinked-NotIn c valid.late_elems valid.ring_of e valid.late (entry.alone n) in
        let distinct : IsDistinct (e ∷ head ∷ es) =
          (((λ h. entry.real.1 (sym h)), pinned-NotIn c e es n valid.unpinned), valid.nodes.1) in
        written_same valid.late_elems not_late (
          All-both {P = λ d. d ≢ e} valid.late_elems
            (λ d far m.
              rw i (link_keeps c.links e head es distinct valid.ring d ((λ j. far (sym j)), m)))
            not_late (late-apart c valid.late_elems valid.ring_of es valid.late valid.unpinned))

    -- The three writes leave the deferred elements alone.
    pub same-IsSteady :
        (es : List Ptr) (valid : IsValid c es)
        → All (IsSame c (write_elem e x l u c)) valid.late_elems
        → IsSteady c (write_elem e x l u c)
    same-IsSteady es valid h =
        IsSteady-frame c (write_elem e x l u c) valid.late_elems valid.ring_of valid.late refl h
