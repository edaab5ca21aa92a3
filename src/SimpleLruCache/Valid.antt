-- ===== src/SimpleLruCache/Valid.antt =====
-- The representation invariants that simple_lru_cache/simple_lru_cache_inl.h lists for its container,
-- in the LRU mode, and the steps that keep them.
use jwt_verify_lib.Prelude.{
  ◌+◌, ◌≤◌, ◌%◌, ◌^◌, ℕ, ◌≡◌, refl, ◌==◌, ==_iff, if◌then◌else◌, ◌≢◌, sym, ap, ◌∙◌, true, false,
  List, [], ◌∷◌, ◌++◌, inl, inr, some, All, Some, Bool-cases, length, arith,
}
use jwt_verify_lib.SimpleLruCache.Maps.{KeyEq, find, erase}
use jwt_verify_lib.SimpleLruCache.Links.{Ptr, null, set_at, unlink}
use jwt_verify_lib.SimpleLruCache.State.{Elem, Cache, head, discard}
use jwt_verify_lib.SimpleLruCache.Ring.{
  IsRing, IsDistinct, AreNodes, All-map, All-both, All-middle, All-without, IsDistinct-without,
}
use jwt_verify_lib.SimpleLruCache.Unlinking.{unlink-IsRing, unlink_stays, unlink_keeps}
use jwt_verify_lib.SimpleLruCache.Tables.{
  IsUnique, find-erase, find-erase_other, IsUnique-erase, length-erase, apart,
}
use jwt_verify_lib.SimpleLruCache.Late.{sum_over, IsSame, IsLate, IsLate-frame, late-apart}
use jwt_verify_lib.SimpleLruCache.Claims.{IsSteady, IsSteady-frame}
use jwt_verify_lib.SimpleLruCache.Words.{sub_64}
use jwt_verify_lib.SimpleLruCache.Sums.{total, total-erase, sub_64-total}
use jwt_verify_lib.SimpleLruCache.Eviction.{evict, IsListed, evict-IsListed}
use mathlib.Core.Option.{some-injective, none-ne-some}

pub set_at_same : {A : Type 0} (f : Ptr → A) (p : Ptr) (v : A) → set_at f p v p ≡ v
set_at_same f p v = let m : (p == p) ≡ true = (==_iff p p).1 refl in rw m refl

pub set_at_other :
    {A : Type 0} (f : Ptr → A) (p : Ptr) (v : A) (q : Ptr) → p ≢ q → set_at f p v q ≡ f q
set_at_other f p v q n = let m : (p == q) ≡ false = ground arith in rw m refl

pub Some-without :
    {A : Type 0} (P : A → Type 0) (xs : List A) (e : A) (ys : List A)
    → ¬ P e
    → Some P (xs ++ e ∷ ys)
    → Some P (xs ++ ys)
Some-without P [] e ys n (inl h) = absurd (n h)
Some-without P [] e ys n (inr h) = h
Some-without P (x ∷ xs) e ys n (inl h) = inl h
Some-without P (x ∷ xs) e ys n (inr h) = inr (Some-without P xs e ys n h)

module _ {K : Type 0} ⦃eq : KeyEq K⦄ where
  open eq use {is_equal, is_equal_iff}

  -- The element that the table has for a key: it is alive, and it is on the list where it has no
  -- pins, and unlinked where it has some.
  pub record IsEntry (c : Cache K) (es : List Ptr) (k : K) (e : Ptr) : Type 0 where
    pub keyed : (c.cell e).key ≡ k
    pub alive : c.freed e ≡ false
    pub real : (e ≢ null) × (e ≢ head)
    pub waits : (c.cell e).pin ≡ 0 → Some (λ q. q ≡ e) es
    pub alone : (c.cell e).pin ≢ 0 → c.links.next e ≡ null

  -- What an element counts for in the pinned size.
  abbrev pub pinned_of : Elem K → ℕ
  pinned_of x = if x.pin == 0 then 0 else x.units

  -- The list is circular; it has elements of the table without pins; the table has one element
  -- for a key at most; the deferred elements are on lists of their own; the size is the sum of the
  -- units of the elements of the table and the deferred ones, and the pinned size that of the
  -- elements of the table with pins.
  pub record IsValid (c : Cache K) (es : List Ptr) : Type 0 where
    pub in_lru_mode : c.lru ≡ true
    pub ring : IsRing c.links head es
    pub nodes : AreNodes (head ∷ es)
    pub listed : IsListed c es
    pub unpinned : All (λ e. (c.cell e).pin ≡ 0) es
    pub entries : (k : K) (e : Ptr) → find k c.table ≡ some e → IsEntry c es k e
    pub unique : IsUnique c.table
    pub late_elems : List Ptr
    pub ring_of : K → List Ptr
    pub late : IsLate c late_elems ring_of
    pub few : length c.table + length late_elems ≤ c.allocated
    pub sized :
        c.units
        ≡ (total (λ e. (c.cell e).units) c.table + sum_over (λ e. (c.cell e).units) late_elems)
          % 2 ^ 64
    pub pinned : c.pinned_units ≡ total (λ e. pinned_of (c.cell e)) c.table % 2 ^ 64

  -- The table has an element with pins for the key, and its value is this.
  abbrev pub IsHeld : Cache K → K → Ptr → Type 0
  IsHeld c k v =
      (e : Ptr) × (find k c.table ≡ some e) × ((c.cell e).value ≡ v) × ((c.cell e).pin ≢ 0)

  -- The list is not longer than the table.
  length-listed :
      (m : List (K × Ptr)) (key_of : Ptr → K) (es : List Ptr)
      → IsDistinct es
      → All (λ e. find (key_of e) m ≡ some e) es
      → length es ≤ length m
  length-listed m key_of [] d listed = omega arith
  length-listed m key_of (e ∷ es) (ne, d) (f, listed) =
      let rest = length-listed (erase (key_of e) m) key_of es d (
        All-both es
          (λ r n g.
            find-erase_other (key_of e) (key_of r) m
              (λ q. n (some-injective _ _ (sym g ∙ ap (λ k. find k m) (sym q) ∙ f)))
            ∙ g)
          ne listed) in
      omega (arith, rest, length-erase (key_of e) e m f)

  pub enough_fuel : (c : Cache K) (es : List Ptr) → IsValid c es → length es ≤ c.allocated
  enough_fuel c es valid =
      let short = length-listed c.table (λ e. (c.cell e).key) es valid.nodes.1.1 valid.listed in
      omega (arith, short, valid.few)

  -- An eviction with the pointers.
  abbrev pub drop_elem : Ptr → Cache K → Cache K
  drop_elem e c = record (evict e c) { links = unlink e c.links }

  -- It leaves the deferred elements alone.
  drop_elem_same :
      (c : Cache K) (xs : List Ptr) (e : Ptr) (ys : List Ptr)
      → (valid : IsValid c (xs ++ e ∷ ys)) → All (IsSame c (drop_elem e c)) valid.late_elems
  unfolding evict discard
  drop_elem_same c xs e ys valid =
      All-map valid.late_elems
        (λ d n.
          let (p, m) = unlink_keeps c.links head xs e ys valid.nodes valid.ring d n in
          let here = All-middle _ xs e ys n.1 in
          record {
            same_prev = p;
            same_next = m;
            same_cell = refl;
            same_freed = set_at_other c.freed e true d here;
          })
        (late-apart c valid.late_elems valid.ring_of (xs ++ e ∷ ys) valid.late valid.unpinned)

  pub drop_elem-IsSteady :
      (c : Cache K) (xs : List Ptr) (e : Ptr) (ys : List Ptr)
      → IsValid c (xs ++ e ∷ ys)
      → IsSteady c (drop_elem e c)
  unfolding evict discard
  drop_elem-IsSteady c xs e ys valid =
      IsSteady-frame c (drop_elem e c) valid.late_elems valid.ring_of valid.late refl
        (drop_elem_same c xs e ys valid)

  -- An eviction of an element of the list keeps the invariants.
  pub drop_elem-IsValid :
      (c : Cache K) (xs : List Ptr) (e : Ptr) (ys : List Ptr)
      → IsValid c (xs ++ e ∷ ys)
      → IsValid (drop_elem e c) (xs ++ ys)
  unfolding evict discard
  drop_elem-IsValid c xs e ys valid =
      let (d, ne) = IsDistinct-without (head ∷ xs) e ys valid.nodes.1 in
      let f = All-middle _ xs e ys valid.listed in
      let k = (c.cell e).key in
      let p = (==_iff (c.cell e).pin 0).1 (All-middle _ xs e ys valid.unpinned) in
      let loose : pinned_of (c.cell e) ≡ 0 = rw p refl in
      record {
        in_lru_mode = valid.in_lru_mode;
        ring = (unlink-IsRing c.links head xs e ys valid.nodes valid.ring).0;
        nodes = (All-without _ (head ∷ xs) e ys valid.nodes.0, d);
        listed = evict-IsListed e (xs ++ ys) c f ne.1 (All-without _ xs e ys valid.listed);
        unpinned = All-without _ xs e ys valid.unpinned;
        entries = kept_entry;
        unique = IsUnique-erase k c.table valid.unique;
        late_elems = valid.late_elems;
        ring_of = valid.ring_of;
        late =
            IsLate-frame c (drop_elem e c) valid.late_elems valid.ring_of refl
              (drop_elem_same c xs e ys valid) valid.late;
        few = omega (arith, valid.few, length-erase k e c.table f);
        sized =
            let late_units = sum_over (λ r. (c.cell r).units) valid.late_elems in
            ap (λ n. sub_64 n (c.cell e).units)
              (valid.sized
                ∙ ap (λ n. n % 2 ^ 64)
                    (omega (arith, total-erase (λ r. (c.cell r).units) k e c.table f)))
            ∙ sub_64-total (c.cell e).units
                (total (λ r. (c.cell r).units) (erase k c.table) + late_units);
        pinned =
            valid.pinned
            ∙ ap (λ n. n % 2 ^ 64)
                (omega (arith, total-erase (λ r. pinned_of (c.cell r)) k e c.table f, loose));
      }
    where
      kept_entry :
          (k' : K) (r : Ptr)
          → find k' (erase (c.cell e).key c.table) ≡ some r
          → IsEntry (drop_elem e c) (xs ++ ys) k' r
      kept_entry k' r g = elim (Bool-cases (is_equal (c.cell e).key k')) [
        | inl q ↦
            let h = find-erase (c.cell e).key c.table valid.unique in
            let i = (is_equal_iff (c.cell e).key k').0 q in
            absurd (none-ne-some r (sym h ∙ ap (λ j. find j (erase (c.cell e).key c.table)) i ∙ g))
        | inr q ↦
            let far : (c.cell e).key ≢ k' = λ i. apart (c.cell e).key k' q (sym i) in
            let entry =
              valid.entries k' r (sym (find-erase_other (c.cell e).key k' c.table far) ∙ g) in
            let other : e ≢ r = λ i. far (ap (λ p. (c.cell p).key) i ∙ entry.keyed) in
            record {
              keyed = entry.keyed;
              alive = let a = entry.alive in ground arith;
              real = entry.real;
              waits = λ p. Some-without _ xs e ys other (entry.waits p);
              alone =
                  λ p. unlink_stays c.links head xs e ys valid.nodes valid.ring r (entry.alone p);
            }
      ]

  -- And it leaves what is held.
  pub drop_elem-IsHeld :
      (c : Cache K) (xs : List Ptr) (e : Ptr) (ys : List Ptr) (k : K) (v : Ptr)
      → IsValid c (xs ++ e ∷ ys)
      → IsHeld c k v
      → IsHeld (drop_elem e c) k v
  unfolding evict discard
  drop_elem-IsHeld c xs e ys k v valid (r, f, w, n) =
      let far : (c.cell e).key ≢ k = λ i.
        let g = All-middle _ xs e ys valid.listed in
        let same = some-injective _ _ (sym g ∙ ap (λ j. find j c.table) i ∙ f) in
        n (ap (λ p. (c.cell p).pin) (sym same) ∙ All-middle _ xs e ys valid.unpinned) in
      (r, find-erase_other (c.cell e).key k c.table far ∙ f, w, n)
