-- ===== src/SimpleLruCache/Deferring.antt =====
-- `remove` of simple_lru_cache/simple_lru_cache_inl.h of an element with pins, on a cache with the
-- representation invariants: the element is deferred.
use jwt_verify_lib.Prelude.{
  ◌+◌, ◌≡◌, ◌≢◌, refl, sym, ap, ◌∙◌, subst, List, ◌∷◌, inl, inr, none, some, ◌⊎◌, ◌%◌, ◌^◌, All,
  Bool-cases, arith,
}
use jwt_verify_lib.SimpleLruCache.{KeyEq, find, erase, Ptr, null, Cache, head, sub_64}
use jwt_verify_lib.SimpleLruCache.Links.{Links}
use jwt_verify_lib.SimpleLruCache.Ring.{IsRing, NotIn, All-map, All-both}
use jwt_verify_lib.SimpleLruCache.Tables.{
  find-erase, find-erase_other, find-erase_back, IsUnique-erase, length-erase, apart,
}
use jwt_verify_lib.SimpleLruCache.Sums.{total, total-erase, sub_64-total}
use jwt_verify_lib.SimpleLruCache.Late.{IsIn, All-at, IsLate, unlinked-NotIn, unpinned-NotIn}
use jwt_verify_lib.SimpleLruCache.Claims.{
  IsDeferred, IsPutOff, IsFree, IsDeferred-known, late-IsDeferred, IsDeferred-kept,
}
use jwt_verify_lib.SimpleLruCache.Valid.{pinned_of, IsValid, IsHeld}
use jwt_verify_lib.SimpleLruCache.Writing.{pinned-NotIn}
use jwt_verify_lib.SimpleLruCache.Counting.{pinned_of-units}
use mathlib.Core.Option.{some-injective, none-ne-some}

pub NotIn-within : (r : Ptr) (xs ds : List Ptr) → All (λ q. IsIn q ds) xs → NotIn r ds → NotIn r xs
NotIn-within r xs ds known h = All-map xs (λ q i. All-at (λ s. s ≢ r) ds q h i) known

module _ {K : Type 0} ⦃eq : KeyEq K⦄ where
  open eq use {is_equal, is_equal_iff}

  -- The list has no deferred element.
  pub list_apart :
      (c : Cache K) (es : List Ptr)
      → (valid : IsValid c es) → All (λ r. NotIn r valid.late_elems) (head ∷ es)
  list_apart c es valid = (
    All-map valid.late_elems (λ d m. m.real.1) valid.late.members,
    All-map es (λ r p. unpinned-NotIn c valid.late_elems valid.ring_of r valid.late p)
        valid.unpinned,
  )

  -- What a client has to release: an element of the table has pins for the value, or a deferred one.
  abbrev pub IsClaimed : Cache K → K → Ptr → Type 0
  IsClaimed c k v = IsHeld c k v ⊎ IsPutOff c k v

  -- The state without an element for the key in the table: the invariants hold, every claim is left,
  -- and addresses that were free are.
  pub record Removes (c : Cache K) (es : List Ptr) (k : K) (c' : Cache K) (es' : List Ptr)
      : Type 0 where
    pub valid : IsValid c' es'
    pub claims : (j : K) (v : Ptr) → IsClaimed c j v → IsClaimed c' j v
    pub gone : find k c'.table ≡ none
    pub free : (p : Ptr) → IsFree c es p → IsFree c' es' p

  module _ (c : Cache K) (es : List Ptr) (e : Ptr) (f : find (c.cell e).key c.table ≡ some e)
      (n : (c.cell e).pin ≢ 0) (valid : IsValid c es) where
    -- The element leaves the table, with new links and a new table of the deferred ones.
    abbrev pub put_aside : Links → List (K × Ptr) → Cache K
    put_aside l defer = record c {
      table = erase (c.cell e).key c.table;
      pinned_units = sub_64 c.pinned_units (c.cell e).units;
      links = l;
      defer = defer;
    }

    pub unlinked : c.links.next e ≡ null
    unlinked = (valid.entries (c.cell e).key e f).alone n

    pub not_listed : NotIn e (head ∷ es)
    not_listed = (
      (λ i. (valid.entries (c.cell e).key e f).real.1 (sym i)),
      pinned-NotIn c e es n valid.unpinned,
    )

    pub not_late : NotIn e valid.late_elems
    not_late = unlinked-NotIn c valid.late_elems valid.ring_of e valid.late unlinked

    -- An element of the table that stays in it.
    other_elem :
        (k : K) (r : Ptr)
        → find k (erase (c.cell e).key c.table) ≡ some r
        → (find k c.table ≡ some r) × (e ≢ r)
    other_elem k r g =
        let back = find-erase_back (c.cell e).key k r c.table valid.unique g in
        (
          back,
          (λ i.
              let key = ap (λ s. (c.cell s).key) i ∙ (valid.entries k r back).keyed in
              let gone = find-erase (c.cell e).key c.table valid.unique in
              none-ne-some r (sym gone ∙ ap (λ j. find j (erase (c.cell e).key c.table)) key ∙ g)),
        )

    aside-IsValid :
        (l : Links) (defer : List (K × Ptr)) (ring_of : K → List Ptr)
        → IsRing l head es
        → ((r : Ptr) → e ≢ r → c.links.next r ≡ null → l.next r ≡ null)
        → IsLate (put_aside l defer) (e ∷ valid.late_elems) ring_of
        → IsValid (put_aside l defer) es
    aside-IsValid l defer ring_of ring stays late =
        let k = (c.cell e).key in
        let units_of = λ (r : Ptr). (c.cell r).units in
        let pinned = λ (r : Ptr). pinned_of (c.cell r) in
        record {
          in_lru_mode = valid.in_lru_mode;
          ring = ring;
          nodes = valid.nodes;
          listed =
              All-both {P = λ r. r ≢ e} es
                (λ r far g.
                  find-erase_other k (c.cell r).key c.table
                    (λ q. far (some-injective _ _ (sym g ∙ ap (λ j. find j c.table) (sym q) ∙ f)))
                  ∙ g)
                not_listed.1 valid.listed;
          unpinned = valid.unpinned;
          entries = λ j r g.
              let (back, far) = other_elem j r g in
              let entry = valid.entries j r back in
              record {
                keyed = entry.keyed;
                alive = entry.alive;
                real = entry.real;
                waits = entry.waits;
                alone = λ p. stays r far (entry.alone p);
              };
          unique = IsUnique-erase k c.table valid.unique;
          late_elems = e ∷ valid.late_elems;
          ring_of = ring_of;
          late = late;
          few = omega (arith, valid.few, length-erase k e c.table f);
          sized =
              valid.sized
              ∙ ap (λ m. m % 2 ^ 64) (omega (arith, total-erase units_of k e c.table f));
          pinned =
              ap (λ m. sub_64 m (c.cell e).units)
                (valid.pinned
                  ∙ ap (λ m. m % 2 ^ 64)
                      (total-erase pinned k e c.table f
                        ∙ ap (λ m. m + total pinned (erase k c.table))
                            (pinned_of-units (c.cell e) n)))
              ∙ sub_64-total (c.cell e).units (total pinned (erase k c.table));
        }

    module _ (l : Links) (defer : List (K × Ptr)) (ring_of : K → List Ptr)
        (late : IsLate (put_aside l defer) (e ∷ valid.late_elems) ring_of) where
      aside-IsPutOff : (j : K) (v : Ptr) → IsPutOff c j v → IsPutOff (put_aside l defer) j v
      aside-IsPutOff j v (r, d, w) = (
        r,
        IsDeferred-kept c (put_aside l defer) valid.late_elems (e ∷ valid.late_elems) valid.ring_of
            ring_of valid.late late (λ s h. (inr h, refl)) j r d,
        w,
      )

      aside-IsClaimed : (j : K) (v : Ptr) → IsHeld c j v → IsClaimed (put_aside l defer) j v
      aside-IsClaimed j v (r, g, w, m) = elim (Bool-cases (is_equal (c.cell e).key j)) [
        | inl q ↦
            let i = (is_equal_iff (c.cell e).key j).0 q in
            let same = some-injective _ _ (sym f ∙ ap (λ s. find s c.table) i ∙ g) in
            let deferred =
              late-IsDeferred (put_aside l defer) (e ∷ valid.late_elems) ring_of e late
                (inl refl) in
            inr (
              e,
              subst (λ s. IsDeferred (put_aside l defer) s e) i deferred,
              ap (λ s. (c.cell s).value) same ∙ w,
            )
        | inr q ↦
            let far : (c.cell e).key ≢ j = λ i. apart (c.cell e).key j q (sym i) in
            inl (r, find-erase_other (c.cell e).key j c.table far ∙ g, w, m)
      ]

      aside-IsFree : (p : Ptr) → IsFree c es p → IsFree (put_aside l defer) es p
      aside-IsFree p free = record {
        real = free.real;
        not_on_list = free.not_on_list;
        not_in_table = λ j r g. free.not_in_table j r (other_elem j r g).0;
        not_deferred = λ j r d.
            elim (IsDeferred-known (put_aside l defer) (e ∷ valid.late_elems) ring_of j r late
              d).0 [
                | inl i ↦ λ h. free.not_in_table (c.cell e).key e f (h ∙ sym i)
                | inr i ↦
                    free.not_deferred (c.cell r).key r
                      (late-IsDeferred c valid.late_elems valid.ring_of r valid.late i)
              ];
      }

      -- The element leaves the table, and is deferred.
      pub aside-Removes :
          IsRing l head es
          → ((r : Ptr) → e ≢ r → c.links.next r ≡ null → l.next r ≡ null)
          → Removes c es (c.cell e).key (put_aside l defer) es
      aside-Removes ring stays = record {
        valid = aside-IsValid l defer ring_of ring stays late;
        claims = λ j v claim. elim claim [
          | inl held ↦ aside-IsClaimed j v held
          | inr off ↦ inr (aside-IsPutOff j v off)
        ];
        gone = find-erase (c.cell e).key c.table valid.unique;
        free = aside-IsFree;
      }
