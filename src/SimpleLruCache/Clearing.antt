-- ===== src/SimpleLruCache/Clearing.antt =====
-- `removeAll` and `clear` of simple_lru_cache/simple_lru_cache_inl.h, on a cache with the
-- representation invariants.
use jwt_verify_lib.Prelude.{
  ◌≡◌, refl, sym, ap, ◌∙◌, subst, true, List, [], ◌∷◌, ◌++◌, ◌==◌, inl, inr, some, if◌then◌else◌,
  Bool-cases, Option-cases, map, arith,
}
use jwt_verify_lib.SimpleLruCache.{
  KeyEq, find, erase, Ptr, set_at, Cache, head, discard, put_off, remove_elem, remove, remove_elems,
  remove_all, discard_elems, clear,
}
use jwt_verify_lib.SimpleLruCache.Ring.{AreNodes, append_nil, append_snoc}
use jwt_verify_lib.SimpleLruCache.Tables.{IsUnique, is_equal_refl}
use jwt_verify_lib.SimpleLruCache.Claims.{IsDeferred}
use jwt_verify_lib.SimpleLruCache.Valid.{IsValid, set_at_same}
use jwt_verify_lib.SimpleLruCache.Deferring.{IsClaimed}
use jwt_verify_lib.SimpleLruCache.Removing.{remove-Removes}
use mathlib.Core.Option.{some-injective, none-ne-some}

module _ {K : Type 0} ⦃eq : KeyEq K⦄ where
  open eq use {is_equal}

  -- The removal of an element does not read the table.
  put_off-table :
      (e : Ptr) (t : List (K × Ptr)) (c : Cache K)
      → put_off e (record c { table = t }) ≡ record (put_off e c) { table = t }
  unfolding put_off
  put_off-table e t c = elim (Option-cases (find (c.cell e).key c.defer)) [
    | inl f ↦ rw (put_off, f) refl
    | inr (first, f) ↦ rw (put_off, f) refl
  ]

  remove_elem-table :
      (e : Ptr) (t : List (K × Ptr)) (c : Cache K)
      → remove_elem e (record c { table = t }) ≡ record (remove_elem e c) { table = t }
  unfolding remove_elem discard
  remove_elem-table e t c = elim (Bool-cases ((c.cell e).pin == 0)) [
    | inl p ↦ rw p refl
    | inr p ↦ rw p (put_off-table e t _)
  ]

  remove_elems-table :
      (m t : List (K × Ptr)) (c : Cache K)
      → remove_elems m (record c { table = t }) ≡ record (remove_elems m c) { table = t }
  unfolding remove_elems
  remove_elems-table [] t c = refl
  remove_elems-table ((k, e) ∷ m) t c =
      ap (remove_elems m) (remove_elem-table e t c) ∙ remove_elems-table m t (remove_elem e c)

  -- The state of a cache with an empty table, in which every claim is left.
  abbrev pub Empties : Cache K → Cache K → Type 0
  Empties c c' =
      IsValid c' [] × (c'.table ≡ []) × ((k : K) (v : Ptr) → IsClaimed c k v → IsClaimed c' k v)

  -- A cache with an empty table has an empty list.
  empty_list : (c : Cache K) (es : List Ptr) → c.table ≡ [] → IsValid c es → IsValid c []
  unfolding find
  empty_list c [] h valid = valid
  empty_list c (e ∷ es) h valid =
      absurd (none-ne-some e (sym (ap (find (c.cell e).key) h) ∙ valid.listed.0))

  find-first :
      (t m : List (K × Ptr)) (k : K) (e : Ptr)
      → t ≡ (k, e) ∷ m
      → (find k t ≡ some e) × (erase k t ≡ m)
  unfolding find erase
  find-first t m k e h = rw (h, is_equal_refl k) (refl, refl)

  remove-found :
      (k : K) (e : Ptr) (c : Cache K)
      → find k c.table ≡ some e
      → remove k c ≡ remove_elem e (record c { table = erase k c.table })
  unfolding remove
  remove-found k e c f = rw (remove, f) refl

  remove_first :
      (c : Cache K) (k : K) (e : Ptr) (m : List (K × Ptr))
      → c.table ≡ (k, e) ∷ m
      → remove k c ≡ record (remove_elem e c) { table = m }
  remove_first c k e m h =
      let (f, r) = find-first c.table m k e h in
      remove-found k e c f
      ∙ ap {A = List (K × Ptr)} (λ t. remove_elem e (record c { table = t })) r
      ∙ remove_elem-table e m c

  remove_elems-Empties :
      (m : List (K × Ptr)) (c : Cache K) (es : List Ptr)
      → c.table ≡ m
      → IsValid c es
      → Empties c (record (remove_elems m c) { table = [] })
  unfolding remove_elems
  remove_elems-Empties [] c es h valid =
      let same : c ≡ record c { table = [] } =
        ap {A = List (K × Ptr)} (λ t. record c { table = t }) h in
      subst (Empties c) same (empty_list c es h valid, h, (λ k v claim. claim))
  remove_elems-Empties ((k, e) ∷ m) c es h valid =
      let (es₁, removes) = remove-Removes c es k valid in
      let step = remove_first c k e m h in
      let (valid', empty, kept) =
        remove_elems-Empties m (remove k c) es₁ (ap (λ d. d.table) step) removes.valid in
      let same =
        ap {A = Cache K} (λ d. record d { table = [] })
          (ap (remove_elems m) step ∙ remove_elems-table m m (remove_elem e c)) in
      subst (Empties c) same (valid', empty, (λ j v claim. kept j v (removes.claims j v claim)))

  -- On a cache with the representation invariants, `removeAll` keeps them and leaves an empty table and
  -- an empty list; what a client had to release it has still.
  pub remove_all-Empties : (c : Cache K) (es : List Ptr) → IsValid c es → Empties c (remove_all c)
  unfolding remove_all
  remove_all-Empties c es valid = remove_elems-Empties c.table c es refl valid

  -- What `discard` of all elements leaves.
  discard_elems-fields :
      (m : List (K × Ptr)) (c : Cache K)
      → ((discard_elems m c).lru ≡ c.lru)
        × ((discard_elems m c).defer ≡ c.defer)
        × ((discard_elems m c).removed ≡ c.removed ++ map (λ (k, e). (c.cell e).value) m)
  unfolding discard_elems discard
  discard_elems-fields [] c = (refl, refl, sym (append_nil c.removed))
  discard_elems-fields ((k, e) ∷ m) c =
      let (l, d, r) = discard_elems-fields m (discard e c) in
      (l, d, r ∙ append_snoc c.removed (c.cell e).value (map (λ (k, e). (c.cell e).value) m))

  stays_freed :
      (m : List (K × Ptr)) (c : Cache K) (r : Ptr)
      → c.freed r ≡ true
      → (discard_elems m c).freed r ≡ true
  unfolding discard_elems discard
  stays_freed [] c r h = h
  stays_freed ((k, e) ∷ m) c r h =
      stays_freed m (discard e c) r
        (elim (Bool-cases (e == r)) [ inl q ↦ rw q refl | inr q ↦ rw q h ])

  discard_elems-frees :
      (m : List (K × Ptr)) (c : Cache K) (k : K) (r : Ptr)
      → find k m ≡ some r
      → (discard_elems m c).freed r ≡ true
  unfolding discard_elems discard find
  discard_elems-frees [] c k r f = absurd (none-ne-some r f)
  discard_elems-frees ((j, e) ∷ m) c k r f = elim (Bool-cases (is_equal j k)) [
    | inl q ↦
        let same =
          some-injective _ _ (subst (λ b. (if b then some e else find k m) ≡ some r) q f) in
        stays_freed m (discard e c) r
          (subst (λ s. set_at c.freed e true s ≡ true) same (set_at_same c.freed e true))
    | inr q ↦
        discard_elems-frees m (discard e c) k r
          (subst (λ b. (if b then some e else find k m) ≡ some r) q f)
  ]

  -- A client that has nothing to release.
  abbrev pub IsUnclaimed : Cache K → Type 0
  IsUnclaimed c = (k : K) (v : Ptr) → ¬ IsClaimed c k v

  unclaimed_defer :
      (m : List (K × Ptr)) (c : Cache K) (es : List Ptr)
      → c.defer ≡ m
      → IsValid c es
      → IsUnclaimed c
      → c.defer ≡ []
  unclaimed_defer [] c es h valid unclaimed = h
  unclaimed_defer ((k, first) ∷ m) c es h valid unclaimed =
      let (f, _) = find-first c.defer m k first h in
      let group = valid.late.groups k first f in
      let d : IsDeferred c k first = record {
        first = first;
        ms = valid.ring_of k;
        found = f;
        ring = group.ring;
        once = group.nodes.1.0;
        within = inl refl;
      } in
      absurd (unclaimed k (c.cell first).value (inr (first, d, refl)))

  -- On a cache with the representation invariants, of which a client has nothing to release, there are
  -- no deferred elements, as an assertion says, and `clear` keeps the invariants: both tables and the
  -- list are empty, all values of the table are given away, in its order, and its elements are freed.
  pub clear-IsValid :
      (c : Cache K) (es : List Ptr)
      → IsValid c es
      → IsUnclaimed c
      → IsValid (clear c) []
        × ((clear c).table ≡ [])
        × ((clear c).defer ≡ [])
        × ((clear c).removed ≡ c.removed ++ map (λ (k, e). (c.cell e).value) c.table)
        × ((k : K) (e : Ptr) → find k c.table ≡ some e → (clear c).freed e ≡ true)
  unfolding clear find
  clear-IsValid c es valid unclaimed =
      let (mode, defer, given) = discard_elems-fields c.table c in
      let none_deferred = defer ∙ unclaimed_defer c.defer c es refl valid unclaimed in
      (
        record {
          in_lru_mode = mode ∙ valid.in_lru_mode;
          ring = (refl, refl);
          nodes = valid_head;
          listed = tt;
          unpinned = tt;
          entries = λ k e f. absurd (none-ne-some e f);
          unique = tt;
          late_elems = [];
          ring_of = λ k. [];
          late = record {
            groups = λ k first f. absurd (none-ne-some first (sym (ap (find k) none_deferred) ∙ f));
            members = tt;
            distinct = tt;
            unique = subst IsUnique (sym none_deferred) tt;
          };
          few = omega arith;
          sized = refl;
          pinned = refl;
        },
        refl,
        none_deferred,
        given,
        (λ k e f. discard_elems-frees c.table c k e f),
      )
    where
      valid_head : AreNodes (head ∷ [])
      valid_head = ((valid.nodes.0.0, tt), (tt, tt))
