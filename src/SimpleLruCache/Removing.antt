-- ===== src/SimpleLruCache/Removing.antt =====
-- `remove` of simple_lru_cache/simple_lru_cache_inl.h of any key, on a cache with the representation
-- invariants.
use jwt_verify_lib.Prelude.{
  ◌≡◌, ◌≢◌, refl, sym, subst, true, false, List, ◌∷◌, ◌++◌, ◌==◌, ==_iff, inl, inr, none, some,
  Bool-cases, Option-cases, arith,
}
use jwt_verify_lib.SimpleLruCache.{
  KeyEq, find, assign, Ptr, null, link, unlink, is_linked, Cache, put_off, remove_elem, remove,
}
use jwt_verify_lib.SimpleLruCache.Valid.{IsValid}
use jwt_verify_lib.SimpleLruCache.Deferring.{put_aside, unlinked, IsClaimed, Removes}
use jwt_verify_lib.SimpleLruCache.Parting.{alone_links, alone-Removes}
use jwt_verify_lib.SimpleLruCache.Joining.{joined-Removes}
use jwt_verify_lib.SimpleLruCache.{discard}
use jwt_verify_lib.SimpleLruCache.Ring.{All-without}
use jwt_verify_lib.SimpleLruCache.Tables.{find-erase_back}
use jwt_verify_lib.SimpleLruCache.Valid.{drop_elem-IsHeld, drop_elem-IsSteady}
use jwt_verify_lib.SimpleLruCache.Dropping.{remove_listed}
use jwt_verify_lib.SimpleLruCache.Keeping.{Keeps}
use jwt_verify_lib.SimpleLruCache.Late.{split_at}
use jwt_verify_lib.SimpleLruCache.Eviction.{evict}

module _ {K : Type 0} ⦃eq : KeyEq K⦄ where
  module _ (c : Cache K) (es : List Ptr) (e : Ptr) (f : find (c.cell e).key c.table ≡ some e)
      (n : (c.cell e).pin ≢ 0) (valid : IsValid c es) where
    unlink-unlinked : unlink e c.links ≡ c.links
    unfolding unlink is_linked
    unlink-unlinked =
        let z = unlinked c es e f n valid in
        let m : (c.links.next e == null) ≡ true = ground arith in rw m refl

    remove-alone :
        find (c.cell e).key c.defer ≡ none
        → remove (c.cell e).key c
          ≡ put_aside c es e f n valid
              (alone_links c es e f n valid)
              (assign (c.cell e).key e c.defer)
    unfolding remove remove_elem put_off
    remove-alone g =
        let m : ((c.cell e).pin == 0) ≡ false = ground arith in
        rw (remove, f, remove_elem, m, put_off, g, unlink-unlinked) refl

    remove-joined :
        (first : Ptr)
        → find (c.cell e).key c.defer ≡ some first
        → remove (c.cell e).key c ≡ put_aside c es e f n valid (link e first c.links) c.defer
    unfolding remove remove_elem put_off
    remove-joined first g =
        let m : ((c.cell e).pin == 0) ≡ false = ground arith in
        rw (remove, f, remove_elem, m, put_off, g, unlink-unlinked) refl

    -- The removal of an element with pins.
    remove_pinned-Removes : Removes c es (c.cell e).key (remove (c.cell e).key c) es
    remove_pinned-Removes = elim (Option-cases (find (c.cell e).key c.defer)) [
      | inl g ↦ rw (remove-alone g) (alone-Removes c es e f n valid g)
      | inr (first, g) ↦ rw (remove-joined first g) (joined-Removes c es e f n valid first g)
    ]

  pub remove-missing : (c : Cache K) (k : K) → find k c.table ≡ none → remove k c ≡ c
  unfolding remove
  remove-missing c k f = rw (remove, f) refl

  pub remove_unpinned-Removes :
      (c : Cache K) (xs : List Ptr) (e : Ptr) (ys : List Ptr) (k : K)
      → IsValid c (xs ++ e ∷ ys)
      → find k c.table ≡ some e
      → Removes c (xs ++ e ∷ ys) k (remove k c) (xs ++ ys)
  unfolding evict discard
  remove_unpinned-Removes c xs e ys k valid f =
      let (q, valid', gone, _) = remove_listed c xs e ys k valid f in
      let steady = drop_elem-IsSteady c xs e ys valid in
      rw q (record {
        valid = valid';
        claims = λ j v claim. elim claim [
          | inl held ↦ inl (drop_elem-IsHeld c xs e ys j v valid held)
          | inr off ↦ inr (steady.still j v off)
        ];
        gone = gone;
        free = λ p free. record {
          real = free.real;
          not_on_list = All-without _ xs e ys free.not_on_list;
          not_in_table = λ j r g.
              free.not_in_table j r (find-erase_back (c.cell e).key j r c.table valid.unique g);
          not_deferred = λ j r d. free.not_deferred j r (steady.not_new j r d);
        };
      })

  -- On a cache with the representation invariants, `remove` of any key keeps them: the table has no
  -- element for the key, and what a client had to release, in the table or deferred, it has still; an
  -- address without an element stays so.
  pub remove-Removes :
      (c : Cache K) (es : List Ptr) (k : K)
      → IsValid c es
      → (es' : List Ptr) × Removes c es k (remove k c) es'
  remove-Removes c es k valid = elim (Option-cases (find k c.table)) [
    | inl f ↦
        rw (remove-missing c k f) (
          es,
          record { valid = valid; claims = λ j v claim. claim; gone = f; free = λ p free. free },
        )
    | inr (e, f) ↦
        let entry = valid.entries k e f in
        elim (Bool-cases ((c.cell e).pin == 0)) [
          | inl p ↦
              let (xs, ys, parts) = split_at e es (entry.waits ((==_iff (c.cell e).pin 0).0 p)) in
              (
                xs ++ ys,
                subst (λ s. Removes c s k (remove k c) (xs ++ ys)) (sym parts)
                    (remove_unpinned-Removes c xs e ys k (subst (IsValid c) parts valid) f),
              )
          | inr p ↦
              let n : (c.cell e).pin ≢ 0 = ground arith in
              let here = subst (λ j. find j c.table ≡ some e) (sym entry.keyed) f in
              (
                es,
                subst (λ j. Removes c es j (remove j c) es) entry.keyed
                    (remove_pinned-Removes c es e here n valid),
              )
        ]
  ]

  -- A step that keeps what is held, and leaves the deferred elements, keeps the claims.
  pub Keeps-IsClaimed :
      (c c' : Cache K) (es' : List Ptr)
      → Keeps c c' es'
      → (k : K) (v : Ptr) → IsClaimed c k v
      → IsClaimed c' k v
  Keeps-IsClaimed c c' es' (valid, kept, steady) k v (inl held) = inl (kept k v held)
  Keeps-IsClaimed c c' es' (valid, kept, steady) k v (inr off) = inr (steady.still k v off)
