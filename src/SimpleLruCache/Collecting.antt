-- ===== src/SimpleLruCache/Collecting.antt =====
-- `garbageCollect` (simple_lru_cache/simple_lru_cache_inl.h) against its description on the list of
-- the elements.
use jwt_verify_lib.Prelude.{
  ℕ, zero, suc, ◌≤◌, ◌≡◌, ◌≢◌, refl, sym, ap, ◌∙◌, subst, true, false, List, [], ◌∷◌, ◌++◌, ◌==◌,
  ==_iff, ◌⊎◌, inl, inr, some, All, Bool-cases, length, arith,
}
use jwt_verify_lib.SimpleLruCache.Maps.{KeyEq, find}
use jwt_verify_lib.SimpleLruCache.Links.{Ptr, unlink}
use jwt_verify_lib.SimpleLruCache.State.{Cache, head, is_overfull_internal, discard}
use jwt_verify_lib.SimpleLruCache.Loops.{collect_elem, collect_loop, garbage_collect}
use jwt_verify_lib.SimpleLruCache.Ring.{
  IsRing, AreNodes, All-middle, All-without, append_snoc, Linked-right, IsDistinct-right,
  IsDistinct-without,
}
use jwt_verify_lib.SimpleLruCache.Unlinking.{unlink-IsRing}
use jwt_verify_lib.SimpleLruCache.Eviction.{
  oldest, prev-oldest, evict, evict_oldest, kept, IsListed, EndsWith, links_keep_overfull,
  evict_oldest-links, evict_oldest-none, evict_oldest-enough, evict_oldest-pinned,
  evict_oldest-evict, evict-IsListed, evict_oldest-fits,
}

module _ {K : Type 0} ⦃eq : KeyEq K⦄ where
  -- The rounds of the loop.
  pub collect_loop-head : (fuel : ℕ) (c : Cache K) → collect_loop fuel head c ≡ some c
  unfolding collect_loop
  collect_loop-head zero c = elim (Bool-cases (is_overfull_internal c)) [
    | inl h ↦ rw h refl
    | inr h ↦ rw h refl
  ]
  collect_loop-head (suc fuel) c = elim (Bool-cases (is_overfull_internal c)) [
    | inl h ↦ rw h refl
    | inr h ↦ rw h refl
  ]

  pub collect_loop-enough :
      (fuel : ℕ) (e : Ptr) (c : Cache K)
      → is_overfull_internal c ≡ false
      → collect_loop fuel e c ≡ some c
  unfolding collect_loop
  collect_loop-enough zero e c h = rw h refl
  collect_loop-enough (suc fuel) e c h = rw h refl

  collect_loop-pinned :
      (fuel : ℕ) (e : Ptr) (c : Cache K)
      → is_overfull_internal c ≡ true
      → e ≢ head
      → ((c.cell e).pin == 0) ≡ false
      → collect_loop (suc fuel) e c ≡ collect_loop fuel (c.links.prev e) c
  unfolding collect_loop collect_elem
  collect_loop-pinned fuel e c h n p =
      let m : (e == head) ≡ false = ground arith in rw (h, m, p) refl

  pub collect_loop-evict :
      (fuel : ℕ) (e : Ptr) (c : Cache K)
      → is_overfull_internal c ≡ true
      → e ≢ head
      → ((c.cell e).pin == 0) ≡ true
      → find (c.cell e).key c.table ≡ some e
      → collect_loop (suc fuel) e c
        ≡ collect_loop fuel (c.links.prev e) (record (evict e c) { links = unlink e c.links })
  unfolding collect_loop collect_elem evict discard
  collect_loop-evict fuel e c h n p f =
      let m : (e == head) ≡ false = ground arith in
      let r : (e == e) ≡ true = (==_iff e e).1 refl in rw (h, m, p, f, r) refl

  collect_loop-evict_oldest :
      (fuel : ℕ) (done es : List Ptr) (c : Cache K)
      → length es ≤ fuel
      → AreNodes (head ∷ done ++ es)
      → IsRing c.links head (done ++ es)
      → IsListed c es
      → EndsWith (collect_loop fuel (oldest es) c) (evict_oldest es c) (done ++ kept es c)
  collect_loop-evict_oldest fuel done [] c n nodes ring listed =
      let (r, k) = evict_oldest-none c in rw (r, k) (c.links, collect_loop-head fuel c, ring)
  collect_loop-evict_oldest zero done (e ∷ es) c n nodes ring listed = absurd (ground arith)
  collect_loop-evict_oldest (suc fuel) done (e ∷ es) c n nodes ring (f, listed) =
      let next = prev-oldest c.links e es (Linked-right c.links head done e es head ring) in
      let at_head = All-middle _ done e es nodes.1.0 in
      elim (Bool-cases (is_overfull_internal c)) [
        | inr h ↦
            let (r, k) = evict_oldest-enough (e ∷ es) c h in
            rw (r, k) (c.links, collect_loop-enough (suc fuel) e c h, ring)
        | inl h ↦ elim (Bool-cases ((c.cell e).pin == 0)) [
          | inl p ↦
              let (r, k) = evict_oldest-evict e es c h p in
              rw (r, k, collect_loop-evict fuel e c h at_head p f, next)
                (let (d, _) = IsDistinct-without (head ∷ done) e es nodes.1 in
                  let (l, q, g) =
                    collect_loop-evict_oldest fuel done es
                      (record (evict e c) { links = unlink e c.links }) (ground arith)
                      (All-without _ (head ∷ done) e es nodes.0, d)
                      (unlink-IsRing c.links head done e es nodes ring).0
                      (evict-IsListed e es c f (IsDistinct-right done (e ∷ es) nodes.1.1).0
                        listed) in
                  let (r', k') = evict_oldest-links (unlink e c.links) es (evict e c) in
                  (
                    l,
                    q ∙ ap {A = Cache K} (λ d. some (record d { links = l })) r',
                    subst (λ ks. IsRing l head (done ++ ks)) k' g,
                  ))
          | inr p ↦
              let (r, k) = evict_oldest-pinned e es c h p in
              rw (r, k, collect_loop-pinned fuel e c h at_head p, next)
                (subst (EndsWith _ (evict_oldest es c)) (append_snoc done e (kept es c)) (
                  collect_loop-evict_oldest fuel (done ++ e ∷ []) es c (ground arith)
                    (subst (λ xs. AreNodes (head ∷ xs)) (sym (append_snoc done e es)) nodes)
                    (subst (IsRing c.links head) (sym (append_snoc done e es)) ring) listed))
        ]
      ]

  -- Where the list is circular, its elements differ, are not null and are those that the table has
  -- for their keys, and they are not more than were ever allocated, `garbageCollect` ends: it evicts
  -- the elements without pins, the oldest first, while there are too many units, and the others stay
  -- on the list in their order.
  pub garbage_collect-evict_oldest :
      (es : List Ptr) (c : Cache K)
      → length es ≤ c.allocated
      → AreNodes (head ∷ es)
      → IsRing c.links head es
      → IsListed c es
      → EndsWith (garbage_collect c) (evict_oldest es c) (kept es c)
  unfolding garbage_collect
  garbage_collect-evict_oldest es c n nodes ring listed =
      rw (prev-oldest c.links head es ring)
        (collect_loop-evict_oldest c.allocated [] es c n nodes ring listed)

  -- Under the same conditions `garbageCollect` ends with a circular list, and with units that fit or
  -- with a list of pinned elements only.
  pub garbage_collect-fits :
      (es : List Ptr) (c : Cache K)
      → length es ≤ c.allocated
      → AreNodes (head ∷ es)
      → IsRing c.links head es
      → IsListed c es
      → (c' : Cache K) × (ks : List Ptr) × (garbage_collect c ≡ some c')
        × IsRing c'.links head ks
        × ((is_overfull_internal c' ≡ false) ⊎ All (λ e. (c'.cell e).pin ≢ 0) ks)
  garbage_collect-fits es c n nodes ring listed =
      let (l, q, g) = garbage_collect-evict_oldest es c n nodes ring listed in
      (
        record (evict_oldest es c) { links = l },
        kept es c,
        q,
        g,
        rw (links_keep_overfull l (evict_oldest es c)) (evict_oldest-fits es c),
      )
