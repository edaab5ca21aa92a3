-- ===== src/SimpleLruCache/Unlinking.antt =====
-- What `unlink` does to circular lists (simple_lru_cache/simple_lru_cache_inl.h).
use jwt_verify_lib.Prelude.{
  ◌≡◌, ◌≢◌, refl, sym, ◌∙◌, true, false, List, [], ◌∷◌, ◌++◌, ◌==◌, ==_iff, if◌then◌else◌, All,
  All-append, arith,
}
use jwt_verify_lib.SimpleLruCache.Links.{Ptr, null, Links, is_linked, unlink_linked, unlink}
use jwt_verify_lib.SimpleLruCache.Ring.{
  Linked, IsRing, NotIn, IsDistinct, AreNodes, All-map, All-both, All-middle, All-left, All-right,
  Linked-left, Linked-right, All-next, All-prev, Linked-frame,
}

module _ (l : Links) where
  -- Links that lead past one element, and agree at all others.
  record Skips (l' : Links) (e : Ptr) : Type 0 where
    kept_prev : (q : Ptr) → q ≢ e → q ≢ l.next e → l'.prev q ≡ l.prev q
    kept_next : (q : Ptr) → q ≢ e → q ≢ l.prev e → l'.next q ≡ l.next q
    new_prev : l.next e ≢ e → l'.prev (l.next e) ≡ l.prev e
    new_next : l.prev e ≢ e → l'.next (l.prev e) ≡ l.next e

  Linked-skip :
      (l' : Links) (a : Ptr) (xs : List Ptr) (e : Ptr) (ys : List Ptr) (b : Ptr)
      → Skips l' e
      → IsDistinct (xs ++ e ∷ ys)
      → NotIn a (xs ++ e ∷ ys)
      → NotIn b (xs ++ e ∷ ys)
      → Linked l a (xs ++ e ∷ ys) b
      → Linked l' a (xs ++ ys) b
  Linked-skip l' a [] e [] b s d na nb (p, n, (q, m)) = ground (arith, s.new_prev, s.new_next)
  Linked-skip l' a [] e (y ∷ ys) b s (ne, d) (ea, na) (eb, nb) (p, n, (q, m, t)) =
      let kept_prev =
        All-both {R = λ r. l'.prev r ≡ l.prev r} (y ∷ ys)
          (λ r f g. s.kept_prev r f (λ h. g (h ∙ n))) ne na in
      let kept_next =
        All-both {R = λ r. l'.next r ≡ l.next r} (ys ++ b ∷ [])
          (λ r f g. s.kept_next r f (λ h. g (h ∙ q)))
          (All-append _ ys (b ∷ []) ne.1 ((λ h. eb (sym h)), tt))
          (All-append _ ys (b ∷ []) d.0 ((λ h. nb.0 (sym h)), tt)) in
      (
        ground (arith, s.new_prev),
        ground (arith, s.new_next),
        Linked-frame l l' y ys b kept_prev kept_next t,
      )
  Linked-skip l' a (x ∷ xs) e ys b s (nx, d) (xa, na) (xb, nb) (p, n, t) =
      let ea = All-middle _ xs e ys na in
      let ex = All-middle _ xs e ys nx in
      let left = Linked-left l x xs e ys b t in
      let right = Linked-right l x xs e ys b t in
      let after_a = All-next l (λ r. r ≢ a) x xs e left (xa, All-left _ xs (e ∷ ys) na) in
      let before_x =
        All-prev l (λ r. r ≢ x) e ys b right
          (All-append _ ys (b ∷ []) (All-right _ xs (e ∷ ys) nx).1 ((λ h. xb (sym h)), tt)) in
      (
        s.kept_prev a (λ h. ea (sym h)) (λ h. after_a (sym h)) ∙ p,
        s.kept_next x (λ h. ex (sym h)) (λ h. before_x (sym h)) ∙ n,
        Linked-skip l' x xs e ys b s d nx nb t,
      )

-- The fields that `unlink` leaves.
prev-unlink :
    (l : Links) (e q : Ptr)
    → (unlink_linked e l).prev q
      ≡ (if e == q then null else if l.next e == q then l.prev e else l.prev q)
unfolding unlink_linked
prev-unlink l e q = ground arith

next-unlink :
    (l : Links) (e q : Ptr)
    → (unlink_linked e l).next q
      ≡ (if e == q then null else if l.prev e == q then l.next e else l.next q)
unfolding unlink_linked
next-unlink l e q = ground arith

unlink_linked-Skips : (l : Links) (e : Ptr) → Skips l (unlink_linked e l) e
unlink_linked-Skips l e = record {
  kept_prev = λ q h k. ground (arith, prev-unlink l e q);
  kept_next = λ q h k. ground (arith, next-unlink l e q);
  new_prev = λ h. ground (arith, prev-unlink l e (l.next e));
  new_next = λ h. ground (arith, next-unlink l e (l.prev e));
}

-- The element behind the one before is the element.
pub next-prev :
    (l : Links) (e : Ptr) (ys : List Ptr) (b : Ptr) → Linked l e ys b → l.next (l.prev e) ≡ e
next-prev l e [] b (p, n) = rw p n
next-prev l e (y ∷ ys) b (p, n, _) = rw p n

module _ (l : Links) (h : Ptr) (xs : List Ptr) (e : Ptr) (ys : List Ptr)
    (nodes : AreNodes (h ∷ xs ++ e ∷ ys)) (ring : IsRing l h (xs ++ e ∷ ys)) where
  ring-is_linked : is_linked l e ≡ true
  unfolding is_linked
  ring-is_linked =
      let left = Linked-left l h xs e ys h ring in
      let far =
        All-next l (λ q. q ≢ null) h xs e left (nodes.0.0, All-left _ xs (e ∷ ys) nodes.0.1) in
      ground (arith, ==_iff (l.next e) null)

  unlink_lem : unlink e l ≡ unlink_linked e l
  unfolding unlink
  unlink_lem = rw ring-is_linked refl

  -- `unlink` of an element of a circular list, whose elements differ and are not null, takes it out of
  -- the list and leaves it unlinked.
  pub unlink-IsRing : IsRing (unlink e l) h (xs ++ ys) × (is_linked (unlink e l) e ≡ false)
  unfolding is_linked
  unlink-IsRing = rw unlink_lem (
    Linked-skip l (unlink_linked e l) h xs e ys h (unlink_linked-Skips l e) nodes.1.1 nodes.1.0
        nodes.1.0 ring,
    ground (arith, next-unlink l e e),
  )

  pub unlink_unlinks : (unlink e l).next e ≡ null
  unlink_unlinks = rw (unlink_lem, next-unlink l e e) (ground arith)

  -- What is not linked stays so.
  pub unlink_stays : (r : Ptr) → l.next r ≡ null → (unlink e l).next r ≡ null
  unlink_stays r n =
      let before = next-prev l e ys h (Linked-right l h xs e ys h ring) in
      let real = All-middle _ xs e ys nodes.0.1 in rw (unlink_lem, next-unlink l e r) (ground arith)

  -- The links of an element that is not on the list stay.
  pub unlink_keeps :
      (r : Ptr)
      → NotIn r (h ∷ xs ++ e ∷ ys)
      → ((unlink e l).prev r ≡ l.prev r) × ((unlink e l).next r ≡ l.next r)
  unlink_keeps r (n, ns) =
      let left = Linked-left l h xs e ys h ring in
      let right = Linked-right l h xs e ys h ring in
      let after = All-next l (λ q. q ≢ r) h xs e left (n, All-left _ xs (e ∷ ys) ns) in
      let before =
        All-prev l (λ q. q ≢ r) e ys h right
          (All-append _ ys (h ∷ []) (All-right _ xs (e ∷ ys) ns).1 (n, tt)) in
      let here = All-middle _ xs e ys ns in
      let skips = unlink_linked-Skips l e in
      rw unlink_lem (
        skips.kept_prev r (λ k. here (sym k)) (λ k. after (sym k)),
        skips.kept_next r (λ k. here (sym k)) (λ k. before (sym k)),
      )

  -- `unlink` of an element of such a list leaves every chain that shares no element with the list as
  -- it was.
  pub unlink-Linked_other :
      (a : Ptr) (zs : List Ptr) (b : Ptr)
      → All (λ r. NotIn r (h ∷ xs ++ e ∷ ys)) (a ∷ zs)
      → All (λ r. NotIn r (h ∷ xs ++ e ∷ ys)) (zs ++ b ∷ [])
      → Linked l a zs b
      → Linked (unlink e l) a zs b
  unlink-Linked_other a zs b apart apart' s =
      Linked-frame l (unlink e l) a zs b (All-map (a ∷ zs) (λ r n. (unlink_keeps r n).0) apart)
        (All-map (zs ++ b ∷ []) (λ r n. (unlink_keeps r n).1) apart') s

-- `unlink` of an element that is linked to itself leaves the links of all others.
pub unlink_self_keeps :
    (l : Links) (e : Ptr)
    → l.prev e ≡ e
    → l.next e ≡ e
    → e ≢ null
    → (r : Ptr) → e ≢ r
    → ((unlink e l).prev r ≡ l.prev r) × ((unlink e l).next r ≡ l.next r)
unfolding unlink is_linked
unlink_self_keeps l e p n real r far =
    let m : (l.next e == null) ≡ false = ground arith in
    rw m (ground (arith, prev-unlink l e r), ground (arith, next-unlink l e r))
