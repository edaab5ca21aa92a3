-- ===== src/SimpleLruCache/Linking.antt =====
-- What `link` does to a circular list (simple_lru_cache/simple_lru_cache_inl.h).
use jwt_verify_lib.Prelude.{◌≡◌, ◌≢◌, sym, List, [], ◌∷◌, ◌++◌, ◌==◌, if◌then◌else◌, All, arith}
use jwt_verify_lib.SimpleLruCache.Links.{Ptr, null, Links, link}
use jwt_verify_lib.SimpleLruCache.Ring.{
  Linked, IsRing, NotIn, IsDistinct, AreNodes, All-map, All-left, IsDistinct-right, All-apart,
  Linked-left, Linked-right, All-next, Linked-frame,
}

module _ (l : Links) (e h : Ptr) where
  -- The fields that `link` leaves, where the element is not next to the head.
  prev-link :
      (q : Ptr)
      → l.next h ≢ e
      → h ≢ e
      → (link e h l).prev q ≡ (if l.next h == q then e else if e == q then h else l.prev q)
  unfolding link
  prev-link q n m = ground arith

  next-link :
      (q : Ptr)
      → l.next h ≢ e
      → h ≢ e
      → (link e h l).next q ≡ (if h == q then e else if e == q then l.next h else l.next q)
  unfolding link
  next-link q n m = ground arith

  module _ (apart : h ≢ e) (far : l.next h ≢ e) where
    Linked-link :
        (a : Ptr) (xs : List Ptr)
        → NotIn e (a ∷ xs)
        → IsDistinct xs
        → NotIn a xs
        → NotIn h xs
        → Linked l a xs h
        → Linked (link e h l) a (xs ++ e ∷ []) h
    Linked-link a [] (ea, _) d na nh (p, n) = (
      ground (arith, prev-link a),
      ground (arith, next-link e),
      (ground (arith, prev-link e), ground (arith, next-link h)),
    )
    Linked-link a (x ∷ xs) (ea, (ex, es)) (nx, d) (xa, na) (xh, nh) (p, n, s) =
        let last_a = All-next l (λ r. r ≢ a) x xs h s (xa, na) in
        (
          ground (arith, prev-link a),
          ground (arith, next-link x),
          Linked-link x xs (ex, es) d nx nh s,
        )

  -- `link` puts an element that is not in a circular list of different elements behind its newest
  -- one.
  pub link-IsRing :
      (xs : List Ptr)
      → IsDistinct (e ∷ h ∷ xs)
      → IsRing l h xs
      → IsRing (link e h l) h (xs ++ e ∷ [])
  link-IsRing xs (ne, (nh, d)) ring =
      Linked-link ne.0 (All-next l (λ r. r ≢ e) h xs h ring ne) h xs ne d nh nh ring

  -- What is not linked stays so.
  pub link_stays :
      (xs : List Ptr) (r : Ptr)
      → AreNodes (h ∷ xs)
      → NotIn e (h ∷ xs)
      → IsRing l h xs
      → e ≢ r
      → l.next r ≡ null
      → (link e h l).next r ≡ null
  link_stays xs r nodes ne ring n z =
      let far = All-next l (λ q. q ≢ e) h xs h ring ne in
      let real = All-next l (λ q. q ≢ null) h xs h ring nodes.0 in
      ground (arith, next-link r far ne.0)

  -- The links of an element that is neither on the list nor the new one stay.
  pub link_keeps :
      (xs : List Ptr)
      → IsDistinct (e ∷ h ∷ xs)
      → IsRing l h xs
      → (r : Ptr) → NotIn r (e ∷ h ∷ xs)
      → ((link e h l).prev r ≡ l.prev r) × ((link e h l).next r ≡ l.next r)
  link_keeps xs (ne, (nh, d)) ring r (er, (hr, n)) =
      let far = All-next l (λ q. q ≢ e) h xs h ring ne in
      let far_r = All-next l (λ q. q ≢ r) h xs h ring (hr, n) in
      (ground (arith, far, prev-link r far ne.0), ground (arith, far, next-link r far ne.0))

  -- `link` of an element that is not in such a list leaves every chain that shares no element with
  -- the list, and not the new one, as it was.
  pub link-Linked_other :
      (xs : List Ptr) (a : Ptr) (zs : List Ptr) (b : Ptr)
      → IsDistinct (e ∷ h ∷ xs)
      → IsRing l h xs
      → All (λ r. NotIn r (e ∷ h ∷ xs)) (a ∷ zs)
      → All (λ r. NotIn r (e ∷ h ∷ xs)) (zs ++ b ∷ [])
      → Linked l a zs b
      → Linked (link e h l) a zs b
  link-Linked_other xs a zs b distinct ring apart apart' s =
      let keeps = link_keeps xs distinct ring in
      Linked-frame l (link e h l) a zs b (All-map (a ∷ zs) (λ r n. (keeps r n).0) apart)
        (All-map (zs ++ b ∷ []) (λ r n. (keeps r n).1) apart') s

  -- A chain that starts as the old list does cannot end in a circular list.
  broken_chain :
      (a : Ptr) (xs zs : List Ptr)
      → h ≢ e
      → l.next h ≢ e
      → NotIn (l.next h) (a ∷ xs)
      → NotIn h xs
      → NotIn e (a ∷ xs)
      → Linked l a xs e
      → ¬ Linked (link e h l) a zs h
  broken_chain a [] [] he far (na, _) nh (ea, _) (p, n) (q, m) = ground (arith, prev-link a far he)
  broken_chain a [] (z ∷ zs) he far (na, _) nh (ea, _) (p, n) (q, m, t) =
      ground (arith, prev-link a far he, next-link z far he)
  broken_chain a (x ∷ xs) [] he far (na, nx) (xh, nh) (ea, ne) (p, n, s) (q, m) =
      ground (arith, prev-link a far he)
  broken_chain a (x ∷ xs) (z ∷ zs) he far (na, nx) (xh, nh) (ea, ne) (p, n, s) (q, m, t) =
      let z_is : z ≡ x = ground (arith, prev-link a far he) in
      broken_chain x xs zs he far nx nh ne s (rw (sym z_is) t)

-- `link` of an element that is on a circular list of different elements already, and is not its
-- newest one, leaves no circular list at its head, whatever elements one looks for.
pub link_linked_breaks :
    (l : Links) (h : Ptr) (xs : List Ptr) (e y : Ptr) (ys : List Ptr)
    → AreNodes (h ∷ xs ++ e ∷ y ∷ ys)
    → IsRing l h (xs ++ e ∷ y ∷ ys)
    → (zs : List Ptr) → ¬ IsRing (link e h l) h zs
link_linked_breaks l h xs e y ys nodes ring zs =
    let left = Linked-left l h xs e (y ∷ ys) h ring in
    let (_, _, s) = Linked-right l h xs e (y ∷ ys) h ring in
    let (ne, ns) = All-apart (h ∷ xs) (e ∷ y ∷ ys) nodes.1 in
    let after = (IsDistinct-right xs (e ∷ y ∷ ys) nodes.1.1).0 in
    broken_chain l e h h xs zs ne.0 (All-next l (λ r. r ≢ e) y ys h s after)
      (All-next l (λ r. NotIn r (h ∷ xs)) y ys h s ns) (All-left _ xs (e ∷ y ∷ ys) nodes.1.0) ne
      left
