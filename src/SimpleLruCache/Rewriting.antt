-- ===== src/SimpleLruCache/Rewriting.antt =====
-- A write of the counters of one element keeps the representation invariants of the cache of
-- simple_lru_cache/simple_lru_cache_inl.h, where the list changes accordingly.
use jwt_verify_lib.Prelude.{
  ℕ, ◌≡◌, ◌≢◌, refl, sym, ap, ◌∙◌, subst, List, [], ◌∷◌, ◌++◌, some, All-append,
}
use jwt_verify_lib.SimpleLruCache.Maps.{KeyEq, find}
use jwt_verify_lib.SimpleLruCache.Links.{Ptr, Links, link, unlink}
use jwt_verify_lib.SimpleLruCache.State.{Elem, Cache, head}
use jwt_verify_lib.SimpleLruCache.Ring.{
  IsRing, IsDistinct, All-without, IsDistinct-without, IsDistinct-snoc,
}
use jwt_verify_lib.SimpleLruCache.Late.{IsLate-frame}
use jwt_verify_lib.SimpleLruCache.Unlinking.{unlink-IsRing, unlink_stays, unlink_unlinks}
use jwt_verify_lib.SimpleLruCache.Linking.{link-IsRing, link_stays}
use jwt_verify_lib.SimpleLruCache.Valid.{set_at_same, IsValid, Some-without}
use jwt_verify_lib.SimpleLruCache.Writing.{
  Some-append, Some-last, pinned-NotIn, All-set_at, IsCounted, write_elem, written_entry,
  written_sized, rewritten_same, taken_off_same, put_on_same,
}

module _ {K : Type 0} ⦃eq : KeyEq K⦄ where
  module _ (c : Cache K) (e : Ptr) (x : Elem K) (same : x.key ≡ (c.cell e).key)
      (same_units : x.units ≡ (c.cell e).units) (l : Links) (u : ℕ) where
    -- A write of an element that is not on the list leaves the list.
    pub rewrite-IsValid :
        (k : K) (es : List Ptr)
        → find k c.table ≡ some e
        → (c.cell e).pin ≢ 0
        → x.pin ≢ 0
        → (l ≡ c.links)
        → IsCounted c e x u
        → IsValid c es
        → IsValid (write_elem e x l u c) es
    rewrite-IsValid k es f n pinned i counted valid =
        let ne = pinned-NotIn c e es n valid.unpinned in
        record {
          in_lru_mode = valid.in_lru_mode;
          ring = subst (λ j. IsRing j head es) (sym i) valid.ring;
          nodes = valid.nodes;
          listed = All-set_at (λ y r. find y.key c.table ≡ some r) c.cell e x es ne valid.listed;
          unpinned = All-set_at (λ y r. y.pin ≡ 0) c.cell e x es ne valid.unpinned;
          entries = λ k' r g.
              written_entry c e x same same_units l u es es k' r (λ p. absurd (pinned p))
                (λ _. rw i ((valid.entries k e f).alone n)) (λ _ h. h) (λ _ z. rw i z)
                (valid.entries k' r g);
          unique = valid.unique;
          late_elems = valid.late_elems;
          ring_of = valid.ring_of;
          late =
              IsLate-frame c _ valid.late_elems valid.ring_of refl
                (rewritten_same c e x same same_units l u k es f n i valid) valid.late;
          few = valid.few;
          sized = written_sized c e x same same_units l u valid.late_elems valid.sized;
          pinned = counted;
        }

    -- The first pin takes the element off the list.
    pub take_off-IsValid :
        (xs ys : List Ptr)
        → x.pin ≢ 0
        → (l ≡ unlink e c.links)
        → IsCounted c e x u
        → IsValid c (xs ++ e ∷ ys)
        → IsValid (write_elem e x l u c) (xs ++ ys)
    take_off-IsValid xs ys pinned i counted valid =
        let (d, ne) = IsDistinct-without (head ∷ xs) e ys valid.nodes.1 in
        let (ring, off) = unlink-IsRing c.links head xs e ys valid.nodes valid.ring in
        record {
          in_lru_mode = valid.in_lru_mode;
          ring = subst (λ j. IsRing j head (xs ++ ys)) (sym i) ring;
          nodes = (All-without _ (head ∷ xs) e ys valid.nodes.0, d);
          listed =
              All-set_at (λ y r. find y.key c.table ≡ some r) c.cell e x (xs ++ ys) ne.1
                (All-without _ xs e ys valid.listed);
          unpinned =
              All-set_at (λ y r. y.pin ≡ 0) c.cell e x (xs ++ ys) ne.1
                (All-without _ xs e ys valid.unpinned);
          entries = λ k r g.
              written_entry c e x same same_units l u (xs ++ e ∷ ys) (xs ++ ys) k r
                (λ p. absurd (pinned p))
                (λ _. rw i (unlink_unlinks c.links head xs e ys valid.nodes valid.ring))
                (λ n. Some-without _ xs e ys n)
                (λ _ z. rw i (unlink_stays c.links head xs e ys valid.nodes valid.ring r z))
                (valid.entries k r g);
          unique = valid.unique;
          late_elems = valid.late_elems;
          ring_of = valid.ring_of;
          late =
              IsLate-frame c _ valid.late_elems valid.ring_of refl
                (taken_off_same c e x same same_units l u xs ys i valid) valid.late;
          few = valid.few;
          sized = written_sized c e x same same_units l u valid.late_elems valid.sized;
          pinned = counted;
        }

    -- The last release puts the element at the end of the list.
    pub put_on-IsValid :
        (k : K) (es : List Ptr)
        → find k c.table ≡ some e
        → (c.cell e).pin ≢ 0
        → x.pin ≡ 0
        → (l ≡ link e head c.links)
        → IsCounted c e x u
        → IsValid c es
        → IsValid (write_elem e x l u c) (es ++ e ∷ [])
    put_on-IsValid k es f n unpinned i counted valid =
        let ne = pinned-NotIn c e es n valid.unpinned in
        let entry = valid.entries k e f in
        let not_head : head ≢ e = λ h. entry.real.1 (sym h) in
        let distinct : IsDistinct (e ∷ head ∷ es) = ((not_head, ne), valid.nodes.1) in
        record {
          in_lru_mode = valid.in_lru_mode;
          ring =
              subst (λ j. IsRing j head (es ++ e ∷ [])) (sym i)
                (link-IsRing c.links e head es distinct valid.ring);
          nodes = (
            All-append _ (head ∷ es) (e ∷ []) valid.nodes.0 (entry.real.0, tt),
            IsDistinct-snoc (head ∷ es) e valid.nodes.1 (not_head, ne),
          );
          listed =
              All-append _ es (e ∷ [])
                (All-set_at (λ y r. find y.key c.table ≡ some r) c.cell e x es ne valid.listed)
                (
                  rw (set_at_same c.cell e x) (ap (λ j. find j c.table) (same ∙ entry.keyed) ∙ f),
                  tt,
                );
          unpinned =
              All-append _ es (e ∷ [])
                (All-set_at (λ y r. y.pin ≡ 0) c.cell e x es ne valid.unpinned)
                (ap (λ y. y.pin) (set_at_same c.cell e x) ∙ unpinned, tt);
          entries = λ k' r g.
              written_entry c e x same same_units l u es (es ++ e ∷ []) k' r
                (λ _. Some-last _ es e refl) (λ z. absurd (z unpinned))
                (λ _. Some-append _ es (e ∷ []))
                (λ far z.
                  rw i (link_stays c.links e head es r valid.nodes (not_head, ne) valid.ring far z))
                (valid.entries k' r g);
          unique = valid.unique;
          late_elems = valid.late_elems;
          ring_of = valid.ring_of;
          late =
              IsLate-frame c _ valid.late_elems valid.ring_of refl
                (put_on_same c e x same same_units l u k es f n i valid) valid.late;
          few = valid.few;
          sized = written_sized c e x same same_units l u valid.late_elems valid.sized;
          pinned = counted;
        }
