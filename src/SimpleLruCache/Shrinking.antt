-- ===== src/SimpleLruCache/Shrinking.antt =====
-- What the last release of a deferred element of simple_lru_cache/simple_lru_cache_inl.h does to the
-- circular list of its key: the element is behind the first one, or the first one of several, or
-- the only one.
use jwt_verify_lib.Prelude.{
  ◌≡◌, ◌≢◌, refl, sym, ap, ◌∙◌, subst, List, [], ◌∷◌, ◌++◌, inl, inr, some, All, All-append,
}
use jwt_verify_lib.SimpleLruCache.{KeyEq, find, erase, assign, Ptr, null, unlink, Cache}
use jwt_verify_lib.SimpleLruCache.Ring.{
  Linked-append, IsRing, AreNodes, All-both, All-without, IsDistinct-without, IsDistinct-snoc,
  append_nil,
}
use jwt_verify_lib.SimpleLruCache.Unlinking.{
  unlink-IsRing, unlink_stays, unlink_keeps, unlink_self_keeps,
}
use jwt_verify_lib.SimpleLruCache.Tables.{
  IsUnique, find-assign, find-assign_other, find-erase, find-erase_other, IsUnique-assign,
  IsUnique-erase,
}
use jwt_verify_lib.SimpleLruCache.Late.{IsIn, All-IsIn}
use jwt_verify_lib.SimpleLruCache.Valid.{Some-without}
use jwt_verify_lib.SimpleLruCache.LateDropping.{Shrinks}
use mathlib.Core.Option.{some-injective, none-ne-some}

module _ {K : Type 0} ⦃eq : KeyEq K⦄ where
  module _ (c : Cache K) (k : K) (first : Ptr) (found : find k c.defer ≡ some first)
      (unique : IsUnique c.defer) where
    -- The element is behind the first one.
    pub inner-Shrinks :
        (xs : List Ptr) (e : Ptr) (ys : List Ptr)
        → AreNodes (first ∷ xs ++ e ∷ ys)
        → IsRing c.links first (xs ++ e ∷ ys)
        → Shrinks c k first (xs ++ e ∷ ys) e (unlink e c.links) c.defer (xs ++ ys)
    inner-Shrinks xs e ys nodes ring =
        let (d, far) = IsDistinct-without (first ∷ xs) e ys nodes.1 in
        let left =
          All-without (λ r. IsIn r (first ∷ xs ++ e ∷ ys)) (first ∷ xs) e ys
            (All-IsIn _ (first ∷ xs ++ e ∷ ys) (λ r i. i)) in
        record {
          keeps = λ r n. unlink_keeps c.links first xs e ys nodes ring r n;
          stays = λ r z. unlink_stays c.links first xs e ys nodes ring r z;
          others = λ j n. refl;
          unique = unique;
          ring = λ a h.
              subst (λ b. IsRing (unlink e c.links) b (xs ++ ys) × AreNodes (b ∷ xs ++ ys))
                (some-injective _ _ (sym found ∙ h))
                (
                  (unlink-IsRing c.links first xs e ys nodes ring).0,
                  (All-without _ (first ∷ xs) e ys nodes.0, d),
                );
          within = λ a h.
              subst (λ b. All (λ r. IsIn r (first ∷ xs ++ e ∷ ys) × (r ≢ e)) (b ∷ xs ++ ys))
                (some-injective _ _ (sym found ∙ h))
                (All-both {P = λ r. IsIn r (first ∷ xs ++ e ∷ ys)} {Q = λ r. r ≢ e}
                  (first ∷ xs ++ ys) (λ r i n. (i, n)) left far);
          covers = λ r i n.
              (first, found, Some-without (λ q. q ≡ r) (first ∷ xs) e ys (λ j. n (sym j)) i);
        }

    -- The element is the first one of several: the next one takes its place.
    pub first-Shrinks :
        (m : Ptr) (ms : List Ptr)
        → AreNodes (first ∷ m ∷ ms)
        → IsRing c.links first (m ∷ ms)
        → Shrinks c k first (m ∷ ms) first (unlink first c.links) (assign k m (erase k c.defer)) ms
    first-Shrinks m ms nodes (p, n, s) =
        let rotated : IsRing c.links m (ms ++ first ∷ []) =
          Linked-append c.links m ms first [] m s (p, n) in
        let nodes' : AreNodes (m ∷ ms ++ first ∷ []) = (
          All-append _ (m ∷ ms) (first ∷ []) nodes.0.1 (nodes.0.0, tt),
          IsDistinct-snoc (m ∷ ms) first nodes.1.1 nodes.1.0,
        ) in
        let now = find-assign k m (erase k c.defer) in
        record {
          keeps = λ r (far, n).
              unlink_keeps c.links m ms first [] nodes' rotated r
                (All-append _ (m ∷ ms) (first ∷ []) n (far, tt));
          stays = λ r z. unlink_stays c.links m ms first [] nodes' rotated r z;
          others =
              λ j n. find-assign_other k j m (erase k c.defer) n ∙ find-erase_other k j c.defer n;
          unique = IsUnique-assign k m (erase k c.defer) (IsUnique-erase k c.defer unique);
          ring = λ a h.
              subst (λ b. IsRing (unlink first c.links) b ms × AreNodes (b ∷ ms))
                (some-injective _ _ (sym now ∙ h))
                (
                  subst (IsRing (unlink first c.links) m) (append_nil ms)
                      (unlink-IsRing c.links m ms first [] nodes' rotated).0,
                  (nodes.0.1, nodes.1.1),
                );
          within = λ a h.
              subst (λ b. All (λ r. IsIn r (first ∷ m ∷ ms) × (r ≢ first)) (b ∷ ms))
                (some-injective _ _ (sym now ∙ h))
                (All-both {P = λ r. IsIn r (m ∷ ms)} {Q = λ r. r ≢ first} (m ∷ ms)
                  (λ r i n. (inr i, n)) (All-IsIn _ (m ∷ ms) (λ r i. i)) nodes.1.0);
          covers = λ r i n. (m, now, elim i [ inl j ↦ absurd (n (sym j)) | inr j ↦ j ]);
        }

    -- The element is the only one: the table loses the key.
    pub last-Shrinks :
        first ≢ null
        → IsRing c.links first []
        → Shrinks c k first [] first (unlink first c.links) (erase k c.defer) []
    last-Shrinks real (p, n) =
        let gone = find-erase k c.defer unique in
        record {
          keeps = λ r (far, _). unlink_self_keeps c.links first p n real r far;
          stays = λ r z.
              (unlink_self_keeps c.links first p n real r
                (λ i. real (sym n ∙ ap c.links.next i ∙ z))).1
              ∙ z;
          others = λ j far. find-erase_other k j c.defer far;
          unique = IsUnique-erase k c.defer unique;
          ring = λ a h. absurd (none-ne-some a (sym gone ∙ h));
          within = λ a h. absurd (none-ne-some a (sym gone ∙ h));
          covers = λ r i far. elim i [ inl j ↦ absurd (far (sym j)) | inr j ↦ absurd j ];
        }
