-- ===== src/SimpleLruCache/Joining.antt =====
-- `remove` of simple_lru_cache/simple_lru_cache_inl.h of an element with pins, where its key has
-- deferred elements already.
use jwt_verify_lib.Prelude.{
  ◌≡◌, ◌≢◌, refl, sym, ap, ◌∙◌, subst, List, [], ◌∷◌, ◌++◌, inl, inr, some, ◌⊎◌, All-append,
  Bool-cases, arith,
}
use jwt_verify_lib.SimpleLruCache.{KeyEq, find, Ptr, link, Cache, head}
use jwt_verify_lib.SimpleLruCache.Ring.{
  Linked-frame, NotIn, IsDistinct, All-map, All-both, IsDistinct-snoc,
}
use jwt_verify_lib.SimpleLruCache.Linking.{link-IsRing, link_keeps, link_stays}
use jwt_verify_lib.SimpleLruCache.Late.{IsIn, All-at, All-IsIn, IsGroup, IsMember}
use jwt_verify_lib.SimpleLruCache.Regrouping.{put_at, Regroups, Regroups-IsLate}
use jwt_verify_lib.SimpleLruCache.Valid.{IsValid}
use jwt_verify_lib.SimpleLruCache.Writing.{Some-append, Some-last}
use jwt_verify_lib.SimpleLruCache.Deferring.{
  NotIn-within, list_apart, put_aside, not_listed, not_late, aside-Removes, Removes,
}
use mathlib.Core.Option.{some-injective}

module _ {K : Type 0} ⦃eq : KeyEq K⦄ where
  open eq use {is_equal, is_equal_iff}

  module _ (c : Cache K) (es : List Ptr) (e : Ptr) (f : find (c.cell e).key c.table ≡ some e)
      (n : (c.cell e).pin ≢ 0) (valid : IsValid c es) (first : Ptr)
      (g : find (c.cell e).key c.defer ≡ some first) where
    abbrev joined : Cache K
    joined = put_aside c es e f n valid (link e first c.links) c.defer

    before-IsGroup : IsGroup c valid.late_elems (c.cell e).key first (valid.ring_of (c.cell e).key)
    before-IsGroup = valid.late.groups (c.cell e).key first g

    abbrev rest : List Ptr
    rest = valid.ring_of (c.cell e).key

    not_with : NotIn e (first ∷ rest)
    not_with =
        NotIn-within e (first ∷ rest) valid.late_elems before-IsGroup.known
          (not_late c es e f n valid)

    apart_nodes : IsDistinct (e ∷ first ∷ rest)
    apart_nodes = (not_with, before-IsGroup.nodes.1)

    -- The links of the elements that are not with it.
    join_keeps :
        (r : Ptr)
        → r ≢ e
        → NotIn r (first ∷ rest)
        → ((link e first c.links).prev r ≡ c.links.prev r)
          × ((link e first c.links).next r ≡ c.links.next r)
    join_keeps r far apart =
        link_keeps c.links e first rest apart_nodes before-IsGroup.ring r
          ((λ i. far (sym i)), apart)

    joined-IsGroup : IsGroup joined (e ∷ valid.late_elems) (c.cell e).key first (rest ++ e ∷ [])
    joined-IsGroup =
        let entry = valid.entries (c.cell e).key e f in
        let group = before-IsGroup in
        record {
          ring = link-IsRing c.links e first rest apart_nodes group.ring;
          nodes = (
            All-append _ (first ∷ rest) (e ∷ []) group.nodes.0 (entry.real.0, tt),
            IsDistinct-snoc (first ∷ rest) e group.nodes.1 not_with,
          );
          keyed = All-append _ (first ∷ rest) (e ∷ []) group.keyed (refl, tt);
          known =
              All-append _ (first ∷ rest) (e ∷ [])
                (All-map (first ∷ rest) (λ r i. inr i) group.known) (inl refl, tt);
        }

    joined-IsMember :
        (d : Ptr)
        → IsIn d valid.late_elems
        → (((c.cell d).key ≡ (c.cell e).key) × IsMember joined (λ _. rest ++ e ∷ []) d)
          ⊎ (IsIn d valid.late_elems × ((c.cell d).key ≢ (c.cell e).key))
    joined-IsMember d i =
        let k = (c.cell e).key in
        let m = All-at (IsMember c valid.ring_of) valid.late_elems d valid.late.members i in
        elim (Bool-cases (is_equal (c.cell d).key k)) [
          | inr h ↦ inr (i, (λ q. let t = (is_equal_iff (c.cell d).key k).1 q in ground arith))
          | inl h ↦
              let q = (is_equal_iff (c.cell d).key k).0 h in
              inl (
                q,
                record {
                  alive = m.alive;
                  held = m.held;
                  real = m.real;
                  first = m.first;
                  found = m.found;
                  within =
                      Some-append _ (m.first ∷ rest) (e ∷ [])
                        (subst (λ j. IsIn d (m.first ∷ valid.ring_of j)) q m.within);
                },
              )
        ]

    joined-Regroups :
        Regroups c joined (c.cell e).key valid.late_elems (e ∷ valid.late_elems) (rest ++ e ∷ [])
    joined-Regroups =
        let k = (c.cell e).key in
        let entry = valid.entries k e f in
        record {
          others = λ j far. refl;
          unique = valid.late.unique;
          distinct = (not_late c es e f n valid, valid.late.distinct);
          same = λ d i far.
              let off : d ≢ e = λ q. far (ap (λ s. (c.cell s).key) q) in
              let apart =
                All-map (first ∷ rest) (λ r h q. far (ap (λ s. (c.cell s).key) (sym q) ∙ h))
                  before-IsGroup.keyed in
              let (p, m) = join_keeps d off apart in
              (record { same_prev = p; same_next = m; same_cell = refl; same_freed = refl }, inr i);
          group = λ a h.
              subst (λ r. IsGroup joined (e ∷ valid.late_elems) k r (rest ++ e ∷ []))
                (some-injective _ _ (sym g ∙ h)) joined-IsGroup;
          members = (
            inl (
              refl,
              record {
                alive = entry.alive;
                held = n;
                real = entry.real;
                first = first;
                found = g;
                within = inr (Some-last _ rest e refl);
              },
            ),
            All-IsIn _ valid.late_elems joined-IsMember,
          );
        }

    pub joined-Removes : Removes c es (c.cell e).key joined es
    joined-Removes =
        let kept =
          All-both {P = λ r. r ≢ e} (head ∷ es)
            (λ r far h.
              join_keeps r far
                (NotIn-within r (first ∷ rest) valid.late_elems before-IsGroup.known h))
            (not_listed c es e f n valid) (list_apart c es valid) in
        aside-Removes c es e f n valid (link e first c.links) c.defer
          (put_at (c.cell e).key (rest ++ e ∷ []) valid.ring_of)
          (Regroups-IsLate c joined (c.cell e).key valid.late_elems (e ∷ valid.late_elems)
            (rest ++ e ∷ []) valid.ring_of valid.late joined-Regroups)
          (Linked-frame c.links (link e first c.links) head es head
            (All-map (head ∷ es) (λ r h. h.0) kept)
            (All-append _ es (head ∷ []) (All-map es (λ r h. h.1) kept.1) (kept.0.1, tt))
            valid.ring)
          (λ r far z.
            link_stays c.links e first rest r before-IsGroup.nodes not_with before-IsGroup.ring far
              z)
