-- ===== src/SimpleLruCache/Parting.antt =====
-- `remove` of simple_lru_cache/simple_lru_cache_inl.h of an element with pins, where its key has no
-- deferred element.
use jwt_verify_lib.Prelude.{
  ◌≡◌, ◌≢◌, refl, sym, ap, ◌∙◌, subst, List, [], ◌∷◌, inl, inr, none, some, All-append,
}
use jwt_verify_lib.SimpleLruCache.{KeyEq, find, assign, Ptr, set_next, set_prev, Cache, head}
use jwt_verify_lib.SimpleLruCache.Links.{Links}
use jwt_verify_lib.SimpleLruCache.Ring.{Linked-frame, All-map}
use jwt_verify_lib.SimpleLruCache.Tables.{find-assign, find-assign_other, IsUnique-assign}
use jwt_verify_lib.SimpleLruCache.Late.{All-at, All-IsIn, IsGroup, IsMember}
use jwt_verify_lib.SimpleLruCache.Regrouping.{put_at, Regroups, Regroups-IsLate}
use jwt_verify_lib.SimpleLruCache.Valid.{set_at_same, set_at_other, IsValid}
use mathlib.Core.Option.{some-injective, none-ne-some}
use jwt_verify_lib.SimpleLruCache.Deferring.{
  put_aside, not_listed, not_late, Removes, aside-Removes,
}

module _ {K : Type 0} ⦃eq : KeyEq K⦄ where
  module _ (c : Cache K) (es : List Ptr) (e : Ptr) (f : find (c.cell e).key c.table ≡ some e)
      (n : (c.cell e).pin ≢ 0) (valid : IsValid c es) where
    -- A list of its own.
    abbrev pub alone_links : Links
    alone_links = set_prev e e (set_next e e c.links)

    alone-Regroups :
        find (c.cell e).key c.defer ≡ none
        → Regroups c
            (put_aside c es e f n valid alone_links (assign (c.cell e).key e c.defer))
            (c.cell e).key
            valid.late_elems
            (e ∷ valid.late_elems)
            []
    alone-Regroups g =
        let k = (c.cell e).key in
        let entry = valid.entries k e f in
        let found = find-assign k e c.defer in
        record {
          others = λ j far. find-assign_other k j e c.defer far;
          unique = IsUnique-assign k e c.defer valid.late.unique;
          distinct = (not_late c es e f n valid, valid.late.distinct);
          same = λ d i far.
              let off : e ≢ d = λ q. far (ap (λ s. (c.cell s).key) (sym q)) in
              (
                record {
                  same_prev = set_at_other c.links.prev e e d off;
                  same_next = set_at_other c.links.next e e d off;
                  same_cell = refl;
                  same_freed = refl;
                },
                inr i,
              );
          group = λ first h.
              subst
                (λ r.
                  IsGroup (put_aside c es e f n valid alone_links (assign k e c.defer))
                    (e ∷ valid.late_elems) k r [])
                (some-injective _ _ (sym found ∙ h))
                (record {
                  ring = (set_at_same c.links.prev e e, set_at_same c.links.next e e);
                  nodes = ((entry.real.0, tt), (tt, tt));
                  keyed = (refl, tt);
                  known = (inl refl, tt);
                });
          members = (
            inl (
              refl,
              record {
                alive = entry.alive;
                held = n;
                real = entry.real;
                first = e;
                found = found;
                within = inl refl;
              },
            ),
            All-IsIn _ valid.late_elems (λ d i. inr (
              i,
              (λ q.
                  let m =
                    All-at (IsMember c valid.ring_of) valid.late_elems d valid.late.members i in
                  none-ne-some m.first (sym g ∙ ap (λ j. find j c.defer) (sym q) ∙ m.found)),
            )),
          );
        }

    pub alone-Removes :
        find (c.cell e).key c.defer ≡ none
        → Removes c es
            (c.cell e).key
            (put_aside c es e f n valid alone_links (assign (c.cell e).key e c.defer))
            es
    alone-Removes g =
        aside-Removes c es e f n valid alone_links (assign (c.cell e).key e c.defer)
          (put_at (c.cell e).key [] valid.ring_of)
          (Regroups-IsLate c
            (put_aside c es e f n valid alone_links (assign (c.cell e).key e c.defer))
            (c.cell e).key valid.late_elems (e ∷ valid.late_elems) [] valid.ring_of valid.late
            (alone-Regroups g))
          (Linked-frame c.links alone_links head es head
            (All-map (head ∷ es) (λ r far. set_at_other c.links.prev e e r (λ q. far (sym q)))
              (not_listed c es e f n valid))
            (All-append _ es (head ∷ [])
              (All-map es (λ r far. set_at_other c.links.next e e r (λ q. far (sym q)))
                (not_listed c es e f n valid).1)
              (
                set_at_other c.links.next e e head (λ q. (not_listed c es e f n valid).0 (sym q)),
                tt,
              ))
            valid.ring)
          (λ r far z. set_at_other c.links.next e e r far ∙ z)
