-- ===== src/SimpleLruCache/LateReleasing.antt =====
-- `release` of simple_lru_cache/simple_lru_cache_inl.h of a deferred element, on a cache with the
-- representation invariants.
use jwt_verify_lib.Prelude.{
  ℕ, suc, ◌≡◌, ◌≢◌, refl, sym, ap, ◌∙◌, subst, false, List, [], ◌∷◌, ◌++◌, ◌==◌, ==_iff, ◌⊎◌, inl,
  inr, some, All, arith,
}
use jwt_verify_lib.SimpleLruCache.{
  KeyEq, Elem, find, erase, assign, Ptr, unlink, Cache, set_elem, drop_deferred, release_deferred,
}
use jwt_verify_lib.SimpleLruCache.Ring.{IsRing, AreNodes}
use jwt_verify_lib.SimpleLruCache.Late.{IsIn, All-at, split_at, IsGroup, IsMember}
use jwt_verify_lib.SimpleLruCache.Claims.{IsDeferred, IsPutOff, IsDeferred-known, late-IsDeferred}
use jwt_verify_lib.SimpleLruCache.Valid.{IsValid, IsHeld, set_at_same, set_at_other}
use jwt_verify_lib.SimpleLruCache.LateCounting.{late_cell, late_count-IsValid, late-IsHeld}
use jwt_verify_lib.SimpleLruCache.LateDropping.{Shrinks}
use jwt_verify_lib.SimpleLruCache.LateLeaving.{without_late-IsValid, left-IsDeferred}
use jwt_verify_lib.SimpleLruCache.Shrinking.{inner-Shrinks, first-Shrinks, last-Shrinks}
use jwt_verify_lib.SimpleLruCache.ReleaseSteps.{pin_cases}
use mathlib.Core.Option.{some-injective}
use jwt_verify_lib.SimpleLruCache.LateSteps.{
  repinned, gone_with, drop_deferred-inner, drop_deferred-first, drop_deferred-last,
  release_deferred-drop, release_deferred-count_down,
}

module _ {K : Type 0} ⦃eq : KeyEq K⦄ where
  -- What a release of a deferred element leaves: the element has one pin less, and some left, or it
  -- had one and its value is given away; the table and the list are as they were.
  pub record LetsGo (c : Cache K) (es : List Ptr) (e : Ptr) (c' : Cache K) : Type 0 where
    pub was_late : IsDeferred c (c.cell e).key e
    pub valid : IsValid c' es
    pub same_table : c'.table ≡ c.table
    pub kept : (j : K) (w : Ptr) → IsHeld c j w → IsHeld c' j w
    pub kept_late :
        (j : K) (w : Ptr)
        → (j ≢ (c.cell e).key) ⊎ (w ≢ (c.cell e).value)
        → IsPutOff c j w
        → IsPutOff c' j w
    pub ends :
        (IsDeferred c' (c.cell e).key e
          × ((c'.cell e).value ≡ (c.cell e).value)
          × ((c.cell e).pin ≡ suc (c'.cell e).pin)
          × ((c'.cell e).pin ≢ 0))
        ⊎ (((c.cell e).pin ≡ 1) × (c'.removed ≡ c.removed ++ (c.cell e).value ∷ []))

  module _ (c : Cache K) (es : List Ptr) (e : Ptr) (valid : IsValid c es)
      (i : IsIn e valid.late_elems) (first : Ptr)
      (found : find (c.cell e).key c.defer ≡ some first) where
    abbrev rest : List Ptr
    rest = valid.ring_of (c.cell e).key

    -- A deferred element of another key or value is another one.
    other_deferred :
        (j : K) (r w : Ptr)
        → (j ≢ (c.cell e).key) ⊎ (w ≢ (c.cell e).value)
        → IsDeferred c j r
        → (c.cell r).value ≡ w
        → e ≢ r
    other_deferred j r w (inl far) d p q =
        let key = (IsDeferred-known c valid.late_elems valid.ring_of j r valid.late d).1 in
        far (sym key ∙ ap (λ s. (c.cell s).key) (sym q))
    other_deferred j r w (inr far) d p q = far (sym p ∙ ap (λ s. (c.cell s).value) (sym q))

    -- The last release, where the circular list shrinks.
    shrinking :
        (defer : List (K × Ptr)) (ms : List Ptr)
        → (c.cell e).pin ≡ 1
        → Shrinks c (c.cell e).key first rest e (unlink e c.links) defer ms
        → LetsGo c es e (gone_with c (c.cell e).key first e defer)
    shrinking defer ms p shrinks =
        let (us, vs, parts) = split_at e valid.late_elems i in
        let x = repinned 0 (c.cell e) in
        record {
          was_late = late-IsDeferred c valid.late_elems valid.ring_of e valid.late i;
          valid =
              without_late-IsValid c es us e vs valid parts x refl refl first found
                (unlink e c.links) defer ms shrinks;
          same_table = refl;
          kept = λ j w held. late-IsHeld c es e valid i x refl refl j w held;
          kept_late = λ j w far (r, d, p).
              let off = other_deferred j r w far d p in
              let key = (IsDeferred-known c valid.late_elems valid.ring_of j r valid.late d).1 in
              (
                r,
                subst (λ s. IsDeferred (gone_with c (c.cell e).key first e defer) s r) key
                    (left-IsDeferred c es us e vs valid parts x refl refl first found
                      (unlink e c.links) defer ms shrinks r
                      (IsDeferred-known c valid.late_elems valid.ring_of j r valid.late d).0
                      (λ q. off (sym q))),
                ap (λ y. y.value) (set_at_other c.cell e x r off) ∙ p,
              );
          ends = inr (p, refl);
        }

    same-IsDeferred :
        (x : Elem K) (j : K) (r : Ptr) → IsDeferred c j r → IsDeferred (set_elem e x c) j r
    same-IsDeferred x j r d = record {
      first = d.first;
      ms = d.ms;
      found = d.found;
      ring = d.ring;
      once = d.once;
      within = d.within;
    }

    counting :
        (pin : ℕ)
        → (c.cell e).pin ≡ suc (suc pin)
        → LetsGo c es e (set_elem e (repinned (suc pin) (c.cell e)) c)
    counting pin p =
        let x = repinned (suc pin) (c.cell e) in
        let left : x.pin ≢ 0 = ground arith in
        let cell = set_at_same c.cell e x in
        let valid' = late_count-IsValid c es e valid i x refl refl left in
        record {
          was_late = late-IsDeferred c valid.late_elems valid.ring_of e valid.late i;
          valid = valid';
          same_table = refl;
          kept = λ j w held. late-IsHeld c es e valid i x refl refl j w held;
          kept_late = λ j w far (r, d, p). (
            r,
            same-IsDeferred x j r d,
            late_cell c es e valid i x refl refl (λ y. y.value) refl r ∙ p,
          );
          ends = inl (
            same-IsDeferred x (c.cell e).key e
                (late-IsDeferred c valid.late_elems valid.ring_of e valid.late i),
            ap (λ y. y.value) cell,
            p ∙ sym (ap (λ y. suc y.pin) cell),
            (λ z. left (sym (ap (λ y. y.pin) cell) ∙ z)),
          );
        }

    group : IsGroup c valid.late_elems (c.cell e).key first rest
    group = valid.late.groups (c.cell e).key first found

    -- The state after a release of the element.
    abbrev Ends : Type 0
    Ends = (c' : Cache K) × (release_deferred (c.cell e).key first e c ≡ some c') × LetsGo c es e c'

    last_of :
        (defer : List (K × Ptr)) (ms : List Ptr)
        → (c.cell e).pin ≡ 1
        → drop_deferred (c.cell e).key first e (set_elem e (repinned 0 (c.cell e)) c)
          ≡ gone_with c (c.cell e).key first e defer
        → Shrinks c (c.cell e).key first rest e (unlink e c.links) defer ms
        → Ends
    last_of defer ms p q shrinks = (
      gone_with c (c.cell e).key first e defer,
      release_deferred-drop c (c.cell e).key first e p ∙ ap some q,
      shrinking defer ms p shrinks,
    )

    last_inner : (xs ys : List Ptr) → rest ≡ xs ++ e ∷ ys → e ≢ first → (c.cell e).pin ≡ 1 → Ends
    last_inner xs ys q far p =
        let k = (c.cell e).key in
        let m : (e == first) ≡ false = ground arith in
        let shrinks =
          inner-Shrinks c k first found valid.late.unique xs e ys
            (subst (λ s. AreNodes (first ∷ s)) q group.nodes)
            (subst (IsRing c.links first) q group.ring) in
        last_of c.defer (xs ++ ys) p (drop_deferred-inner c k first e m)
          (subst (λ s. Shrinks c k first s e (unlink e c.links) c.defer (xs ++ ys)) (sym q) shrinks)

    last_first : (ms : List Ptr) → rest ≡ ms → first ≡ e → (c.cell e).pin ≡ 1 → Ends
    last_first [] q j p =
        let k = (c.cell e).key in
        let ring = subst (IsRing c.links first) q group.ring in
        let shrinks = last-Shrinks c k first found valid.late.unique (group.nodes.0.0) ring in
        let at =
          subst (λ s. Shrinks c k first s first (unlink first c.links) (erase k c.defer) []) (sym q)
            shrinks in
        last_of (erase k c.defer) [] p
          (drop_deferred-last c k first e ((==_iff e first).1 (sym j))
            (subst (λ r. c.links.prev r ≡ r) j ring.0))
          (subst (λ r. Shrinks c k first rest r (unlink r c.links) (erase k c.defer) []) j at)
    last_first (n ∷ ms) q j p =
        let k = (c.cell e).key in
        let ring = subst (IsRing c.links first) q group.ring in
        let nodes = subst (λ s. AreNodes (first ∷ s)) q group.nodes in
        let keyed = subst (All (λ r. (c.cell r).key ≡ k)) q group.keyed.1 in
        let shrinks = first-Shrinks c k first found valid.late.unique n ms nodes ring in
        let defer = assign k n (erase k c.defer) in
        let at =
          subst (λ s. Shrinks c k first s first (unlink first c.links) defer ms) (sym q) shrinks in
        last_of defer ms p
          (drop_deferred-first c k first e n ((==_iff e first).1 (sym j))
            (ap c.links.prev (sym j) ∙ ring.0) (λ h. nodes.1.0.0 (h ∙ sym j)) keyed.0)
          (subst (λ r. Shrinks c k first rest r (unlink r c.links) defer ms) j at)

    -- A release of a deferred element ends, and keeps the invariants.
    pub release_deferred-LetsGo : Ends
    release_deferred-LetsGo =
        let k = (c.cell e).key in
        let m = All-at (IsMember c valid.ring_of) valid.late_elems e valid.late.members i in
        elim (pin_cases (c.cell e).pin m.held) [
          | inr (pin, p) ↦ (
            set_elem e (repinned (suc pin) (c.cell e)) c,
            release_deferred-count_down c k first e pin p,
            counting pin p,
          )
          | inl p ↦
              let same = some-injective _ _ (sym m.found ∙ found) in
              elim (subst (λ r. IsIn e (r ∷ rest)) same m.within) [
                | inl j ↦ last_first rest refl j p
                | inr h ↦
                    let (xs, ys, q) = split_at e rest h in
                    last_inner xs ys q (All-at (λ r. r ≢ first) rest e group.nodes.1.0 h) p
              ]
        ]
