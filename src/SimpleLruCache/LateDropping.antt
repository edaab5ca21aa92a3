-- ===== src/SimpleLruCache/LateDropping.antt =====
-- The last release of a deferred element of simple_lru_cache/simple_lru_cache_inl.h keeps the
-- representation invariants, where the circular list of its key shrinks by the element.
use jwt_verify_lib.Prelude.{
  ◌≡◌, ◌≢◌, refl, sym, ap, ◌∙◌, subst, true, List, [], ◌∷◌, ◌++◌, ◌⊎◌, inl, inr, some, All,
  Bool-cases, arith,
}
use jwt_verify_lib.SimpleLruCache.{KeyEq, find, Ptr, null, set_at, Elem, Cache, sub_64}
use jwt_verify_lib.SimpleLruCache.Links.{Links}
use jwt_verify_lib.SimpleLruCache.Ring.{
  IsRing, NotIn, IsDistinct, AreNodes, All-map, All-both, IsDistinct-without,
}
use jwt_verify_lib.SimpleLruCache.Tables.{IsUnique}
use jwt_verify_lib.SimpleLruCache.Late.{IsIn, All-at, All-IsIn, IsGroup, IsMember}
use jwt_verify_lib.SimpleLruCache.Regrouping.{Regroups}
use jwt_verify_lib.SimpleLruCache.Valid.{set_at_other, IsValid, Some-without}
use jwt_verify_lib.SimpleLruCache.LateCounting.{late_cell}
use mathlib.Core.Option.{some-injective}

module _ {K : Type 0} ⦃eq : KeyEq K⦄ where
  open eq use {is_equal, is_equal_iff}

  -- Links and a table of the deferred elements, in which a circular list of a key has lost one
  -- element and is otherwise the same.
  pub record Shrinks (c : Cache K) (k : K) (first : Ptr) (rest : List Ptr) (e : Ptr) (l : Links)
      (defer : List (K × Ptr)) (ms : List Ptr) : Type 0 where
    pub keeps :
        (r : Ptr)
        → NotIn r (first ∷ rest)
        → (l.prev r ≡ c.links.prev r) × (l.next r ≡ c.links.next r)
    pub stays : (r : Ptr) → c.links.next r ≡ null → l.next r ≡ null
    pub others : (j : K) → k ≢ j → find j defer ≡ find j c.defer
    pub unique : IsUnique defer
    pub ring : (a : Ptr) → find k defer ≡ some a → IsRing l a ms × AreNodes (a ∷ ms)
    pub within :
        (a : Ptr) → find k defer ≡ some a → All (λ r. IsIn r (first ∷ rest) × (r ≢ e)) (a ∷ ms)
    pub covers :
        (r : Ptr)
        → IsIn r (first ∷ rest)
        → r ≢ e
        → (a : Ptr) × (find k defer ≡ some a) × IsIn r (a ∷ ms)

  module _ (c : Cache K) (es us : List Ptr) (e : Ptr) (vs : List Ptr) (valid : IsValid c es)
      (parts : valid.late_elems ≡ us ++ e ∷ vs) (x : Elem K) (same_key : x.key ≡ (c.cell e).key)
      (same_units : x.units ≡ (c.cell e).units) (first : Ptr)
      (found : find (c.cell e).key c.defer ≡ some first) (l : Links) (defer : List (K × Ptr))
      (ms : List Ptr)
      (shrinks : Shrinks c (c.cell e).key first (valid.ring_of (c.cell e).key) e l defer ms) where
    -- The state without the element.
    abbrev pub without_late : Cache K
    without_late = record c {
      cell = set_at c.cell e x;
      links = l;
      defer = defer;
      units = sub_64 c.units (c.cell e).units;
      removed = c.removed ++ (c.cell e).value ∷ [];
      freed = set_at c.freed e true;
    }

    pub was_in : IsIn e valid.late_elems
    was_in = subst (IsIn e) (sym parts) (in_middle us)
      where
        in_middle : (ws : List Ptr) → IsIn e (ws ++ e ∷ vs)
        in_middle [] = inl refl
        in_middle (w ∷ ws) = inr (in_middle ws)

    left-IsDistinct : IsDistinct (us ++ vs) × NotIn e (us ++ vs)
    left-IsDistinct = IsDistinct-without us e vs (subst IsDistinct parts valid.late.distinct)

    -- Another deferred element is left.
    still_in : (r : Ptr) → IsIn r valid.late_elems → r ≢ e → IsIn r (us ++ vs)
    still_in r i far = Some-without _ us e vs (λ j. far (sym j)) (subst (IsIn r) parts i)

    key_of : (r : Ptr) → (set_at c.cell e x r).key ≡ (c.cell r).key
    key_of = late_cell c es e valid was_in x same_key same_units (λ y. y.key) same_key

    group : IsGroup c valid.late_elems (c.cell e).key first (valid.ring_of (c.cell e).key)
    group = valid.late.groups (c.cell e).key first found

    left-IsGroup :
        (a : Ptr)
        → find (c.cell e).key defer ≡ some a
        → IsGroup without_late (us ++ vs) (c.cell e).key a ms
    left-IsGroup a h =
        let rest = valid.ring_of (c.cell e).key in
        let (ring, nodes) = shrinks.ring a h in
        let within = shrinks.within a h in
        record {
          ring = ring;
          nodes = nodes;
          keyed =
              All-map (a ∷ ms)
                (λ r (i, far).
                  key_of r
                  ∙ All-at (λ s. (c.cell s).key ≡ (c.cell e).key) (first ∷ rest) r group.keyed i)
                within;
          known =
              All-map (a ∷ ms)
                (λ r (i, far).
                  still_in r (All-at (λ s. IsIn s valid.late_elems) (first ∷ rest) r group.known i)
                    far)
                within;
        }

    left-IsMember :
        (d : Ptr)
        → IsIn d (us ++ vs)
        → d ≢ e
        → (((set_at c.cell e x d).key ≡ (c.cell e).key) × IsMember without_late (λ _. ms) d)
          ⊎ (IsIn d valid.late_elems × ((c.cell d).key ≢ (c.cell e).key))
    left-IsMember d i far =
        let k = (c.cell e).key in
        let was = subst (IsIn d) (sym parts) (Some-with us i) in
        let m = All-at (IsMember c valid.ring_of) valid.late_elems d valid.late.members was in
        let off : e ≢ d = λ j. far (sym j) in
        elim (Bool-cases (is_equal (c.cell d).key k)) [
          | inr h ↦ inr (was, (λ q. let t = (is_equal_iff (c.cell d).key k).1 q in ground arith))
          | inl h ↦
              let q = (is_equal_iff (c.cell d).key k).0 h in
              let same_first =
                some-injective _ _ (sym m.found ∙ ap (λ j. find j c.defer) q ∙ found) in
              let (a, g, j) =
                shrinks.covers d
                  (subst (λ r. IsIn d (r ∷ valid.ring_of k)) same_first
                    (subst (λ s. IsIn d (m.first ∷ valid.ring_of s)) q m.within))
                  far in
              let key = key_of d ∙ q in
              inl (
                key,
                record {
                  alive = set_at_other c.freed e true d off ∙ m.alive;
                  held = λ z. m.held (sym (ap (λ y. y.pin) (set_at_other c.cell e x d off)) ∙ z);
                  real = m.real;
                  first = a;
                  found = subst (λ s. find s defer ≡ some a) (sym key) g;
                  within = j;
                },
              )
        ]
      where
        Some-with : (ws : List Ptr) → IsIn d (ws ++ vs) → IsIn d (ws ++ e ∷ vs)
        Some-with [] h = inr h
        Some-with (w ∷ ws) (inl h) = inl h
        Some-with (w ∷ ws) (inr h) = inr (Some-with ws h)

    pub left-Regroups : Regroups c without_late (c.cell e).key valid.late_elems (us ++ vs) ms
    left-Regroups =
        let rest = valid.ring_of (c.cell e).key in
        record {
          others = shrinks.others;
          unique = shrinks.unique;
          distinct = left-IsDistinct.0;
          same = λ d i far.
              let off : e ≢ d = λ q. far (ap (λ s. (c.cell s).key) (sym q)) in
              let (p, m) = shrinks.keeps d (
                All-map (first ∷ rest) (λ r h q. far (ap (λ s. (c.cell s).key) (sym q) ∙ h))
                  group.keyed) in
              (
                record {
                  same_prev = p;
                  same_next = m;
                  same_cell = set_at_other c.cell e x d off;
                  same_freed = set_at_other c.freed e true d off;
                },
                still_in d i (λ q. off (sym q)),
              );
          group = left-IsGroup;
          members =
              All-both {P = λ d. IsIn d (us ++ vs)} {Q = λ d. d ≢ e} (us ++ vs) left-IsMember
                (All-IsIn _ (us ++ vs) (λ d i. i)) left-IsDistinct.1;
        }
