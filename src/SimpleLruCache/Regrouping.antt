-- ===== src/SimpleLruCache/Regrouping.antt =====
-- The deferred elements of the cache of simple_lru_cache/simple_lru_cache_inl.h, where those of one
-- key change.
use jwt_verify_lib.Prelude.{
  ◌≡◌, ◌≢◌, sym, ap, ◌∙◌, subst, true, List, ◌∷◌, ◌⊎◌, inl, inr, some, if◌then◌else◌, All,
  Bool-cases,
}
use jwt_verify_lib.SimpleLruCache.Maps.{KeyEq, find}
use jwt_verify_lib.SimpleLruCache.Links.{Ptr}
use jwt_verify_lib.SimpleLruCache.State.{Cache}
use jwt_verify_lib.SimpleLruCache.Ring.{IsDistinct, All-map, All-both}
use jwt_verify_lib.SimpleLruCache.Tables.{IsUnique, apart}
use jwt_verify_lib.SimpleLruCache.Late.{
  IsIn, All-at, IsSame, IsGroup, IsGroup-frame, IsMember, IsMember-frame, IsLate,
}

module _ {K : Type 0} ⦃eq : KeyEq K⦄ where
  open eq use {is_equal, is_equal_iff}

  -- Other elements for one key.
  abbrev pub put_at : K → List Ptr → (K → List Ptr) → K → List Ptr
  put_at k ms ring_of j = if is_equal k j then ms else ring_of j

  -- A step from the deferred elements `ds` to `ds'`, in which those of the other keys stay, and those
  -- of the key are `ms` from then on, behind the first one.
  pub record Regroups (c c' : Cache K) (k : K) (ds ds' ms : List Ptr) : Type 0 where
    pub others : (j : K) → k ≢ j → find j c'.defer ≡ find j c.defer
    pub unique : IsUnique c'.defer
    pub distinct : IsDistinct ds'
    pub same : (d : Ptr) → IsIn d ds → (c.cell d).key ≢ k → IsSame c c' d × IsIn d ds'
    pub group : (first : Ptr) → find k c'.defer ≡ some first → IsGroup c' ds' k first ms
    pub members :
        All
          (λ d.
            (((c'.cell d).key ≡ k) × IsMember c' (λ _. ms) d) ⊎ (IsIn d ds × ((c.cell d).key ≢ k)))
          ds'

  module _ (c c' : Cache K) (k : K) (ds ds' ms : List Ptr) (ring_of : K → List Ptr)
      (late : IsLate c ds ring_of) (r : Regroups c c' k ds ds' ms) where
    regroup_other :
        (j : K) (first : Ptr)
        → k ≢ j
        → IsGroup c ds j first (ring_of j)
        → IsGroup c' ds' j first (ring_of j)
    regroup_other j first far group =
        let kept =
          All-both {R = λ d. IsSame c c' d × IsIn d ds'} (first ∷ ring_of j)
            (λ d h q. r.same d h (λ i. far (sym i ∙ q))) group.known group.keyed in
        IsGroup-frame c c' ds ds' j first (ring_of j)
          (All-map (first ∷ ring_of j) (λ d h. h.0) kept)
          (λ d i. (All-at _ (first ∷ ring_of j) d kept i).1) group

    regroup-IsMember :
        (d : Ptr)
        → (((c'.cell d).key ≡ k) × IsMember c' (λ _. ms) d) ⊎ (IsIn d ds × ((c.cell d).key ≢ k))
        → IsMember c' (put_at k ms ring_of) d
    regroup-IsMember d (inl (key, m)) =
        let here : is_equal k (c'.cell d).key ≡ true =
          (is_equal_iff k (c'.cell d).key).1 (sym key) in
        record {
          alive = m.alive;
          held = m.held;
          real = m.real;
          first = m.first;
          found = m.found;
          within = rw here m.within;
        }
    regroup-IsMember d (inr (h, far)) =
        let m = All-at (IsMember c ring_of) ds d late.members h in
        let off : k ≢ (c.cell d).key = λ i. far (sym i) in
        IsMember-frame c c' ring_of (put_at k ms ring_of) d m.first (r.same d h far).0 m
          (r.others (c.cell d).key off ∙ m.found)
          (elim (Bool-cases (is_equal k (c.cell d).key)) [
            | inl q ↦ absurd (off ((is_equal_iff k (c.cell d).key).0 q))
            | inr q ↦ rw q m.within
          ])

    pub Regroups-IsLate : IsLate c' ds' (put_at k ms ring_of)
    Regroups-IsLate = record {
      groups = λ j first f. elim (Bool-cases (is_equal k j)) [
        | inl q ↦
            let i = (is_equal_iff k j).0 q in
            rw q (
              subst (λ m. IsGroup c' ds' m first ms) i
                (r.group first (ap (λ m. find m c'.defer) i ∙ f)))
        | inr q ↦
            let far : k ≢ j = λ i. apart k j q (sym i) in
            rw q (regroup_other j first far (late.groups j first (sym (r.others j far) ∙ f)))
      ];
      members = All-map ds' regroup-IsMember r.members;
      distinct = r.distinct;
      unique = r.unique;
    }
