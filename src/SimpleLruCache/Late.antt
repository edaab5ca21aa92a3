-- ===== src/SimpleLruCache/Late.antt =====
-- The deferred elements of the cache of simple_lru_cache/simple_lru_cache_inl.h: those that were
-- removed while they had pins, in one circular list for each key.
use jwt_verify_lib.Prelude.{
  ℕ, ◌+◌, ◌≡◌, ◌≢◌, refl, sym, ap, ◌∙◌, subst, false, List, [], ◌∷◌, ◌++◌, inl, inr, some, All,
  All-append, Some, arith,
}
use jwt_verify_lib.SimpleLruCache.Maps.{KeyEq, find}
use jwt_verify_lib.SimpleLruCache.Links.{Ptr, null, Links}
use jwt_verify_lib.SimpleLruCache.State.{Cache, head}
use jwt_verify_lib.SimpleLruCache.Ring.{
  IsRing, NotIn, IsDistinct, AreNodes, All-map, All-both, All-next, Linked-frame, Linked-left,
  All-left,
}
use jwt_verify_lib.SimpleLruCache.Tables.{IsUnique}

abbrev pub IsIn : Ptr → List Ptr → Type 0
IsIn p = Some (λ q. q ≡ p)

pub All-at : (P : Ptr → Type 0) (xs : List Ptr) (p : Ptr) → All P xs → IsIn p xs → P p
All-at P [] p h i = absurd i
All-at P (x ∷ xs) p (h, hs) (inl i) = subst P i h
All-at P (x ∷ xs) p (h, hs) (inr i) = All-at P xs p hs i

pub All-IsIn : (P : Ptr → Type 0) (xs : List Ptr) → ((p : Ptr) → IsIn p xs → P p) → All P xs
All-IsIn P [] f = tt
All-IsIn P (x ∷ xs) f = (f x (inl refl), All-IsIn P xs (λ p i. f p (inr i)))

pub split_at :
    (e : Ptr) (es : List Ptr) → IsIn e es → (xs : List Ptr) × (ys : List Ptr) × (es ≡ xs ++ e ∷ ys)
split_at e [] h = absurd h
split_at e (x ∷ xs) (inl h) = ([], xs, ap (λ y. y ∷ xs) h)
split_at e (x ∷ xs) (inr h) = let (ys, zs, q) = split_at e xs h in (x ∷ ys, zs, ap (λ y. x ∷ y) q)

-- The sum of a measure over a list.
abbrev pub sum_over : (Ptr → ℕ) → List Ptr → ℕ
sum_over f [] = 0
sum_over f (x ∷ xs) = f x + sum_over f xs

pub sum_over-same :
    (f g : Ptr → ℕ) (xs : List Ptr) → All (λ x. f x ≡ g x) xs → sum_over f xs ≡ sum_over g xs
sum_over-same f g [] h = refl
sum_over-same f g (x ∷ xs) (h, hs) = omega (arith, h, sum_over-same f g xs hs)

pub sum_over-without :
    (f : Ptr → ℕ) (xs : List Ptr) (e : Ptr) (ys : List Ptr)
    → sum_over f (xs ++ e ∷ ys) ≡ f e + sum_over f (xs ++ ys)
sum_over-without f [] e ys = refl
sum_over-without f (x ∷ xs) e ys = omega (arith, sum_over-without f xs e ys)

-- An element of a circular list is linked.
pub ring_next :
    (l : Links) (a : Ptr) (xs : List Ptr) (e : Ptr)
    → AreNodes (a ∷ xs)
    → IsRing l a xs
    → IsIn e (a ∷ xs)
    → l.next e ≢ null
ring_next l a xs e nodes ring (inl i) =
    subst (λ r. l.next r ≢ null) i (All-next l (λ r. r ≢ null) a xs a ring nodes.0)
ring_next l a xs e nodes ring (inr i) =
    let (ys, zs, q) = split_at e xs i in
    let ring' = subst (λ s. IsRing l a s) q ring in
    let nodes' = subst (λ s. NotIn null (a ∷ s)) q nodes.0 in
    All-next l (λ r. r ≢ null) a ys e (Linked-left l a ys e zs a ring')
      (nodes'.0, All-left _ ys (e ∷ zs) nodes'.1)

module _ {K : Type 0} where
  -- Nothing that an element holds is different in two states.
  pub record IsSame (c c' : Cache K) (d : Ptr) : Type 0 where
    pub same_prev : c'.links.prev d ≡ c.links.prev d
    pub same_next : c'.links.next d ≡ c.links.next d
    pub same_cell : c'.cell d ≡ c.cell d
    pub same_freed : c'.freed d ≡ c.freed d

  pub IsSame-IsRing :
      (c c' : Cache K) (a : Ptr) (xs : List Ptr)
      → All (IsSame c c') (a ∷ xs)
      → IsRing c.links a xs
      → IsRing c'.links a xs
  IsSame-IsRing c c' a xs h ring =
      let next = All-map (a ∷ xs) (λ d s. s.same_next) h in
      Linked-frame c.links c'.links a xs a (All-map (a ∷ xs) (λ d s. s.same_prev) h)
        (All-append _ xs (a ∷ []) next.1 (next.0, tt)) ring

  -- The elements that share a deferred key: they are a circular list from the first one.
  pub record IsGroup (c : Cache K) (ds : List Ptr) (k : K) (first : Ptr) (ms : List Ptr)
      : Type 0 where
    pub ring : IsRing c.links first ms
    pub nodes : AreNodes (first ∷ ms)
    pub keyed : All (λ r. (c.cell r).key ≡ k) (first ∷ ms)
    pub known : All (λ r. IsIn r ds) (first ∷ ms)

module _ {K : Type 0} ⦃eq : KeyEq K⦄ where
  -- A deferred element is alive, has pins, and is on the list of its key.
  pub record IsMember (c : Cache K) (ring_of : K → List Ptr) (d : Ptr) : Type 0 where
    pub alive : c.freed d ≡ false
    pub held : (c.cell d).pin ≢ 0
    pub real : (d ≢ null) × (d ≢ head)
    pub first : Ptr
    pub found : find (c.cell d).key c.defer ≡ some first
    pub within : IsIn d (first ∷ ring_of (c.cell d).key)

  -- The deferred elements are these, and those of a key are its first element and these.
  pub record IsLate (c : Cache K) (ds : List Ptr) (ring_of : K → List Ptr) : Type 0 where
    pub groups :
        (k : K) (first : Ptr) → find k c.defer ≡ some first → IsGroup c ds k first (ring_of k)
    pub members : All (IsMember c ring_of) ds
    pub distinct : IsDistinct ds
    pub unique : IsUnique c.defer

  -- A group of elements that are the same in the next state.
  pub IsGroup-frame :
      (c c' : Cache K) (ds ds' : List Ptr) (k : K) (first : Ptr) (ms : List Ptr)
      → All (IsSame c c') (first ∷ ms)
      → ((d : Ptr) → IsIn d (first ∷ ms) → IsIn d ds')
      → IsGroup c ds k first ms
      → IsGroup c' ds' k first ms
  IsGroup-frame c c' ds ds' k first ms same kept group = record {
    ring = IsSame-IsRing c c' first ms same group.ring;
    nodes = group.nodes;
    keyed = All-both (first ∷ ms) (λ d s h. ap (λ y. y.key) s.same_cell ∙ h) same group.keyed;
    known = All-IsIn _ (first ∷ ms) kept;
  }

  -- And a member.
  pub IsMember-frame :
      (c c' : Cache K) (ring_of ring_of' : K → List Ptr) (d first' : Ptr)
      → IsSame c c' d
      → (m : IsMember c ring_of d) → find (c.cell d).key c'.defer ≡ some first'
      → IsIn d (first' ∷ ring_of' (c.cell d).key)
      → IsMember c' ring_of' d
  IsMember-frame c c' ring_of ring_of' d first' s m f i =
      let key = sym (ap (λ y. y.key) s.same_cell) in
      record {
        alive = s.same_freed ∙ m.alive;
        held = λ p. m.held (sym (ap (λ y. y.pin) s.same_cell) ∙ p);
        real = m.real;
        first = first';
        found = subst (λ k. find k c'.defer ≡ some first') key f;
        within = subst (λ k. IsIn d (first' ∷ ring_of' k)) key i;
      }

  -- A step that leaves the deferred elements and their table alone.
  pub IsLate-frame :
      (c c' : Cache K) (ds : List Ptr) (ring_of : K → List Ptr)
      → c'.defer ≡ c.defer
      → All (IsSame c c') ds
      → IsLate c ds ring_of
      → IsLate c' ds ring_of
  IsLate-frame c c' ds ring_of i same late = record {
    groups = λ k first f.
        let group = late.groups k first (ap (find k) (sym i) ∙ f) in
        IsGroup-frame c c' ds ds k first (ring_of k)
          (All-map (first ∷ ring_of k) (λ d h. All-at (IsSame c c') ds d same h) group.known)
          (λ d h. All-at _ (first ∷ ring_of k) d group.known h) group;
    members =
        All-both ds
          (λ d s m.
            IsMember-frame c c' ring_of ring_of d m.first s m (ap (find (c.cell d).key) i ∙ m.found)
              m.within)
          same late.members;
    distinct = late.distinct;
    unique = subst IsUnique (sym i) late.unique;
  }

  -- A deferred element is linked.
  late_next :
      (c : Cache K) (ds : List Ptr) (ring_of : K → List Ptr)
      → IsLate c ds ring_of
      → All (λ d. c.links.next d ≢ null) ds
  late_next c ds ring_of late =
      All-map ds
        (λ d m.
          let group = late.groups (c.cell d).key m.first m.found in
          ring_next c.links m.first (ring_of (c.cell d).key) d group.nodes group.ring m.within)
        late.members

  -- What is not linked is not deferred, nor what has no pins.
  pub unlinked-NotIn :
      (c : Cache K) (ds : List Ptr) (ring_of : K → List Ptr) (r : Ptr)
      → IsLate c ds ring_of
      → c.links.next r ≡ null
      → NotIn r ds
  unlinked-NotIn c ds ring_of r late z =
      All-map ds (λ d n i. n (ap c.links.next i ∙ z)) (late_next c ds ring_of late)

  pub unpinned-NotIn :
      (c : Cache K) (ds : List Ptr) (ring_of : K → List Ptr) (r : Ptr)
      → IsLate c ds ring_of
      → (c.cell r).pin ≡ 0
      → NotIn r ds
  unpinned-NotIn c ds ring_of r late z =
      All-map ds (λ d m i. m.held (ap (λ s. (c.cell s).pin) i ∙ z)) late.members

  -- The list of the cache has no deferred element.
  pub late-apart :
      (c : Cache K) (ds : List Ptr) (ring_of : K → List Ptr) (es : List Ptr)
      → IsLate c ds ring_of
      → All (λ e. (c.cell e).pin ≡ 0) es
      → All (λ d. NotIn d (head ∷ es)) ds
  late-apart c ds ring_of es late unpinned =
      All-map ds
        (λ d m. (
          (λ i. m.real.1 (sym i)),
          All-map es (λ e p i. m.held (ap (λ s. (c.cell s).pin) (sym i) ∙ p)) unpinned,
        ))
        late.members
