-- ===== src/SimpleLruCache/Claims.antt =====
-- What a client of simple_lru_cache/simple_lru_cache_inl.h holds: the values of elements with pins, in
-- the table or deferred.
use jwt_verify_lib.Prelude.{◌≡◌, ◌≢◌, refl, sym, ap, ◌∙◌, subst, List, [], ◌∷◌, some, All}
use jwt_verify_lib.SimpleLruCache.Maps.{KeyEq, find}
use jwt_verify_lib.SimpleLruCache.Links.{Ptr, null, Links}
use jwt_verify_lib.SimpleLruCache.State.{Cache, head}
use jwt_verify_lib.SimpleLruCache.Ring.{Linked, IsRing, NotIn}
use jwt_verify_lib.SimpleLruCache.Late.{IsIn, All-at, IsSame, IsMember, IsLate, IsLate-frame}
use mathlib.Core.Option.{some-injective}

-- The links tell which elements stand between two.
chain_unique :
    (l : Links) (a : Ptr) (xs ys : List Ptr) (b : Ptr)
    → NotIn b xs
    → NotIn b ys
    → Linked l a xs b
    → Linked l a ys b
    → xs ≡ ys
chain_unique l a [] [] b nx ny s t = refl
chain_unique l a [] (y ∷ ys) b nx ny (p, _) (q, _, _) = absurd (ny.0 (sym q ∙ p))
chain_unique l a (x ∷ xs) [] b nx ny (p, _, _) (q, _) = absurd (nx.0 (sym p ∙ q))
chain_unique l a (x ∷ xs) (y ∷ ys) b nx ny (p, _, s) (q, _, t) =
    let i : y ≡ x = sym q ∙ p in
    ap (λ zs. x ∷ zs) (chain_unique l x xs ys b nx.1 ny.1 s (subst (λ r. Linked l r ys b) i t))
    ∙ ap (λ r. r ∷ ys) (sym i)

module _ {K : Type 0} ⦃eq : KeyEq K⦄ where
  -- The element is on the circular list that the table of the deferred elements has for the key.
  pub record IsDeferred (c : Cache K) (k : K) (e : Ptr) : Type 0 where
    pub first : Ptr
    pub ms : List Ptr
    pub found : find k c.defer ≡ some first
    pub ring : IsRing c.links first ms
    pub once : NotIn first ms
    pub within : IsIn e (first ∷ ms)

  -- The table of the deferred elements has an element for the key, and its value is this.
  abbrev pub IsPutOff : Cache K → K → Ptr → Type 0
  IsPutOff c k v = (e : Ptr) × IsDeferred c k e × ((c.cell e).value ≡ v)

  -- The address of a new element: it is not the head's, and no element of the table or the list has
  -- it, nor a deferred one.
  pub record IsFree (c : Cache K) (es : List Ptr) (p : Ptr) : Type 0 where
    pub real : (p ≢ null) × (p ≢ head)
    pub not_on_list : NotIn p es
    pub not_in_table : (k : K) (r : Ptr) → find k c.table ≡ some r → p ≢ r
    pub not_deferred : (k : K) (r : Ptr) → IsDeferred c k r → p ≢ r

  -- A deferred element is among those of the invariant, under its key; and the converse.
  pub IsDeferred-known :
      (c : Cache K) (ds : List Ptr) (ring_of : K → List Ptr) (k : K) (e : Ptr)
      → IsLate c ds ring_of
      → IsDeferred c k e
      → IsIn e ds × ((c.cell e).key ≡ k)
  IsDeferred-known c ds ring_of k e late d =
      let group = late.groups k d.first d.found in
      let same =
        chain_unique c.links d.first d.ms (ring_of k) d.first d.once group.nodes.1.0 d.ring
          group.ring in
      let i = subst (λ ms. IsIn e (d.first ∷ ms)) same d.within in
      (
        All-at (λ r. IsIn r ds) (d.first ∷ ring_of k) e group.known i,
        All-at (λ r. (c.cell r).key ≡ k) (d.first ∷ ring_of k) e group.keyed i,
      )

  -- And it is on the list of the key.
  pub deferred_within :
      (c : Cache K) (ds : List Ptr) (ring_of : K → List Ptr) (k : K) (e first : Ptr)
      → IsLate c ds ring_of
      → IsDeferred c k e
      → find k c.defer ≡ some first
      → IsIn e (first ∷ ring_of k)
  deferred_within c ds ring_of k e first late d found =
      let (i, key) = IsDeferred-known c ds ring_of k e late d in
      let m = All-at (IsMember c ring_of) ds e late.members i in
      let there = subst (λ j. IsIn e (m.first ∷ ring_of j)) key m.within in
      let same =
        some-injective _ _ (sym (subst (λ j. find j c.defer ≡ some m.first) key m.found) ∙ found) in
      subst (λ r. IsIn e (r ∷ ring_of k)) same there

  pub late-IsDeferred :
      (c : Cache K) (ds : List Ptr) (ring_of : K → List Ptr) (e : Ptr)
      → IsLate c ds ring_of
      → IsIn e ds
      → IsDeferred c (c.cell e).key e
  late-IsDeferred c ds ring_of e late i =
      let m = All-at (IsMember c ring_of) ds e late.members i in
      let group = late.groups (c.cell e).key m.first m.found in
      record {
        first = m.first;
        ms = ring_of (c.cell e).key;
        found = m.found;
        ring = group.ring;
        once = group.nodes.1.0;
        within = m.within;
      }

  -- What is deferred in one state is in another one with as many deferred elements.
  pub IsDeferred-kept :
      (c c' : Cache K) (ds ds' : List Ptr) (ring_of ring_of' : K → List Ptr)
      → IsLate c ds ring_of
      → IsLate c' ds' ring_of'
      → ((r : Ptr) → IsIn r ds → IsIn r ds' × ((c'.cell r).key ≡ (c.cell r).key))
      → (k : K) (e : Ptr) → IsDeferred c k e
      → IsDeferred c' k e
  IsDeferred-kept c c' ds ds' ring_of ring_of' late late' kept k e d =
      let (i, key) = IsDeferred-known c ds ring_of k e late d in
      let (i', key') = kept e i in
      subst (λ j. IsDeferred c' j e) (key' ∙ key) (late-IsDeferred c' ds' ring_of' e late' i')

  -- A step that leaves the deferred elements as they are, with their values.
  pub record IsSteady (c c' : Cache K) : Type 0 where
    pub same_defer : c'.defer ≡ c.defer
    pub still : (k : K) (v : Ptr) → IsPutOff c k v → IsPutOff c' k v
    pub not_new : (k : K) (e : Ptr) → IsDeferred c' k e → IsDeferred c k e

  pub IsSteady-refl : (c : Cache K) → IsSteady c c
  IsSteady-refl c = record { same_defer = refl; still = λ k v d. d; not_new = λ k e d. d }

  pub IsSteady-trans : {c c' c'' : Cache K} → IsSteady c c' → IsSteady c' c'' → IsSteady c c''
  IsSteady-trans s t = record {
    same_defer = t.same_defer ∙ s.same_defer;
    still = λ k v d. t.still k v (s.still k v d);
    not_new = λ k e d. s.not_new k e (t.not_new k e d);
  }

  pub IsSteady-frame :
      (c c' : Cache K) (ds : List Ptr) (ring_of : K → List Ptr)
      → IsLate c ds ring_of
      → c'.defer ≡ c.defer
      → All (IsSame c c') ds
      → IsSteady c c'
  IsSteady-frame c c' ds ring_of late i same =
      let late' = IsLate-frame c c' ds ring_of i same late in
      let cell : (r : Ptr) → IsIn r ds → c'.cell r ≡ c.cell r =
        λ r h. (All-at (IsSame c c') ds r same h).same_cell in
      record {
        same_defer = i;
        still = λ k v (e, d, w). (
          e,
          IsDeferred-kept c c' ds ds ring_of ring_of late late'
              (λ r h. (h, ap (λ y. y.key) (cell r h))) k e d,
          ap (λ y. y.value) (cell e (IsDeferred-known c ds ring_of k e late d).0) ∙ w,
        );
        not_new =
            IsDeferred-kept c' c ds ds ring_of ring_of late' late
              (λ r h. (h, sym (ap (λ y. y.key) (cell r h))));
      }
