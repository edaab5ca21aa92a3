-- ===== src/SimpleLruCache/Resizing.antt =====
-- A change of the units of one element of the cache of simple_lru_cache/simple_lru_cache_inl.h keeps
-- the representation invariants.
use jwt_verify_lib.Prelude.{
  ℕ, ◌+◌, ◌%◌, ◌^◌, ◌≡◌, ◌≢◌, refl, sym, ap, ◌∙◌, subst, List, ◌∷◌, ◌==◌, ==_iff, inl, inr, some,
  Bool-cases, arith,
}
use jwt_verify_lib.SimpleLruCache.{KeyEq, find, Ptr, set_at, Elem, Cache, set_elem, add_64, sub_64}
use jwt_verify_lib.SimpleLruCache.Ring.{IsRing, All-map}
use jwt_verify_lib.SimpleLruCache.Sums.{total, sub_64-total, add_64-total}
use jwt_verify_lib.SimpleLruCache.Late.{IsIn, sum_over, IsLate}
use jwt_verify_lib.SimpleLruCache.Claims.{IsDeferred}
use jwt_verify_lib.SimpleLruCache.Valid.{set_at_same, set_at_other, pinned_of, IsValid}
use jwt_verify_lib.SimpleLruCache.Deferring.{IsClaimed}

-- A write keeps what the new value has in common with the old one.
pub set_at_kept :
    {A B : Type 0} (f : Ptr → A) (e : Ptr) (x : A) (g : A → B)
    → g x ≡ g (f e)
    → (r : Ptr) → g (set_at f e x r) ≡ g (f r)
set_at_kept f e x g h r = elim (Bool-cases (e == r)) [
  | inl m ↦
      let j = (==_iff e r).0 m in
      subst (λ s. g (set_at f e x s) ≡ g (f s)) j (ap g (set_at_same f e x) ∙ h)
  | inr m ↦ let n : e ≢ r = ground arith in ap g (set_at_other f e x r n)
]

module _ {K : Type 0} ⦃eq : KeyEq K⦄ where
  -- The element with other units.
  abbrev pub resized : ℕ → Elem K → Elem K
  resized units x = record x { units = units }

  -- A state in which only units differ.
  pub record Resizes (c : Cache K) (es : List Ptr) (c' : Cache K) : Type 0 where
    pub valid : IsValid c' es
    pub same_table : c'.table ≡ c.table
    pub same_defer : c'.defer ≡ c.defer
    pub same_links : c'.links ≡ c.links
    pub same_value : (r : Ptr) → (c'.cell r).value ≡ (c.cell r).value
    pub same_pin : (r : Ptr) → (c'.cell r).pin ≡ (c.cell r).pin

  pub Resizes-IsDeferred :
      (c : Cache K) (es : List Ptr) (c' : Cache K)
      → Resizes c es c'
      → (k : K) (r : Ptr) → IsDeferred c k r
      → IsDeferred c' k r
  Resizes-IsDeferred c es c' s k r d = record {
    first = d.first;
    ms = d.ms;
    found = ap (find k) s.same_defer ∙ d.found;
    ring = subst (λ l. IsRing l d.first d.ms) (sym s.same_links) d.ring;
    once = d.once;
    within = d.within;
  }

  pub Resizes-IsClaimed :
      (c : Cache K) (es : List Ptr) (c' : Cache K)
      → Resizes c es c'
      → (k : K) (v : Ptr) → IsClaimed c k v
      → IsClaimed c' k v
  Resizes-IsClaimed c es c' s k v (inl (r, f, w, n)) =
      inl (r, ap (find k) s.same_table ∙ f, s.same_value r ∙ w, (λ z. n (sym (s.same_pin r) ∙ z)))
  Resizes-IsClaimed c es c' s k v (inr (r, d, w)) =
      inr (r, Resizes-IsDeferred c es c' s k r d, s.same_value r ∙ w)

  module _ (c : Cache K) (es : List Ptr) (e : Ptr) (units : ℕ) (valid : IsValid c es) where
    abbrev pub new_cell : Ptr → Elem K
    new_cell = set_at c.cell e (resized units (c.cell e))

    key_kept : (r : Ptr) → (new_cell r).key ≡ (c.cell r).key
    key_kept = set_at_kept c.cell e (resized units (c.cell e)) (λ y. y.key) refl

    pin_kept : (r : Ptr) → (new_cell r).pin ≡ (c.cell r).pin
    pin_kept = set_at_kept c.cell e (resized units (c.cell e)) (λ y. y.pin) refl

    -- The state with new units, and new sizes.
    abbrev pub with_units : ℕ → ℕ → Cache K
    with_units size pinned_size = record (set_elem e (resized units (c.cell e)) c) {
      units = size;
      pinned_units = pinned_size;
    }

    with_units-IsLate :
        (size pinned_size : ℕ) → IsLate (with_units size pinned_size) valid.late_elems valid.ring_of
    with_units-IsLate size pinned_size = record {
      groups = λ k first f.
          let group = valid.late.groups k first f in
          record {
            ring = group.ring;
            nodes = group.nodes;
            keyed = All-map (first ∷ valid.ring_of k) (λ r h. key_kept r ∙ h) group.keyed;
            known = group.known;
          };
      members =
          All-map valid.late_elems
            (λ d m. record {
              alive = m.alive;
              held = λ z. m.held (sym (pin_kept d) ∙ z);
              real = m.real;
              first = m.first;
              found = subst (λ k. find k c.defer ≡ some m.first) (sym (key_kept d)) m.found;
              within = subst (λ k. IsIn d (m.first ∷ valid.ring_of k)) (sym (key_kept d)) m.within;
            })
            valid.late.members;
      distinct = valid.late.distinct;
      unique = valid.late.unique;
    }

    pub with_units-Resizes :
        (size pinned_size : ℕ)
        → size
          ≡ (total (λ r. (new_cell r).units) c.table
              + sum_over (λ r. (new_cell r).units) valid.late_elems)
            % 2 ^ 64
        → pinned_size ≡ total (λ r. pinned_of (new_cell r)) c.table % 2 ^ 64
        → Resizes c es (with_units size pinned_size)
    with_units-Resizes size pinned_size sized pinned = record {
      valid = record {
        in_lru_mode = valid.in_lru_mode;
        ring = valid.ring;
        nodes = valid.nodes;
        listed =
            All-map es (λ r f. subst (λ k. find k c.table ≡ some r) (sym (key_kept r)) f)
              valid.listed;
        unpinned = All-map es (λ r p. pin_kept r ∙ p) valid.unpinned;
        entries = λ k r f.
            let entry = valid.entries k r f in
            record {
              keyed = key_kept r ∙ entry.keyed;
              alive = entry.alive;
              real = entry.real;
              waits = λ p. entry.waits (sym (pin_kept r) ∙ p);
              alone = λ n. entry.alone (λ p. n (pin_kept r ∙ p));
            };
        unique = valid.unique;
        late_elems = valid.late_elems;
        ring_of = valid.ring_of;
        late = with_units-IsLate size pinned_size;
        few = valid.few;
        sized = sized;
        pinned = pinned;
      };
      same_table = refl;
      same_defer = refl;
      same_links = refl;
      same_value = set_at_kept c.cell e (resized units (c.cell e)) (λ y. y.value) refl;
      same_pin = pin_kept;
    }

    -- A sum that loses the old part and gets the new one.
    pub exchange :
        (s u rest : ℕ) (old : ℕ)
        → s ≡ (old + rest) % 2 ^ 64
        → add_64 (sub_64 s old) u ≡ (rest + u) % 2 ^ 64
    exchange s u rest old h =
        ap (λ n. add_64 (sub_64 n old) u) h
        ∙ ap (λ n. add_64 n u) (sub_64-total old rest)
        ∙ add_64-total u rest
