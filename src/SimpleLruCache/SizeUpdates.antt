-- ===== src/SimpleLruCache/SizeUpdates.antt =====
-- `updateSize` of simple_lru_cache/simple_lru_cache_inl.h, on a cache with the representation
-- invariants.
use jwt_verify_lib.Prelude.{
  ℕ, zero, suc, ◌≤◌, ◌≡◌, refl, sym, ap, ◌∙◌, subst, true, false, not, List, [], ◌∷◌, ◌==◌, ==_iff,
  inl, inr, none, some, Option, Bool, if◌then◌else◌, Bool-cases, Option-cases, length, arith,
}
use jwt_verify_lib.SimpleLruCache.{
  KeyEq, find, Ptr, Cache, set_elem, add_64, sub_64, fits, resize_loop, resize_elem,
  resize_deferred, in_table, update_size, garbage_collect,
}
use jwt_verify_lib.SimpleLruCache.Ring.{Linked, NotIn}
use jwt_verify_lib.SimpleLruCache.Late.{IsIn, All-at}
use jwt_verify_lib.SimpleLruCache.Claims.{IsDeferred, IsDeferred-known, late-IsDeferred}
use jwt_verify_lib.SimpleLruCache.Valid.{IsValid}
use jwt_verify_lib.SimpleLruCache.Dropping.{garbage_collect-Drops}
use jwt_verify_lib.SimpleLruCache.Keeping.{Drops-Keeps}
use jwt_verify_lib.SimpleLruCache.Deferring.{IsClaimed}
use jwt_verify_lib.SimpleLruCache.Removing.{Keeps-IsClaimed}
use jwt_verify_lib.SimpleLruCache.Searching.{distinct_within}
use jwt_verify_lib.SimpleLruCache.Resizing.{resized, Resizes, Resizes-IsDeferred, Resizes-IsClaimed}
use jwt_verify_lib.SimpleLruCache.Updating.{resize_elem-Resizes, resize_late-Resizes}

module _ {K : Type 0} ⦃eq : KeyEq K⦄ where
  Resizes-refl : (c : Cache K) (es : List Ptr) → IsValid c es → Resizes c es c
  Resizes-refl c es valid = record {
    valid = valid;
    same_table = refl;
    same_defer = refl;
    same_links = refl;
    same_value = λ r. refl;
    same_pin = λ r. refl;
  }

  Resizes-trans :
      (c c' c'' : Cache K) (es : List Ptr) → Resizes c es c' → Resizes c' es c'' → Resizes c es c''
  Resizes-trans c c' c'' es s t = record {
    valid = t.valid;
    same_table = t.same_table ∙ s.same_table;
    same_defer = t.same_defer ∙ s.same_defer;
    same_links = t.same_links ∙ s.same_links;
    same_value = λ r. t.same_value r ∙ s.same_value r;
    same_pin = λ r. t.same_pin r ∙ s.same_pin r;
  }

  -- One round of the loop over the deferred elements.
  abbrev resized_if : Bool → ℕ → Ptr → Cache K → Cache K
  resized_if b units e c =
      if b
      then record (set_elem e (resized units (c.cell e)) c) {
        units = add_64 (sub_64 c.units (c.cell e).units) units;
      }
      else c

  abbrev resized_at : Ptr → ℕ → Ptr → Cache K → Cache K
  resized_at value units e c = resized_if (fits c value e) units e c

  resized_at-Resizes :
      (value : Ptr) (units : ℕ) (k : K) (e : Ptr) (c : Cache K) (es : List Ptr)
      → IsValid c es
      → IsDeferred c k e
      → Resizes c es (resized_at value units e c)
  resized_at-Resizes value units k e c es valid d = elim (Bool-cases (fits c value e)) [
    | inl q ↦
        let (i, _) = IsDeferred-known c valid.late_elems valid.ring_of k e valid.late d in
        subst (Resizes c es) (sym (ap (λ b. resized_if b units e c) q))
          (resize_late-Resizes c es e units valid i)
    | inr q ↦
        subst (Resizes c es) (sym (ap (λ b. resized_if b units e c) q)) (Resizes-refl c es valid)
  ]

  resize_loop-step :
      (fuel : ℕ) (first value : Ptr) (units : ℕ) (e : Ptr) (c : Cache K)
      → resize_loop (suc fuel) first value units e c ≡ (
          if not (c.links.prev e == first)
          then resize_loop fuel first value units (c.links.prev e) (resized_at value units e c)
          else some (resized_at value units e c))
  unfolding resize_loop
  resize_loop-step fuel first value units e c = refl

  -- A result in which only units differ.
  abbrev EndsResized : Cache K → List Ptr → Option (Cache K) → Type 0
  EndsResized c es o = (c' : Cache K) × (o ≡ some c') × Resizes c es c'

  resize_loop-Resizes :
      (fuel : ℕ) (first value : Ptr) (units : ℕ) (k : K) (a : Ptr) (ms : List Ptr) (c : Cache K)
      (es : List Ptr)
      → Linked c.links a ms first
      → NotIn first ms
      → suc (length ms) ≤ fuel
      → IsValid c es
      → ((r : Ptr) → IsIn r (a ∷ ms) → IsDeferred c k r)
      → EndsResized c es (resize_loop fuel first value units a c)
  resize_loop-Resizes zero first value units k a ms c es s n short valid d = absurd (ground arith)
  resize_loop-Resizes (suc fuel) first value units k a [] c es (p, _) n short valid d =
      let m : (first == first) ≡ true = (==_iff first first).1 refl in
      (
        resized_at value units a c,
        resize_loop-step fuel first value units a c ∙ rw (p, m) refl,
        resized_at-Resizes value units k a c es valid (d a (inl refl)),
      )
  resize_loop-Resizes (suc fuel) first value units k a (x ∷ ms) c es (p, _, s) (far, n) short valid
        d =
      let m : (x == first) ≡ false = ground arith in
      let c₁ = resized_at value units a c in
      let step = resized_at-Resizes value units k a c es valid (d a (inl refl)) in
      let (c', q, rest) =
        resize_loop-Resizes fuel first value units k x ms c₁ es
          (subst (λ l. Linked l x ms first) (sym step.same_links) s) n (ground arith) step.valid
          (λ r i. Resizes-IsDeferred c es c₁ step k r (d r (inr i))) in
      (
        c',
        resize_loop-step fuel first value units a c ∙ rw (p, m) refl ∙ q,
        Resizes-trans c c₁ c' es step rest,
      )

  resize_deferred-found :
      (k : K) (value : Ptr) (units : ℕ) (first : Ptr) (c : Cache K)
      → find k c.defer ≡ some first
      → resize_deferred k value units c ≡ resize_loop c.allocated first value units first c
  unfolding resize_deferred
  resize_deferred-found k value units first c f = rw (resize_deferred, f) refl

  resize_deferred-missing :
      (k : K) (value : Ptr) (units : ℕ) (c : Cache K)
      → find k c.defer ≡ none
      → resize_deferred k value units c ≡ some c
  unfolding resize_deferred
  resize_deferred-missing k value units c f = rw (resize_deferred, f) refl

  resize_deferred-Resizes :
      (k : K) (value : Ptr) (units : ℕ) (c : Cache K) (es : List Ptr)
      → IsValid c es
      → EndsResized c es (resize_deferred k value units c)
  resize_deferred-Resizes k value units c es valid = elim (Option-cases (find k c.defer)) [
    | inl g ↦ (c, resize_deferred-missing k value units c g, Resizes-refl c es valid)
    | inr (first, g) ↦
        let ms = valid.ring_of k in
        let group = valid.late.groups k first g in
        let few = distinct_within (first ∷ ms) valid.late_elems group.nodes.1 group.known in
        let (c', q, step) =
          resize_loop-Resizes c.allocated first value units k first ms c es group.ring
            group.nodes.1.0 (omega (arith, few, valid.few)) valid
            (λ r i.
              let known = All-at (λ s. IsIn s valid.late_elems) (first ∷ ms) r group.known i in
              let key = All-at (λ s. (c.cell s).key ≡ k) (first ∷ ms) r group.keyed i in
              subst (λ j. IsDeferred c j r) key
                (late-IsDeferred c valid.late_elems valid.ring_of r valid.late known)) in
        (c', resize_deferred-found k value units first c g ∙ q, step)
  ]

  -- The steps of `updateSize`.
  update_size-missing :
      (k : K) (value : Ptr) (units : ℕ) (c c₁ : Cache K)
      → find k c.table ≡ none
      → resize_deferred k value units c ≡ some c₁
      → update_size k value units c ≡ garbage_collect c₁
  unfolding update_size
  update_size-missing k value units c c₁ f q = rw (update_size, f, q) refl

  update_size-past :
      (k : K) (value : Ptr) (units : ℕ) (e : Ptr) (c c₁ : Cache K)
      → find k c.table ≡ some e
      → in_table k value c ≡ false
      → resize_deferred k value units c ≡ some c₁
      → update_size k value units c ≡ garbage_collect c₁
  unfolding update_size
  update_size-past k value units e c c₁ f h q = rw (update_size, f, h, q) refl

  update_size-found :
      (k : K) (value : Ptr) (units : ℕ) (e : Ptr) (c : Cache K)
      → find k c.table ≡ some e
      → in_table k value c ≡ true
      → update_size k value units c ≡ garbage_collect (resize_elem e units c)
  unfolding update_size
  update_size-found k value units e c f h = rw (update_size, f, h) refl

  -- A result with the invariants, in which every claim is left.
  abbrev pub EndsClaimed : Cache K → Option (Cache K) → Type 0
  EndsClaimed c o =
      (c' : Cache K) × (es' : List Ptr) × (o ≡ some c')
      × IsValid c' es'
      × ((k : K) (v : Ptr) → IsClaimed c k v → IsClaimed c' k v)

  resized-EndsClaimed :
      (c c₁ : Cache K) (es : List Ptr) → Resizes c es c₁ → EndsClaimed c (garbage_collect c₁)
  resized-EndsClaimed c c₁ es step =
      let (c', es', q, kept) =
        Drops-Keeps c₁ es _ step.valid (garbage_collect-Drops es c₁ step.valid).0 in
      (
        c',
        es',
        q,
        kept.0,
        (λ k v claim.
            Keeps-IsClaimed c₁ c' es' kept k v (Resizes-IsClaimed c es c₁ step k v claim)),
      )

  -- On a cache with the representation invariants, `updateSize` ends and keeps them, the sums of the
  -- units among them, whether the element is in the table, deferred, or missing; what a client had
  -- to release it has still.
  pub update_size-EndsClaimed :
      (k : K) (value : Ptr) (units : ℕ) (c : Cache K) (es : List Ptr)
      → IsValid c es
      → EndsClaimed c (update_size k value units c)
  update_size-EndsClaimed k value units c es valid =
      let (c₁, q, step) = resize_deferred-Resizes k value units c es valid in
      elim (Option-cases (find k c.table)) [
        | inl f ↦
            subst (EndsClaimed c) (sym (update_size-missing k value units c c₁ f q))
              (resized-EndsClaimed c c₁ es step)
        | inr (e, f) ↦ elim (Bool-cases (in_table k value c)) [
          | inl h ↦ subst (EndsClaimed c) (sym (update_size-found k value units e c f h)) (
              resized-EndsClaimed c (resize_elem e units c) es
                (resize_elem-Resizes c es k e units valid f))
          | inr h ↦
              subst (EndsClaimed c) (sym (update_size-past k value units e c c₁ f h q))
                (resized-EndsClaimed c c₁ es step)
        ]
      ]
