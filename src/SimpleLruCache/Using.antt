-- ===== src/SimpleLruCache/Using.antt =====
-- `stillInUse` and `inDeferredTable` of simple_lru_cache/simple_lru_cache_inl.h, on a cache with the
-- representation invariants.
use jwt_verify_lib.Prelude.{
  ℕ, zero, suc, ◌≤◌, ◌≡◌, ◌≢◌, ◌↔◌, refl, sym, ap, ◌∙◌, subst, true, false, Bool, not, ◌||◌, List,
  [], ◌∷◌, ◌==◌, ==_iff, ◌⊎◌, inl, inr, none, some, Option, if◌then◌else◌, Bool-cases, Option-cases,
  length, arith,
}
use jwt_verify_lib.SimpleLruCache.{
  KeyEq, find, Ptr, null, Cache, fits, deferred_loop, in_deferred_table, in_table, still_in_use,
}
use jwt_verify_lib.SimpleLruCache.Ring.{Linked, NotIn}
use jwt_verify_lib.SimpleLruCache.Late.{IsIn, All-at}
use jwt_verify_lib.SimpleLruCache.Claims.{IsDeferred, IsPutOff, deferred_within, late-IsDeferred}
use jwt_verify_lib.SimpleLruCache.Valid.{IsValid}
use jwt_verify_lib.SimpleLruCache.Searching.{distinct_within}
use mathlib.Core.Option.{none-ne-some}

-- The answer of a test that ends, and what it says.
abbrev pub Decides : Option Bool → Type 0 → Type 0
Decides o P = (b : Bool) × (o ≡ some b) × ((b ≡ true) ↔ P)

module _ {K : Type 0} where
  -- Whether any element of a list has the value.
  abbrev pub any_fits : Cache K → Ptr → List Ptr → Bool
  any_fits c value [] = false
  any_fits c value (e ∷ es) = fits c value e || any_fits c value es

  fits_iff :
      (c : Cache K) (value e : Ptr)
      → value ≢ null
      → (fits c value e ≡ true) ↔ ((c.cell e).value ≡ value)
  fits_iff c value e real = ground (arith, ==_iff (c.cell e).value value, ==_iff value null)

  any_fits-IsIn :
      (c : Cache K) (value : Ptr) (es : List Ptr)
      → value ≢ null
      → any_fits c value es ≡ true
      → (e : Ptr) × IsIn e es × ((c.cell e).value ≡ value)
  any_fits-IsIn c value [] real h = absurd (ground arith)
  any_fits-IsIn c value (e ∷ es) real h = elim (Bool-cases (fits c value e)) [
    | inl q ↦ (e, inl refl, (fits_iff c value e real).0 q)
    | inr q ↦
        let (r, i, w) =
          any_fits-IsIn c value es real (subst (λ b. (b || any_fits c value es) ≡ true) q h) in
        (r, inr i, w)
  ]

  IsIn-any_fits :
      (c : Cache K) (value e : Ptr) (es : List Ptr)
      → value ≢ null
      → IsIn e es
      → (c.cell e).value ≡ value
      → any_fits c value es ≡ true
  IsIn-any_fits c value e [] real i w = absurd i
  IsIn-any_fits c value e (x ∷ es) real (inl i) w =
      let h = (fits_iff c value x real).1 (ap (λ r. (c.cell r).value) i ∙ w) in
      ap (λ b. b || any_fits c value es) h
  IsIn-any_fits c value e (x ∷ es) real (inr i) w =
      let h = IsIn-any_fits c value e es real i w in
      elim (Bool-cases (fits c value x)) [
        | inl q ↦ ap (λ b. b || any_fits c value es) q
        | inr q ↦ ap (λ b. b || any_fits c value es) q ∙ h
      ]

  -- The rounds of the loop.
  deferred_loop-step :
      (fuel : ℕ) (first value e : Ptr) (c : Cache K)
      → deferred_loop (suc fuel) first value e c ≡ (
          if fits c value e
          then some true
          else if not (c.links.prev e == first)
          then deferred_loop fuel first value (c.links.prev e) c
          else some false)
  unfolding deferred_loop
  deferred_loop-step fuel first value e c = refl

  deferred_loop-any_fits :
      (fuel : ℕ) (first value a : Ptr) (ms : List Ptr) (c : Cache K)
      → Linked c.links a ms first
      → NotIn first ms
      → suc (length ms) ≤ fuel
      → deferred_loop fuel first value a c ≡ some (any_fits c value (a ∷ ms))
  deferred_loop-any_fits zero first value a ms c s n short = absurd (ground arith)
  deferred_loop-any_fits (suc fuel) first value a [] c (p, _) n short =
      let m : (first == first) ≡ true = (==_iff first first).1 refl in
      deferred_loop-step fuel first value a c
      ∙ rw (p, m)
          (elim (Bool-cases (fits c value a)) [
            | inl q ↦
                ap (λ b. if b then some true else some false) q
                ∙ ap (λ b. some (b || false)) (sym q)
            | inr q ↦
                ap (λ b. if b then some true else some false) q
                ∙ ap (λ b. some (b || false)) (sym q)
          ])
  deferred_loop-any_fits (suc fuel) first value a (x ∷ ms) c (p, _, s) (far, n) short =
      let m : (x == first) ≡ false = ground arith in
      let rest = deferred_loop-any_fits fuel first value x ms c s n (ground arith) in
      deferred_loop-step fuel first value a c
      ∙ rw (p, m)
          (elim (Bool-cases (fits c value a)) [
            | inl q ↦
                ap (λ b. if b then some true else deferred_loop fuel first value x c) q
                ∙ ap (λ b. some (b || any_fits c value (x ∷ ms))) (sym q)
            | inr q ↦
                ap (λ b. if b then some true else deferred_loop fuel first value x c) q
                ∙ rest
                ∙ ap (λ b. some (b || any_fits c value (x ∷ ms))) (sym q)
          ])

module _ {K : Type 0} ⦃eq : KeyEq K⦄ where
  -- The table has an element for the key, and its value is this.
  abbrev pub IsStored : Cache K → K → Ptr → Type 0
  IsStored c k v = (e : Ptr) × (find k c.table ≡ some e) × ((c.cell e).value ≡ v)

  in_table-none : (k : K) (v : Ptr) (c : Cache K) → find k c.table ≡ none → in_table k v c ≡ false
  unfolding in_table
  in_table-none k v c f = rw (in_table, f) refl

  in_table-some :
      (k : K) (v e : Ptr) (c : Cache K)
      → find k c.table ≡ some e
      → in_table k v c ≡ (v == null || v == (c.cell e).value)
  unfolding in_table
  in_table-some k v e c f = rw (in_table, f) refl

  in_table_iff :
      (k : K) (v : Ptr) (c : Cache K) → v ≢ null → (in_table k v c ≡ true) ↔ IsStored c k v
  in_table_iff k v c real = (
    (λ h. elim (Option-cases (find k c.table)) [
      | inl f ↦ let g = sym (in_table-none k v c f) ∙ h in absurd (ground arith)
      | inr (e, f) ↦
          let g = sym (in_table-some k v e c f) ∙ h in
          (e, f, ground (arith, ==_iff v (c.cell e).value, ==_iff v null))
    ]),
    (λ (e, f, w).
        in_table-some k v e c f ∙ ground (arith, ==_iff v (c.cell e).value, ==_iff v null)),
  )

  in_deferred_table-found :
      (k : K) (v first : Ptr) (c : Cache K)
      → find k c.defer ≡ some first
      → in_deferred_table k v c ≡ deferred_loop c.allocated first v first c
  unfolding in_deferred_table
  in_deferred_table-found k v first c f = rw (in_deferred_table, f) refl

  in_deferred_table-missing :
      (k : K) (v : Ptr) (c : Cache K) → find k c.defer ≡ none → in_deferred_table k v c ≡ some false
  unfolding in_deferred_table
  in_deferred_table-missing k v c f = rw (in_deferred_table, f) refl

  in_deferred_table-Decides :
      (c : Cache K) (es : List Ptr) (k : K) (v : Ptr)
      → IsValid c es
      → v ≢ null
      → Decides (in_deferred_table k v c) (IsPutOff c k v)
  in_deferred_table-Decides c es k v valid real = elim (Option-cases (find k c.defer)) [
    | inl g ↦ (
      false,
      in_deferred_table-missing k v c g,
      (
        (λ h. absurd (ground arith)),
        (λ (e, d, w). absurd (none-ne-some d.first (sym g ∙ d.found))),
      ),
    )
    | inr (first, g) ↦
        let ms = valid.ring_of k in
        let group = valid.late.groups k first g in
        let few = distinct_within (first ∷ ms) valid.late_elems group.nodes.1 group.known in
        (
          any_fits c v (first ∷ ms),
          in_deferred_table-found k v first c g
              ∙ deferred_loop-any_fits c.allocated first v first ms c group.ring group.nodes.1.0
                  (omega (arith, few, valid.few)),
          (
            (λ h.
                let (e, i, w) = any_fits-IsIn c v (first ∷ ms) real h in
                let known = All-at (λ r. IsIn r valid.late_elems) (first ∷ ms) e group.known i in
                let key = All-at (λ r. (c.cell r).key ≡ k) (first ∷ ms) e group.keyed i in
                (
                  e,
                  subst (λ j. IsDeferred c j e) key
                      (late-IsDeferred c valid.late_elems valid.ring_of e valid.late known),
                  w,
                )),
            (λ (e, d, w).
                IsIn-any_fits c v e (first ∷ ms) real
                  (deferred_within c valid.late_elems valid.ring_of k e first valid.late d g) w),
          ),
        )
  ]

  -- On a cache with the representation invariants, and for a value that is not null, `stillInUse` ends,
  -- and says whether the table has the value for the key, or a deferred element of the key has.
  pub still_in_use-Decides :
      (c : Cache K) (es : List Ptr) (k : K) (v : Ptr)
      → IsValid c es
      → v ≢ null
      → Decides (still_in_use k v c) (IsStored c k v ⊎ IsPutOff c k v)
  unfolding still_in_use
  still_in_use-Decides c es k v valid real = elim (Bool-cases (in_table k v c)) [
    | inl h ↦ rw h (true, refl, ((λ _. inl ((in_table_iff k v c real).0 h)), (λ _. refl)))
    | inr h ↦
        let (b, q, iff) = in_deferred_table-Decides c es k v valid real in
        rw h (
          b,
          q,
          (
            (λ t. inr (iff.0 t)),
            (λ p. elim p [
              | inl stored ↦ let t = (in_table_iff k v c real).1 stored in absurd (ground arith)
              | inr off ↦ iff.1 off
            ]),
          ),
        )
  ]
