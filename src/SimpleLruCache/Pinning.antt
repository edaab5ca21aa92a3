-- ===== src/SimpleLruCache/Pinning.antt =====
-- `lookup` of simple_lru_cache/simple_lru_cache_inl.h on a cache with the representation invariants.
use jwt_verify_lib.Prelude.{
  ℕ, ◌+◌, ◌≡◌, ◌≢◌, refl, sym, ap, ◌∙◌, subst, true, false, List, ◌∷◌, ◌++◌, ◌==◌, ==_iff, ◌⊎◌, inl,
  inr, none, some, Bool-cases, Option-cases, arith,
}
use jwt_verify_lib.SimpleLruCache.{
  KeyEq, find, Ptr, null, set_at, unlink, ◌>>=◌, Elem, Cache, remove_expired_entries, add_64,
  pin_elem, lookup_with_options, lookup,
}
use jwt_verify_lib.SimpleLruCache.Links.{Links}
use jwt_verify_lib.SimpleLruCache.Valid.{IsValid, IsHeld}
use jwt_verify_lib.SimpleLruCache.Counting.{count_up, recounted}
use jwt_verify_lib.SimpleLruCache.Writing.{
  write_elem, rewritten_same, taken_off_same, same-IsSteady,
}
use jwt_verify_lib.SimpleLruCache.Rewriting.{rewrite-IsValid, take_off-IsValid}
use jwt_verify_lib.SimpleLruCache.Valid.{set_at_same, set_at_other}
use jwt_verify_lib.SimpleLruCache.Claims.{IsSteady-trans}
use jwt_verify_lib.SimpleLruCache.Keeping.{Keeps, remove_expired_entries-Keeps}
use jwt_verify_lib.SimpleLruCache.Late.{split_at}

module _ {K : Type 0} ⦃eq : KeyEq K⦄ where
  -- A write that leaves pins on the element keeps what is held.
  pub write_elem-IsHeld :
      (c : Cache K) (e : Ptr) (x : Elem K) (l : Links) (u : ℕ) (k : K) (v : Ptr)
      → x.value ≡ (c.cell e).value
      → x.pin ≢ 0
      → IsHeld c k v
      → IsHeld (write_elem e x l u c) k v
  write_elem-IsHeld c e x l u k v same pinned (r, f, w, n) = elim (Bool-cases (e == r)) [
    | inl m ↦
        let i = (==_iff e r).0 m in
        let cell : set_at c.cell e x r ≡ x =
          subst (λ s. set_at c.cell e x s ≡ x) i (set_at_same c.cell e x) in
        (
          r,
          f,
          ap (λ y. y.value) cell ∙ same ∙ ap (λ s. (c.cell s).value) i ∙ w,
          (λ z. pinned (sym (ap (λ y. y.pin) cell) ∙ z)),
        )
    | inr m ↦
        let far : e ≢ r = ground arith in
        let cell = set_at_other c.cell e x r far in
        (r, f, ap (λ y. y.value) cell ∙ w, (λ z. n (sym (ap (λ y. y.pin) cell) ∙ z)))
  ]

  pub write_elem-IsHeld_here :
      (c : Cache K) (e : Ptr) (x : Elem K) (l : Links) (u : ℕ) (k : K)
      → find k c.table ≡ some e
      → x.pin ≢ 0
      → IsHeld (write_elem e x l u c) k x.value
  write_elem-IsHeld_here c e x l u k f pinned =
      let cell = set_at_same c.cell e x in
      (e, f, ap (λ y. y.value) cell, (λ z. pinned (sym (ap (λ y. y.pin) cell) ∙ z)))

  -- The pin of an element of the table.
  abbrev pub pinned_elem : Elem K → Elem K
  pinned_elem x = record x { pin = x.pin + 1 }

  pin_elem-first :
      (e : Ptr) (c : Cache K)
      → c.lru ≡ true
      → ((c.cell e).pin == 0) ≡ true
      → pin_elem true e c
        ≡ write_elem e
            (pinned_elem (c.cell e))
            (unlink e c.links)
            (add_64 c.pinned_units (c.cell e).units)
            c
  unfolding pin_elem
  pin_elem-first e c l p = rw (p, l) refl

  pin_elem-again :
      (e : Ptr) (c : Cache K)
      → ((c.cell e).pin == 0) ≡ false
      → pin_elem true e c ≡ write_elem e (pinned_elem (c.cell e)) c.links c.pinned_units c
  unfolding pin_elem
  pin_elem-again e c p = rw p refl

  pin_elem-Keeps :
      (k : K) (e : Ptr) (es : List Ptr) (c : Cache K)
      → find k c.table ≡ some e
      → IsValid c es
      → (es' : List Ptr) × Keeps c (pin_elem true e c) es'
        × IsHeld (pin_elem true e c) k (c.cell e).value
  pin_elem-Keeps k e es c f valid =
      let x = pinned_elem (c.cell e) in
      let pinned : x.pin ≢ 0 = ground arith in
      elim (Bool-cases ((c.cell e).pin == 0)) [
        | inl p ↦
            let l = unlink e c.links in
            let u = add_64 c.pinned_units (c.cell e).units in
            let (xs, ys, q) =
              split_at e es ((valid.entries k e f).waits ((==_iff (c.cell e).pin 0).0 p)) in
            let valid' =
              take_off-IsValid c e x refl refl l u xs ys pinned refl
                (count_up c es k e x f valid pinned ((==_iff (c.cell e).pin 0).0 p) refl)
                (subst (IsValid c) q valid) in
            let start = subst (IsValid c) q valid in
            let steady =
              same-IsSteady c e x refl refl l u (xs ++ e ∷ ys) start
                (taken_off_same c e x refl refl l u xs ys refl start) in
            rw (pin_elem-first e c valid.in_lru_mode p) (
              xs ++ ys,
              (valid', (λ j v held. write_elem-IsHeld c e x l u j v refl pinned held), steady),
              write_elem-IsHeld_here c e x l u k f pinned,
            )
        | inr p ↦
            let l = c.links in
            let u = c.pinned_units in
            let n : (c.cell e).pin ≢ 0 = ground arith in
            let valid' =
              rewrite-IsValid c e x refl refl l u k es f n pinned refl
                (recounted c es k e x f valid pinned n refl) valid in
            let steady =
              same-IsSteady c e x refl refl l u es valid
                (rewritten_same c e x refl refl l u k es f n refl valid) in
            rw (pin_elem-again e c p) (
              es,
              (valid', (λ j v held. write_elem-IsHeld c e x l u j v refl pinned held), steady),
              write_elem-IsHeld_here c e x l u k f pinned,
            )
      ]

  lookup-missing :
      (k : K) (now : ℕ) (c c' : Cache K)
      → remove_expired_entries now c ≡ some c'
      → find k c'.table ≡ none
      → lookup k now c ≡ some (c', null)
  unfolding lookup lookup_with_options
  lookup-missing k now c c' q f = rw (q, ◌>>=◌, f) refl

  lookup-pin_elem :
      (k : K) (now : ℕ) (c c' : Cache K) (e : Ptr)
      → remove_expired_entries now c ≡ some c'
      → find k c'.table ≡ some e
      → lookup k now c ≡ some (pin_elem true e c', (c'.cell e).value)
  unfolding lookup lookup_with_options
  lookup-pin_elem k now c c' e q f = rw (q, ◌>>=◌, f) refl

  pub lookup-IsHeld :
      (k : K) (now : ℕ) (es : List Ptr) (c : Cache K)
      → IsValid c es
      → (c' : Cache K) × (es' : List Ptr) × (v : Ptr) × (lookup k now c ≡ some (c', v))
        × Keeps c c' es'
        × (((find k c'.table ≡ none) × (v ≡ null)) ⊎ IsHeld c' k v)
  lookup-IsHeld k now es c valid =
      let (c₁, es₁, q, (valid₁, kept₁, same₁)) = remove_expired_entries-Keeps now es c valid in
      elim (Option-cases (find k c₁.table)) [
        | inl f ↦
            (c₁, es₁, null, lookup-missing k now c c₁ q f, (valid₁, kept₁, same₁), inl (f, refl))
        | inr (e, f) ↦
            let (es₂, (valid₂, kept₂, same₂), held) = pin_elem-Keeps k e es₁ c₁ f valid₁ in
            (
              pin_elem true e c₁,
              es₂,
              (c₁.cell e).value,
              lookup-pin_elem k now c c₁ e q f,
              (valid₂, (λ j v h. kept₂ j v (kept₁ j v h)), IsSteady-trans same₁ same₂),
              inr held,
            )
      ]
