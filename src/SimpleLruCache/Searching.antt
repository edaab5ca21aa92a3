-- ===== src/SimpleLruCache/Searching.antt =====
-- The search of `releaseWithOptions` of simple_lru_cache/simple_lru_cache_inl.h in the deferred elements
-- of a key.
use jwt_verify_lib.Prelude.{
  ℕ, zero, suc, ◌≤◌, ◌≡◌, ◌≢◌, refl, sym, ap, ◌∙◌, subst, true, false, List, [], ◌∷◌, ◌++◌, ◌==◌,
  ==_iff, inl, inr, some, if◌then◌else◌, All, Bool-cases, length, length-append, arith,
}
use jwt_verify_lib.SimpleLruCache.Maps.{KeyEq}
use jwt_verify_lib.SimpleLruCache.Links.{Ptr}
use jwt_verify_lib.SimpleLruCache.State.{Cache}
use jwt_verify_lib.SimpleLruCache.Deferred.{search_loop}
use jwt_verify_lib.SimpleLruCache.Ring.{Linked, NotIn, IsDistinct, All-both}
use jwt_verify_lib.SimpleLruCache.Late.{IsIn, split_at, IsGroup}
use jwt_verify_lib.SimpleLruCache.Valid.{IsValid, Some-without}

-- Different elements of a list are not more than the list has.
pub distinct_within :
    (xs ds : List Ptr) → IsDistinct xs → All (λ r. IsIn r ds) xs → length xs ≤ length ds
distinct_within [] ds d h = omega arith
distinct_within (x ∷ xs) ds (n, d) (i, h) =
    let (us, vs, q) = split_at x ds i in
    let rest = distinct_within xs (us ++ vs) d (
      All-both {P = λ r. r ≢ x} xs
        (λ r far j. Some-without _ us x vs (λ p. far (sym p)) (subst (IsIn r) q j)) n h) in
    omega (arith, rest, ap length q, length-append us vs, length-append us (x ∷ vs))

module _ {K : Type 0} where
  -- The first element with the value, where the walk goes; and else the one where it ends.
  abbrev pub pick : Cache K → Ptr → Ptr → List Ptr → Ptr
  pick c value first [] = first
  pick c value first (e ∷ es) = if (c.cell e).value == value then e else pick c value first es

  pick-here :
      (c : Cache K) (value first m : Ptr) (ms : List Ptr)
      → ((c.cell m).value == value) ≡ true
      → pick c value first (m ∷ ms) ≡ m
  pick-here c value first m ms q = rw q refl

  pick-past :
      (c : Cache K) (value first m : Ptr) (ms : List Ptr)
      → ((c.cell m).value == value) ≡ false
      → pick c value first (m ∷ ms) ≡ pick c value first ms
  pick-past c value first m ms q = rw q refl

  pub pick-IsIn :
      (c : Cache K) (value first : Ptr) (ms : List Ptr) → IsIn (pick c value first ms) (first ∷ ms)
  pick-IsIn c value first [] = inl refl
  pick-IsIn c value first (m ∷ ms) = elim (Bool-cases ((c.cell m).value == value)) [
    | inl q ↦
        subst (λ r. IsIn r (first ∷ m ∷ ms)) (sym (pick-here c value first m ms q)) (inr (inl refl))
    | inr q ↦
        subst (λ r. IsIn r (first ∷ m ∷ ms)) (sym (pick-past c value first m ms q))
          (elim (pick-IsIn c value first ms) [ inl i ↦ inl i | inr i ↦ inr (inr i) ])
  ]

  -- If any element has the value, the one that is found has.
  pub pick-fits :
      (c : Cache K) (value first : Ptr) (ms : List Ptr) (e : Ptr)
      → IsIn e (first ∷ ms)
      → (c.cell e).value ≡ value
      → (c.cell (pick c value first ms)).value ≡ value
  pick-fits c value first [] e (inl i) w = ap (λ r. (c.cell r).value) i ∙ w
  pick-fits c value first [] e (inr i) w = absurd i
  pick-fits c value first (m ∷ ms) e i w = elim (Bool-cases ((c.cell m).value == value)) [
    | inl q ↦
        ap (λ r. (c.cell r).value) (pick-here c value first m ms q)
        ∙ (==_iff (c.cell m).value value).0 q
    | inr q ↦ ap (λ r. (c.cell r).value) (pick-past c value first m ms q) ∙ elim i [
      | inl j ↦ pick-fits c value first ms e (inl j) w
      | inr (inl j) ↦
          let w' = ap (λ r. (c.cell r).value) j ∙ w in
          let t = (==_iff (c.cell m).value value).1 w' in absurd (ground arith)
      | inr (inr j) ↦ pick-fits c value first ms e (inr j) w
    ]
  ]

  search_loop-end :
      (fuel : ℕ) (first value : Ptr) (c : Cache K)
      → search_loop fuel first value first c ≡ some first
  unfolding search_loop
  search_loop-end zero first value c =
      let m : (first == first) ≡ true = (==_iff first first).1 refl in rw m refl
  search_loop-end (suc fuel) first value c =
      let m : (first == first) ≡ true = (==_iff first first).1 refl in rw m refl

  search_loop-here :
      (fuel : ℕ) (first value e : Ptr) (c : Cache K)
      → ((c.cell e).value == value) ≡ true
      → search_loop (suc fuel) first value e c ≡ some e
  unfolding search_loop
  search_loop-here fuel first value e c q = elim (Bool-cases (e == first)) [
    | inl m ↦ rw m refl
    | inr m ↦ rw (m, q) refl
  ]

  search_loop-past :
      (fuel : ℕ) (first value e : Ptr) (c : Cache K)
      → e ≢ first
      → ((c.cell e).value == value) ≡ false
      → search_loop (suc fuel) first value e c ≡ search_loop fuel first value (c.links.prev e) c
  unfolding search_loop
  search_loop-past fuel first value e c n q =
      let m : (e == first) ≡ false = ground arith in rw (m, q) refl

  search_loop-pick :
      (fuel : ℕ) (first value a : Ptr) (ms : List Ptr) (c : Cache K)
      → Linked c.links a ms first
      → NotIn first ms
      → length ms ≤ fuel
      → search_loop fuel first value (c.links.prev a) c ≡ some (pick c value first ms)
  search_loop-pick fuel first value a [] c (p, _) n short =
      rw p (search_loop-end fuel first value c)
  search_loop-pick zero first value a (m ∷ ms) c (p, _, s) n short = absurd (ground arith)
  search_loop-pick (suc fuel) first value a (m ∷ ms) c (p, _, s) (far, n) short =
      rw p (elim (Bool-cases ((c.cell m).value == value)) [
        | inl q ↦
            search_loop-here fuel first value m c q ∙ ap some (sym (pick-here c value first m ms q))
        | inr q ↦
            search_loop-past fuel first value m c far q
            ∙ search_loop-pick fuel first value m ms c s n (ground arith)
            ∙ ap some (sym (pick-past c value first m ms q))
      ])

module _ {K : Type 0} ⦃eq : KeyEq K⦄ where
  -- In a cache with the representation invariants the search ends within its fuel.
  pub search_loop-finds :
      (c : Cache K) (es : List Ptr) (k : K) (first value : Ptr)
      → (valid : IsValid c es) → IsGroup c valid.late_elems k first (valid.ring_of k)
      → search_loop c.allocated first value (c.links.prev first) c
        ≡ some (pick c value first (valid.ring_of k))
  search_loop-finds c es k first value valid group =
      let few =
        distinct_within (first ∷ valid.ring_of k) valid.late_elems group.nodes.1 group.known in
      search_loop-pick c.allocated first value first (valid.ring_of k) c group.ring group.nodes.1.0
        (omega (arith, few, valid.few))
