-- ===== src/SimpleLruCache/Sweeping.antt =====
-- `removeUnpinned` of simple_lru_cache/simple_lru_cache_inl.h, on a cache with the representation
-- invariants.
use jwt_verify_lib.Prelude.{
  ℕ, zero, suc, ◌≤◌, ◌≡◌, ◌≢◌, refl, sym, ap, ◌∙◌, subst, true, false, List, [], ◌∷◌, ◌++◌, ◌==◌,
  ==_iff, Option, ◌⊎◌, inl, inr, some, length, length-append, arith,
}
use jwt_verify_lib.SimpleLruCache.Maps.{KeyEq, find}
use jwt_verify_lib.SimpleLruCache.Links.{Ptr, Links}
use jwt_verify_lib.SimpleLruCache.State.{Cache, head, remove}
use jwt_verify_lib.SimpleLruCache.Loops.{unpinned_loop, remove_unpinned}
use jwt_verify_lib.SimpleLruCache.Ring.{Linked, All-middle, Linked-left, append_nil}
use jwt_verify_lib.SimpleLruCache.Claims.{IsSteady-refl, IsSteady-trans}
use jwt_verify_lib.SimpleLruCache.Valid.{
  IsValid, enough_fuel, drop_elem, drop_elem-IsValid, drop_elem-IsHeld, drop_elem-IsSteady,
}
use jwt_verify_lib.SimpleLruCache.Dropping.{remove-drop}
use jwt_verify_lib.SimpleLruCache.Keeping.{Keeps}

-- The last element behind another one.
abbrev pub newest : Ptr → List Ptr → Ptr
newest a [] = a
newest a (x ∷ xs) = newest x xs

next-newest :
    (l : Links) (a : Ptr) (xs : List Ptr) (b : Ptr) → Linked l a xs b → l.next b ≡ newest a xs
next-newest l a [] b (_, n) = n
next-newest l a (x ∷ xs) b (_, _, s) = next-newest l x xs b s

newest-last : (a : Ptr) (xs : List Ptr) (e : Ptr) → newest a (xs ++ e ∷ []) ≡ e
newest-last a [] e = refl
newest-last a (x ∷ xs) e = newest-last x xs e

last_cases : (es : List Ptr) → (es ≡ []) ⊎ ((xs : List Ptr) × (e : Ptr) × (es ≡ xs ++ e ∷ []))
last_cases [] = inl refl
last_cases (x ∷ xs) = inr (elim (last_cases xs) [
  | inl q ↦ ([], x, ap (λ ys. x ∷ ys) q)
  | inr (ys, e, q) ↦ (x ∷ ys, e, ap (λ zs. x ∷ zs) q)
])

module _ {K : Type 0} ⦃eq : KeyEq K⦄ where
  -- The rounds of the loop.
  unpinned_loop-head : (fuel : ℕ) (c : Cache K) → unpinned_loop fuel head c ≡ some c
  unfolding unpinned_loop
  unpinned_loop-head zero c = refl
  unpinned_loop-head (suc fuel) c = refl

  unpinned_loop-remove :
      (fuel : ℕ) (e : Ptr) (c : Cache K)
      → (e == head) ≡ false
      → ((c.cell e).pin == 0) ≡ true
      → unpinned_loop (suc fuel) e c ≡ unpinned_loop fuel (c.links.next e) (remove (c.cell e).key c)
  unfolding unpinned_loop
  unpinned_loop-remove fuel e c m p = rw (m, p) refl

  -- The state of a cache whose list is empty at the end of the loop.
  abbrev pub EndsEmpty : Cache K → Option (Cache K) → Type 0
  EndsEmpty c o = (c' : Cache K) × (o ≡ some c') × Keeps c c' []

  -- The first round, and the others.
  remove_unpinned_round :
      (fuel : ℕ) (xs : List Ptr) (e : Ptr) (c : Cache K)
      → IsValid c (xs ++ e ∷ [])
      → EndsEmpty (drop_elem e c) (unpinned_loop fuel (newest head xs) (drop_elem e c))
      → EndsEmpty c (unpinned_loop (suc fuel) (newest head (xs ++ e ∷ [])) c)
  remove_unpinned_round fuel xs e c valid (c', q, (v, kept, same)) =
      let p = (==_iff (c.cell e).pin 0).1 (All-middle _ xs e [] valid.unpinned) in
      let at_head = All-middle _ xs e [] valid.nodes.1.0 in
      let m : (e == head) ≡ false = ground arith in
      let next = next-newest c.links head xs e (Linked-left c.links head xs e [] head valid.ring) in
      (
        c',
        ap (λ r. unpinned_loop (suc fuel) r c) (newest-last head xs e)
            ∙ unpinned_loop-remove fuel e c m p
            ∙ ap (λ r. unpinned_loop fuel r (remove (c.cell e).key c)) next
            ∙ ap (unpinned_loop fuel (newest head xs))
                (remove-drop c e p (All-middle _ xs e [] valid.listed))
            ∙ q,
        (
          v,
          (λ k w held. kept k w (drop_elem-IsHeld c xs e [] k w valid held)),
          IsSteady-trans (drop_elem-IsSteady c xs e [] valid) same,
        ),
      )

  remove_unpinned_none :
      (fuel : ℕ) (es : List Ptr) (c : Cache K)
      → es ≡ []
      → IsValid c es
      → EndsEmpty c (unpinned_loop fuel (newest head es) c)
  remove_unpinned_none fuel es c i valid = (
    c,
    ap (λ ys. unpinned_loop fuel (newest head ys) c) i ∙ unpinned_loop-head fuel c,
    (subst (IsValid c) i valid, (λ k w held. held), IsSteady-refl c),
  )

  remove_unpinned_loop :
      (fuel : ℕ) (es : List Ptr) (c : Cache K)
      → length es ≤ fuel
      → IsValid c es
      → EndsEmpty c (unpinned_loop fuel (newest head es) c)
  remove_unpinned_loop zero [] c n valid = remove_unpinned_none 0 [] c refl valid
  remove_unpinned_loop zero (e ∷ es) c n valid = absurd (ground arith)
  remove_unpinned_loop (suc fuel) es c n valid = elim (last_cases es) [
    | inl i ↦ remove_unpinned_none (suc fuel) es c i valid
    | inr (xs, e, i) ↦
        let start = subst (IsValid c) i valid in
        let short = subst (λ ys. length ys ≤ suc fuel) i n in
        subst (λ ys. EndsEmpty c (unpinned_loop (suc fuel) (newest head ys) c)) (sym i)
          (remove_unpinned_round fuel xs e c start (
            remove_unpinned_loop fuel xs (drop_elem e c)
              (omega (arith, short, length-append xs (e ∷ [])))
              (subst (IsValid (drop_elem e c)) (append_nil xs)
                (drop_elem-IsValid c xs e [] start))))
  ]

  -- On a cache with the representation invariants `removeUnpinned` ends and keeps them: what was
  -- held still is, and the table has elements with pins only.
  pub remove_unpinned-IsHeld :
      (es : List Ptr) (c : Cache K)
      → IsValid c es
      → (c' : Cache K) × (remove_unpinned c ≡ some c')
        × Keeps c c' []
        × ((k : K) (e : Ptr) → find k c'.table ≡ some e → (c'.cell e).pin ≢ 0)
  unfolding remove_unpinned
  remove_unpinned-IsHeld es c valid =
      let (c', q, (v, kept, same)) =
        remove_unpinned_loop c.allocated es c (enough_fuel c es valid) valid in
      let first = next-newest c.links head es head valid.ring in
      (
        c',
        ap (λ r. unpinned_loop c.allocated r c) first ∙ q,
        (v, kept, same),
        (λ k e f p. absurd ((v.entries k e f).waits p)),
      )
