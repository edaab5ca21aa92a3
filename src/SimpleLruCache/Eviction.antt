-- ===== src/SimpleLruCache/Eviction.antt =====
-- The evictions of simple_lru_cache/simple_lru_cache_inl.h on the list of the elements, from the
-- oldest on, without the pointers.
use jwt_verify_lib.Prelude.{
  ◌≡◌, ◌≢◌, refl, sym, ap, ◌∙◌, true, false, List, [], ◌∷◌, ◌==◌, Option, ◌⊎◌, inl, inr, some,
  if◌then◌else◌, All, Bool-cases, arith,
}
use jwt_verify_lib.SimpleLruCache.Maps.{KeyEq, find, erase}
use jwt_verify_lib.SimpleLruCache.Links.{Ptr, Links}
use jwt_verify_lib.SimpleLruCache.State.{Cache, head, is_overfull_internal, discard}
use jwt_verify_lib.SimpleLruCache.Ring.{Linked, IsRing, NotIn, All-both}
use jwt_verify_lib.SimpleLruCache.Tables.{find-erase_other}
use mathlib.Core.Option.{some-injective}

-- The element where a walk from the head starts.
abbrev pub oldest : List Ptr → Ptr
oldest [] = head
oldest (e ∷ _) = e

pub prev-oldest : (l : Links) (e : Ptr) (es : List Ptr) → Linked l e es head → l.prev e ≡ oldest es
prev-oldest l e [] (p, _) = p
prev-oldest l e (x ∷ xs) (p, _, _) = p

module _ {K : Type 0} ⦃eq : KeyEq K⦄ where
  -- The end of an element, without its links.
  unfoldable pub evict : Ptr → Cache K → Cache K
  evict e c = discard e (record c { table = erase (c.cell e).key c.table })

  -- From the oldest element on, and while there are too many units: the elements without pins are
  -- evicted.
  unfoldable pub evict_oldest : List Ptr → Cache K → Cache K
  evict_oldest [] c = c
  evict_oldest (e ∷ es) c =
      let c' = if (c.cell e).pin == 0 then evict e c else c in
      let rest = evict_oldest es c' in if is_overfull_internal c then rest else c

  -- And the list of the elements that stay.
  unfoldable pub kept : List Ptr → Cache K → List Ptr
  kept [] c = []
  kept (e ∷ es) c =
      let rest = if (c.cell e).pin == 0 then kept es (evict e c) else e ∷ kept es c in
      if is_overfull_internal c then rest else e ∷ es

  -- The elements are those that the table has for their keys.
  abbrev pub IsListed : Cache K → List Ptr → Type 0
  IsListed c = All (λ e. find (c.cell e).key c.table ≡ some e)

  pub links_keep_overfull :
      (l : Links) (c : Cache K)
      → is_overfull_internal (record c { links = l }) ≡ is_overfull_internal c
  unfolding is_overfull_internal
  links_keep_overfull l c = refl

  pub links_keep_evict :
      (l : Links) (e : Ptr) (c : Cache K)
      → evict e (record c { links = l }) ≡ record (evict e c) { links = l }
  unfolding evict discard
  links_keep_evict l e c = refl

  pub evict_oldest-links :
      (l : Links) (es : List Ptr) (c : Cache K)
      → (evict_oldest es (record c { links = l }) ≡ record (evict_oldest es c) { links = l })
        × (kept es (record c { links = l }) ≡ kept es c)
  unfolding evict_oldest kept
  evict_oldest-links l [] c = (refl, refl)
  evict_oldest-links l (e ∷ es) c =
      let o = links_keep_overfull l c in
      elim (Bool-cases (is_overfull_internal c)) [
        | inr h ↦ rw (o, h) (refl, refl)
        | inl h ↦ elim (Bool-cases ((c.cell e).pin == 0)) [
          | inl p ↦ rw (o, h, p, links_keep_evict l e c) (evict_oldest-links l es (evict e c))
          | inr p ↦ let (r, k) = evict_oldest-links l es c in rw (o, h, p) (r, ap (λ es. e ∷ es) k)
        ]
      ]

  -- Without one element, the table still has the others.
  pub evict-IsListed :
      (e : Ptr) (es : List Ptr) (c : Cache K)
      → find (c.cell e).key c.table ≡ some e
      → NotIn e es
      → IsListed c es
      → IsListed (evict e c) es
  unfolding evict discard
  evict-IsListed e es c f ne listed = All-both es here ne listed
    where
      here :
          (r : Ptr)
          → r ≢ e
          → find (c.cell r).key c.table ≡ some r
          → find (c.cell r).key (erase (c.cell e).key c.table) ≡ some r
      here r n g =
          find-erase_other (c.cell e).key (c.cell r).key c.table
            (λ q. n (some-injective _ _ (sym g ∙ ap (λ k. find k c.table) (sym q) ∙ f)))
          ∙ g

  -- The rounds of the description.
  pub evict_oldest-enough :
      (es : List Ptr) (c : Cache K)
      → is_overfull_internal c ≡ false
      → (evict_oldest es c ≡ c) × (kept es c ≡ es)
  unfolding evict_oldest kept
  evict_oldest-enough [] c h = (refl, refl)
  evict_oldest-enough (e ∷ es) c h = rw h (refl, refl)

  pub evict_oldest-none : (c : Cache K) → (evict_oldest [] c ≡ c) × (kept [] c ≡ [])
  unfolding evict_oldest kept
  evict_oldest-none c = (refl, refl)

  pub evict_oldest-pinned :
      (e : Ptr) (es : List Ptr) (c : Cache K)
      → is_overfull_internal c ≡ true
      → ((c.cell e).pin == 0) ≡ false
      → (evict_oldest (e ∷ es) c ≡ evict_oldest es c) × (kept (e ∷ es) c ≡ e ∷ kept es c)
  unfolding evict_oldest kept
  evict_oldest-pinned e es c h p = rw (h, p) (refl, refl)

  pub evict_oldest-evict :
      (e : Ptr) (es : List Ptr) (c : Cache K)
      → is_overfull_internal c ≡ true
      → ((c.cell e).pin == 0) ≡ true
      → (evict_oldest (e ∷ es) c ≡ evict_oldest es (evict e c))
        × (kept (e ∷ es) c ≡ kept es (evict e c))
  unfolding evict_oldest kept
  evict_oldest-evict e es c h p = rw (h, p) (refl, refl)

  pub evict-cell : (e : Ptr) (c : Cache K) → (evict e c).cell ≡ c.cell
  unfolding evict discard
  evict-cell e c = refl

  pub evict_oldest-cell : (es : List Ptr) (c : Cache K) → (evict_oldest es c).cell ≡ c.cell
  evict_oldest-cell [] c = rw (evict_oldest-none c).0 refl
  evict_oldest-cell (e ∷ es) c = elim (Bool-cases (is_overfull_internal c)) [
    | inr h ↦ rw (evict_oldest-enough (e ∷ es) c h).0 refl
    | inl h ↦ elim (Bool-cases ((c.cell e).pin == 0)) [
      | inl p ↦
          rw (evict_oldest-evict e es c h p).0 (evict_oldest-cell es (evict e c) ∙ evict-cell e c)
      | inr p ↦ rw (evict_oldest-pinned e es c h p).0 (evict_oldest-cell es c)
    ]
  ]

  pub evict_oldest-fits :
      (es : List Ptr) (c : Cache K)
      → (is_overfull_internal (evict_oldest es c) ≡ false)
        ⊎ All (λ e. ((evict_oldest es c).cell e).pin ≢ 0) (kept es c)
  evict_oldest-fits [] c = let (r, k) = evict_oldest-none c in rw (r, k) (inr tt)
  evict_oldest-fits (e ∷ es) c = elim (Bool-cases (is_overfull_internal c)) [
    | inr h ↦ let (r, k) = evict_oldest-enough (e ∷ es) c h in rw (r, k) (inl h)
    | inl h ↦ elim (Bool-cases ((c.cell e).pin == 0)) [
      | inl p ↦
          let (r, k) = evict_oldest-evict e es c h p in rw (r, k) (evict_oldest-fits es (evict e c))
      | inr p ↦
          let (r, k) = evict_oldest-pinned e es c h p in
          rw (r, k)
            (elim (evict_oldest-fits es c) [
              | inl f ↦ inl f
              | inr f ↦ inr (rw (evict_oldest-cell es c) (λ q. ground arith), f)
            ])
    ]
  ]

  -- A result with a given state, whose links are the list of given elements.
  abbrev pub EndsWith : Option (Cache K) → Cache K → List Ptr → Type 0
  EndsWith o c es = (l : Links) × (o ≡ some (record c { links = l })) × IsRing l head es
