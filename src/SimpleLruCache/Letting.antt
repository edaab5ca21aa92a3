-- ===== src/SimpleLruCache/Letting.antt =====
-- `release` of simple_lru_cache/simple_lru_cache_inl.h of any value that a client has to release, on a
-- cache with the representation invariants.
use jwt_verify_lib.Prelude.{
  ℕ, suc, ◌≡◌, ◌≢◌, refl, sym, ap, ◌∙◌, subst, true, false, List, [], ◌∷◌, ◌++◌, ◌==◌, ==_iff, ◌⊎◌,
  inl, inr, some, Option, Bool-cases, Option-cases, arith,
}
use jwt_verify_lib.SimpleLruCache.{
  KeyEq, find, Ptr, Cache, ◌>>=◌, release_deferred, release_in_table, release_found,
  release_with_options, release,
}
use jwt_verify_lib.SimpleLruCache.Late.{IsIn, All-at}
use jwt_verify_lib.SimpleLruCache.Claims.{IsDeferred, IsPutOff, deferred_within}
use jwt_verify_lib.SimpleLruCache.Valid.{IsValid, IsHeld}
use jwt_verify_lib.SimpleLruCache.Deferring.{IsClaimed}
use jwt_verify_lib.SimpleLruCache.Searching.{pick, pick-IsIn, pick-fits, search_loop-finds}
use jwt_verify_lib.SimpleLruCache.Releasing.{
  Released, still_held, waiting, evicted, release_held-Released,
}
use jwt_verify_lib.SimpleLruCache.ReleaseSteps.{release-undeferred}
use jwt_verify_lib.SimpleLruCache.LateReleasing.{release_deferred-LetsGo}
use mathlib.Core.Option.{none-ne-some}

module _ {K : Type 0} ⦃eq : KeyEq K⦄ where
  -- The element holds the value for the key, in the table or deferred.
  abbrev pub IsAt : Cache K → K → Ptr → Ptr → Type 0
  IsAt c k v e = ((find k c.table ≡ some e) ⊎ IsDeferred c k e) × ((c.cell e).value ≡ v)

  -- The three ends of a release, for an element that holds the value for the key: it still does, has
  -- one pin less, and some left; or it had one pin and is in the table without a pin; or it had one
  -- pin and its value is given away.
  pub data IsLetGo (c : Cache K) (k : K) (v : Ptr) (c' : Cache K) : Type 0 where
    counted_down :
        (e : Ptr)
        → IsAt c k v e
        → IsAt c' k v e
        → (c.cell e).pin ≡ suc (c'.cell e).pin
        → (c'.cell e).pin ≢ 0
        → IsLetGo c k v c'
    put_back :
        (e : Ptr)
        → IsAt c k v e
        → (c.cell e).pin ≡ 1
        → find k c'.table ≡ some e
        → (c'.cell e).value ≡ v
        → (c'.cell e).pin ≡ 0
        → IsLetGo c k v c'
    given_away :
        (e : Ptr)
        → IsAt c k v e
        → (c.cell e).pin ≡ 1
        → c'.removed ≡ c.removed ++ v ∷ []
        → IsLetGo c k v c'

  -- What a client has to release for another key, or another value, is left.
  abbrev pub SparesOthers : Cache K → K → Ptr → Cache K → Type 0
  SparesOthers c k v c' = (j : K) (w : Ptr) → (j ≢ k) ⊎ (w ≢ v) → IsClaimed c j w → IsClaimed c' j w

  -- A release that ends in one of these ways, and keeps the invariants, and the other claims.
  abbrev pub EndsLetGo : Cache K → K → Ptr → Option (Cache K) → Type 0
  EndsLetGo c k v o =
      (c' : Cache K) × (es' : List Ptr) × (o ≡ some c')
      × IsValid c' es'
      × SparesOthers c k v c'
      × IsLetGo c k v c'

  -- The two ways behind the search.
  module _ (now : ℕ) (c : Cache K) (es : List Ptr) (k : K) (v first : Ptr) (valid : IsValid c es)
      (found : find k c.defer ≡ some first) where
    abbrev picked : Ptr
    picked = pick c v first (valid.ring_of k)

    release-found : release k v now c ≡ release_found k v true now first picked c
    unfolding release release_with_options
    release-found =
        rw
          (
            release,
            release_with_options,
            found,
            ◌>>=◌,
            search_loop-finds c es k first v valid (valid.late.groups k first found),
          )
          refl

    release-late : (c.cell picked).value ≡ v → release k v now c ≡ release_deferred k first picked c
    unfolding release_found
    release-late w =
        let m : ((c.cell picked).value == v) ≡ true = (==_iff (c.cell picked).value v).1 w in
        release-found ∙ rw (release_found, m) refl

    release-past : (c.cell picked).value ≢ v → release k v now c ≡ release_in_table k v true now c
    unfolding release_found
    release-past w =
        let m : ((c.cell picked).value == v) ≡ false = ground arith in
        release-found ∙ rw (release_found, m) refl

    let_go_late : (c.cell picked).value ≡ v → EndsLetGo c k v (release k v now c)
    let_go_late w =
        let group = valid.late.groups k first found in
        let here = pick-IsIn c v first (valid.ring_of k) in
        let i =
          All-at (λ r. IsIn r valid.late_elems) (first ∷ valid.ring_of k) picked group.known here in
        let key =
          All-at (λ r. (c.cell r).key ≡ k) (first ∷ valid.ring_of k) picked group.keyed here in
        let found' = subst (λ j. find j c.defer ≡ some first) (sym key) found in
        let (c', q, gone) = release_deferred-LetsGo c es picked valid i first found' in
        let was : IsAt c k v picked =
          (inr (subst (λ j. IsDeferred c j picked) key gone.was_late), w) in
        (
          c',
          es,
          release-late w ∙ ap (λ j. release_deferred j first picked c) (sym key) ∙ q,
          gone.valid,
          (λ j u far claim. elim claim [
            | inl held ↦ inl (gone.kept j u held)
            | inr off ↦ inr (
                gone.kept_late j u
                  (elim far [ inl n ↦ inl (λ q. n (q ∙ key)) | inr n ↦ inr (λ q. n (q ∙ w)) ]) off)
          ]),
          elim gone.ends [
            | inl (off, q', p, n) ↦
                counted_down picked was (inr (subst (λ j. IsDeferred c' j picked) key off), q' ∙ w)
                  p n
            | inr (p, given) ↦ given_away picked was p (given ∙ ap (λ x. c.removed ++ x ∷ []) w)
          ],
        )

    -- The search finds what is deferred.
    picked_fits : IsPutOff c k v → (c.cell picked).value ≡ v
    picked_fits (e, d, w) =
        pick-fits c v first (valid.ring_of k) e
          (deferred_within c valid.late_elems valid.ring_of k e first valid.late d found) w

  let_go_held :
      (now : ℕ) (c : Cache K) (es : List Ptr) (k : K) (v : Ptr)
      → release k v now c ≡ release_in_table k v true now c
      → IsValid c es
      → IsHeld c k v
      → EndsLetGo c k v (release k v now c)
  let_go_held now c es k v goes valid held =
      let (c', es', q, valid', spares, ends) = release_held-Released now es c k v goes valid held in
      (
        c',
        es',
        q,
        valid',
        (λ j w far claim. elim claim [
          | inl h ↦ inl (spares.others j w far h)
          | inr off ↦ inr (spares.steady.still j w off)
        ]),
        how es' c' ends,
      )
    where
      was : IsAt c k v held.0
      was = (inl held.1, held.2)

      how : (es' : List Ptr) (c' : Cache K) → Released now c es k held.0 v c' es' → IsLetGo c k v c'
      how _ c' (still_held f q p n _) = counted_down held.0 was (inl f, q) p n
      how _ c' (waiting p _ f q n _) = put_back held.0 was p f q n
      how _ c' (evicted p _ _ given) = given_away held.0 was p given

  -- On a cache with the representation invariants, a release of a value that a client has to release,
  -- in the table or deferred, ends and keeps the invariants, and what there is to release for another
  -- key or another value; and for an element that held the value for the key before, in the table or
  -- deferred, one of three holds: it still does, has exactly one pin less, and some pin left; or it
  -- had one pin, and is in the table with the value and without a pin; or it had one pin, and the
  -- value is given away.
  pub release-IsLetGo :
      (now : ℕ) (c : Cache K) (es : List Ptr) (k : K) (v : Ptr)
      → IsValid c es
      → IsClaimed c k v
      → EndsLetGo c k v (release k v now c)
  release-IsLetGo now c es k v valid claim = elim (Option-cases (find k c.defer)) [
    | inl g ↦ elim claim [
      | inl held ↦ let_go_held now c es k v (release-undeferred now c k v g) valid held
      | inr (e, d, w) ↦ absurd (none-ne-some d.first (sym g ∙ d.found))
    ]
    | inr (first, g) ↦
        let e = picked now c es k v first valid g in
        elim (Bool-cases ((c.cell e).value == v)) [
          | inl m ↦ let_go_late now c es k v first valid g ((==_iff (c.cell e).value v).0 m)
          | inr m ↦
              let far : (c.cell e).value ≢ v = ground arith in
              elim claim [
                | inl held ↦
                    let_go_held now c es k v (release-past now c es k v first valid g far) valid
                      held
                | inr off ↦ absurd (far (picked_fits now c es k v first valid g off))
              ]
        ]
  ]
