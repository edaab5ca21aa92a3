-- ===== src/SimpleLruCache/Releasing.antt =====
-- `release` of simple_lru_cache/simple_lru_cache_inl.h of an element of the table, on a cache with
-- the representation invariants.
use jwt_verify_lib.Prelude.{
  ℕ, suc, ◌≡◌, ◌≢◌, refl, sym, ap, ◌∙◌, subst, true, false, List, [], ◌∷◌, ◌++◌, ◌⊎◌, inl, inr,
  none, some, Bool-cases, arith,
}
use jwt_verify_lib.SimpleLruCache.{
  KeyEq, find, Ptr, link, Cache, head, is_overfull_internal, discard, sub_64, release_in_table,
  release,
}
use jwt_verify_lib.SimpleLruCache.Valid.{
  drop_elem-IsHeld, drop_elem-IsSteady, set_at_other, IsValid, IsHeld, drop_elem,
}
use jwt_verify_lib.SimpleLruCache.Eviction.{evict}
use jwt_verify_lib.SimpleLruCache.Dropping.{remove_listed}
use jwt_verify_lib.SimpleLruCache.Ring.{append_nil}
use jwt_verify_lib.SimpleLruCache.Pinning.{write_elem-IsHeld}
use jwt_verify_lib.SimpleLruCache.Claims.{IsSteady, IsSteady-trans}
use jwt_verify_lib.SimpleLruCache.Writing.{rewritten_same, put_on_same, same-IsSteady}
use jwt_verify_lib.SimpleLruCache.Counting.{drop_count, recounted}
use jwt_verify_lib.SimpleLruCache.Rewriting.{rewrite-IsValid, put_on-IsValid}
use jwt_verify_lib.SimpleLruCache.Valid.{set_at_same}
use jwt_verify_lib.SimpleLruCache.ReleaseSteps.{
  pin_cases, released_elem, put_back, count_down, release-count_down, release-put_back,
  release-evict, release-undeferred,
}

module _ {K : Type 0} ⦃eq : KeyEq K⦄ where
  -- The three ends of a release: the element has one pin less, and some are left; or it had one pin
  -- and waits as the newest one without a pin; or it had one pin and is evicted, as there are too
  -- many units. An element that stays is used at the time of the release.
  pub data Released (now : ℕ) (c : Cache K) (es : List Ptr) (k : K) (e v : Ptr)
      : Cache K → List Ptr → Type 0 where
    still_held :
        {c' : Cache K}
        → find k c'.table ≡ some e
        → (c'.cell e).value ≡ v
        → (c.cell e).pin ≡ suc (c'.cell e).pin
        → (c'.cell e).pin ≢ 0
        → (c'.cell e).last_use ≡ now
        → Released now c es k e v c' es
    waiting :
        {c' : Cache K}
        → (c.cell e).pin ≡ 1
        → is_overfull_internal c ≡ false
        → find k c'.table ≡ some e
        → (c'.cell e).value ≡ v
        → (c'.cell e).pin ≡ 0
        → (c'.cell e).last_use ≡ now
        → Released now c es k e v c' (es ++ e ∷ [])
    evicted :
        {c' : Cache K}
        → (c.cell e).pin ≡ 1
        → is_overfull_internal c ≡ true
        → find k c'.table ≡ none
        → c'.removed ≡ c.removed ++ v ∷ []
        → Released now c es k e v c' es

  -- What a release of one value leaves: the deferred elements, and what is held for another key, or
  -- with another value.
  pub record Spares (c : Cache K) (k : K) (v : Ptr) (c' : Cache K) : Type 0 where
    pub steady : IsSteady c c'
    pub others : (j : K) (w : Ptr) → (j ≢ k) ⊎ (w ≢ v) → IsHeld c j w → IsHeld c' j w

  -- The element of another key or value is another element.
  other_held :
      (c : Cache K) (es : List Ptr) (k : K) (e v : Ptr) (j : K) (r w : Ptr)
      → IsValid c es
      → find k c.table ≡ some e
      → (c.cell e).value ≡ v
      → (j ≢ k) ⊎ (w ≢ v)
      → find j c.table ≡ some r
      → (c.cell r).value ≡ w
      → e ≢ r
  other_held c es k e v j r w valid f q (inl far) g p i = far (
      sym (valid.entries j r g).keyed
      ∙ ap (λ s. (c.cell s).key) (sym i)
      ∙ (valid.entries k e f).keyed)
  other_held c es k e v j r w valid f q (inr far) g p i =
      far (sym p ∙ ap (λ s. (c.cell s).value) (sym i) ∙ q)

  put_back-Spares :
      (c : Cache K) (es : List Ptr) (k : K) (e v : Ptr) (now : ℕ)
      → IsValid c es
      → find k c.table ≡ some e
      → (c.cell e).value ≡ v
      → (c.cell e).pin ≢ 0
      → Spares c k v (put_back e now c)
  put_back-Spares c es k e v now valid f q n =
      let x = released_elem 0 now (c.cell e) in
      let l = link e head c.links in
      let u = sub_64 c.pinned_units (c.cell e).units in
      record {
        steady =
            same-IsSteady c e x refl refl l u es valid
              (put_on_same c e x refl refl l u k es f n refl valid);
        others = λ j w far (r, g, p, m).
            let off = other_held c es k e v j r w valid f q far g p in
            let cell = set_at_other c.cell e x r off in
            (r, g, ap (λ y. y.value) cell ∙ p, (λ z. m (sym (ap (λ y. y.pin) cell) ∙ z)));
      }

  last_release :
      (now : ℕ) (es : List Ptr) (c : Cache K) (k : K) (e v : Ptr)
      → release k v now c ≡ release_in_table k v true now c
      → find k c.table ≡ some e
      → (c.cell e).value ≡ v
      → (c.cell e).pin ≡ 1
      → IsValid c es
      → (c' : Cache K) × (es' : List Ptr) × (release k v now c ≡ some c')
        × IsValid c' es'
        × Spares c k v c'
        × Released now c es k e v c' es'
  unfolding evict discard
  last_release now es c k e v g f w p valid =
      let n : (c.cell e).pin ≢ 0 = ground arith in
      let entry = valid.entries k e f in
      let mode = valid.in_lru_mode in
      let valid' =
        put_on-IsValid c e (released_elem 0 now (c.cell e)) refl refl (link e head c.links)
          (sub_64 c.pinned_units (c.cell e).units) k es f n refl refl
          (drop_count c es k e (released_elem 0 now (c.cell e)) f valid refl n) valid in
      let spares = put_back-Spares c es k e v now valid f w n in
      let cell = set_at_same c.cell e (released_elem 0 now (c.cell e)) in
      elim (Bool-cases (is_overfull_internal c)) [
        | inr h ↦ (
          put_back e now c,
          es ++ e ∷ [],
          release-put_back c k e v now mode g f w p h,
          valid',
          spares,
          waiting p h f (ap (λ y. y.value) cell ∙ w) (ap (λ y. y.pin) cell)
              (ap (λ y. y.last_use) cell),
        )
        | inl h ↦
            let (q, valid'', gone, given) = remove_listed (put_back e now c) es e [] k valid' f in
            (
              drop_elem e (put_back e now c),
              es,
              release-evict c k e v now mode g f w p h ∙ ap some q,
              subst (IsValid (drop_elem e (put_back e now c))) (append_nil es) valid'',
              record {
                steady =
                    IsSteady-trans spares.steady
                      (drop_elem-IsSteady (put_back e now c) es e [] valid');
                others = λ j w' far held.
                    drop_elem-IsHeld (put_back e now c) es e [] j w' valid'
                      (spares.others j w' far held);
              },
              evicted p h gone (given ∙ ap (λ x. c.removed ++ x ∷ []) (ap (λ y. y.value) cell ∙ w)),
            )
      ]

  -- A release that goes on in the table, of an element that it holds.
  pub release_held-Released :
      (now : ℕ) (es : List Ptr) (c : Cache K) (k : K) (v : Ptr)
      → release k v now c ≡ release_in_table k v true now c
      → IsValid c es
      → (held : IsHeld c k v)
      → (c' : Cache K) × (es' : List Ptr) × (release k v now c ≡ some c')
        × IsValid c' es'
        × Spares c k v c'
        × Released now c es k held.0 v c' es'
  release_held-Released now es c k v g valid (e, f, w, n) = elim (pin_cases (c.cell e).pin n) [
    | inl p ↦ last_release now es c k e v g f w p valid
    | inr (pin, p) ↦
        let x = released_elem (suc pin) now (c.cell e) in
        let some_left : x.pin ≢ 0 = ground arith in
        let cell = set_at_same c.cell e x in
        (
          count_down e (suc pin) now c,
          es,
          release-count_down c k e v now valid.in_lru_mode g f w pin p,
          rewrite-IsValid c e x refl refl c.links c.pinned_units k es f n some_left refl
              (recounted c es k e x f valid some_left n refl) valid,
          record {
            steady =
                same-IsSteady c e x refl refl c.links c.pinned_units es valid
                  (rewritten_same c e x refl refl c.links c.pinned_units k es f n refl valid);
            others = λ j w' far held.
                write_elem-IsHeld c e x c.links c.pinned_units j w' refl some_left held;
          },
          still_held f (ap (λ y. y.value) cell ∙ w) (p ∙ sym (ap (λ y. suc y.pin) cell))
              (λ z. some_left (sym (ap (λ y. y.pin) cell) ∙ z)) (ap (λ y. y.last_use) cell),
        )
  ]

  -- On a cache with the representation invariants, a release of a value that is held, of a key
  -- without deferred elements, ends, keeps the invariants, leaves the deferred elements and what is
  -- held for another key or with another value, and does one of three things: the element in the
  -- table has exactly one pin less, and some pin left; or it had one pin and the units fit, and it
  -- is in the table without a pin and waits at the end of the list; or it had one pin and they do
  -- not fit, and the element is gone and its value given away. An element that stays has the time of
  -- the release as its last use.
  pub release-Released :
      (now : ℕ) (es : List Ptr) (c : Cache K) (k : K) (v : Ptr)
      → find k c.defer ≡ none
      → IsValid c es
      → (held : IsHeld c k v)
      → (c' : Cache K) × (es' : List Ptr) × (release k v now c ≡ some c')
        × IsValid c' es'
        × Spares c k v c'
        × Released now c es k held.0 v c' es'
  release-Released now es c k v g valid held =
      release_held-Released now es c k v (release-undeferred now c k v g) valid held
