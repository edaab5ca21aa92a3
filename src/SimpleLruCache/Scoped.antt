-- ===== src/SimpleLruCache/Scoped.antt =====
-- `ScopedLookup` of simple_lru_cache/simple_lru_cache_inl.h: the life of one object is a function of
-- the body of its scope, which takes the value and the cache.
use jwt_verify_lib.Prelude.{
  ℕ, ◌≡◌, refl, Bool, true, not, List, ◌==◌, Option, ◌⊎◌, inl, inr, some, if◌then◌else◌, Bool-cases,
  arith,
}
use jwt_verify_lib.SimpleLruCache.{
  KeyEq, ◌>>=◌, Ptr, null, Cache, lookup_with_options, lookup, release_with_options, release,
}
use jwt_verify_lib.SimpleLruCache.Valid.{IsValid}
use jwt_verify_lib.SimpleLruCache.Deferring.{IsClaimed}
use jwt_verify_lib.SimpleLruCache.Pinning.{lookup-IsHeld}
use jwt_verify_lib.SimpleLruCache.Letting.{release-IsLetGo}

module _ {K : Type 0} ⦃eq : KeyEq K⦄ where
  -- The destructor.
  unfoldable pub end_scope : K → Bool → Ptr → ℕ → Cache K → Option (Cache K)
  end_scope k update value later c =
      if not (value == null) then release_with_options k value update later c else some c

  end_scope-IsValid :
      (k : K) (v : Ptr) (later : ℕ) (es : List Ptr) (c : Cache K)
      → IsValid c es
      → (v ≡ null) ⊎ IsClaimed c k v
      → (c' : Cache K) × (es' : List Ptr) × (end_scope k true v later c ≡ some c') × IsValid c' es'
  unfolding end_scope release
  end_scope-IsValid k v later es c valid found = elim (Bool-cases (v == null)) [
    | inl m ↦ rw m (c, es, refl, valid)
    | inr m ↦ rw m (elim found [
      | inl n ↦ absurd (ground arith)
      | inr claim ↦
          let (c', es', q, valid', _, _) = release-IsLetGo later c es k v valid claim in
          (c', es', q, valid')
    ])
  ]

module _ {K : Type 0} ⦃eq : KeyEq K⦄ {A : Type 0} where
  -- The scope of a lookup with a body.
  unfoldable pub scoped_lookup :
      K → Bool → ℕ → ℕ → (Ptr → Cache K → Option (Cache K × A)) → Cache K → Option (Cache K × A)
  scoped_lookup k update now later body c = do
    (c, value) ← lookup_with_options k update now c
    (c, a) ← body value c
    c ← end_scope k update value later c
    some (c, a)

  -- A body ends with the invariants, and with all that a client had to release before.
  abbrev pub IsFair : (Ptr → Cache K → Option (Cache K × A)) → Type 0
  IsFair body =
      (v : Ptr) (c : Cache K) (es : List Ptr)
      → IsValid c es
      → (c' : Cache K) × (es' : List Ptr) × (a : A) × (body v c ≡ some (c', a))
        × IsValid c' es'
        × ((k : K) (w : Ptr) → IsClaimed c k w → IsClaimed c' k w)

  scoped_lookup-steps :
      (k : K) (now later : ℕ) (body : Ptr → Cache K → Option (Cache K × A)) (c c₁ c₂ c₃ : Cache K)
      (v : Ptr) (a : A)
      → lookup k now c ≡ some (c₁, v)
      → body v c₁ ≡ some (c₂, a)
      → end_scope k true v later c₂ ≡ some c₃
      → scoped_lookup k true now later body c ≡ some (c₃, a)
  unfolding scoped_lookup lookup
  scoped_lookup-steps k now later body c c₁ c₂ c₃ v a q r t = rw (q, ◌>>=◌, r, ◌>>=◌, t) refl

  -- On a cache with the representation invariants, the scope of a default lookup ends and keeps
  -- the invariants, for every body that keeps them and what a client has to release; the body may
  -- remove or replace the key, too.
  pub scoped_lookup-IsValid :
      (k : K) (now later : ℕ) (body : Ptr → Cache K → Option (Cache K × A)) (es : List Ptr)
      (c : Cache K)
      → IsFair body
      → IsValid c es
      → (c' : Cache K) × (es' : List Ptr) × (a : A) × (scoped_lookup k true now later body c
          ≡ some (c', a))
        × IsValid c' es'
  scoped_lookup-IsValid k now later body es c fair valid =
      let (c₁, es₁, v, q, (valid₁, _, _), found) = lookup-IsHeld k now es c valid in
      let (c₂, es₂, a, r, valid₂, kept₂) = fair v c₁ es₁ valid₁ in
      let found₂ : (v ≡ null) ⊎ IsClaimed c₂ k v = elim found [
        | inl h ↦ inl h.1
        | inr held ↦ inr (kept₂ k v (inl held))
      ] in
      let (c₃, es₃, t, valid₃) = end_scope-IsValid k v later es₂ c₂ valid₂ found₂ in
      (c₃, es₃, a, scoped_lookup-steps k now later body c c₁ c₂ c₃ v a q r t, valid₃)
