-- ===== src/SimpleLruCache/Reaching.antt =====
-- The states that a client of simple_lru_cache/simple_lru_cache_inl.h reaches with the operations of
-- the LRU mode: every call returns, and keeps the invariants and the claims.
use jwt_verify_lib.Prelude.{
  ℕ, ◌≡◌, ◌≢◌, refl, sym, ap, ◌∙◌, subst, List, [], ◌⊎◌, inl, inr, ◌==◌, ==_iff, Bool-cases, none,
  some, arith,
}
use jwt_verify_lib.SimpleLruCache.{
  KeyEq, find, Ptr, Elem, Cache, new_cache, remove, release, insert_pinned, insert, Seconds,
  remove_all, clear,
}
use jwt_verify_lib.SimpleLruCache.Valid.{IsValid}
use jwt_verify_lib.SimpleLruCache.Pinning.{lookup-IsHeld}
use jwt_verify_lib.SimpleLruCache.Letting.{release-IsLetGo}
use jwt_verify_lib.SimpleLruCache.Inserting.{insert_pinned-IsClaimed}
use jwt_verify_lib.SimpleLruCache.Deferring.{IsClaimed}
use jwt_verify_lib.SimpleLruCache.Removing.{remove-Removes, Keeps-IsClaimed}
use jwt_verify_lib.SimpleLruCache.Clearing.{remove_all-Empties, clear-IsValid}
use jwt_verify_lib.SimpleLruCache.SizeUpdates.{update_size-EndsClaimed}
use jwt_verify_lib.SimpleLruCache.Limits.{
  set_max_size-EndsKeeping, set_max_idle_seconds-EndsKeeping,
}
use jwt_verify_lib.SimpleLruCache.Sweeping.{remove_unpinned-IsHeld}
use mathlib.Core.Option.{some-injective, none-ne-some}
use jwt_verify_lib.SimpleLruCache.Calls.{
  IsUnused-IsFree, Call, look_up, let_go, put_in, put, take_out, sweep_out, resize, age, weigh,
  take_out_all, wipe, state_of, run, Releases, Reached, created, called,
}

module _ {K : Type 0} ⦃eq : KeyEq K⦄ where
  -- A new cache has the invariants.
  new_cache-IsValid :
      (cell : Ptr → Elem K) (total_units : ℕ) → IsValid (new_cache cell total_units) []
  unfolding find
  new_cache-IsValid cell total_units = record {
    in_lru_mode = refl;
    ring = (refl, refl);
    nodes = ((ground arith, tt), (tt, tt));
    listed = tt;
    unpinned = tt;
    entries = λ k e f. absurd (none-ne-some e f);
    unique = tt;
    late_elems = [];
    ring_of = λ k. [];
    late = record {
      groups = λ k first f. absurd (none-ne-some first f);
      members = tt;
      distinct = tt;
      unique = tt;
    };
    few = omega arith;
    sized = refl;
    pinned = refl;
  }

  -- The state has the representation invariants for some list.
  abbrev pub HasInvariants : Cache K → Type 0
  HasInvariants c = (es : List Ptr) × IsValid c es

  -- The result of a call that ends, with the invariants, and with what a client had to release and
  -- the call did not.
  abbrev pub EndsValid : (s : Seconds) (c : Cache K) → Call s c → Type 0
  EndsValid s c call =
      (c' : Cache K) × (es' : List Ptr) × (run s c call ≡ some c')
      × IsValid c' es'
      × ((k : K) (v : Ptr) → ¬ Releases s c call k v → IsClaimed c k v → IsClaimed c' k v)

  insert-steps :
      (c c₁ : Cache K) (p v : Ptr) (k : K) (units now later : ℕ)
      → insert_pinned p k v units now c ≡ some c₁
      → insert p k v units now later c ≡ release k v later c₁
  unfolding insert
  insert-steps c c₁ p v k units now later q = rw q refl

  -- Two pairs differ in the key or in the value.
  differ : (j k : K) (w v : Ptr) → ¬ ((j ≡ k) × (w ≡ v)) → (j ≢ k) ⊎ (w ≢ v)
  differ j k w v n = elim (Bool-cases (w == v)) [
    | inl m ↦ inl (λ q. n (q, (==_iff w v).0 m))
    | inr m ↦ let far : w ≢ v = ground arith in inr far
  ]

  run-EndsValid :
      (s : Seconds) (c : Cache K) (es : List Ptr) (call : Call s c)
      → IsValid c es
      → EndsValid s c call
  run-EndsValid s c es (look_up k now) valid =
      let (c', es', v, r, kept, _) = lookup-IsHeld k now es c valid in
      (c', es', ap state_of r, kept.0, (λ j w _. Keeps-IsClaimed c c' es' kept j w))
  run-EndsValid s c es (let_go k v now claim) valid =
      let (c', es', r, valid', others, _) = release-IsLetGo now c es k v valid claim in
      (c', es', r, valid', (λ j w n. others j w (differ j k w v n)))
  run-EndsValid s c es (put_in p v k units now unused) valid =
      let (c', es', r, valid', claims, _, _) =
        insert_pinned-IsClaimed c es p v k units now valid (IsUnused-IsFree c es p valid unused) in
      (c', es', r, valid', (λ j w _. claims j w))
  run-EndsValid s c es (put p v k units now later unused) valid =
      let (c₁, es₁, q, valid₁, claims, held, _) =
        insert_pinned-IsClaimed c es p v k units now valid (IsUnused-IsFree c es p valid unused) in
      let (c₂, es₂, r, valid₂, others, _) = release-IsLetGo later c₁ es₁ k v valid₁ (inl held) in
      (
        c₂,
        es₂,
        insert-steps c c₁ p v k units now later q ∙ r,
        valid₂,
        (λ j w n claim. others j w (differ j k w v n) (claims j w claim)),
      )
  run-EndsValid s c es (take_out k) valid =
      let (es', removes) = remove-Removes c es k valid in
      (remove k c, es', refl, removes.valid, (λ j w _. removes.claims j w))
  run-EndsValid s c es sweep_out valid =
      let (c', q, kept, _) = remove_unpinned-IsHeld es c valid in
      (c', [], q, kept.0, (λ j w _. Keeps-IsClaimed c c' [] kept j w))
  run-EndsValid s c es (resize total_units) valid =
      let (c', es', q, kept) = set_max_size-EndsKeeping c es total_units valid in
      (c', es', q, kept.0, (λ j w _. Keeps-IsClaimed c c' es' kept j w))
  run-EndsValid s c es (age seconds now) valid =
      let (c', es', q, kept) = set_max_idle_seconds-EndsKeeping c es s seconds now valid in
      (c', es', q, kept.0, (λ j w _. Keeps-IsClaimed c c' es' kept j w))
  run-EndsValid s c es (weigh k v units) valid =
      let (c', es', q, valid', claims) = update_size-EndsClaimed k v units c es valid in
      (c', es', q, valid', (λ j w _. claims j w))
  run-EndsValid s c es take_out_all valid =
      let (valid', _, claims) = remove_all-Empties c es valid in
      (remove_all c, [], refl, valid', (λ j w _. claims j w))
  run-EndsValid s c es (wipe unclaimed) valid =
      let (valid', _, _, _, _) = clear-IsValid c es valid unclaimed in
      (clear c, [], refl, valid', (λ j w _ claim. absurd (unclaimed j w claim)))

  -- Every state that is reached has the representation invariants: the list is circular, it holds
  -- exactly the elements of the table without pins, the deferred elements are on circular lists of
  -- their keys and have pins, no element is freed, the size is the sum of the units of the elements
  -- of the table and the deferred ones, and the pinned size that of the pinned elements of the
  -- table, modulo 2 ^ 64.
  pub Reached-HasInvariants :
      (s : Seconds) (cell : Ptr → Elem K) (c : Cache K) → Reached s cell c → HasInvariants c
  Reached-HasInvariants s cell c (created n) = ([], new_cache-IsValid cell n)
  Reached-HasInvariants s cell c' (called {c} before call q) =
      let (es, valid) = Reached-HasInvariants s cell c before in
      let (c₁, es₁, r, valid₁, _) = run-EndsValid s c es call valid in
      subst HasInvariants (some-injective _ _ (sym r ∙ q)) (es₁, valid₁)

  -- In every state that is reached, every call that a client may make returns: no loop runs out of
  -- fuel and no assertion of the model fails.
  pub Reached-returns :
      (s : Seconds) (cell : Ptr → Elem K) (c : Cache K)
      → Reached s cell c
      → (call : Call s c) → run s c call ≢ none
  Reached-returns s cell c before call none_back =
      let (es, valid) = Reached-HasInvariants s cell c before in
      let (c₁, _, r, _, _) = run-EndsValid s c es call valid in none-ne-some c₁ (sym none_back ∙ r)

  -- In every state that is reached, and for every call that a client may make: what the client had to
  -- release before, under a key, and the call itself does not release, it has to release after; no
  -- insertion, removal, eviction, expiry or release of another value takes it away.
  pub Reached-IsClaimed :
      (s : Seconds) (cell : Ptr → Elem K) (c c' : Cache K)
      → Reached s cell c
      → (call : Call s c) → run s c call ≡ some c'
      → (k : K) (v : Ptr) → ¬ Releases s c call k v
      → IsClaimed c k v
      → IsClaimed c' k v
  Reached-IsClaimed s cell c c' before call q k v n claim =
      let (es, valid) = Reached-HasInvariants s cell c before in
      let (c₁, _, r, _, kept) = run-EndsValid s c es call valid in
      subst (λ d. IsClaimed d k v) (some-injective _ _ (sym r ∙ q)) (kept k v n claim)
