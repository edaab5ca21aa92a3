-- ===== src/SimpleLruCache/LateSteps.antt =====
-- The steps of `release` of simple_lru_cache/simple_lru_cache_inl.h of a deferred element.
use jwt_verify_lib.Prelude.{
  ℕ, suc, ◌≡◌, ◌≢◌, refl, true, false, List, [], ◌∷◌, ◌++◌, ◌==◌, ==_iff, some, arith,
}
use jwt_verify_lib.SimpleLruCache.{
  KeyEq, erase, assign, Ptr, set_at, unlink, Elem, Cache, set_elem, discard, drop_deferred,
  release_deferred, sub_64,
}

module _ {K : Type 0} ⦃eq : KeyEq K⦄ where
  -- The element with other pins.
  abbrev pub repinned : ℕ → Elem K → Elem K
  repinned pin x = record x { pin = pin }

  module _ (c : Cache K) (k : K) (first e : Ptr) where
    -- The state that the last release leaves, with the links and the table of the deferred elements
    -- that it writes.
    abbrev pub gone_with : List (K × Ptr) → Cache K
    gone_with defer = record c {
      cell = set_at c.cell e (repinned 0 (c.cell e));
      links = unlink e c.links;
      defer = defer;
      units = sub_64 c.units (c.cell e).units;
      removed = c.removed ++ (c.cell e).value ∷ [];
      freed = set_at c.freed e true;
    }

    pub drop_deferred-inner :
        (e == first) ≡ false
        → drop_deferred k first e (set_elem e (repinned 0 (c.cell e)) c) ≡ gone_with c.defer
    unfolding drop_deferred discard
    drop_deferred-inner m = let r : (e == e) ≡ true = (==_iff e e).1 refl in rw (m, r) refl

    pub drop_deferred-first :
        (n : Ptr)
        → (e == first) ≡ true
        → c.links.prev e ≡ n
        → n ≢ e
        → (c.cell n).key ≡ k
        → drop_deferred k first e (set_elem e (repinned 0 (c.cell e)) c)
          ≡ gone_with (assign k n (erase k c.defer))
    unfolding drop_deferred discard
    drop_deferred-first n m p far key =
        let r : (e == e) ≡ true = (==_iff e e).1 refl in
        let a : (n == e) ≡ false = ground arith in
        let b : (e == n) ≡ false = ground arith in rw (m, r, p, a, b, key) refl

    pub drop_deferred-last :
        (e == first) ≡ true
        → c.links.prev e ≡ e
        → drop_deferred k first e (set_elem e (repinned 0 (c.cell e)) c)
          ≡ gone_with (erase k c.defer)
    unfolding drop_deferred discard
    drop_deferred-last m p = let r : (e == e) ≡ true = (==_iff e e).1 refl in rw (m, p, r) refl

    pub release_deferred-drop :
        (c.cell e).pin ≡ 1
        → release_deferred k first e c
          ≡ some (drop_deferred k first e (set_elem e (repinned 0 (c.cell e)) c))
    unfolding release_deferred
    release_deferred-drop p = rw (release_deferred, p) refl

    pub release_deferred-count_down :
        (pin : ℕ)
        → (c.cell e).pin ≡ suc (suc pin)
        → release_deferred k first e c ≡ some (set_elem e (repinned (suc pin) (c.cell e)) c)
    unfolding release_deferred
    release_deferred-count_down pin p =
        let z : (suc pin == 0) ≡ false = ground arith in rw (release_deferred, p, z) refl
