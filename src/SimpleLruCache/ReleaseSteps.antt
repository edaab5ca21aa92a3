-- ===== src/SimpleLruCache/ReleaseSteps.antt =====
-- The steps of `release` of simple_lru_cache/simple_lru_cache_inl.h of an element of the table.
use jwt_verify_lib.Prelude.{
  ℕ, zero, suc, ◌≡◌, ◌≢◌, refl, ◌∙◌, true, false, ◌==◌, ==_iff, ◌⊎◌, inl, inr, none, some, arith,
}
use jwt_verify_lib.SimpleLruCache.{
  KeyEq, find, Ptr, link, Elem, Cache, head, is_overfull_internal, remove, sub_64, unpin_elem,
  release_in_table, release_with_options, release,
}
use jwt_verify_lib.SimpleLruCache.Writing.{write_elem}

pub pin_cases : (pin : ℕ) → pin ≢ 0 → (pin ≡ 1) ⊎ ((n : ℕ) × (pin ≡ suc (suc n)))
pin_cases zero n = absurd (n refl)
pin_cases (suc zero) n = inl refl
pin_cases (suc (suc m)) n = inr (m, refl)

module _ {K : Type 0} ⦃eq : KeyEq K⦄ where
  -- The element after a release at a time, with its pins counted down.
  abbrev pub released_elem : ℕ → ℕ → Elem K → Elem K
  released_elem pin now x = record x { pin = pin; last_use = now }

  -- The last release, without the eviction that may follow it.
  abbrev pub put_back : Ptr → ℕ → Cache K → Cache K
  put_back e now c =
      write_elem e (released_elem 0 now (c.cell e)) (link e head c.links)
        (sub_64 c.pinned_units (c.cell e).units) c

  -- A release that is not the last.
  abbrev pub count_down : Ptr → ℕ → ℕ → Cache K → Cache K
  count_down e pin now c = write_elem e (released_elem pin now (c.cell e)) c.links c.pinned_units c

  module _ (c : Cache K) (k : K) (e v : Ptr) (now : ℕ) (mode : c.lru ≡ true)
      (goes : release k v now c ≡ release_in_table k v true now c) (f : find k c.table ≡ some e)
      (w : (c.cell e).value ≡ v) where
    pub release-count_down :
        (pin : ℕ)
        → (c.cell e).pin ≡ suc (suc pin)
        → release k v now c ≡ some (count_down e (suc pin) now c)
    unfolding release_in_table
    release-count_down pin p =
        let m : ((c.cell e).value == v) ≡ true = (==_iff (c.cell e).value v).1 w in
        let z : (suc pin == 0) ≡ false = ground arith in
        goes ∙ rw (release_in_table, f, m, p, mode, z) refl

    pub release-put_back :
        (c.cell e).pin ≡ 1
        → is_overfull_internal c ≡ false
        → release k v now c ≡ some (put_back e now c)
    unfolding release_in_table unpin_elem is_overfull_internal
    release-put_back p h =
        let m : ((c.cell e).value == v) ≡ true = (==_iff (c.cell e).value v).1 w in
        let r : (e == e) ≡ true = (==_iff e e).1 refl in
        let h' : is_overfull_internal (record (put_back e now c) { lru = true }) ≡ false = h in
        goes ∙ rw (release_in_table, f, m, p, mode, r, h') refl

    pub release-evict :
        (c.cell e).pin ≡ 1
        → is_overfull_internal c ≡ true
        → release k v now c ≡ some (remove k (put_back e now c))
    unfolding release_in_table unpin_elem is_overfull_internal
    release-evict p h =
        let m : ((c.cell e).value == v) ≡ true = (==_iff (c.cell e).value v).1 w in
        let r : (e == e) ≡ true = (==_iff e e).1 refl in
        let h' : is_overfull_internal (record (put_back e now c) { lru = true }) ≡ true = h in
        goes ∙ rw (release_in_table, f, m, p, mode, r, h') refl

  pub release-undeferred :
      (now : ℕ) (c : Cache K) (k : K) (v : Ptr)
      → find k c.defer ≡ none
      → release k v now c ≡ release_in_table k v true now c
  unfolding release release_with_options
  release-undeferred now c k v g = rw (release, release_with_options, g) refl
