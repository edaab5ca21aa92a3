-- ===== src/SimpleLruCache/Expiring.antt =====
-- `discardIdle` of simple_lru_cache/simple_lru_cache_inl.h on a cache with the representation
-- invariants.
use jwt_verify_lib.Prelude.{
  ℕ, zero, suc, ◌≤◌, ◌≡◌, refl, ap, ◌∙◌, true, false, List, [], ◌∷◌, ◌==◌, inl, inr, some, All,
  Bool-cases, length, arith,
}
use jwt_verify_lib.SimpleLruCache.Words.{sub_64, less_64, is_not_negative}
use jwt_verify_lib.SimpleLruCache.Maps.{KeyEq}
use jwt_verify_lib.SimpleLruCache.Links.{Ptr}
use jwt_verify_lib.SimpleLruCache.State.{Cache, head, discard, remove}
use jwt_verify_lib.SimpleLruCache.Loops.{idle_loop, discard_idle}
use jwt_verify_lib.SimpleLruCache.Eviction.{oldest, prev-oldest, evict}
use jwt_verify_lib.SimpleLruCache.Valid.{IsValid, enough_fuel, drop_elem, drop_elem-IsValid}
use jwt_verify_lib.SimpleLruCache.Dropping.{drop_all, Drops, at_oldest, remove-drop}

module _ {K : Type 0} ⦃eq : KeyEq K⦄ where
  -- The oldest element, if there is one, is too new.
  abbrev pub StartsFresh : ℕ → Cache K → List Ptr → Type 0
  StartsFresh threshold c [] = Unit
  StartsFresh threshold c (e ∷ _) = less_64 (c.cell e).last_use threshold ≡ false

  drop_elem-cell : (e : Ptr) (c : Cache K) → (drop_elem e c).cell ≡ c.cell
  unfolding evict discard
  drop_elem-cell e c = refl

  pub drop_all-cell : (es : List Ptr) (c : Cache K) → (drop_all es c).cell ≡ c.cell
  drop_all-cell [] c = refl
  drop_all-cell (e ∷ es) c = drop_all-cell es (drop_elem e c) ∙ drop_elem-cell e c

  -- The rounds of the loop.
  idle_loop-head : (threshold fuel : ℕ) (c : Cache K) → idle_loop threshold fuel head c ≡ some c
  unfolding idle_loop
  idle_loop-head threshold zero c = refl
  idle_loop-head threshold (suc fuel) c = refl

  idle_loop-fresh :
      (threshold fuel : ℕ) (e : Ptr) (c : Cache K)
      → less_64 (c.cell e).last_use threshold ≡ false
      → idle_loop threshold fuel e c ≡ some c
  unfolding idle_loop
  idle_loop-fresh threshold zero e c h = elim (Bool-cases (e == head)) [
    | inl m ↦ rw m refl
    | inr m ↦ rw (m, h) refl
  ]
  idle_loop-fresh threshold (suc fuel) e c h = elim (Bool-cases (e == head)) [
    | inl m ↦ rw m refl
    | inr m ↦ rw (m, h) refl
  ]

  idle_loop-stale :
      (threshold fuel : ℕ) (e : Ptr) (c : Cache K)
      → (e == head) ≡ false
      → less_64 (c.cell e).last_use threshold ≡ true
      → idle_loop threshold (suc fuel) e c
        ≡ idle_loop threshold fuel (c.links.prev e) (remove (c.cell e).key c)
  unfolding idle_loop
  idle_loop-stale threshold fuel e c m h = rw (m, h) refl

  -- The elements that are left in front are fresh, and those that are gone were stale.
  abbrev pub SplitsAt : ℕ → Cache K → List Ptr → List Ptr → Type 0
  SplitsAt threshold c gone left =
      All (λ e. less_64 (c.cell e).last_use threshold ≡ true) gone × StartsFresh threshold c left

  discard_idle_loop :
      (threshold fuel : ℕ) (es : List Ptr) (c : Cache K)
      → length es ≤ fuel
      → IsValid c es
      → (d : Drops c es (idle_loop threshold fuel (oldest es) c)) × SplitsAt threshold c d.gone
          d.left
  unfolding evict discard
  discard_idle_loop threshold fuel [] c n valid = (
    record {
      gone = [];
      left = [];
      parts = refl;
      result = idle_loop-head threshold fuel c;
      valid = valid;
    },
    (tt, tt),
  )
  discard_idle_loop threshold zero (e ∷ es) c n valid = absurd (ground arith)
  discard_idle_loop threshold (suc fuel) (e ∷ es) c n valid =
      let (next, m, p) = at_oldest c e es valid in
      elim (Bool-cases (less_64 (c.cell e).last_use threshold)) [
        | inr h ↦ (
          record {
            gone = [];
            left = e ∷ es;
            parts = refl;
            result = idle_loop-fresh threshold (suc fuel) e c h;
            valid = valid;
          },
          (tt, h),
        )
        | inl h ↦
            let (d, (old, new)) =
              discard_idle_loop threshold fuel es (drop_elem e c) (ground arith)
                (drop_elem-IsValid c [] e es valid) in
            (
              record {
                gone = e ∷ d.gone;
                left = d.left;
                parts = ap (λ xs. e ∷ xs) d.parts;
                result =
                    idle_loop-stale threshold fuel e c m h
                    ∙ ap (λ q. idle_loop threshold fuel q (remove (c.cell e).key c)) next
                    ∙ ap (idle_loop threshold fuel (oldest es)) (remove-drop c e p valid.listed.0)
                    ∙ d.result;
                valid = d.valid;
              },
              ((h, old), new),
            )
      ]

  -- On a cache with the representation invariants, and for an idle time that is not negative,
  -- `discardIdle` ends, keeps the invariants, and drops exactly the oldest elements that were last
  -- used before the threshold, up to the first one that was not.
  pub discard_idle-Drops :
      (max_idle now : ℕ) (es : List Ptr) (c : Cache K)
      → is_not_negative max_idle ≡ true
      → IsValid c es
      → (d : Drops c es (discard_idle max_idle now c)) × SplitsAt
          (sub_64 now max_idle)
          c
          d.gone
          d.left
  unfolding discard_idle
  discard_idle-Drops max_idle now es c h valid =
      rw (h, prev-oldest c.links head es valid.ring)
        (discard_idle_loop (sub_64 now max_idle) c.allocated es c (enough_fuel c es valid) valid)
