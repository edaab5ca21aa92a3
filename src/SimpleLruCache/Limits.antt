-- ===== src/SimpleLruCache/Limits.antt =====
-- `setMaxSize` and `setMaxIdleSeconds` of simple_lru_cache/simple_lru_cache_inl.h, on a cache with the
-- representation invariants.
use jwt_verify_lib.Prelude.{
  ℕ, ◌≡◌, refl, ◌∙◌, Bool, true, false, ◌||◌, List, Option, inl, inr, some, if◌then◌else◌,
  Bool-cases, All,
}
use jwt_verify_lib.SimpleLruCache.{
  KeyEq, Ptr, Cache, discard_idle, is_not_negative, minus_one, int64_max, set_max_size, Seconds,
  set_timeout, set_max_idle_seconds,
}
use jwt_verify_lib.SimpleLruCache.Ring.{All-everywhere}
use jwt_verify_lib.SimpleLruCache.Late.{IsSame, IsLate-frame}
use jwt_verify_lib.SimpleLruCache.Claims.{IsSteady, IsSteady-refl, IsSteady-trans, IsSteady-frame}
use jwt_verify_lib.SimpleLruCache.Valid.{IsValid}
use jwt_verify_lib.SimpleLruCache.Dropping.{garbage_collect-Drops}
use jwt_verify_lib.SimpleLruCache.Expiring.{discard_idle-Drops}
use jwt_verify_lib.SimpleLruCache.Keeping.{Keeps, Drops-Keeps}

module _ {K : Type 0} ⦃eq : KeyEq K⦄ where
  limits_same :
      (c : Cache K) (ds : List Ptr) (b : Bool) (max_units max_idle : ℕ)
      → All (IsSame c (record c { lru = b; max_units = max_units; max_idle = max_idle })) ds
  limits_same c ds b max_units max_idle =
      All-everywhere ds
        (λ d. record { same_prev = refl; same_next = refl; same_cell = refl; same_freed = refl })

  limits-IsSteady :
      (c : Cache K) (es : List Ptr) (b : Bool) (max_units max_idle : ℕ)
      → IsValid c es
      → IsSteady c (record c { lru = b; max_units = max_units; max_idle = max_idle })
  limits-IsSteady c es b max_units max_idle valid =
      IsSteady-frame c _ valid.late_elems valid.ring_of valid.late refl
        (limits_same c valid.late_elems b max_units max_idle)

  -- The invariants do not read the limits.
  limits-IsValid :
      (c : Cache K) (es : List Ptr) (b : Bool) (max_units max_idle : ℕ)
      → b ≡ true
      → IsValid c es
      → IsValid (record c { lru = b; max_units = max_units; max_idle = max_idle }) es
  limits-IsValid c es b max_units max_idle h valid = record {
    in_lru_mode = h;
    ring = valid.ring;
    nodes = valid.nodes;
    listed = valid.listed;
    unpinned = valid.unpinned;
    entries = λ k e f.
        let entry = valid.entries k e f in
        record {
          keyed = entry.keyed;
          alive = entry.alive;
          real = entry.real;
          waits = entry.waits;
          alone = entry.alone;
        };
    unique = valid.unique;
    late_elems = valid.late_elems;
    ring_of = valid.ring_of;
    late =
        IsLate-frame c _ valid.late_elems valid.ring_of refl
          (limits_same c valid.late_elems b max_units max_idle) valid.late;
    few = valid.few;
    sized = valid.sized;
    pinned = valid.pinned;
  }

  -- The result of a call that ends, with the invariants, what was held, and the deferred elements.
  abbrev pub EndsKeeping : Cache K → Option (Cache K) → Type 0
  EndsKeeping c o = (c' : Cache K) × (es' : List Ptr) × (o ≡ some c') × Keeps c c' es'

  pub set_max_size-EndsKeeping :
      (c : Cache K) (es : List Ptr) (total_units : ℕ)
      → IsValid c es
      → EndsKeeping c (set_max_size total_units c)
  unfolding set_max_size
  set_max_size-EndsKeeping c es total_units valid =
      let valid' = limits-IsValid c es c.lru total_units c.max_idle valid.in_lru_mode valid in
      let steady = limits-IsSteady c es c.lru total_units c.max_idle valid in
      let (c', es', q, (v, kept, same)) =
        Drops-Keeps (record c { max_units = total_units }) es _ valid'
          (garbage_collect-Drops es (record c { max_units = total_units }) valid').0 in
      (c', es', q, (v, kept, IsSteady-trans steady same))

  discard_idle-EndsKeeping :
      (c : Cache K) (es : List Ptr) (max_idle now : ℕ)
      → IsValid c es
      → EndsKeeping c (discard_idle max_idle now c)
  unfolding discard_idle
  discard_idle-EndsKeeping c es max_idle now valid = elim (Bool-cases (is_not_negative max_idle)) [
    | inl h ↦ Drops-Keeps c es _ valid (discard_idle-Drops max_idle now es c h valid).0
    | inr h ↦ rw h (c, es, refl, (valid, (λ k v held. held), IsSteady-refl c))
  ]

  module _ (s : Seconds) (seconds : s.Double) (now : ℕ) (c : Cache K) where
    set_max_idle_seconds-forever :
        (s.is_negative seconds || s.is_inf seconds) ≡ true
        → set_max_idle_seconds s seconds now c
          ≡ some (record c { lru = true; max_idle = minus_one })
    unfolding set_max_idle_seconds set_timeout
    set_max_idle_seconds-forever h = rw h refl

    set_max_idle_seconds-discard_idle :
        (s.is_negative seconds || s.is_inf seconds) ≡ false
        → c.lru ≡ true
        → set_max_idle_seconds s seconds now c
          ≡ discard_idle
              (if s.is_too_long seconds then int64_max else s.to_cycles seconds)
              now
              (record c {
                lru = true;
                max_idle = if s.is_too_long seconds then int64_max else s.to_cycles seconds;
              })
    unfolding set_max_idle_seconds set_timeout
    set_max_idle_seconds-discard_idle h l = elim (Bool-cases (is_not_negative c.max_idle)) [
      | inl i ↦ rw (h, i, l) refl
      | inr i ↦ rw (h, i) refl
    ]

  pub set_max_idle_seconds-EndsKeeping :
      (c : Cache K) (es : List Ptr) (s : Seconds) (seconds : s.Double) (now : ℕ)
      → IsValid c es
      → EndsKeeping c (set_max_idle_seconds s seconds now c)
  set_max_idle_seconds-EndsKeeping c es s seconds now valid =
      elim (Bool-cases (s.is_negative seconds || s.is_inf seconds)) [
        | inl h ↦ (
          record c { lru = true; max_idle = minus_one },
          es,
          set_max_idle_seconds-forever s seconds now c h,
          (
            limits-IsValid c es true c.max_units minus_one refl valid,
            (λ k v held. held),
            limits-IsSteady c es true c.max_units minus_one valid,
          ),
        )
        | inr h ↦
            let m = if s.is_too_long seconds then int64_max else s.to_cycles seconds in
            let (c', es', q, (v, kept, same)) =
              discard_idle-EndsKeeping (record c { lru = true; max_idle = m }) es m now
                (limits-IsValid c es true c.max_units m refl valid) in
            (
              c',
              es',
              set_max_idle_seconds-discard_idle s seconds now c h valid.in_lru_mode ∙ q,
              (v, kept, IsSteady-trans (limits-IsSteady c es true c.max_units m valid) same),
            )
      ]
