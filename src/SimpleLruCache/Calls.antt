-- ===== src/SimpleLruCache/Calls.antt =====
-- The calls that a client of simple_lru_cache/simple_lru_cache_inl.h makes in the LRU mode, where it
-- releases only what it has to release, and the states that it reaches.
use jwt_verify_lib.Prelude.{ℕ, ◌≡◌, ◌≢◌, sym, List, Option, none, some}
use jwt_verify_lib.SimpleLruCache.{
  KeyEq, find, Ptr, null, Elem, Cache, head, new_cache, remove, remove_unpinned, lookup, release,
  insert_pinned, insert, set_max_size, Seconds, set_max_idle_seconds, update_size, remove_all,
  clear,
}
use jwt_verify_lib.SimpleLruCache.Ring.{All-map}
use jwt_verify_lib.SimpleLruCache.Valid.{IsValid}
use jwt_verify_lib.SimpleLruCache.Claims.{IsDeferred, IsFree}
use jwt_verify_lib.SimpleLruCache.Deferring.{IsClaimed}
use jwt_verify_lib.SimpleLruCache.Clearing.{IsUnclaimed}

module _ {K : Type 0} ⦃eq : KeyEq K⦄ where
  -- The allocator returns an address that is not null, not the head's, and no live element's.
  abbrev pub IsUnused : Cache K → Ptr → Type 0
  IsUnused c p =
      (p ≢ null)
      × (p ≢ head)
      × ((k : K) (r : Ptr) → find k c.table ≡ some r → p ≢ r)
      × ((k : K) (r : Ptr) → IsDeferred c k r → p ≢ r)

  pub IsUnused-IsFree :
      (c : Cache K) (es : List Ptr) (p : Ptr) → IsValid c es → IsUnused c p → IsFree c es p
  IsUnused-IsFree c es p valid (n, h, apart, off) = record {
    real = (n, h);
    not_on_list = All-map es (λ r f q. apart _ r f (sym q)) valid.listed;
    not_in_table = apart;
    not_deferred = off;
  }

  -- The calls that a client may make in a state.
  pub data Call (s : Seconds) (c : Cache K) : Type 0 where
    look_up : (k : K) (now : ℕ) → Call s c
    let_go : (k : K) (v : Ptr) (now : ℕ) → IsClaimed c k v → Call s c
    put_in : (p v : Ptr) (k : K) (units now : ℕ) → IsUnused c p → Call s c
    put : (p v : Ptr) (k : K) (units now later : ℕ) → IsUnused c p → Call s c
    take_out : (k : K) → Call s c
    sweep_out : Call s c
    resize : (total_units : ℕ) → Call s c
    age : (seconds : s.Double) (now : ℕ) → Call s c
    weigh : (k : K) (v : Ptr) (units : ℕ) → Call s c
    take_out_all : Call s c
    wipe : IsUnclaimed c → Call s c

  abbrev pub state_of : Option (Cache K × Ptr) → Option (Cache K)
  state_of none = none
  state_of (some (c, _)) = some c

  -- The state after a call.
  abbrev pub run : (s : Seconds) (c : Cache K) → Call s c → Option (Cache K)
  run s c (look_up k now) = state_of (lookup k now c)
  run s c (let_go k v now _) = release k v now c
  run s c (put_in p v k units now _) = insert_pinned p k v units now c
  run s c (put p v k units now later _) = insert p k v units now later c
  run s c (take_out k) = some (remove k c)
  run s c sweep_out = remove_unpinned c
  run s c (resize total_units) = set_max_size total_units c
  run s c (age seconds now) = set_max_idle_seconds s seconds now c
  run s c (weigh k v units) = update_size k v units c
  run s c take_out_all = some (remove_all c)
  run s c (wipe _) = some (clear c)

  -- A call releases a value of a key.
  abbrev pub Releases : (s : Seconds) (c : Cache K) → Call s c → K → Ptr → Type 0
  Releases s c (let_go k v now _) j w = (j ≡ k) × (w ≡ v)
  Releases s c (put p v k units now later _) j w = (j ≡ k) × (w ≡ v)
  Releases s c (look_up k now) j w = ⊥
  Releases s c (put_in p v k units now _) j w = ⊥
  Releases s c (take_out k) j w = ⊥
  Releases s c sweep_out j w = ⊥
  Releases s c (resize total_units) j w = ⊥
  Releases s c (age seconds now) j w = ⊥
  Releases s c (weigh k v units) j w = ⊥
  Releases s c take_out_all j w = ⊥
  Releases s c (wipe _) j w = ⊥

  pub data Reached (s : Seconds) (cell : Ptr → Elem K) : Cache K → Type 0 where
    created : (total_units : ℕ) → Reached s cell (new_cache cell total_units)
    called :
        {c c' : Cache K}
        → Reached s cell c
        → (call : Call s c) → run s c call ≡ some c'
        → Reached s cell c'
