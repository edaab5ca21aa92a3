-- ===== src/SimpleLruCache/State.antt =====
-- The fields of `SimpleLRUCacheElem` and `SimpleLRUCacheBase`, and the functions that end an
-- element's life (simple_lru_cache/simple_lru_cache_inl.h).
use jwt_verify_lib.Prelude.{
  ℕ, Bool, true, false, not, ◌||◌, List, [], ◌∷◌, ◌++◌, none, some, ◌==◌, if◌then◌else◌,
}
use jwt_verify_lib.SimpleLruCache.Words.{sub_64, less_64, minus_one}
use jwt_verify_lib.SimpleLruCache.Maps.{KeyEq, find, erase, assign}
use jwt_verify_lib.SimpleLruCache.Links.{Ptr, null, set_at, Links, set_next, set_prev, link, unlink}

-- An element without its links.
pub record Elem (K : Type 0) : Type 0 where
  pub key : K
  pub value : Ptr
  pub pin : ℕ
  pub units : ℕ
  pub last_use : ℕ

-- The address of `head_`.
abbrev pub head : Ptr
head = 1

-- `cell` and `links` are the store; `freed` tells the elements that were deleted, `allocated` counts
-- those that were made, and `removed` lists the values that `removeElement` was called with.
pub record Cache (K : Type 0) : Type 0 where
  pub table : List (K × Ptr)
  pub defer : List (K × Ptr)
  pub units : ℕ
  pub max_units : ℕ
  pub pinned_units : ℕ
  pub max_idle : ℕ
  pub lru : Bool
  pub links : Links
  pub cell : Ptr → Elem K
  pub freed : Ptr → Bool
  pub allocated : ℕ
  pub removed : List Ptr

module _ {K : Type 0} where
  -- The constructor, on a store; `head_` is linked to itself.
  abbrev pub new_cache : (Ptr → Elem K) → ℕ → Cache K
  new_cache cell total_units = record {
    table = [];
    defer = [];
    units = 0;
    max_units = total_units;
    pinned_units = 0;
    max_idle = minus_one;
    lru = true;
    links = set_prev head head (set_next head head (record { next = λ _. null; prev = λ _. null }));
    cell = cell;
    freed = λ _. false;
    allocated = 0;
    removed = [];
  }

  -- A write of an element.
  abbrev pub set_elem : Ptr → Elem K → Cache K → Cache K
  set_elem p e c = record c { cell = set_at c.cell p e }

  -- `isOverfull`, and `isOverfullInternal`.
  abbrev pub is_overfull : Cache K → Bool
  is_overfull c = less_64 c.max_units c.units

  unfoldable pub is_overfull_internal : Cache K → Bool
  is_overfull_internal c = less_64 c.max_units c.units || is_overfull c

  -- `discard`: the value is given to `removeElement`, and the element is deleted.
  unfoldable pub discard : Ptr → Cache K → Cache K
  discard e c = record c {
    units = sub_64 c.units (c.cell e).units;
    removed = c.removed ++ (c.cell e).value ∷ [];
    freed = set_at c.freed e true;
  }

  module _ ⦃eq : KeyEq K⦄ where
    -- The deferred table with an element more.
    unfoldable pub put_off : Ptr → Cache K → Cache K
    put_off e c = elim (find (c.cell e).key c.defer) [
      | none ↦ record c {
        links = set_prev e e (set_next e e c.links);
        defer = assign (c.cell e).key e c.defer;
      }
      | some first ↦ record c { links = link e first c.links }
    ]

    -- `remove(Elem*)`.
    unfoldable pub remove_elem : Ptr → Cache K → Cache K
    remove_elem e c =
        let c₁ = record c { links = unlink e c.links } in
        if not ((c.cell e).pin == 0)
        then put_off e (record c₁ { pinned_units = sub_64 c.pinned_units (c.cell e).units })
        else discard e c₁

    -- `remove(const Key&)`.
    unfoldable pub remove : K → Cache K → Cache K
    remove k c = elim (find k c.table) [
      | none ↦ c
      | some e ↦ remove_elem e (record c { table = erase k c.table })
    ]
