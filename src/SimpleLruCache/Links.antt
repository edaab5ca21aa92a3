-- ===== src/SimpleLruCache/Links.antt =====
-- The links of `SimpleLRUCacheElem` (simple_lru_cache/simple_lru_cache_inl.h): a store for each of
-- the fields `next` and `prev`, by the address of the element. Address 0 is the null pointer.
use jwt_verify_lib.Prelude.{ℕ, Bool, not, ◌==◌, if◌then◌else◌}

abbrev pub Ptr : Type 0
Ptr = ℕ

abbrev pub null : Ptr
null = 0

-- A write of one field of one element.
abbrev pub set_at {ℓ} : {A : Type ℓ} → (Ptr → A) → Ptr → A → Ptr → A
set_at f p v q = if p == q then v else f q

pub record Links : Type 0 where
  pub next : Ptr → Ptr
  pub prev : Ptr → Ptr

abbrev pub set_next : Ptr → Ptr → Links → Links
set_next p q l = record l { next = set_at l.next p q }

abbrev pub set_prev : Ptr → Ptr → Links → Links
set_prev p q l = record l { prev = set_at l.prev p q }

-- `isLinked`.
unfoldable pub is_linked : Links → Ptr → Bool
is_linked l e = not (l.next e == null)

-- The writes of `unlink`, in their order; each reads the links as the one before leaves them.
unfoldable pub unlink_linked : Ptr → Links → Links
unlink_linked e l =
    let l₁ = set_next (l.prev e) (l.next e) l in
    let l₂ = set_prev (l₁.next e) (l₁.prev e) l₁ in
    let l₃ = set_prev e null l₂ in set_next e null l₃

-- `unlink`.
unfoldable pub unlink : Ptr → Links → Links
unlink e l = if not (is_linked l e) then l else unlink_linked e l

-- `link`.
unfoldable pub link : Ptr → Ptr → Links → Links
link e head l =
    let l₁ = set_next e (l.next head) l in
    let l₂ = set_prev e head l₁ in let l₃ = set_prev (l₂.next e) e l₂ in set_next (l₃.prev e) e l₃
