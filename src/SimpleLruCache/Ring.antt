-- ===== src/SimpleLruCache/Ring.antt =====
-- What `link` and `unlink` do to a circular list: it is read backwards from its first element, so
-- that the list of a cache has the oldest element in front.
use jwt_verify_lib.Prelude.{◌≡◌, ◌≢◌, refl, sym, ap, ◌∙◌, List, [], ◌∷◌, ◌++◌, All, All-append}
use jwt_verify_lib.SimpleLruCache.Links.{Ptr, null, Links}

-- The elements `xs` stand between `a` and `b`.
abbrev pub Linked : Links → Ptr → List Ptr → Ptr → Type 0
Linked l a [] b = (l.prev a ≡ b) × (l.next b ≡ a)
Linked l a (x ∷ xs) b = (l.prev a ≡ x) × (l.next x ≡ a) × Linked l x xs b

-- A circular list, which starts and ends at `a`.
abbrev pub IsRing : Links → Ptr → List Ptr → Type 0
IsRing l a xs = Linked l a xs a

abbrev pub NotIn : Ptr → List Ptr → Type 0
NotIn p = All (λ q. q ≢ p)

abbrev pub IsDistinct : List Ptr → Type 0
IsDistinct [] = Unit
IsDistinct (x ∷ xs) = NotIn x xs × IsDistinct xs

pub All-map {ℓ} :
    {A : Type ℓ} {P Q : A → Type 0} (xs : List A) → ((x : A) → P x → Q x) → All P xs → All Q xs
All-map [] f h = tt
All-map (x ∷ xs) f (h, hs) = (f x h, All-map xs f hs)

pub All-everywhere {ℓ} : {A : Type ℓ} {P : A → Type 0} (xs : List A) → ((x : A) → P x) → All P xs
All-everywhere [] f = tt
All-everywhere (x ∷ xs) f = (f x, All-everywhere xs f)

pub All-both {ℓ} :
    {A : Type ℓ} {P Q R : A → Type 0} (xs : List A)
    → ((x : A) → P x → Q x → R x)
    → All P xs
    → All Q xs
    → All R xs
All-both [] f h k = tt
All-both (x ∷ xs) f (h, hs) (k, ks) = (f x h k, All-both xs f hs ks)

-- The middle of a list.
pub All-middle {ℓ} :
    {A : Type ℓ} (P : A → Type 0) (xs : List A) (e : A) (ys : List A) → All P (xs ++ e ∷ ys) → P e
All-middle P [] e ys (h, _) = h
All-middle P (x ∷ xs) e ys (_, hs) = All-middle P xs e ys hs

pub All-without {ℓ} :
    {A : Type ℓ} (P : A → Type 0) (xs : List A) (e : A) (ys : List A)
    → All P (xs ++ e ∷ ys)
    → All P (xs ++ ys)
All-without P [] e ys (_, h) = h
All-without P (x ∷ xs) e ys (h, hs) = (h, All-without P xs e ys hs)

pub All-left {ℓ} : {A : Type ℓ} (P : A → Type 0) (xs ys : List A) → All P (xs ++ ys) → All P xs
All-left P [] ys h = tt
All-left P (x ∷ xs) ys (h, hs) = (h, All-left P xs ys hs)

pub All-right {ℓ} : {A : Type ℓ} (P : A → Type 0) (xs ys : List A) → All P (xs ++ ys) → All P ys
All-right P [] ys h = h
All-right P (x ∷ xs) ys (h, hs) = All-right P xs ys hs

module _ (l : Links) where
  pub Linked-append :
      (a : Ptr) (xs : List Ptr) (y : Ptr) (ys : List Ptr) (b : Ptr)
      → Linked l a xs y
      → Linked l y ys b
      → Linked l a (xs ++ y ∷ ys) b
  Linked-append a [] y ys b (p, n) h = (p, n, h)
  Linked-append a (x ∷ xs) y ys b (p, n, s) h = (p, n, Linked-append x xs y ys b s h)

  pub Linked-left :
      (a : Ptr) (xs : List Ptr) (y : Ptr) (ys : List Ptr) (b : Ptr)
      → Linked l a (xs ++ y ∷ ys) b
      → Linked l a xs y
  Linked-left a [] y ys b (p, n, h) = (p, n)
  Linked-left a (x ∷ xs) y ys b (p, n, h) = (p, n, Linked-left x xs y ys b h)

  pub Linked-right :
      (a : Ptr) (xs : List Ptr) (y : Ptr) (ys : List Ptr) (b : Ptr)
      → Linked l a (xs ++ y ∷ ys) b
      → Linked l y ys b
  Linked-right a [] y ys b (p, n, h) = h
  Linked-right a (x ∷ xs) y ys b (p, n, h) = Linked-right x xs y ys b h

  -- The neighbours of an element are elements, or the ends.
  pub All-next :
      (P : Ptr → Type 0) (a : Ptr) (xs : List Ptr) (e : Ptr)
      → Linked l a xs e
      → All P (a ∷ xs)
      → P (l.next e)
  All-next P a [] e (p, n) (h, _) = rw n h
  All-next P a (x ∷ xs) e (p, n, s) (h, hs) = All-next P x xs e s hs

  pub All-prev :
      (P : Ptr → Type 0) (e : Ptr) (ys : List Ptr) (b : Ptr)
      → Linked l e ys b
      → All P (ys ++ b ∷ [])
      → P (l.prev e)
  All-prev P e [] b (p, n) (h, _) = rw p h
  All-prev P e (y ∷ ys) b (p, n, s) (h, hs) = rw p h

  -- Links that agree at the elements are links of the same elements.
  pub Linked-frame :
      (l' : Links) (a : Ptr) (xs : List Ptr) (b : Ptr)
      → All (λ p. l'.prev p ≡ l.prev p) (a ∷ xs)
      → All (λ p. l'.next p ≡ l.next p) (xs ++ b ∷ [])
      → Linked l a xs b
      → Linked l' a xs b
  Linked-frame l' a [] b (h, _) (k, _) (p, n) = (h ∙ p, k ∙ n)
  Linked-frame l' a (x ∷ xs) b (h, hs) (k, ks) (p, n, s) =
      (h ∙ p, k ∙ n, Linked-frame l' x xs b hs ks s)

-- The elements are the null pointer nowhere, and no two are the same.
abbrev pub AreNodes : List Ptr → Type 0
AreNodes ps = NotIn null ps × IsDistinct ps

-- A pointer that stands in neither part stands in none.
pub IsDistinct-without :
    (xs : List Ptr) (e : Ptr) (ys : List Ptr)
    → IsDistinct (xs ++ e ∷ ys)
    → IsDistinct (xs ++ ys) × NotIn e (xs ++ ys)
IsDistinct-without [] e ys (n, d) = (d, n)
IsDistinct-without (x ∷ xs) e ys (n, d) =
    let (d', m) = IsDistinct-without xs e ys d in
    let here = All-middle _ xs e ys n in ((All-without _ xs e ys n, d'), ((λ h. here (sym h)), m))

pub IsDistinct-right : (xs ys : List Ptr) → IsDistinct (xs ++ ys) → IsDistinct ys
IsDistinct-right [] ys d = d
IsDistinct-right (x ∷ xs) ys (_, d) = IsDistinct-right xs ys d

-- Parts of a list of different elements share none.
pub All-apart : (xs ys : List Ptr) → IsDistinct (xs ++ ys) → All (λ r. NotIn r xs) ys
All-apart [] ys d = All-everywhere ys (λ r. tt)
All-apart (x ∷ xs) ys (n, d) =
    All-both ys (λ r h k. ((λ p. h (sym p)), k)) (All-right _ xs ys n) (All-apart xs ys d)

pub append_snoc : (xs : List Ptr) (y : Ptr) (ys : List Ptr) → (xs ++ y ∷ []) ++ ys ≡ xs ++ y ∷ ys
append_snoc [] y ys = refl
append_snoc (x ∷ xs) y ys = ap (λ zs. x ∷ zs) (append_snoc xs y ys)

pub IsDistinct-snoc :
    (xs : List Ptr) (e : Ptr) → IsDistinct xs → NotIn e xs → IsDistinct (xs ++ e ∷ [])
IsDistinct-snoc [] e d n = (tt, tt)
IsDistinct-snoc (x ∷ xs) e (nx, d) (n, ne) =
    (All-append _ xs (e ∷ []) nx ((λ h. n (sym h)), tt), IsDistinct-snoc xs e d ne)

pub append_nil : (xs : List Ptr) → xs ++ [] ≡ xs
append_nil [] = refl
append_nil (x ∷ xs) = ap (λ ys. x ∷ ys) (append_nil xs)
