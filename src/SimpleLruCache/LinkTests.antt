-- ===== src/SimpleLruCache/LinkTests.antt =====
-- The theorems about circular lists at lists of a head and two elements.
use jwt_verify_lib.Prelude.{◌≡◌, refl, false, [], ◌∷◌, arith}
use jwt_verify_lib.SimpleLruCache.Links.{null, set_next, set_prev, Links, is_linked, unlink, link}
use jwt_verify_lib.SimpleLruCache.Ring.{IsRing, IsDistinct, AreNodes}
use jwt_verify_lib.SimpleLruCache.Unlinking.{unlink-IsRing}
use jwt_verify_lib.SimpleLruCache.Linking.{link_linked_breaks}

-- A head at 1.
abbrev start : Links
start = set_prev 1 1 (set_next 1 1 (record { next = λ _. null; prev = λ _. null }))

abbrev two : Links
two = link 3 1 (link 2 1 start)

two_nodes : AreNodes (1 ∷ 2 ∷ 3 ∷ [])
two_nodes = (
  (ground arith, (ground arith, (ground arith, tt))),
  ((ground arith, (ground arith, tt)), ((ground arith, tt), (tt, tt))),
)

two-IsRing : IsRing two 1 (2 ∷ 3 ∷ [])
unfolding link
two-IsRing = (refl, refl, (refl, refl, (refl, refl)))

unlink_example : IsRing (unlink 2 two) 1 (3 ∷ []) × (is_linked (unlink 2 two) 2 ≡ false)
unlink_example = unlink-IsRing two 1 [] 2 (3 ∷ []) two_nodes two-IsRing

four-IsDistinct : IsDistinct (4 ∷ 1 ∷ 2 ∷ 3 ∷ [])
four-IsDistinct = (
  (ground arith, (ground arith, (ground arith, tt))),
  ((ground arith, (ground arith, tt)), ((ground arith, tt), (tt, tt))),
)

link_breaks_example : ¬ IsRing (link 2 1 two) 1 (3 ∷ 2 ∷ [])
link_breaks_example = link_linked_breaks two 1 [] 2 3 [] two_nodes two-IsRing (3 ∷ 2 ∷ [])
