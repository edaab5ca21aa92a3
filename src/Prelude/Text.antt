-- ===== src/Prelude/Text.antt =====
-- `std::string` as the list of its bytes, with the operations of the C++ library.
use Prim.Native.Char.{code}
use Prim.Native.Nat.{ℕ, zero, suc}
use Prim.Native.String.{String}
use mathlib.Core.Path.{◌≡◌, refl}
use mathlib.Core.Logic.{◌↔◌}
use mathlib.Core.Bool.{Bool, true, false, ◌&&◌}
use mathlib.Core.List.{List, [], ◌∷◌}
use native.Mathlib.Omega.{arith}
use mathlib.Core.Option.{Option, none, some}
use jwt_verify_lib.Prelude.Tests.{◌==◌, leb, if◌then◌else◌}
use jwt_verify_lib.Prelude.Lists.{length, take, drop}

abbrev pub Bytes : Type 0
Bytes = List ℕ

-- The bytes of an ASCII literal.
abbrev pub bytes : String → Bytes
bytes String.[] = []
bytes (String.◌∷◌ c s) = code c ∷ bytes s

-- `operator==` of two strings.
infix 50 ◌=ᵇ◌
unfoldable pub ◌=ᵇ◌ : Bytes → Bytes → Bool
[] =ᵇ [] = true
(a ∷ s) =ᵇ (b ∷ t) = a == b && s =ᵇ t
_ =ᵇ _ = false

pub eq_iff : (s t : Bytes) → ((s =ᵇ t) ≡ true) ↔ (s ≡ t)
unfolding ◌=ᵇ◌
eq_iff [] [] = ground arith
eq_iff [] (b ∷ t) = ground arith
eq_iff (a ∷ s) [] = ground arith
eq_iff (a ∷ s) (b ∷ t) = ground (arith, eq_iff s t)

pub eq_refl : (s : Bytes) → (s =ᵇ s) ≡ true
eq_refl s = (eq_iff s s).1 refl

-- `s[pos]` within the string, which ends with a zero byte.
abbrev pub char_at : Bytes → ℕ → ℕ
char_at [] i = 0
char_at (c ∷ s) zero = c
char_at (c ∷ s) (suc i) = char_at s i

-- `s.substr(pos, n)`; `none` is the exception `std::out_of_range`.
abbrev pub substr : Bytes → ℕ → ℕ → Option Bytes
substr s pos n = if leb pos (length s) then some (take n (drop pos s)) else none

-- `s.compare(0, n, t) == 0`.
abbrev pub has_prefix_of_length : ℕ → Bytes → Bytes → Bool
has_prefix_of_length n t s = take n s =ᵇ t
