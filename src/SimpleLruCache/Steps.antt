-- ===== src/SimpleLruCache/Steps.antt =====
-- The sequence of steps that may end without a state, and a comparison of Booleans.
use jwt_verify_lib.Prelude.{Bool, true, false, not, Option, none, some}

-- `==` of two Booleans.
abbrev pub same : Bool → Bool → Bool
same true b = b
same false b = not b

infixl 5 ◌>>=◌
abbrev pub ◌>>=◌ {ℓ κ} : {A : Type ℓ} {B : Type κ} → Option A → (A → Option B) → Option B
none >>= k = none
some a >>= k = k a
