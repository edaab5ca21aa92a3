-- ===== src/Jwt/Time.antt =====
-- The time constraint, without and with a wrap of its sums.
use jwt_verify_lib.Prelude.{ℕ, ◌+◌, ◌^◌, ◌≤◌, ◌<◌, ◌≡◌, ◌≢◌, ◌↔◌, ◌⊎◌, arith}
use jwt_verify_lib.Status.{ok, jwt_not_yet_valid, jwt_expired}
use jwt_verify_lib.External.Protobuf.{Protobuf}
use jwt_verify_lib.Jwt.{Jwt, verify_time_constraint}

module _ ⦃pb : Protobuf⦄ (j : Jwt) (now clock_skew : ℕ) where
  -- Where the sums with the clock skew fit into 64 bits: a token is not yet valid exactly before
  -- `nbf` less the skew; otherwise it is expired exactly if it has an `exp` that is not 0 and `now`
  -- is behind it by more than the skew; and it is accepted in all other cases.
  pub verify_time_constraint_iff :
      now + clock_skew < 2 ^ 64
      → j.exp + clock_skew < 2 ^ 64
      → ((verify_time_constraint j now clock_skew ≡ jwt_not_yet_valid) ↔ (now + clock_skew < j.nbf))
        × ((verify_time_constraint j now clock_skew ≡ jwt_expired)
            ↔ ((j.nbf ≤ now + clock_skew) × (j.exp ≢ 0) × (j.exp + clock_skew < now)))
        × ((verify_time_constraint j now clock_skew ≡ ok)
            ↔ ((j.nbf ≤ now + clock_skew) × ((j.exp ≡ 0) ⊎ (now ≤ j.exp + clock_skew))))
  unfolding verify_time_constraint
  verify_time_constraint_iff h k = ground arith

  -- Where `exp` plus the skew does not fit into 64 bits, and `now` plus the skew does, a token that
  -- is valid already, and has not expired, is rejected as expired at every time behind the skew.
  pub verify_time_constraint_wraps :
      now + clock_skew < 2 ^ 64
      → j.nbf ≤ now + clock_skew
      → j.exp < 2 ^ 64
      → 2 ^ 64 ≤ j.exp + clock_skew
      → clock_skew < now
      → verify_time_constraint j now clock_skew ≡ jwt_expired
  unfolding verify_time_constraint
  verify_time_constraint_wraps a b c d e = ground arith
