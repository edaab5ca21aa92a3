-- ===== src/Verify/Order.antt =====
-- The order of the checks: audiences, then time, then the signature.
use mathlib.Core.Bool.{false≢true}
use mathlib.Core.Option.{some-injective}
use mathlib.Core.Path.{ap}
use jwt_verify_lib.Prelude.{
  if◌then◌else◌, ℕ, ◌+◌, ◌^◌, ◌≤◌, ◌<◌, ◌≡◌, ◌≢◌, ◌↔◌, ◌⊎◌, inl, inr, refl, Bool, true, false, List,
  [], Option, none, some, Bytes, All, Some, Option-cases, not, arith,
}
use jwt_verify_lib.Status.{Status, is_ok, ok, jwt_audience_not_allowed}
use jwt_verify_lib.Status.Laws.{is_ok_iff, ok-cases}
use jwt_verify_lib.External.Protobuf.{Protobuf}
use jwt_verify_lib.External.Absl.{Absl, StartsWithLaw}
use jwt_verify_lib.External.Ssl.{Ssl}
use jwt_verify_lib.CheckAudience.{◌>>=◌, check_audience, are_audiences_allowed}
use jwt_verify_lib.CheckAudience.Canonical.{canonical}
use jwt_verify_lib.CheckAudience.Laws.{HasSize, are_audiences_allowed_iff}
use jwt_verify_lib.Jwt.{Jwt, verify_time_constraint, clock_skew_in_second}
use jwt_verify_lib.Jwt.Time.{verify_time_constraint_iff}
use jwt_verify_lib.Jwks.{Pubkey}
use jwt_verify_lib.Verify.{verify_jwt_without_time_checking, verify_jwt, verify_jwt_with_audiences}

-- A check that must allow, before one that must return `Ok`.
both_iff :
    (allowed : Option Bool) (status : Status) {A B : Type 0}
    → allowed ≢ none
    → (allowed ≡ some true) ↔ A
    → (status ≡ ok) ↔ B
    → ((allowed >>= λ b. some (if not b then jwt_audience_not_allowed else status)) ≢ none)
      × (((allowed >>= λ b. some (if not b then jwt_audience_not_allowed else status)) ≡ some ok)
          ↔ (A × B))
both_iff none status total a b = absurd (total refl)
both_iff (some true) status total a b =
    (λ e. ground arith, (λ e. (a.0 refl, b.0 (ground arith)), λ p. ap some (b.1 p.1)))
both_iff (some false) status total a b = (
  λ e. ground arith,
  (λ e. absurd (ground arith), λ p. absurd (false≢true (some-injective false true (a.1 p.0)))),
)

-- A status that is returned unless it is `Ok`, before another one.
first_ok_iff :
    (first rest : Status)
    → ((if not (is_ok first) then first else rest) ≡ ok) ↔ ((first ≡ ok) × (rest ≡ ok))
first_ok_iff first rest = elim (ok-cases first) [
  | inl e ↦ rw ((is_ok_iff first).1 e) ((λ r. (e, r), λ p. p.1))
  | inr (f, n) ↦ rw f ((λ h. absurd (n h), λ p. absurd (n p.0)))
]

module _ ⦃pb : Protobuf⦄ ⦃ssl : Ssl⦄ where
  -- The time window of a token, in whole numbers.
  abbrev pub IsInTime : Jwt → ℕ → ℕ → Type 0
  IsInTime jwt now clock_skew =
      (jwt.nbf ≤ now + clock_skew) × ((jwt.exp ≡ 0) ⊎ (now ≤ jwt.exp + clock_skew))

  -- Where the sums with the skew fit into 64 bits, a token passes at a time exactly if the time is
  -- within the token's window and the signature check returns `Ok`.
  pub verify_jwt-ok_iff :
      (jwt : Jwt) (keys : List Pubkey) (now clock_skew : ℕ)
      → now + clock_skew < 2 ^ 64
      → jwt.exp + clock_skew < 2 ^ 64
      → (verify_jwt jwt keys now clock_skew ≡ ok)
        ↔ (IsInTime jwt now clock_skew × (verify_jwt_without_time_checking jwt keys ≡ ok))
  unfolding verify_jwt
  verify_jwt-ok_iff jwt keys now clock_skew h k =
      let time = (verify_time_constraint_iff jwt now clock_skew h k).2 in
      let order =
        first_ok_iff (verify_time_constraint jwt now clock_skew)
          (verify_jwt_without_time_checking jwt keys) in
      (
        λ e. let (in_time, signed) = order.0 e in (time.0 in_time, signed),
        λ p. order.1 (time.1 p.0, p.1),
      )

  module _ ⦃ab : Absl⦄ where
    -- The decision of the audience check.
    abbrev allowance : Jwt → List Bytes → Option Bool
    allowance jwt audiences =
        check_audience audiences >>= λ set. are_audiences_allowed set jwt.audiences

    with_audiences_lem :
        (jwt : Jwt) (keys : List Pubkey) (audiences : List Bytes) (now : ℕ)
        → verify_jwt_with_audiences jwt keys audiences now ≡ (
            allowance jwt audiences >>= λ b. some (
              if not b
              then jwt_audience_not_allowed
              else verify_jwt jwt keys now clock_skew_in_second))
    unfolding verify_jwt_with_audiences
    with_audiences_lem jwt keys audiences now = elim (Option-cases (check_audience audiences)) [
      | inl e ↦ rw e refl
      | inr (set, e) ↦ rw e refl
    ]

  module _ ⦃ab : Absl⦄ (law : StartsWithLaw ab) where
    -- Where `StartsWith` tests for a prefix, and for strings and times within 64 bits, the full
    -- verification never throws; it returns `Ok`
    -- exactly if an audience is allowed, the time is within the token's window (with the default
    -- skew), and the signature check returns `Ok`.
    pub verify_jwt_with_audiences_iff :
        (jwt : Jwt) (keys : List Pubkey) (audiences : List Bytes) (now : ℕ)
        → All HasSize audiences
        → All HasSize jwt.audiences
        → now + clock_skew_in_second < 2 ^ 64
        → jwt.exp + clock_skew_in_second < 2 ^ 64
        → (verify_jwt_with_audiences jwt keys audiences now ≢ none)
          × ((verify_jwt_with_audiences jwt keys audiences now ≡ some ok) ↔ (
              ((audiences ≡ [])
                ⊎ Some (λ a. Some (λ c. canonical c ≡ canonical a) audiences) jwt.audiences)
              × (IsInTime jwt now clock_skew_in_second
                  × (verify_jwt_without_time_checking jwt keys ≡ ok))))
    verify_jwt_with_audiences_iff jwt keys audiences now h k t e =
        let (total, allowed) = are_audiences_allowed_iff law audiences jwt.audiences h k in
        let rest = verify_jwt-ok_iff jwt keys now clock_skew_in_second t e in
        rw with_audiences_lem (
          both_iff (allowance jwt audiences) (verify_jwt jwt keys now clock_skew_in_second) total
            allowed rest)
