-- ===== src/CheckAudience/Laws.antt =====
-- When the audiences of a token are allowed.
use jwt_verify_lib.Prelude.{
  ◌^◌, ◌<◌, ◌≡◌, ◌≢◌, ◌↔◌, ◌⊎◌, inl, inr, refl, ap, Bool, true, false, ◌&&◌, ◌||◌, List, [], ◌∷◌,
  none, some, Bytes, ◌=ᵇ◌, eq_iff, length, is_empty, any, All, Some, Bool-cases, arith, any_iff,
}
use jwt_verify_lib.External.Absl.{Absl, StartsWithLaw}
use jwt_verify_lib.CheckAudience.{
  ◌>>=◌, insert, insert_all, check_audience, find_allowed, are_audiences_allowed,
}
use jwt_verify_lib.CheckAudience.Canonical.{canonical, sanitize_audience-canonical}

-- The bound that `size_t` puts on a string's length.
abbrev pub HasSize : Bytes → Type 0
HasSize s = length s < 2 ^ 64

-- A configured audience has the canonical form `b`.
abbrev among : Bytes → List Bytes → Bool
among b config = any (λ c. canonical c =ᵇ b) config

-- The set stands for the canonical forms of the configured audiences.
record Represents (set config : List Bytes) : Type 0 where
  members : (b : Bytes) → any (λ x. x =ᵇ b) set ≡ among b config
  emptiness : is_empty set ≡ is_empty config

any-insert :
    (a b : Bytes) (set : List Bytes)
    → any (λ x. x =ᵇ b) (insert a set) ≡ (a =ᵇ b || any (λ x. x =ᵇ b) set)
unfolding insert
any-insert a b set = elim (Bool-cases (a =ᵇ b)) [
  | inl e ↦
      let same : any (λ x. x =ᵇ a) set ≡ any (λ x. x =ᵇ b) set =
        ap (λ y. any (λ x. x =ᵇ y) set) ((eq_iff a b).0 e) in
      ground arith
  | inr e ↦ ground arith
]

is_empty-insert : (a : Bytes) (set : List Bytes) → is_empty (insert a set) ≡ false
unfolding insert
is_empty-insert a [] = refl
is_empty-insert a (x ∷ set) = ground arith

module _ ⦃ab : Absl⦄ (law : StartsWithLaw ab) where
  insert_all_lem :
      (config set : List Bytes)
      → All HasSize config
      → (set' : List Bytes) × (insert_all config set ≡ some set')
        × ((b : Bytes) → any (λ x. x =ᵇ b) set' ≡ (any (λ x. x =ᵇ b) set || among b config))
        × (is_empty set' ≡ (is_empty set && is_empty config))
  unfolding insert_all
  insert_all_lem [] set h = (set, refl, λ b. ground arith, ground arith)
  insert_all_lem (aud ∷ auds) set (h, hs) =
      let (set', e, m, n) = insert_all_lem auds (insert (canonical aud) set) hs in
      (
        set',
        rw (sanitize_audience-canonical law aud h) e,
        λ b. ground (arith, m b, any-insert (canonical aud) b set),
        ground (arith, n, is_empty-insert (canonical aud) set),
      )

  check_audience-Represents :
      (config : List Bytes)
      → All HasSize config
      → (set : List Bytes) × (check_audience config ≡ some set) × Represents set config
  unfolding check_audience
  check_audience-Represents config h =
      let (set, e, m, n) = insert_all_lem config [] h in
      (set, e, record { members = m; emptiness = n })

  find_allowed_lem :
      (set config jwt : List Bytes)
      → Represents set config
      → All HasSize jwt
      → find_allowed set jwt ≡ some (any (λ a. among (canonical a) config) jwt)
  unfolding find_allowed
  find_allowed_lem set config [] r h = refl
  find_allowed_lem set config (a ∷ jwt) r (h, hs) =
      rw (sanitize_audience-canonical law a h)
        (ground (arith, r.members (canonical a), find_allowed_lem set config jwt r hs))

  -- The outcome of a construction and a check.
  allowed_lem :
      (config jwt : List Bytes)
      → All HasSize config
      → All HasSize jwt
      → (check_audience config >>= λ set. are_audiences_allowed set jwt)
        ≡ some (is_empty config || any (λ a. among (canonical a) config) jwt)
  unfolding are_audiences_allowed
  allowed_lem config jwt h k =
      let (set, e, r) = check_audience-Represents config h in
      rw e (ground (arith, r.emptiness, find_allowed_lem set config jwt r k))

  -- Where `StartsWith` tests for a prefix and for strings that a `size_t` can measure, the check
  -- never throws, and it allows a token's
  -- audiences exactly if no audience is configured, or some audience of the token and some
  -- configured one have the same canonical form.
  pub are_audiences_allowed_iff :
      (config jwt : List Bytes)
      → All HasSize config
      → All HasSize jwt
      → ((check_audience config >>= λ set. are_audiences_allowed set jwt) ≢ none)
        × (((check_audience config >>= λ set. are_audiences_allowed set jwt) ≡ some true)
            ↔ ((config ≡ []) ⊎ Some (λ a. Some (λ c. canonical c ≡ canonical a) config) jwt))
  are_audiences_allowed_iff config jwt h k =
      let run = allowed_lem config jwt h k in
      let matched =
        any_iff (λ a. among (canonical a) config)
          (λ a. Some (λ c. canonical c ≡ canonical a) config)
          (λ a.
            any_iff (λ c. canonical c =ᵇ canonical a) (λ c. canonical c ≡ canonical a)
              (λ c. eq_iff (canonical c) (canonical a)) config)
          jwt in
      (λ e. ground arith, (λ e. ground arith, λ e. ground arith))
