-- ===== src/SimpleLruCache/Words.antt =====
-- `int64_t` and `size_t` as 64-bit patterns: sums and differences wrap, and an order of `int64_t`
-- values is that of the patterns with the sign bit turned over.
use jwt_verify_lib.Prelude.{ℕ, ◌+◌, ◌-◌, ◌%◌, ◌^◌, ◌*◌, ◌/◌, if◌then◌else◌, Bool, ltb}

abbrev pub add_64 : ℕ → ℕ → ℕ
add_64 a b = (a + b) % 2 ^ 64

abbrev pub sub_64 : ℕ → ℕ → ℕ
sub_64 a b = (a + (2 ^ 64 - b % 2 ^ 64)) % 2 ^ 64

-- `a < b` for `int64_t`.
abbrev pub less_64 : ℕ → ℕ → Bool
less_64 a b = ltb ((a + 2 ^ 63) % 2 ^ 64) ((b + 2 ^ 63) % 2 ^ 64)

-- `a >= 0` for `int64_t`.
abbrev pub is_not_negative : ℕ → Bool
is_not_negative a = ltb a (2 ^ 63)

-- `-1`, and `std::numeric_limits<int64_t>::max()`.
abbrev pub minus_one : ℕ
minus_one = 2 ^ 64 - 1

abbrev pub int64_max : ℕ
int64_max = 2 ^ 63 - 1

abbrev pub mul_64 : ℕ → ℕ → ℕ
mul_64 a b = (a * b) % 2 ^ 64

-- `a / b` for `int64_t`, rounded to 0, where `b` is positive.
abbrev pub div_64 : ℕ → ℕ → ℕ
div_64 a b = if is_not_negative a then a / b else (2 ^ 64 - (2 ^ 64 - a) / b) % 2 ^ 64

-- `kSecToUsec`, which is also `SimpleCycleTimer::frequency()`.
abbrev pub k_sec_to_usec : ℕ
k_sec_to_usec = 1000000
