-- ===== src/CheckAudience/Tests.antt =====
-- The theorems about audiences at concrete texts.
use jwt_verify_lib.Prelude.{
  ◌≡◌, ◌≢◌, ◌↔◌, ◌⊎◌, true, List, none, some, [], ◌∷◌, Bytes, bytes, Some, arith,
}
use jwt_verify_lib.Sample.{sample_absl, sample_starts_with}
use jwt_verify_lib.CheckAudience.{◌>>=◌, sanitize_audience, check_audience, are_audiences_allowed}
use jwt_verify_lib.CheckAudience.Canonical.{canonical, sanitize_audience-canonical}
use jwt_verify_lib.CheckAudience.Laws.{are_audiences_allowed_iff}

canonical_example :
    sanitize_audience (bytes "https://svc/") ≡ some (canonical (bytes "https://svc/"))
canonical_example =
    sanitize_audience-canonical sample_starts_with (bytes "https://svc/") (omega arith)

abbrev configured : List Bytes
configured = bytes "http://svc" ∷ bytes "other" ∷ []

abbrev claimed : List Bytes
claimed = bytes "https://svc/" ∷ []

allowed_example :
    ((check_audience configured >>= λ set. are_audiences_allowed set claimed) ≢ none)
    × (((check_audience configured >>= λ set. are_audiences_allowed set claimed) ≡ some true) ↔ (
        (configured ≡ []) ⊎ Some (λ a. Some (λ c. canonical c ≡ canonical a) configured) claimed))
allowed_example =
    are_audiences_allowed_iff sample_starts_with configured claimed (omega arith, (omega arith, tt))
      (omega arith, tt)
