-- ===== src/Status/Tests.antt =====
-- The theorems about statuses at concrete statuses.
use jwt_verify_lib.Prelude.{◌≡◌, if◌then◌else◌, [], ◌∷◌}
use jwt_verify_lib.Status.{with_status, is_ok, ok, jwt_expired, jwt_missed}
use jwt_verify_lib.Status.Laws.{update_all, first_failure, update_all-first_failure}

updates_example : (update_all (ok ∷ jwt_expired ∷ jwt_missed ∷ []) with_status).status ≡ (
    if is_ok with_status.status
    then first_failure (ok ∷ jwt_expired ∷ jwt_missed ∷ [])
    else with_status.status)
updates_example = update_all-first_failure (ok ∷ jwt_expired ∷ jwt_missed ∷ []) with_status
