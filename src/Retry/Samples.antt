-- ===== src/Retry/Samples.antt =====
-- A call that is refused twice, and what `Do` makes of it.
use siso.Common.{ℕ, ◌≤◌, ◌≡◌, refl, Bool, true, false, Option, some}
use siso.Retry.Calls.{Err, unauthenticated, retriable_code, retriable_error, attempts, do_retry}
use siso.Retry.Attempts.{auth_errors, Explains, do_retry_calls}

abbrev refused : ℕ → Option Err
refused k = some (record { code = unauthenticated; is_status = true })

abbrev never : ℕ → Bool
never k = false

refused_twice : (do_retry refused never).1 ≡ 2
unfolding do_retry attempts retriable_error retriable_code
refused_twice = refl

do_retry_calls_example :
    ((do_retry refused never).1 ≤ 10)
    × (auth_errors refused 0 (do_retry refused never).1 ≤ 2)
    × Explains refused (do_retry refused never).0 (do_retry refused never).1
do_retry_calls_example = do_retry_calls refused never
