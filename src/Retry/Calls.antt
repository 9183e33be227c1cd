-- ===== src/Retry/Calls.antt =====
-- `Do` and `retriableError` of reapi/retry/retry.go. The function that is called, and whether the context
-- is cancelled at each check, are parameters; the delays between the calls are left out.
use siso.Common.{ℕ, zero, suc, ◌+◌, ◌*◌, Bool, true, false, Option, none, some, ltb, if◌then◌else◌}

-- The status codes that are told apart.
pub data Code : Type 0 where
  resource_exhausted internal unavailable aborted unknown unauthenticated permission_denied
        other_code :
      Code

-- `is_status` holds of an error that is a gRPC status itself.
pub record Err : Type 0 where
  pub code : Code
  pub is_status : Bool

-- With the number of authentication errors so far, which it may raise.
unfoldable pub retriable_code : Code → Bool → ℕ → Bool × ℕ
retriable_code resource_exhausted s auth_retry = (true, auth_retry)
retriable_code internal s auth_retry = (true, auth_retry)
retriable_code unavailable s auth_retry = (true, auth_retry)
retriable_code aborted s auth_retry = (true, auth_retry)
retriable_code unknown s auth_retry = (s, auth_retry)
retriable_code unauthenticated s auth_retry = (ltb (auth_retry + 1) 2, auth_retry + 1)
retriable_code permission_denied s auth_retry = (ltb (auth_retry + 1) 2, auth_retry + 1)
retriable_code other_code s auth_retry = (false, auth_retry)

unfoldable pub retriable_error : Err → ℕ → Bool × ℕ
retriable_error e auth_retry = retriable_code e.code e.is_status auth_retry

pub data Outcome : Type 0 where
  success cancelled_before : Outcome
  failure : Err → Outcome

-- The loop with `n` rounds left: `fn k` is what call number `k` returns, and `is_cancelled` is asked
-- twice in a round. The result is the outcome and how many calls were made.
unfoldable pub attempts : (ℕ → Option Err) → (ℕ → Bool) → ℕ → ℕ → ℕ → Outcome → Outcome × ℕ
attempts fn is_cancelled zero k auth_retry err = (err, k)
attempts fn is_cancelled (suc n) k auth_retry err =
    if is_cancelled (2 * k) then (cancelled_before, k) else elim (fn k) [
      | none ↦ (success, k + 1)
      | some e ↦
          (let (again, auth') = retriable_error e auth_retry in
            let rest = attempts fn is_cancelled n (k + 1) auth' (failure e) in
            if is_cancelled (2 * k + 1)
            then (failure e, k + 1)
            else if again
            then rest
            else (failure e, k + 1))
    ]

-- `Do`
unfoldable pub do_retry : (ℕ → Option Err) → (ℕ → Bool) → Outcome × ℕ
do_retry fn is_cancelled = attempts fn is_cancelled 10 0 0 success
