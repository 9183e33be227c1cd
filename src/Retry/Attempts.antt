-- ===== src/Retry/Attempts.antt =====
-- How often `Do` calls its function, and what its result says of the calls.
use siso.Common.{
  ℕ, zero, suc, ◌+◌, ◌-◌, ◌*◌, ◌≤◌, ◌<◌, ◌≡◌, refl, ap, Bool, true, Option, none, some, Bool-cases,
  Option-cases, inl, inr, arith,
}
use siso.Retry.Calls.{
  Code, Err, resource_exhausted, internal, unavailable, aborted, unknown, unauthenticated,
  permission_denied, other_code, retriable_code, retriable_error, Outcome, success,
  cancelled_before, failure, attempts, do_retry,
}

abbrev pub is_auth : Code → ℕ
is_auth unauthenticated = 1
is_auth permission_denied = 1
is_auth _ = 0

abbrev pub auth_of : Option Err → ℕ
auth_of none = 0
auth_of (some e) = is_auth e.code

-- The authentication errors among the calls `k`, `k + 1`, …, `n` of them.
abbrev pub auth_errors : (ℕ → Option Err) → ℕ → ℕ → ℕ
auth_errors fn k zero = 0
auth_errors fn k (suc n) = auth_of (fn k) + auth_errors fn (k + 1) n

-- What is true of the rounds from call `k` on, with `n` rounds and `a` authentication errors before.
record Bounded (fn : ℕ → Option Err) (n k a : ℕ) (r : Outcome × ℕ) : Type 0 where
  few : r.1 ≤ k + n
  more : k ≤ r.1
  auth : auth_errors fn k (r.1 - k) + a ≤ 2

counts_auth : (c : Code) (s : Bool) (a : ℕ) → (retriable_code c s a).1 ≡ a + is_auth c
unfolding retriable_code
counts_auth resource_exhausted s a = omega arith
counts_auth internal s a = omega arith
counts_auth unavailable s a = omega arith
counts_auth aborted s a = omega arith
counts_auth unknown s a = omega arith
counts_auth unauthenticated s a = omega arith
counts_auth permission_denied s a = omega arith
counts_auth other_code s a = omega arith

-- A second authentication error is not retried.
stops_auth :
    (c : Code) (s : Bool) (a : ℕ)
    → a ≤ 1
    → (retriable_code c s a).0 ≡ true
    → (retriable_code c s a).1 ≤ 1
unfolding retriable_code
stops_auth resource_exhausted s a le h = le
stops_auth internal s a le h = le
stops_auth unavailable s a le h = le
stops_auth aborted s a le h = le
stops_auth unknown s a le h = le
stops_auth unauthenticated s a le h = ground arith
stops_auth permission_denied s a le h = ground arith
stops_auth other_code s a le h = le

auth_of_bound : (c : Code) → is_auth c ≤ 1
auth_of_bound unauthenticated = omega arith
auth_of_bound permission_denied = omega arith
auth_of_bound _ = omega arith

one_call :
    (fn : ℕ → Option Err) (n k a : ℕ) (o : Outcome)
    → a ≤ 1
    → auth_of (fn k) ≤ 1
    → Bounded fn (suc n) k a (o, k + 1)
one_call fn n k a o le h =
    let e : k + 1 - k ≡ 1 = omega arith in
    record { few = omega arith; more = omega arith; auth = rw e (omega (arith, le, h)) }

later_calls :
    (fn : ℕ → Option Err) (n k a : ℕ) (e : Err) (a' : ℕ) (r : Outcome × ℕ)
    → fn k ≡ some e
    → a' ≡ a + is_auth e.code
    → Bounded fn n (k + 1) a' r
    → Bounded fn (suc n) k a r
later_calls fn n k a e a' r bad sum h =
    let m : r.1 - k ≡ suc (r.1 - (k + 1)) = omega (arith, h.more) in
    record {
      few = omega (arith, h.few);
      more = omega (arith, h.more);
      auth = rw m (omega (arith, h.auth, ap auth_of bad, sum));
    }

attempts-Bounded :
    (fn : ℕ → Option Err) (is_cancelled : ℕ → Bool) (n k a : ℕ) (err : Outcome)
    → a ≤ 1
    → Bounded fn n k a (attempts fn is_cancelled n k a err)
unfolding attempts retriable_error
attempts-Bounded fn is_cancelled zero k a err le =
    let e : k - k ≡ 0 = omega arith in
    record { few = omega arith; more = omega arith; auth = rw e (omega (arith, le)) }
attempts-Bounded fn is_cancelled (suc n) k a err le = elim (Bool-cases (is_cancelled (2 * k))) [
  | inl stop ↦
      let e : k - k ≡ 0 = omega arith in
      rw stop (record { few = omega arith; more = omega arith; auth = rw e (omega (arith, le)) })
  | inr on ↦ elim (Option-cases (fn k)) [
    | inl fine ↦ rw (on, fine) (one_call fn n k a success le (rw fine (omega arith)))
    | inr (e, bad) ↦
        let one = one_call fn n k a (failure e) le (rw bad (auth_of_bound e.code)) in
        elim (Bool-cases (is_cancelled (2 * k + 1))) [
          | inl stop ↦ rw (on, bad, stop) one
          | inr on2 ↦ elim (Bool-cases (retriable_code e.code e.is_status a).0) [
            | inl again ↦
                let ih =
                  attempts-Bounded fn is_cancelled n (k + 1) (retriable_code e.code e.is_status a).1
                    (failure e) (stops_auth e.code e.is_status a le again) in
                rw (on, bad, on2, again)
                  (later_calls fn n k a e (retriable_code e.code e.is_status a).1 _ bad
                    (counts_auth e.code e.is_status a) ih)
            | inr final ↦ rw (on, bad, on2, final) one
          ]
        ]
  ]
]

-- What the outcome says of the last of `k` calls.
abbrev pub Explains : (ℕ → Option Err) → Outcome → ℕ → Type 0
Explains fn success k = (0 < k) × (fn (k - 1) ≡ none)
Explains fn (failure e) k = (0 < k) × (fn (k - 1) ≡ some e)
Explains fn cancelled_before k = Unit

last_call : (fn : ℕ → Option Err) (k : ℕ) (x : Option Err) → fn k ≡ x → fn (k + 1 - 1) ≡ x
last_call fn k x e = let m : k + 1 - 1 ≡ k = omega arith in rw m e

attempts-Explains :
    (fn : ℕ → Option Err) (is_cancelled : ℕ → Bool) (n k a : ℕ) (err : Outcome)
    → (n ≡ 0 → Explains fn err k)
    → Explains fn (attempts fn is_cancelled n k a err).0 (attempts fn is_cancelled n k a err).1
unfolding attempts retriable_error
attempts-Explains fn is_cancelled zero k a err h = h refl
attempts-Explains fn is_cancelled (suc n) k a err h = elim (Bool-cases (is_cancelled (2 * k))) [
  | inl stop ↦ rw stop tt
  | inr on ↦ elim (Option-cases (fn k)) [
    | inl fine ↦ rw (on, fine) (omega arith, last_call fn k none fine)
    | inr (e, bad) ↦
        let here : Explains fn (failure e) (k + 1) = (omega arith, last_call fn k (some e) bad) in
        elim (Bool-cases (is_cancelled (2 * k + 1))) [
          | inl stop ↦ rw (on, bad, stop) here
          | inr on2 ↦ elim (Bool-cases (retriable_code e.code e.is_status a).0) [
            | inl again ↦
                rw (on, bad, on2, again)
                  (attempts-Explains fn is_cancelled n (k + 1)
                    (retriable_code e.code e.is_status a).1 (failure e) (λ z. here))
            | inr final ↦ rw (on, bad, on2, final) here
          ]
        ]
  ]
]

-- `Do` calls its function at most ten times, and at most two of these calls fail with an authentication
-- error. If it reports success then its last call succeeded, and if it reports the error of a call then
-- that is the error of the last one.
pub do_retry_calls :
    (fn : ℕ → Option Err) (is_cancelled : ℕ → Bool)
    → ((do_retry fn is_cancelled).1 ≤ 10)
      × (auth_errors fn 0 (do_retry fn is_cancelled).1 ≤ 2)
      × Explains fn (do_retry fn is_cancelled).0 (do_retry fn is_cancelled).1
unfolding do_retry
do_retry_calls fn is_cancelled =
    let b = attempts-Bounded fn is_cancelled 10 0 0 success (omega arith) in
    let r = attempts fn is_cancelled 10 0 0 success in
    let m : r.1 - 0 ≡ r.1 = omega arith in
    (
      omega (arith, b.few),
      omega (arith, b.auth, ap (auth_errors fn 0) m),
      attempts-Explains fn is_cancelled 10 0 0 success (λ e. absurd (omega (arith, e))),
    )
