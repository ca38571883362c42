-- ===== src/Resilience/Decision.antt =====
-- `RetryDecision.for_response`.
use datasluice.Base.{
  ℕ, ◌*◌, ◌^◌, ◌-◌, ◌≤◌, ◌<◌, ◌≡◌, ℤ, is_neg, clip, Bool, true, false, not, ◌&&◌, ◌||◌, Option,
  none, some, List, [], ◌∷◌, contains, leb, ltb, min, equatable_nat, arith, if◌then◌else◌,
}
use datasluice.Base.Exec.{Result, ok, raise}
use datasluice.Errors.{Exception, value_error}
use datasluice.Safety.{IdempotencyPolicy, allows_retry}
use datasluice.Resilience.Budget.{TimeBudget}

-- The texts of `reason`.
pub data Reason : Type 0 where
  not_safe_to_repeat attempt_limit_exhausted not_retryable retry_after_exceeds_budget : Reason
  retryable_within_budget : Reason

pub record RetryDecision : Type 0 where
  pub retry : Bool
  pub delay : Option ℕ
  pub reason : Reason

-- Milliseconds in a second, the unit of the back-off.
abbrev pub second : ℕ
second = 1000

abbrev retryable_codes : List ℕ
retryable_codes = 408 ∷ 425 ∷ 429 ∷ 500 ∷ 502 ∷ 503 ∷ 504 ∷ []

unfoldable pub is_retryable : Option ℕ → Bool
is_retryable none = true
is_retryable (some status) = contains retryable_codes status

unfoldable pub valid_status : ℕ → Bool
valid_status status = leb 100 status && leb status 599

abbrev bad_status : Option ℕ → Bool
bad_status none = false
bad_status (some status) = not (valid_status status)

abbrev bad_retry_after : Option ℤ → Bool
bad_retry_after none = false
bad_retry_after (some seconds) = is_neg seconds

abbrev pub declined : Reason → RetryDecision
declined reason = record { retry = false; delay = none; reason = reason }

abbrev pub backoff : Option ℤ → ℕ → TimeBudget → ℕ
backoff none attempt budget = min (second * 2 ^ (attempt - 1)) budget.total
backoff (some after) attempt budget = clip after

unfoldable pub for_response :
    (attempt max_attempts : ℕ)
    → Option ℕ
    → Option ℤ
    → IdempotencyPolicy
    → TimeBudget
    → Result Exception RetryDecision
unfolding is_retryable valid_status
for_response attempt max_attempts status retry_after idempotency budget =
    if ltb attempt 1 || ltb max_attempts attempt || bad_status status || bad_retry_after retry_after
    then raise value_error
    else if not (allows_retry idempotency)
    then ok (declined not_safe_to_repeat)
    else if leb max_attempts attempt
    then ok (declined attempt_limit_exhausted)
    else if not (is_retryable status)
    then ok (declined not_retryable)
    else let delay = backoff retry_after attempt budget in
      if ltb budget.total delay
      then ok (declined retry_after_exceeds_budget)
      else ok (record { retry = true; delay = some delay; reason = retryable_within_budget })

-- A decision to retry is made only with leave of the policy, before the last attempt, and for an
-- outcome that is transient; its delay is that of the backoff, which lies within the total
-- budget.
pub for_response-retry :
    (attempt max_attempts : ℕ) (status : Option ℕ) (after : Option ℤ) (p : IdempotencyPolicy)
    (b : TimeBudget) (d : RetryDecision)
    → for_response attempt max_attempts status after p b ≡ ok d
    → d.retry ≡ true
    → (allows_retry p ≡ true)
      × (attempt < max_attempts)
      × (is_retryable status ≡ true)
      × (d.delay ≡ some (backoff after attempt b))
      × (backoff after attempt b ≤ b.total)
unfolding for_response
for_response-retry attempt max_attempts status after p b d h r = ground arith

-- The only exception is the `ValueError` of its argument checks.
pub for_response-raise :
    (attempt max_attempts : ℕ) (status : Option ℕ) (after : Option ℤ) (p : IdempotencyPolicy)
    (b : TimeBudget) (x : Exception)
    → for_response attempt max_attempts status after p b ≡ raise x
    → x ≡ value_error
unfolding for_response
for_response-raise attempt max_attempts status after p b x h = ground arith
