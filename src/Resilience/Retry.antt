-- ===== src/Resilience/Retry.antt =====
-- `RetryLoop`. What the loop is given (the clock, `send` and `sleep`) acts on a world `W`; the run
-- keeps beside it a record of the sends and of the sleeps.
pub mod Laws
use datasluice.Base.{
  ℕ, zero, suc, ◌+◌, ℤ, Bool, true, false, not, Option, none, some, List, [], ◌∷◌, ltb, String,
  if◌then◌else◌,
}
use datasluice.Base.Exec.{Exec, Result, ok, raise, pure, throw, ◌>>=◌, ◌>>◌}
use datasluice.Errors.{
  Exception, value_error, transport_error, no_outcome, retry_exhausted, foreign, retry_wait,
}
use datasluice.Safety.{IdempotencyPolicy}
use datasluice.Resilience.Budget.{TimeBudget, DeadlineMonitor, assert_dispatchable, check_wait}
use datasluice.Resilience.Decision.{RetryDecision, for_response}

-- The fields of `RuntimeResponse` that the runtime reads.
pub record RuntimeResponse : Type 0 where
  pub status_code : ℕ
  pub headers : List (String × String)
  pub retry_after : Option ℤ

-- What one call of `send` does: a response, a `TransportError`, or another exception.
pub data Sent : Type 0 where
  responded : RuntimeResponse → Sent
  failed : ℕ → Sent
  crashed : ℕ → Sent

pub record RetryLoop : Type 0 where
  pub budget : TimeBudget
  pub idempotency : IdempotencyPolicy
  pub deadline : DeadlineMonitor
  pub max_attempts : ℕ

unfoldable pub make_loop : RetryLoop → Result Exception RetryLoop
make_loop l = if ltb l.max_attempts 1 then raise value_error else ok l

pub record Run (W : Type 0) : Type 0 where
  pub world : W
  pub sends : ℕ
  pub sleeps : List ℕ

-- The verdict on an attempt that did not raise.
pub data Settled : Type 0 where
  terminal : RuntimeResponse → Settled
  retry_in : ℕ → Settled

abbrev pub status_of : Option RuntimeResponse → Option ℕ
status_of none = none
status_of (some r) = some r.status_code

abbrev pub retry_after_of : Option RuntimeResponse → Option ℤ
retry_after_of none = none
retry_after_of (some r) = r.retry_after

abbrev pub decide_attempt : RetryLoop → ℕ → Option RuntimeResponse → Result Exception RetryDecision
decide_attempt l attempt response =
    for_response attempt l.max_attempts (status_of response) (retry_after_of response) l.idempotency
      l.budget

abbrev delay_or_zero : Option ℕ → ℕ
delay_or_zero none = 0
delay_or_zero (some d) = d

-- The clock, as it acts on a run.
abbrev pub tick : {W : Type 0} → (W → ℕ × W) → Run W → ℕ × Run W
tick clock s = ((clock s.world).0, record s { world = (clock s.world).1 })

module _ {W : Type 0} (clock : W → ℕ × W) (send : W → Sent × W) (sleep : ℕ → W → W)
    (l : RetryLoop) where
  -- What `_settle_attempt` does when the decision is not to retry.
  decline : Option RuntimeResponse → Option ℕ → Exec (Run W) Exception Settled
  decline (some response) failure = pure (terminal response)
  decline none none = throw no_outcome
  decline none (some failure) = throw (transport_error failure)

  act_on :
      ℕ
      → Option RuntimeResponse
      → Option ℕ
      → Result Exception RetryDecision
      → Exec (Run W) Exception Settled
  unfolding decline check_wait
  act_on attempt response failure (raise x) = throw x
  act_on attempt response failure (ok decision) =
      if not decision.retry
      then decline response failure
      else let delay = delay_or_zero decision.delay in
        do
          check_wait (tick clock) l.deadline delay (retry_wait delay attempt l.max_attempts)
          pure (retry_in delay)

  unfoldable pub settle_attempt :
      ℕ → Option RuntimeResponse → Option ℕ → Exec (Run W) Exception Settled
  unfolding act_on
  settle_attempt attempt response failure =
      act_on attempt response failure (decide_attempt l attempt response)

  -- One call of `send`, counted.
  unfoldable pub dispatch : Exec (Run W) Exception Sent
  dispatch s = (ok (send s.world).0, record s { world = (send s.world).1; sends = s.sends + 1 })

  -- The `try` around `send`: a `TransportError` is caught, any other exception passes.
  unfoldable pub settle_sent : ℕ → Sent → Exec (Run W) Exception Settled
  unfolding settle_attempt
  settle_sent attempt (responded response) = settle_attempt attempt (some response) none
  settle_sent attempt (failed failure) = settle_attempt attempt none (some failure)
  settle_sent attempt (crashed x) = throw (foreign x)

  unfoldable pub pause : ℕ → Exec (Run W) Exception (Unit {0})
  pause d s = (ok tt, record s { world = sleep d s.world; sleeps = d ∷ s.sleeps })

  -- One pass of the `for` body up to the verdict.
  unfoldable pub attempt_once : ℕ → Exec (Run W) Exception Settled
  unfolding assert_dispatchable dispatch settle_sent
  attempt_once attempt = do
    assert_dispatchable (tick clock) l.deadline none none
    sent ← dispatch
    settle_sent attempt sent

  abbrev continue :
      Settled
      → (ℕ → Exec (Run W) Exception RuntimeResponse)
      → ℕ
      → Exec (Run W) Exception RuntimeResponse
  continue (terminal response) next attempt = pure response
  continue (retry_in delay) next attempt = do pause delay; next (attempt + 1)

  -- `for attempt in range(attempt, max_attempts + 1)`, by the rounds that are left.
  unfoldable pub attempts : ℕ → ℕ → Exec (Run W) Exception RuntimeResponse
  unfolding attempt_once pause
  attempts zero attempt = throw retry_exhausted
  attempts (suc rounds) attempt = do
    settled ← attempt_once attempt
    continue settled (attempts rounds) attempt

  unfoldable pub run : Exec (Run W) Exception RuntimeResponse
  unfolding attempts
  run = attempts l.max_attempts 1
