-- ===== src/Resilience/Tests.antt =====
-- Runs of the retry loop and of the circuit breaker on concrete inputs.
use datasluice.Base.{
  ℕ, suc, ◌+◌, ◌≤◌, ◌≡◌, ◌≢◌, refl, sym, arith, Bool, true, false, none, some, List, [], ◌∷◌,
  equatable_nat, ◌==◌, if◌then◌else◌, leb,
}
use datasluice.Base.Dict
use datasluice.Base.Exec.{ok, raise}
use datasluice.Errors.{retry_exhausted, no_outcome}
use datasluice.Safety.{IdempotencyPolicy, allows_retry}
use datasluice.Resilience.Budget.{TimeBudget}
use datasluice.Resilience.Decision.{for_response}
use datasluice.Resilience.Retry.{
  RuntimeResponse, Sent, responded, RetryLoop, Run, run, decide_attempt,
}
use datasluice.Resilience.Retry.Laws.{
  run-bounds, run-response, run-never-exhausts, run-no-retry, Slept, declines, AnsweredBy,
}
use datasluice.Resilience.Breaker.{
  CircuitKey, BreakerRegistry, make_registry, new_registry, admit, state_at,
  record_transport_failure, key_beq_iff,
}
use datasluice.Resilience.Breaker.Phases.{phase, closed}
use datasluice.Resilience.Breaker.Laws.{
  admit_call, failure_call, inspect_call, perform_all, steps, phase-history, failures_trip,
  failures_at, single_trial, IsUniform, new_registry-IsUniform, perform-IsUniform, perform,
}

-- A server that answers 503 once and 200 then; the world counts the sends, and the clock stands.
abbrev response : ℕ → RuntimeResponse
response status = record { status_code = status; headers = []; retry_after = none }

abbrev send : ℕ → Sent × ℕ
send n = (responded (response (if n == 0 then 503 else 200)), suc n)

abbrev clock : ℕ → ℕ × ℕ
clock n = (5, n)

abbrev sleep : ℕ → ℕ → ℕ
sleep delay n = n

abbrev budget : TimeBudget
budget = record { connect = 1000; read = 1000; write = 1000; total = 9000 }

abbrev policy_with : Bool → IdempotencyPolicy
policy_with safe = record { safe = safe; key = none; explicit_retry_opt_in = false }

abbrev loop_with : Bool → RetryLoop
loop_with safe = record {
  budget = budget;
  idempotency = policy_with safe;
  deadline = record { budget = budget; started_at = 0; operation = none; platform = none };
  max_attempts = 3;
}

abbrev begin : Run ℕ
begin = record { world = 0; sends = 0; sleeps = [] }

run-bounds_example :
    ((run clock send sleep (loop_with true) begin).1.sends ≤ 3)
    × ((ds : List ℕ) × Slept clock send sleep
          (loop_with true)
          begin
          (run clock send sleep (loop_with true) begin).1
          ds)
run-bounds_example = run-bounds clock send sleep (loop_with true) begin

-- The second answer is returned.
second_answer : (run clock send sleep (loop_with true) begin).0 ≡ ok (response 200)
unfolding run for_response allows_retry
second_answer = refl

run-response_example :
    (m : ℕ) × (1 ≤ m)
    × (m ≤ 3)
    × ((run clock send sleep (loop_with true) begin).1.sends ≡ 0 + m)
    × AnsweredBy clock send sleep
        (loop_with true)
        (response 200)
        (run clock send sleep (loop_with true) begin).1
    × (declines (decide_attempt (loop_with true) m (some (response 200))) ≡ true)
run-response_example =
    run-response clock send sleep (loop_with true) begin (response 200) second_answer

run-never-exhausts_example :
    ((run clock send sleep (loop_with true) begin).0 ≢ raise retry_exhausted)
    × ((run clock send sleep (loop_with true) begin).0 ≢ raise no_outcome)
run-never-exhausts_example =
    run-never-exhausts clock send sleep (loop_with true) begin (omega arith)

no_leave : allows_retry (policy_with false) ≡ false
unfolding allows_retry
no_leave = refl

run-no-retry_example :
    ((run clock send sleep (loop_with false) begin).1.sends ≤ 0 + 1)
    × ((run clock send sleep (loop_with false) begin).1.sleeps ≡ [])
run-no-retry_example = run-no-retry clock send sleep (loop_with false) begin no_leave

-- A registry of circuits that open at the first failure, for one second.
abbrev key : CircuitKey
key = record { origin = "https://a"; credential_scope = "anonymous" }

abbrev other : CircuitKey
other = record { origin = "https://b"; credential_scope = "anonymous" }

abbrev tripped : BreakerRegistry
tripped = perform (new_registry 1 1000) key (failure_call 0)

tripped-IsUniform : IsUniform 1 1000 tripped
tripped-IsUniform = perform-IsUniform key (failure_call 0) (new_registry-IsUniform 1 1000)

is_tripped : (state_at tripped key).is_open ≡ true
unfolding perform Dict.get record_transport_failure Dict.put
is_tripped = refl

is_admitted : (admit tripped key 5000 5000).0 ≡ true
unfolding perform admit Dict.get record_transport_failure Dict.put Dict.mem Dict.discard
is_admitted = refl

true-false : true ≢ false
true-false e = cc

apart : other ≢ key
apart e = true-false (sym ((key_beq_iff other key).1 e))

single_trial_example :
    (admit
      (perform_all
        ((other, failure_call 5100) ∷ (key, admit_call 5200 5200) ∷ [])
        (admit tripped key 5000 5000).1)
      key
      9000
      9000).0
    ≡ false
single_trial_example =
    single_trial 1 1000 tripped key 5000 5000
      ((other, failure_call 5100) ∷ (key, admit_call 5200 5200) ∷ []) 9000 9000 tripped-IsUniform
      is_tripped is_admitted (apart, (tt, tt))

made : make_registry 1 1000 ≡ ok (new_registry 1 1000)
unfolding make_registry
made = refl

phase-history_example :
    phase
      (perform_all ((key, failure_call 7) ∷ (other, inspect_call) ∷ []) (new_registry 1 1000))
      key
    ≡ steps 1 1000 key ((key, failure_call 7) ∷ (other, inspect_call) ∷ []) (closed 0)
phase-history_example =
    phase-history 1 1000 (new_registry 1 1000) key
      ((key, failure_call 7) ∷ (other, inspect_call) ∷ []) made

failures_trip_example :
    ((state_at (perform_all (failures_at key (3 ∷ 4 ∷ [])) tripped) key).failure_count
      ≡ (state_at tripped key).failure_count + 2)
    × ((state_at (perform_all (failures_at key (3 ∷ 4 ∷ [])) tripped) key).is_open
        ≡ leb 1 ((state_at tripped key).failure_count + 2))
failures_trip_example = failures_trip 1 1000 tripped key 3 (4 ∷ []) tripped-IsUniform
