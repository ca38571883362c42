-- ===== src/Resilience/Breaker/Phases.antt =====
-- The abstract circuit of one key, and the steps that the registry's methods make on it.
use datasluice.Base.{
  ℕ, ◌+◌, Bool, true, false, Option, some, leb, ltb, ◌≡◌, arith, ◌==◌, if◌then◌else◌,
}
use datasluice.Base.Dict
use datasluice.Base.Dict.{Dict, get-put, get-remove, mem-add, mem-discard}
use datasluice.Resilience.Breaker.{
  CircuitKey, equatable_key, key_beq_iff, CircuitState, BreakerRegistry, or_default, state_at,
  state_for, admit, reset_state, record_failure, record_success, record_transport_failure,
  release_trial, inspect,
}

-- Closed after some failures in a row; open since some time; open with a trial under way.
pub data Phase : Type 0 where
  closed : (failures : ℕ) → Phase
  opened : (failures : ℕ) → (since : Option ℕ) → Phase
  half_open : (failures : ℕ) → (since : Option ℕ) → Phase

abbrev phase_of : CircuitState → Option ℕ → Bool → Phase
phase_of state since trial =
    if state.is_open
    then (if trial then half_open state.failure_count since else opened state.failure_count since)
    else closed state.failure_count

unfoldable pub phase : BreakerRegistry → CircuitKey → Phase
phase r k = phase_of (state_at r k) (Dict.get r.opened_at k) (Dict.mem r.trial_in_flight k)

unfoldable pub failures_of : Phase → ℕ
failures_of (closed n) = n
failures_of (opened n _) = n
failures_of (half_open n _) = n

-- After one more failure the circuit is open exactly if the threshold is reached.
unfoldable pub on_failure : (threshold now : ℕ) → Phase → Phase
unfolding failures_of
on_failure threshold now p =
    let n = failures_of p + 1 in if leb threshold n then opened n (some now) else closed n

unfoldable pub on_release : Phase → Phase
on_release (half_open n since) = opened n since
on_release p = p

-- Whether a dispatch is let through, and the phase after that.
unfoldable pub on_admit : (cooldown now later : ℕ) → Phase → Bool × Phase
on_admit cooldown now later (closed n) = (true, closed n)
on_admit cooldown now later (half_open n since) = (false, half_open n since)
on_admit cooldown now later (opened n since) =
    if ltb later (or_default since now + cooldown)
    then (false, opened n since)
    else (true, half_open n since)

module _ (r : BreakerRegistry) (key j : CircuitKey) where
  state_at-state_for : state_at (state_for r key).1 j ≡ state_at r j
  unfolding state_for
  state_at-state_for = ground (arith, get-put r.states key j r.initial_state, key_beq_iff key j)

  -- `record_success` closes the circuit of its key with no failures, and no other circuit changes.
  pub phase-record_success :
      phase (record_success r key) j ≡ (if key == j then closed 0 else phase r j)
  unfolding record_success phase
  phase-record_success = ground (
    arith,
    key_beq_iff key j,
    get-put r.states key j r.initial_state,
    get-put r.states key j (reset_state (state_at r key)),
    get-put (Dict.put r.states key r.initial_state) key j (reset_state r.initial_state),
    get-remove r.opened_at key j,
    mem-discard r.trial_in_flight key j,
  )

  pub phase-release_trial :
      phase (release_trial r key) j ≡ (if key == j then on_release (phase r j) else phase r j)
  unfolding release_trial phase on_release
  phase-release_trial = ground (
    arith,
    key_beq_iff key j,
    get-put r.states key j r.initial_state,
    mem-discard r.trial_in_flight key j,
  )

  pub phase-record_transport_failure :
      (now : ℕ)
      → phase (record_transport_failure r key now) j ≡ (
          if key == j
          then on_failure (state_at r key).failure_threshold now (phase r j)
          else phase r j)
  unfolding record_transport_failure phase on_failure
  phase-record_transport_failure now = ground (
    arith,
    key_beq_iff key j,
    get-put r.states key j r.initial_state,
    get-put r.states key j (record_failure (state_at r key)),
    get-put (Dict.put r.states key r.initial_state) key j (record_failure r.initial_state),
    get-put r.opened_at key j now,
    mem-discard r.trial_in_flight key j,
  )

  pub phase-admit :
      (now later : ℕ)
      → phase (admit r key now later).1 j ≡ (
          if key == j
          then (on_admit (state_at r key).cooldown now later (phase r j)).1
          else phase r j)
  unfolding admit phase on_admit
  phase-admit now later = ground (
    arith,
    key_beq_iff key j,
    get-put r.states key j r.initial_state,
    mem-add r.trial_in_flight key j,
  )

  pub phase-inspect : phase (inspect r key).1 j ≡ (if key == j then phase r j else phase r j)
  unfolding inspect phase
  phase-inspect = ground (arith, key_beq_iff key j, get-put r.states key j r.initial_state)
