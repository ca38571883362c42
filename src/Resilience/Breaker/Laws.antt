-- ===== src/Resilience/Breaker/Laws.antt =====
-- Every history of calls on a registry is a history of each circuit by itself.
use datasluice.Base.{
  ℕ, ◌+◌, Bool, true, false, ◌&&◌, not, Option, List, [], ◌∷◌, map, leb, ltb, ◌≡◌, ◌≢◌, All, ◌∙◌,
  ap, refl, arith, ◌==◌, if◌then◌else◌, length,
}
use datasluice.Base.Dict
use datasluice.Base.Dict.{get-put, get-remove, mem-add, beq_refl}
use datasluice.Base.Exec.{Result, ok, raise}
use datasluice.Errors.{Exception}
use datasluice.Resilience.Breaker.{
  CircuitKey, equatable_key, key_beq_iff, BreakerRegistry, make_registry, new_registry, state_at,
  admit, reset_state, record_failure, record_success, record_transport_failure, release_trial,
  record_response, inspect,
}
use datasluice.Resilience.Breaker.Phases.{
  Phase, closed, opened, half_open, phase, failures_of, on_failure, on_release, on_admit,
  phase-admit, phase-record_success, phase-release_trial, phase-record_transport_failure,
  phase-inspect,
}

-- The calls, with the readings of the clock that they make.
pub data Call : Type 0 where
  admit_call : (now later : ℕ) → Call
  success_call : Call
  failure_call : (now : ℕ) → Call
  response_call : (status now : ℕ) → Call
  release_call : Call
  inspect_call : Call

abbrev kept : BreakerRegistry → Result Exception BreakerRegistry → BreakerRegistry
kept r (ok r') = r'
kept r (raise x) = r

-- A response with a status out of range raises before anything is changed.
unfoldable pub perform : BreakerRegistry → CircuitKey → Call → BreakerRegistry
perform r key (admit_call now later) = (admit r key now later).1
perform r key success_call = record_success r key
perform r key (failure_call now) = record_transport_failure r key now
perform r key (response_call status now) = kept r (record_response r key status now)
perform r key release_call = release_trial r key
perform r key inspect_call = (inspect r key).1

-- The same calls on one circuit; a 4xx or 1xx response only ends a trial.
unfoldable pub step : (threshold cooldown : ℕ) → Call → Phase → Phase
step threshold cooldown (admit_call now later) p = (on_admit cooldown now later p).1
step threshold cooldown success_call p = closed 0
step threshold cooldown (failure_call now) p = on_failure threshold now p
step threshold cooldown (response_call status now) p =
    if not (leb 100 status && leb status 599)
    then p
    else if leb 500 status
    then on_failure threshold now p
    else if leb 200 status && ltb status 400
    then closed 0
    else on_release p
step threshold cooldown release_call p = on_release p
step threshold cooldown inspect_call p = p

perform-step :
    (r : BreakerRegistry) (key j : CircuitKey) (c : Call)
    → phase (perform r key c) j ≡ (
        if key == j
        then step (state_at r key).failure_threshold (state_at r key).cooldown c (phase r j)
        else phase r j)
unfolding perform step
perform-step r key j (admit_call now later) = phase-admit r key j now later
perform-step r key j success_call = phase-record_success r key j
perform-step r key j (failure_call now) = phase-record_transport_failure r key j now
perform-step r key j (response_call status now) =
    unfold record_response in
    ground (
      arith,
      phase-record_success r key j,
      phase-record_transport_failure r key j now,
      phase-release_trial r key j,
    )
perform-step r key j release_call = phase-release_trial r key j
perform-step r key j inspect_call = phase-inspect r key j

-- Every circuit has the registry's bounds.
pub record IsUniform (threshold cooldown : ℕ) (r : BreakerRegistry) : Type 0 where
  pub initial :
      (r.initial_state.failure_threshold ≡ threshold) × (r.initial_state.cooldown ≡ cooldown)
  pub circuit :
      (k : CircuitKey)
      → ((state_at r k).failure_threshold ≡ threshold) × ((state_at r k).cooldown ≡ cooldown)

-- The bounds of a circuit and of new circuits are as before.
abbrev SameBounds : BreakerRegistry → CircuitKey → BreakerRegistry → Type 0
SameBounds r k r' =
    (r'.initial_state ≡ r.initial_state)
    × ((state_at r' k).failure_threshold ≡ (state_at r k).failure_threshold)
    × ((state_at r' k).cooldown ≡ (state_at r k).cooldown)

module _ (r : BreakerRegistry) (key k : CircuitKey) where
  admit-SameBounds : (now later : ℕ) → SameBounds r k (admit r key now later).1
  unfolding admit
  admit-SameBounds now later =
      ground (arith, key_beq_iff key k, get-put r.states key k r.initial_state)

  success-SameBounds : SameBounds r k (record_success r key)
  unfolding record_success
  success-SameBounds = ground (
    arith,
    key_beq_iff key k,
    get-put r.states key k (reset_state (state_at r key)),
    get-put r.states key k r.initial_state,
    get-put (Dict.put r.states key r.initial_state) key k (reset_state r.initial_state),
  )

  failure-SameBounds : (now : ℕ) → SameBounds r k (record_transport_failure r key now)
  unfolding record_transport_failure
  failure-SameBounds now = ground (
    arith,
    key_beq_iff key k,
    get-put r.states key k (record_failure (state_at r key)),
    get-put r.states key k r.initial_state,
    get-put (Dict.put r.states key r.initial_state) key k (record_failure r.initial_state),
  )

  release-SameBounds : SameBounds r k (release_trial r key)
  unfolding release_trial
  release-SameBounds = ground (arith, key_beq_iff key k, get-put r.states key k r.initial_state)

  inspect-SameBounds : SameBounds r k (inspect r key).1
  unfolding inspect
  inspect-SameBounds = ground (arith, key_beq_iff key k, get-put r.states key k r.initial_state)

  perform-SameBounds : (c : Call) → SameBounds r k (perform r key c)
  unfolding perform
  perform-SameBounds (admit_call now later) = admit-SameBounds now later
  perform-SameBounds success_call = success-SameBounds
  perform-SameBounds (failure_call now) = failure-SameBounds now
  perform-SameBounds (response_call status now) =
      unfold record_response in
      ground (arith, success-SameBounds, failure-SameBounds now, release-SameBounds)
  perform-SameBounds release_call = release-SameBounds
  perform-SameBounds inspect_call = inspect-SameBounds

pub perform-IsUniform :
    {t c : ℕ} {r : BreakerRegistry} (key : CircuitKey) (call : Call)
    → IsUniform t c r
    → IsUniform t c (perform r key call)
perform-IsUniform {r = r} key call u = record {
  initial = let (a, _, _) = perform-SameBounds r key key call in rw a u.initial;
  circuit = λ k.
      let (_, b, c) = perform-SameBounds r key k call in (b ∙ (u.circuit k).0, c ∙ (u.circuit k).1);
}

-- A history of calls, and the part of it that concerns one key.
unfoldable pub perform_all : List (CircuitKey × Call) → BreakerRegistry → BreakerRegistry
unfolding perform
perform_all [] r = r
perform_all ((key, c) ∷ calls) r = perform_all calls (perform r key c)

unfoldable pub steps :
    (threshold cooldown : ℕ) → CircuitKey → List (CircuitKey × Call) → Phase → Phase
unfolding step
steps t c k [] p = p
steps t c k ((key, call) ∷ calls) p = steps t c k calls (if key == k then step t c call p else p)

phase-perform_all :
    (t c : ℕ) (k : CircuitKey) (calls : List (CircuitKey × Call)) (r : BreakerRegistry)
    → IsUniform t c r
    → phase (perform_all calls r) k ≡ steps t c k calls (phase r k)
unfolding perform_all steps
phase-perform_all t c k [] r u = refl
phase-perform_all t c k ((key, call) ∷ calls) r u =
    phase-perform_all t c k calls (perform r key call) (perform-IsUniform key call u)
    ∙ ap (steps t c k calls)
        (rw ((u.circuit key).0, (u.circuit key).1) at (perform-step r key k call))

pub new_registry-IsUniform : (t c : ℕ) → IsUniform t c (new_registry t c)
unfolding Dict.get
new_registry-IsUniform t c = record { initial = (refl, refl); circuit = λ k. (refl, refl) }

phase-new_registry : (t c : ℕ) (k : CircuitKey) → phase (new_registry t c) k ≡ closed 0
unfolding phase Dict.get
phase-new_registry t c k = refl

make_registry-eq : (t c : ℕ) (r : BreakerRegistry) → make_registry t c ≡ ok r → r ≡ new_registry t c
unfolding make_registry
make_registry-eq t c r h = ground arith

-- From a new registry, and after any calls on any keys, the phase of a circuit is what the calls on
-- its own key make of a closed circuit: the registry is one independent circuit for each key.
pub phase-history :
    (t c : ℕ) (r : BreakerRegistry) (k : CircuitKey) (calls : List (CircuitKey × Call))
    → make_registry t c ≡ ok r
    → phase (perform_all calls r) k ≡ steps t c k calls (closed 0)
phase-history t c r k calls h = rw (make_registry-eq t c r h) (
    phase-perform_all t c k calls (new_registry t c) (new_registry-IsUniform t c)
    ∙ ap (steps t c k calls) (phase-new_registry t c k))

abbrev pub failures_at : CircuitKey → List ℕ → List (CircuitKey × Call)
failures_at k nows = map (λ now. (k, failure_call now)) nows

abbrev is_closed : Phase → Bool
is_closed (closed n) = true
is_closed (opened n since) = false
is_closed (half_open n since) = false

steps_failures :
    (t c : ℕ) (k : CircuitKey) (now : ℕ) (nows : List ℕ) (p : Phase)
    → (failures_of (steps t c k (failures_at k (now ∷ nows)) p)
        ≡ failures_of p + length (now ∷ nows))
      × (is_closed (steps t c k (failures_at k (now ∷ nows)) p)
          ≡ ltb (failures_of p + length (now ∷ nows)) t)
unfolding steps on_failure
steps_failures t c k now [] p = simp beq_refl (ground arith)
steps_failures t c k now (next ∷ nows) p =
    let p' = if k == k then on_failure t now p else p in
    let ih = steps_failures t c k next nows p' in
    let e : failures_of p' ≡ failures_of p + 1 = rw (beq_refl k) (ground arith) in
    ground (arith, ih.0, ih.1, e)

phase_fields :
    (r : BreakerRegistry) (k : CircuitKey)
    → (failures_of (phase r k) ≡ (state_at r k).failure_count)
      × (is_closed (phase r k) ≡ not (state_at r k).is_open)
unfolding phase failures_of
phase_fields r k = ground arith

-- In a registry with uniform bounds, failures of one origin in a row, with no success between:
-- the count grows by one for each, and after the last of them the circuit is open exactly if the
-- count has reached the threshold.
pub failures_trip :
    (t c : ℕ) (r : BreakerRegistry) (k : CircuitKey) (now : ℕ) (nows : List ℕ)
    → IsUniform t c r
    → ((state_at (perform_all (failures_at k (now ∷ nows)) r) k).failure_count
        ≡ (state_at r k).failure_count + length (now ∷ nows))
      × ((state_at (perform_all (failures_at k (now ∷ nows)) r) k).is_open
          ≡ leb t ((state_at r k).failure_count + length (now ∷ nows)))
failures_trip t c r k now nows u =
    let r' = perform_all (failures_at k (now ∷ nows)) r in
    let e = phase-perform_all t c k (failures_at k (now ∷ nows)) r u in
    let s = steps_failures t c k now nows (phase r k) in
    ground (arith, e, s.0, s.1, phase_fields r k, phase_fields r' k)

-- A call that does not settle the trial of `key`: one for another key, or an `admit` or `inspect`.
abbrev IsQuiet : CircuitKey → CircuitKey × Call → Type 0
IsQuiet key (k, admit_call now later) = Unit
IsQuiet key (k, inspect_call) = Unit
IsQuiet key (k, c) = k ≢ key

steps_quiet :
    (t c n : ℕ) (since : Option ℕ) (key : CircuitKey) (calls : List (CircuitKey × Call))
    → All (IsQuiet key) calls
    → steps t c key calls (half_open n since) ≡ half_open n since
unfolding steps on_admit
steps_quiet t c n since key [] h = refl
steps_quiet t c n since key ((k, admit_call now later) ∷ calls) h =
    ground (arith, steps_quiet t c n since key calls h.1)
steps_quiet t c n since key ((k, inspect_call) ∷ calls) h =
    ground (arith, steps_quiet t c n since key calls h.1)
steps_quiet t c n since key ((k, call) ∷ calls) h =
    ground (arith, key_beq_iff k key, steps_quiet t c n since key calls h.1)

admitted_trial :
    (r : BreakerRegistry) (key : CircuitKey) (now later : ℕ)
    → (state_at r key).is_open ≡ true
    → (admit r key now later).0 ≡ true
    → (n : ℕ) × (since : Option ℕ) × (phase (admit r key now later).1 key ≡ half_open n since)
unfolding admit phase
admitted_trial r key now later h a = (
  (state_at r key).failure_count,
  Dict.get r.opened_at key,
  ground (
    arith,
    mem-add r.trial_in_flight key key,
    key_beq_iff key key,
    get-put r.states key key r.initial_state,
  ),
)

half_open_refuses :
    (r : BreakerRegistry) (key : CircuitKey) (n : ℕ) (since : Option ℕ) (now later : ℕ)
    → phase r key ≡ half_open n since
    → (admit r key now later).0 ≡ false
unfolding admit phase
half_open_refuses r key n since now later h =
    ground (arith, get-put r.states key key r.initial_state, key_beq_iff key key)

-- One trial at a time, in a registry with uniform bounds: once `admit` has let a dispatch through
-- an open circuit, it refuses every further one, at any time, until a result for that key is
-- recorded or the trial is released.
pub single_trial :
    (t c : ℕ) (r : BreakerRegistry) (key : CircuitKey) (now later : ℕ)
    (calls : List (CircuitKey × Call)) (now' later' : ℕ)
    → IsUniform t c r
    → (state_at r key).is_open ≡ true
    → (admit r key now later).0 ≡ true
    → All (IsQuiet key) calls
    → (admit (perform_all calls (admit r key now later).1) key now' later').0 ≡ false
unfolding perform
single_trial t c r key now later calls now' later' u h a quiet =
    let (n, since, p) = admitted_trial r key now later h a in
    let r' = (admit r key now later).1 in
    let u' = perform-IsUniform key (admit_call now later) u in
    half_open_refuses (perform_all calls r') key n since now' later' (
      phase-perform_all t c key calls r' u'
      ∙ ap (steps t c key calls) p
      ∙ steps_quiet t c n since key calls quiet)
