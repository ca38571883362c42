-- ===== src/Capability/Threads.antt =====
-- src/datasluice/runtime/capability.py: the methods of the cache as actions of threads. What a call
-- does under the lock, or with nothing shared, is one action.
use datasluice.Base.{
  ℕ, String, Bool, true, false, ◌&&◌, Option, none, some, List, [], ◌∷◌, ◌==◌, if◌then◌else◌,
  equatable_string,
}
use datasluice.Base.Dict.{get}
use datasluice.Base.Exec.{Result, ok, raise, and_then}
use datasluice.Errors.{Exception, value_error}
use datasluice.Safety.{is_some}
use datasluice.Catalog.{OperationId, equatable_operation}
use datasluice.Capability.Profiles.{ProbeEvidence, ProbeResponseClass, EffectiveProfile}
use datasluice.Capability.Evidence.{
  Urls, CacheConfig, ProbeAnswer, resolve_from_answer, validate_evidence, profile_from_evidence,
  profile_with_state, recorded_state,
}
use datasluice.Capability.Entries.{
  CacheKey, CacheEntry, Entries, cache_key, store_entry, fresh_entry,
}
use datasluice.Capability.Flights.{
  Phase, idle, missed, probing, completing, failing, waiting, finished, World, update, sync_flight,
  wait_sync_flight, fail_sync_leader, complete_sync_leader, invalidate_all, invalidate_operation,
  invalidate,
}

pub data Action : Type 0 where
  look_up : ℕ → OperationId → (scope : String) → (now : ℕ) → Action
  join : ℕ → Action
  answer : ℕ → ProbeAnswer → (now : ℕ) → Action
  settle : ℕ → Action
  wake : ℕ → Action
  peek : OperationId → (scope : String) → (now : ℕ) → Action
  record_response : OperationId → ProbeResponseClass → (scope : String) → (now : ℕ) → Action
  record_evidence : ProbeEvidence → (scope : String) → (now : ℕ) → Action
  invalidation : Option OperationId → Action

abbrev pub place : ℕ → Phase → World → World
place t phase w = record w { calls = update w.calls t phase }

module _ (web : Urls) (c : CacheConfig) where
  -- `resolve` up to its flight.
  abbrev pub after_look_up : CacheKey → Option CacheEntry × Entries → Phase
  after_look_up k (some entry, d) = finished k (ok entry.profile)
  after_look_up k (none, d) =
      if is_some (get c.declared_profile.operations k.operation) && c.has_runner
      then missed k
      else finished k (ok c.baseline)

  unfoldable pub start_call : ℕ → OperationId → String → ℕ → World → World
  unfolding cache_key fresh_entry
  start_call t i scope now w =
      let k = cache_key c i scope in
      let found = fresh_entry c.ttl_seconds w.entries k now in
      if scope == ""
      then place t (finished k (raise value_error)) w
      else place t (after_look_up k found) (record w { entries = found.1 })

  abbrev pub leads : CacheKey → ℕ × Bool → Phase
  leads k (flight, true) = probing k
  leads k (flight, false) = waiting k flight

  abbrev pub after_answer : CacheKey → ℕ → Result Exception EffectiveProfile → Phase
  after_answer k now (ok effective) = completing k effective now
  after_answer k now (raise x) = failing k x

  abbrev pub after_completion : CacheKey → EffectiveProfile → Result Exception (Unit {0}) → Phase
  after_completion k effective (ok u) = finished k (ok effective)
  after_completion k effective (raise x) = finished k (raise x)

  -- The steps of one call, each from the phase that it stands in; from any other nothing happens.
  unfoldable pub look_up_step : ℕ → OperationId → String → ℕ → Phase → World → World
  unfolding start_call
  look_up_step t i scope now idle w = start_call t i scope now w
  look_up_step t i scope now _ w = w

  unfoldable pub join_step : ℕ → Phase → World → World
  unfolding sync_flight
  join_step t (missed k) w = place t (leads k (sync_flight k t w).0) (sync_flight k t w).1
  join_step t _ w = w

  unfoldable pub answer_step : ℕ → ProbeAnswer → ℕ → Phase → World → World
  unfolding resolve_from_answer
  answer_step t a now (probing k) w =
      place t (after_answer k now (resolve_from_answer web c k.operation k.credential_scope a)) w
  answer_step t a now _ w = w

  -- `_resolve_sync_leader` once it has the lock.
  unfoldable pub settle_step : ℕ → Phase → World → World
  unfolding complete_sync_leader fail_sync_leader
  settle_step t (completing k effective at) w =
      let done = complete_sync_leader c.ttl_seconds k t effective at w in
      place t (after_completion k effective done.0) done.1
  settle_step t (failing k x) w = place t (finished k (raise x)) (fail_sync_leader k t x w)
  settle_step t _ w = w

  unfoldable pub wake_step : ℕ → Phase → World → World
  unfolding wait_sync_flight
  wake_step t (waiting k f) w =
      if (w.cells f).event then place t (finished k (wait_sync_flight (w.cells f))) w else w
  wake_step t _ w = w

  abbrev pub store_result :
      CacheKey
      → ℕ
      → Result Exception EffectiveProfile
      → World
      → Result Exception EffectiveProfile × World
  store_result k now (raise x) w = (raise x, w)
  store_result k now (ok effective) w =
      (ok effective, record w { entries = store_entry c.ttl_seconds w.entries k effective now })

  -- `peek`, `record_response` and `record_evidence`, by any thread.
  abbrev pub profile_or_baseline : Option CacheEntry → EffectiveProfile
  profile_or_baseline none = c.baseline
  profile_or_baseline (some entry) = entry.profile

  unfoldable pub peek_profile :
      OperationId → String → ℕ → World → Result Exception EffectiveProfile × World
  unfolding fresh_entry cache_key
  peek_profile i scope now w =
      let found = fresh_entry c.ttl_seconds w.entries (cache_key c i scope) now in
      if scope == ""
      then (raise value_error, w)
      else (ok (profile_or_baseline found.0), record w { entries = found.1 })

  unfoldable pub store_response :
      OperationId
      → ProbeResponseClass
      → String
      → ℕ
      → World
      → Result Exception EffectiveProfile × World
  unfolding recorded_state profile_with_state store_entry cache_key
  store_response i response scope now w =
      if scope == ""
      then (raise value_error, w)
      else store_result (cache_key c i scope) now
          (profile_with_state web c i (recorded_state c.declared_profile i response)) w

  unfoldable pub store_evidence :
      ProbeEvidence → String → ℕ → World → Result Exception EffectiveProfile × World
  unfolding validate_evidence profile_from_evidence store_entry cache_key
  store_evidence e scope now w =
      if scope == ""
      then (raise value_error, w)
      else store_result (cache_key c e.operation_id scope) now
          (and_then (validate_evidence web c e.operation_id e scope)
            (λ u. profile_from_evidence web c e.operation_id e))
          w

  unfoldable pub act : Action → World → World
  unfolding look_up_step join_step answer_step settle_step wake_step peek_profile store_response
      store_evidence invalidate_all invalidate_operation
  act (look_up t i scope now) w = look_up_step t i scope now (w.calls t) w
  act (join t) w = join_step t (w.calls t) w
  act (answer t a now) w = answer_step t a now (w.calls t) w
  act (settle t) w = settle_step t (w.calls t) w
  act (wake t) w = wake_step t (w.calls t) w
  act (peek i scope now) w = (peek_profile i scope now w).1
  act (record_response i response scope now) w = (store_response i response scope now w).1
  act (record_evidence e scope now) w = (store_evidence e scope now w).1
  act (invalidation i) w = invalidate i w

  unfoldable pub run : List Action → World → World
  unfolding act
  run [] w = w
  run (a ∷ actions) w = run actions (act a w)
