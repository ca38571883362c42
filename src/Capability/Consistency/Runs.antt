-- ===== src/Capability/Consistency/Runs.antt =====
-- Every action of the threads keeps the flights consistent, so every run from a new cache does.
use datasluice.Base.{
  ℕ, String, ◌&&◌, Option, none, some, List, [], ◌∷◌, ◌==◌, equatable_nat, equatable_string, ◌≡◌,
  refl, sym, ap, ◌∙◌, inl, inr, arith, Bool-cases, Option-cases,
}
use datasluice.Base.Dict.{get}
use datasluice.Base.AllDict.{All-get}
use datasluice.Base.Exec.{Result, ok, raise}
use datasluice.Errors.{Exception}
use datasluice.Safety.{is_some}
use datasluice.Catalog.{OperationId, equatable_operation}
use datasluice.Capability.Profiles.{EffectiveProfile, ProbeEvidence, ProbeResponseClass}
use datasluice.Capability.Evidence.{Urls, CacheConfig, ProbeAnswer, resolve_from_answer}
use datasluice.Capability.Entries.{
  CacheKey, equatable_cache_key, CacheEntry, Entries, cache_key, fresh_entry,
}
use datasluice.Capability.Flights.{
  Phase, idle, missed, probing, completing, failing, waiting, finished, World, update, new_world,
  invalidate_all, invalidate_operation, sync_flight, complete_sync_leader, fail_sync_leader,
}
use datasluice.Capability.Threads.{
  Action, look_up, join, answer, settle, wake, peek, record_response, record_evidence, invalidation,
  after_look_up, after_answer, look_up_step, start_call, join_step, answer_step, settle_step,
  wake_step, peek_profile, store_response, store_evidence, store_result, act, run,
}
use datasluice.Capability.Consistency.{
  lead_key, flight_key, Followed, Listed, Consistent, place-Consistent,
}
use datasluice.Capability.Consistency.Moves.{start-Consistent, retire-Consistent, lead-flight}
use datasluice.Capability.Consistency.Cancels.{all-Consistent, operation-Consistent}

abbrev pub IsConsistent : World → Type 0
IsConsistent w = Consistent w.cells w.calls w.flights

pub new_world-IsConsistent : IsConsistent new_world
new_world-IsConsistent = record {
  listed = tt;
  held = λ t k q. cc;
  waits = λ t f k q. cc;
  settled = λ t q. cc;
}

module _ (web : Urls) (c : CacheConfig) where
  -- A call that leads nothing ends, or goes on to look for a flight.
  pub quiet_move :
      (w : World) (t : ℕ) (phase : Phase)
      → lead_key (w.calls t) ≡ none
      → flight_key (w.calls t) ≡ none
      → lead_key phase ≡ none
      → ((k : CacheKey) (f : ℕ) → phase ≡ waiting k f → Followed w.cells w.calls k f)
      → IsConsistent w
      → Consistent w.cells (update w.calls t phase) w.flights
  quiet_move w t phase leads made quiet follows v =
      place-Consistent w.cells w.calls w.flights t phase v (quiet ∙ sym leads) (inl made) follows

  after_look_up-quiet :
      (k : CacheKey) (found : Option CacheEntry × Entries)
      → (lead_key (after_look_up web c k found) ≡ none)
        × ((j : CacheKey) (f : ℕ) → (after_look_up web c k found ≡ waiting j f) → ⊥)
  after_look_up-quiet k (some entry, d) = (refl, λ j f e. cc)
  after_look_up-quiet k (none, d) =
      elim (Bool-cases (is_some (get c.declared_profile.operations k.operation) && c.has_runner)) [
        | inl probes ↦ rw probes (refl, λ j f e. cc)
        | inr baseline ↦ rw baseline (refl, λ j f e. cc)
      ]

  start_call-IsConsistent :
      (t : ℕ) (i : OperationId) (scope : String) (now : ℕ) (w : World)
      → w.calls t ≡ idle
      → IsConsistent w
      → IsConsistent (start_call web c t i scope now w)
  unfolding start_call
  start_call-IsConsistent t i scope now w stands v =
      let k = cache_key c i scope in
      let found = fresh_entry c.ttl_seconds w.entries k now in
      let leads = ap lead_key stands in
      let made = ap flight_key stands in
      let quiet = after_look_up-quiet k found in
      elim (Bool-cases (scope == "")) [
        | inl blank ↦ rw blank (quiet_move w t _ leads made refl (λ j f e. cc) v)
        | inr given ↦
            rw given (quiet_move w t _ leads made quiet.0 (λ j f e. absurd (quiet.1 j f e)) v)
      ]

  look_up_step-IsConsistent :
      (t : ℕ) (i : OperationId) (scope : String) (now : ℕ) (phase : Phase) (w : World)
      → w.calls t ≡ phase
      → IsConsistent w
      → IsConsistent (look_up_step web c t i scope now phase w)
  unfolding look_up_step
  look_up_step-IsConsistent t i scope now idle w e v = start_call-IsConsistent t i scope now w e v
  look_up_step-IsConsistent t i scope now (missed k) w e v = v
  look_up_step-IsConsistent t i scope now (probing k) w e v = v
  look_up_step-IsConsistent t i scope now (completing k p at) w e v = v
  look_up_step-IsConsistent t i scope now (failing k x) w e v = v
  look_up_step-IsConsistent t i scope now (waiting k f) w e v = v
  look_up_step-IsConsistent t i scope now (finished k r) w e v = v

  join_missed-IsConsistent :
      (t : ℕ) (k : CacheKey) (w : World)
      → w.calls t ≡ missed k
      → IsConsistent w
      → IsConsistent (join_step web c t (missed k) w)
  unfolding join_step sync_flight
  join_missed-IsConsistent t k w stands v = elim (Option-cases (get w.flights k)) [
    | inl free ↦ rw free (start-Consistent w.flights w.cells w.calls v t k stands free)
    | inr (f, there) ↦
        let h = All-get (Listed w.cells w.calls) w.flights k f v.listed there in
        rw there (
          quiet_move w t (waiting k f) (ap lead_key stands) (ap flight_key stands) refl
            (λ j g e.
              let p : k ≡ j = cc e in
              let q : f ≡ g = cc e in rw (sym p, sym q) (lead-flight (w.calls f) k h.0, inr h.0))
            v)
  ]

  join_step-IsConsistent :
      (t : ℕ) (phase : Phase) (w : World)
      → w.calls t ≡ phase
      → IsConsistent w
      → IsConsistent (join_step web c t phase w)
  unfolding join_step
  join_step-IsConsistent t idle w e v = v
  join_step-IsConsistent t (missed k) w e v = join_missed-IsConsistent t k w e v
  join_step-IsConsistent t (probing k) w e v = v
  join_step-IsConsistent t (completing k p at) w e v = v
  join_step-IsConsistent t (failing k x) w e v = v
  join_step-IsConsistent t (waiting k f) w e v = v
  join_step-IsConsistent t (finished k r) w e v = v

  answer-quiet :
      (k : CacheKey) (now : ℕ) (r : Result Exception EffectiveProfile)
      → (lead_key (after_answer web c k now r) ≡ some k)
        × (flight_key (after_answer web c k now r) ≡ some k)
        × ((j : CacheKey) (f : ℕ) → (after_answer web c k now r ≡ waiting j f) → ⊥)
  answer-quiet k now (ok p) = (refl, refl, λ j f e. cc)
  answer-quiet k now (raise x) = (refl, refl, λ j f e. cc)

  answer_step-IsConsistent :
      (t : ℕ) (a : ProbeAnswer) (now : ℕ) (phase : Phase) (w : World)
      → w.calls t ≡ phase
      → IsConsistent w
      → IsConsistent (answer_step web c t a now phase w)
  unfolding answer_step
  answer_step-IsConsistent t a now idle w e v = v
  answer_step-IsConsistent t a now (missed k) w e v = v
  answer_step-IsConsistent t a now (probing k) w e v =
      let r = resolve_from_answer web c k.operation k.credential_scope a in
      let quiet = answer-quiet k now r in
      place-Consistent w.cells w.calls w.flights t (after_answer web c k now r) v
        (quiet.0 ∙ sym (ap lead_key e)) (inr (quiet.1 ∙ sym (ap flight_key e)))
        (λ j f q. absurd (quiet.2 j f q))
  answer_step-IsConsistent t a now (completing k p at) w e v = v
  answer_step-IsConsistent t a now (failing k x) w e v = v
  answer_step-IsConsistent t a now (waiting k f) w e v = v
  answer_step-IsConsistent t a now (finished k r) w e v = v

  settle_step-IsConsistent :
      (t : ℕ) (phase : Phase) (w : World)
      → w.calls t ≡ phase
      → IsConsistent w
      → IsConsistent (settle_step web c t phase w)
  unfolding settle_step complete_sync_leader fail_sync_leader
  settle_step-IsConsistent t idle w e v = v
  settle_step-IsConsistent t (missed k) w e v = v
  settle_step-IsConsistent t (probing k) w e v = v
  settle_step-IsConsistent t (completing k p at) w e v =
      let retired = retire-Consistent w.flights w.cells w.calls v t k in
      elim (Bool-cases (w.cells t).cancelled) [
        | inl gone ↦ rw gone (retired _ _ (ap lead_key e) refl refl)
        | inr live ↦ rw live (retired _ _ (ap lead_key e) refl (ground arith))
      ]
  settle_step-IsConsistent t (failing k x) w e v =
      retire-Consistent w.flights w.cells w.calls v t k _ _ (ap lead_key e) refl refl
  settle_step-IsConsistent t (waiting k f) w e v = v
  settle_step-IsConsistent t (finished k r) w e v = v

  wake_step-IsConsistent :
      (t : ℕ) (phase : Phase) (w : World)
      → w.calls t ≡ phase
      → IsConsistent w
      → IsConsistent (wake_step web c t phase w)
  unfolding wake_step
  wake_step-IsConsistent t idle w e v = v
  wake_step-IsConsistent t (missed k) w e v = v
  wake_step-IsConsistent t (probing k) w e v = v
  wake_step-IsConsistent t (completing k p at) w e v = v
  wake_step-IsConsistent t (failing k x) w e v = v
  wake_step-IsConsistent t (waiting k f) w e v = elim (Bool-cases (w.cells f).event) [
    | inl set ↦ rw set (quiet_move w t _ (ap lead_key e) (ap flight_key e) refl (λ j g q. cc) v)
    | inr unset ↦ rw unset v
  ]
  wake_step-IsConsistent t (finished k r) w e v = v

  -- What only changes the entries.
  stored-IsConsistent :
      (k : CacheKey) (now : ℕ) (r : Result Exception EffectiveProfile) (w : World)
      → IsConsistent w
      → IsConsistent (store_result web c k now r w).1
  stored-IsConsistent k now (ok p) w v = v
  stored-IsConsistent k now (raise x) w v = v

  peek-IsConsistent :
      (i : OperationId) (scope : String) (now : ℕ) (w : World)
      → IsConsistent w
      → IsConsistent (peek_profile web c i scope now w).1
  unfolding peek_profile
  peek-IsConsistent i scope now w v = elim (Bool-cases (scope == "")) [
    | inl blank ↦ rw blank v
    | inr given ↦ rw given v
  ]

  response-IsConsistent :
      (i : OperationId) (response : ProbeResponseClass) (scope : String) (now : ℕ) (w : World)
      → IsConsistent w
      → IsConsistent (store_response web c i response scope now w).1
  unfolding store_response
  response-IsConsistent i response scope now w v = elim (Bool-cases (scope == "")) [
    | inl blank ↦ rw blank v
    | inr given ↦ rw given (stored-IsConsistent _ now _ w v)
  ]

  evidence-IsConsistent :
      (e : ProbeEvidence) (scope : String) (now : ℕ) (w : World)
      → IsConsistent w
      → IsConsistent (store_evidence web c e scope now w).1
  unfolding store_evidence
  evidence-IsConsistent e scope now w v = elim (Bool-cases (scope == "")) [
    | inl blank ↦ rw blank v
    | inr given ↦ rw given (stored-IsConsistent _ now _ w v)
  ]

  pub act-IsConsistent : (a : Action) (w : World) → IsConsistent w → IsConsistent (act web c a w)
  unfolding act invalidate_all invalidate_operation
  act-IsConsistent (look_up t i scope now) w v =
      look_up_step-IsConsistent t i scope now (w.calls t) w refl v
  act-IsConsistent (join t) w v = join_step-IsConsistent t (w.calls t) w refl v
  act-IsConsistent (answer t a now) w v = answer_step-IsConsistent t a now (w.calls t) w refl v
  act-IsConsistent (settle t) w v = settle_step-IsConsistent t (w.calls t) w refl v
  act-IsConsistent (wake t) w v = wake_step-IsConsistent t (w.calls t) w refl v
  act-IsConsistent (peek i scope now) w v = peek-IsConsistent i scope now w v
  act-IsConsistent (record_response i response scope now) w v =
      response-IsConsistent i response scope now w v
  act-IsConsistent (record_evidence e scope now) w v = evidence-IsConsistent e scope now w v
  act-IsConsistent (invalidation none) w v = all-Consistent w.cells w.calls w.flights v
  act-IsConsistent (invalidation (some i)) w v = operation-Consistent w.cells w.calls w.flights i v

  pub run-IsConsistent :
      (actions : List Action) (w : World) → IsConsistent w → IsConsistent (run web c actions w)
  unfolding run
  run-IsConsistent [] w v = v
  run-IsConsistent (a ∷ actions) w v =
      run-IsConsistent actions (act web c a w) (act-IsConsistent a w v)
