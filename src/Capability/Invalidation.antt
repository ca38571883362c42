-- ===== src/Capability/Invalidation.antt =====
-- What an invalidation does to a probe that is under way, whatever happens before and after it.
use datasluice.Base.{
  ℕ, String, Bool, true, Option, none, some, List, [], ◌∷◌, ◌==◌, equatable_nat, equatable_string,
  ◌≡◌, refl, inl, inr, Bool-cases,
}
use datasluice.Base.Exec.{Result, ok, raise}
use datasluice.Errors.{Exception}
use datasluice.Capability.Profiles.{EffectiveProfile, ProbeEvidence, ProbeResponseClass}
use datasluice.Capability.Evidence.{Urls, CacheConfig}
use datasluice.Catalog.{OperationId, equatable_operation}
use datasluice.Capability.Entries.{CacheKey, equatable_cache_key}
use datasluice.Capability.Flights.{World, new_world, invalidate_all, invalidate_operation}
use datasluice.Capability.Threads.{
  Action, look_up, join, answer, settle, wake, peek, record_response, record_evidence, invalidation,
  act, run, peek_profile, store_response, store_evidence, store_result, look_up_step, join_step,
  answer_step, settle_step, wake_step,
}
use datasluice.Capability.Consistency.{lead_key}
use datasluice.Capability.Consistency.Cancels.{
  cancel_flights-IsCancelled, IsCancelled-cancel_flights,
}
use datasluice.Capability.Consistency.Runs.{
  IsConsistent, new_world-IsConsistent, act-IsConsistent, run-IsConsistent,
}
use datasluice.Capability.Doomed.{
  LeadsOrFailed, Doomed, actor-Doomed, look_up-Doomed, join-Doomed, answer-Doomed, settle-Doomed,
  wake-Doomed,
}
use datasluice.Capability.Unmoved.{
  look_up_step-Unmoved, join_step-Unmoved, answer_step-Unmoved, settle_step-Unmoved,
  wake_step-Unmoved,
}

-- Whether an invalidation reaches the operation.
abbrev pub reaches : Option OperationId → OperationId → Bool
reaches none i = true
reaches (some j) i = i == j

module _ (web : Urls) (c : CacheConfig) (t : ℕ) (k : CacheKey) where
  stored-Doomed :
      (j : CacheKey) (now : ℕ) (r : Result Exception EffectiveProfile) (w : World)
      → Doomed t k w
      → Doomed t k (store_result web c j now r w).1
  stored-Doomed j now (ok p) w d = d
  stored-Doomed j now (raise x) w d = d

  peek-Doomed :
      (i : OperationId) (scope : String) (now : ℕ) (w : World)
      → Doomed t k w
      → Doomed t k (peek_profile web c i scope now w).1
  unfolding peek_profile
  peek-Doomed i scope now w d = elim (Bool-cases (scope == "")) [
    | inl blank ↦ rw blank d
    | inr given ↦ rw given d
  ]

  response-Doomed :
      (i : OperationId) (response : ProbeResponseClass) (scope : String) (now : ℕ) (w : World)
      → Doomed t k w
      → Doomed t k (store_response web c i response scope now w).1
  unfolding store_response
  response-Doomed i response scope now w d = elim (Bool-cases (scope == "")) [
    | inl blank ↦ rw blank d
    | inr given ↦ rw given (stored-Doomed _ now _ w d)
  ]

  evidence-Doomed :
      (e : ProbeEvidence) (scope : String) (now : ℕ) (w : World)
      → Doomed t k w
      → Doomed t k (store_evidence web c e scope now w).1
  unfolding store_evidence
  evidence-Doomed e scope now w d = elim (Bool-cases (scope == "")) [
    | inl blank ↦ rw blank d
    | inr given ↦ rw given (stored-Doomed _ now _ w d)
  ]

  act-Doomed : (a : Action) (w : World) → IsConsistent w → Doomed t k w → Doomed t k (act web c a w)
  unfolding act invalidate_all invalidate_operation
  act-Doomed (look_up u i scope now) w v d =
      actor-Doomed web c t k u w (look_up_step web c u i scope now (w.calls u) w)
        (λ e. rw e (look_up-Doomed web c t k i scope now (w.calls t) w refl d))
        (λ other. look_up_step-Unmoved web c t u other i scope now (w.calls u) w) d
  act-Doomed (join u) w v d =
      actor-Doomed web c t k u w (join_step web c u (w.calls u) w)
        (λ e. rw e (join-Doomed web c t k (w.calls t) w refl d))
        (λ other. join_step-Unmoved web c t u other (w.calls u) w) d
  act-Doomed (answer u a now) w v d =
      actor-Doomed web c t k u w (answer_step web c u a now (w.calls u) w)
        (λ e. rw e (answer-Doomed web c t k a now (w.calls t) w refl d))
        (λ other. answer_step-Unmoved web c t u other a now (w.calls u) w) d
  act-Doomed (settle u) w v d =
      actor-Doomed web c t k u w (settle_step web c u (w.calls u) w)
        (λ e. rw e (settle-Doomed web c t k (w.calls t) w refl d).0)
        (λ other. settle_step-Unmoved web c t u other (w.calls u) w) d
  act-Doomed (wake u) w v d =
      actor-Doomed web c t k u w (wake_step web c u (w.calls u) w)
        (λ e. rw e (wake-Doomed web c t k (w.calls t) w refl d))
        (λ other. wake_step-Unmoved web c t u other (w.calls u) w) d
  act-Doomed (peek i scope now) w v d = peek-Doomed i scope now w d
  act-Doomed (record_response i response scope now) w v d = response-Doomed i response scope now w d
  act-Doomed (record_evidence e scope now) w v d = evidence-Doomed e scope now w d
  act-Doomed (invalidation none) w v d =
      (IsCancelled-cancel_flights w.cells w.calls (λ j. true) w.flights v t d.0, d.1)
  act-Doomed (invalidation (some i)) w v d =
      (IsCancelled-cancel_flights w.cells w.calls (λ j. j.operation == i) w.flights v t d.0, d.1)

  run-Doomed :
      (actions : List Action) (w : World)
      → IsConsistent w
      → Doomed t k w
      → Doomed t k (run web c actions w)
  unfolding run
  run-Doomed [] w v d = d
  run-Doomed (a ∷ actions) w v d =
      run-Doomed actions (act web c a w) (act-IsConsistent web c a w v) (act-Doomed a w v d)

  invalidation-Doomed :
      (o : Option OperationId) (w : World)
      → IsConsistent w
      → lead_key (w.calls t) ≡ some k
      → reaches o k.operation ≡ true
      → Doomed t k (act web c (invalidation o) w)
  unfolding act invalidate_all invalidate_operation
  invalidation-Doomed none w v leads hit = elim (v.held t k leads) [
    | inl gone ↦
        (IsCancelled-cancel_flights w.cells w.calls (λ j. true) w.flights v t gone, inl leads)
    | inr there ↦ (
      cancel_flights-IsCancelled w.cells w.calls (λ j. true) w.flights v k t there refl,
      inl leads,
    )
  ]
  invalidation-Doomed (some i) w v leads hit = elim (v.held t k leads) [
    | inl gone ↦ (
      IsCancelled-cancel_flights w.cells w.calls (λ j. j.operation == i) w.flights v t gone,
      inl leads,
    )
    | inr there ↦ (
      cancel_flights-IsCancelled w.cells w.calls (λ j. j.operation == i) w.flights v k t there hit,
      inl leads,
    )
  ]

module _ (web : Urls) (c : CacheConfig) where
  -- A call whose probe is under way when the cache, or its operation, is invalidated: whatever
  -- calls act afterwards, it still leads its flight or has ended with an error, and its end stores
  -- no entry.
  pub invalidated_probe :
      (earlier later : List Action) (o : Option OperationId) (t : ℕ) (k : CacheKey)
      → lead_key ((run web c earlier new_world).calls t) ≡ some k
      → reaches o k.operation ≡ true
      → LeadsOrFailed k
          ((run web c later (act web c (invalidation o) (run web c earlier new_world))).calls t)
        × ((act web c
              (settle t)
              (run web c later (act web c (invalidation o) (run web c earlier new_world)))).entries
            ≡ (run web c later (act web c (invalidation o) (run web c earlier new_world))).entries)
  unfolding act
  invalidated_probe earlier later o t k leads hit =
      let w : World = run web c earlier new_world in
      let v = run-IsConsistent web c earlier new_world new_world-IsConsistent in
      let d =
        run-Doomed web c t k later (act web c (invalidation o) w)
          (act-IsConsistent web c (invalidation o) w v)
          (invalidation-Doomed web c t k o w v leads hit) in
      let w' : World = run web c later (act web c (invalidation o) w) in
      (d.1, (settle-Doomed web c t k (w'.calls t) w' refl d).1)
