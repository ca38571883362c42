-- ===== src/Capability/Provenance/Runs.antt =====
-- Every action, and so every run, keeps what entries and results satisfy.
use datasluice.Base.{
  ℕ, String, Bool, true, none, some, List, [], ◌∷◌, ◌==◌, equatable_nat, equatable_string, ◌≡◌,
  refl, sym, ◌∙◌, inl, inr, Bool-cases,
}
use datasluice.Base.Exec.{Result, ok, raise}
use datasluice.Errors.{Exception}
use datasluice.Capability.Profiles.{EffectiveProfile, ProbeEvidence, ProbeResponseClass}
use datasluice.Capability.Evidence.{Urls, CacheConfig, profile_with_state, recorded_state}
use datasluice.Catalog.{OperationId, equatable_operation}
use datasluice.Capability.Entries.{
  CacheKey, equatable_cache_key, Entries, cache_key, drop_operation,
}
use datasluice.Capability.Flights.{
  World, invalidate_all, invalidate_operation, cancel_flights, Flights,
}
use datasluice.Capability.Threads.{
  Action, look_up, join, answer, settle, wake, peek, record_response, record_evidence, invalidation,
  act, run, peek_profile, store_response, store_evidence, store_result,
}
use datasluice.Capability.Consistency.Cancels.{profile_kept}
use datasluice.Capability.Consistency.Runs.{IsConsistent, act-IsConsistent}
use datasluice.Capability.Provenance.{Sources, GoodResult, Sound}
use datasluice.Capability.Provenance.Steps.{
  look_up_step-Sound, join_step-Sound, answer_step-Sound, settle_step-Sound, wake_step-Sound,
  fresh_entry-Good,
}

module _ (web : Urls) (c : CacheConfig) (Good : CacheKey → EffectiveProfile → Type 0)
    (P : Entries → Type 0) (l : Sources web c Good P) where
  store_result-Sound :
      (k : CacheKey) (now : ℕ) (r : Result Exception EffectiveProfile) (w : World)
      → GoodResult web c Good P k r
      → Sound web c Good P w
      → Sound web c Good P (store_result web c k now r w).1
  store_result-Sound k now (raise x) w g s = s
  store_result-Sound k now (ok p) w g s = record {
    entries = l.stored w.entries k p now s.entries g;
    phases = s.phases;
    cells = s.cells;
  }

  result-Good :
      (k : CacheKey) (r : Result Exception EffectiveProfile)
      → ((p : EffectiveProfile) → r ≡ ok p → Good k p)
      → GoodResult web c Good P k r
  result-Good k (ok p) h = h p refl
  result-Good k (raise x) h = tt

  response-Sound :
      (i : OperationId) (response : ProbeResponseClass) (scope : String) (now : ℕ) (w : World)
      → Sound web c Good P w
      → Sound web c Good P (store_response web c i response scope now w).1
  unfolding store_response
  response-Sound i response scope now w s = elim (Bool-cases (scope == "")) [
    | inl blank ↦ rw blank s
    | inr given ↦
        let state = recorded_state c.declared_profile i response in
        rw given (
          store_result-Sound (cache_key c i scope) now (profile_with_state web c i state) w
            (result-Good (cache_key c i scope) (profile_with_state web c i state)
              (λ p e. l.recorded i scope state p e))
            s)
  ]

  evidence-Sound :
      (e : ProbeEvidence) (scope : String) (now : ℕ) (w : World)
      → Sound web c Good P w
      → Sound web c Good P (store_evidence web c e scope now w).1
  unfolding store_evidence
  evidence-Sound e scope now w s = elim (Bool-cases (scope == "")) [
    | inl blank ↦ rw blank s
    | inr given ↦
        let k = cache_key c e.operation_id scope in
        rw given (store_result-Sound k now _ w (result-Good k _ (λ p q. l.evident e scope p q)) s)
  ]

  peek-Sound :
      (i : OperationId) (scope : String) (now : ℕ) (w : World)
      → Sound web c Good P w
      → Sound web c Good P (peek_profile web c i scope now w).1
  unfolding peek_profile
  peek-Sound i scope now w s = elim (Bool-cases (scope == "")) [
    | inl blank ↦ rw blank s
    | inr given ↦ rw given (record {
      entries = (fresh_entry-Good web c Good P l w.entries (cache_key c i scope) now s.entries).0;
      phases = s.phases;
      cells = s.cells;
    })
  ]

  cancelled-Sound :
      (w : World) (matches : CacheKey → Bool) (d : Entries) (flights : Flights)
      → Sound web c Good P w
      → P d
      → Sound web c Good P (record w {
        entries = d;
        flights = flights;
        cells = cancel_flights matches w.flights w.cells;
      })
  cancelled-Sound w matches d flights s h = record {
    entries = h;
    phases = s.phases;
    cells = λ t p e. s.cells t p (sym (profile_kept matches w.flights w.cells t) ∙ e);
  }

  act-Sound :
      (a : Action) (w : World)
      → IsConsistent w
      → Sound web c Good P w
      → Sound web c Good P (act web c a w)
  unfolding act invalidate_all invalidate_operation
  act-Sound (look_up t i scope now) w v s =
      look_up_step-Sound web c Good P l t i scope now (w.calls t) w refl v s
  act-Sound (join t) w v s = join_step-Sound web c Good P l t (w.calls t) w refl v s
  act-Sound (answer t a now) w v s = answer_step-Sound web c Good P l t a now (w.calls t) w refl v s
  act-Sound (settle t) w v s = settle_step-Sound web c Good P l t (w.calls t) w refl v s
  act-Sound (wake t) w v s = wake_step-Sound web c Good P l t (w.calls t) w refl v s
  act-Sound (peek i scope now) w v s = peek-Sound i scope now w s
  act-Sound (record_response i response scope now) w v s = response-Sound i response scope now w s
  act-Sound (record_evidence e scope now) w v s = evidence-Sound e scope now w s
  act-Sound (invalidation none) w v s = cancelled-Sound w (λ k. true) [] [] s l.empty
  act-Sound (invalidation (some i)) w v s =
      cancelled-Sound w (λ k. k.operation == i) (drop_operation i w.entries)
        (drop_operation i w.flights) s (l.dropped w.entries i s.entries)

  pub run-Sound :
      (actions : List Action) (w : World)
      → IsConsistent w
      → Sound web c Good P w
      → Sound web c Good P (run web c actions w)
  unfolding run
  run-Sound [] w v s = s
  run-Sound (a ∷ actions) w v s =
      run-Sound actions (act web c a w) (act-IsConsistent web c a w v) (act-Sound a w v s)
