-- ===== src/Capability/Provenance.antt =====
-- Where entries and results of the capability cache come from: what the entries satisfy, and every
-- profile that is stored, they satisfy in every reachable world, and so does every result.
pub mod Steps
pub mod Runs
use datasluice.Base.{
  ℕ, String, Bool, true, ◌&&◌, Option, none, some, List, [], ◌∷◌, ◌==◌, equatable_nat,
  equatable_string, leb, ◌+◌, ◌≡◌, refl, sym, ap, ◌∙◌, ◌⊎◌, inl, inr, Bool-cases, Option-cases,
}
use datasluice.Base.Dict.{get, remove}
use datasluice.Base.Exec.{Result, ok, raise, and_then}
use datasluice.Errors.{Exception, value_error}
use datasluice.Safety.{is_some}
use datasluice.Capability.Profiles.{
  EffectiveProfile, ProbeEvidence, ProbeResponseClass, CapabilityState,
}
use datasluice.Capability.Evidence.{
  Urls, CacheConfig, ProbeAnswer, resolve_from_answer, profile_with_state, validate_evidence,
  profile_from_evidence, recorded_state,
}
use datasluice.Catalog.{OperationId, equatable_operation}
use datasluice.Capability.Entries.{
  CacheKey, equatable_cache_key, CacheEntry, Entries, cache_key, fresh_entry, store_entry,
  drop_operation,
}
use datasluice.Capability.Flights.{
  SyncFlight, new_flight, error_or_invalidation, Phase, idle, missed, probing, completing, failing,
  waiting, finished, World, new_world, update, complete_sync_leader, fail_sync_leader,
  invalidate_all, invalidate_operation, cancel_flights, sync_flight, wait_sync_flight, Flights,
  profile_or_error,
}
use datasluice.Capability.Threads.{
  Action, look_up, join, answer, settle, wake, peek, record_response, record_evidence, invalidation,
  look_up_step, start_call, join_step, answer_step, settle_step, wake_step, act, run, after_answer,
  after_look_up, peek_profile, store_response, store_evidence, store_result,
}
use datasluice.Capability.Consistency.{flight_key, key_kept}
use datasluice.Capability.Consistency.Cancels.{profile_kept}
use datasluice.Capability.Consistency.Runs.{IsConsistent, act-IsConsistent}

module _ (web : Urls) (c : CacheConfig) (Good : CacheKey → EffectiveProfile → Type 0)
    (P : Entries → Type 0) where
  -- What the operations on entries keep, and what every way to a profile gives.
  pub record Sources : Type 0 where
    pub empty : P []
    pub found :
        (d : Entries) (k : CacheKey) (e : CacheEntry) → P d → get d k ≡ some e → Good k e.profile
    pub removed : (d : Entries) (k : CacheKey) → P d → P (remove d k)
    pub dropped : (d : Entries) (i : OperationId) → P d → P (drop_operation i d)
    pub stored :
        (d : Entries) (k : CacheKey) (p : EffectiveProfile) (now : ℕ)
        → P d
        → Good k p
        → P (store_entry c.ttl_seconds d k p now)
    pub baseline : (k : CacheKey) → Good k c.baseline
    pub answered :
        (k : CacheKey) (a : ProbeAnswer) (p : EffectiveProfile)
        → resolve_from_answer web c k.operation k.credential_scope a ≡ ok p
        → Good k p
    pub recorded :
        (i : OperationId) (scope : String) (state : CapabilityState) (p : EffectiveProfile)
        → profile_with_state web c i state ≡ ok p
        → Good (cache_key c i scope) p
    pub evident :
        (e : ProbeEvidence) (scope : String) (p : EffectiveProfile)
        → and_then
            (validate_evidence web c e.operation_id e scope)
            (λ u. profile_from_evidence web c e.operation_id e)
          ≡ ok p
        → Good (cache_key c e.operation_id scope) p

  abbrev pub GoodResult : CacheKey → Result Exception EffectiveProfile → Type 0
  GoodResult k (ok p) = Good k p
  GoodResult k (raise x) = Unit

  abbrev pub GoodPhase : Phase → Type 0
  GoodPhase (completing k p at) = Good k p
  GoodPhase (finished k r) = GoodResult k r
  GoodPhase _ = Unit

  abbrev pub GoodCell : Phase → SyncFlight → Type 0
  GoodCell phase flight =
      (p : EffectiveProfile)
      → flight.profile ≡ some p
      → (k : CacheKey) × (flight_key phase ≡ some k) × Good k p

  pub record Sound (w : World) : Type 0 where
    pub entries : P w.entries
    pub phases : (t : ℕ) → GoodPhase (w.calls t)
    pub cells : (t : ℕ) → GoodCell (w.calls t) (w.cells t)

  module _ (l : Sources) where
    pub new_world-Sound : Sound new_world
    new_world-Sound = record { entries = l.empty; phases = λ t. tt; cells = λ t p e. cc }

    -- A call moves on, with the entries and its own flight as given.
    pub move-Sound :
        (w w' : World) (t : ℕ) (phase : Phase) (flight : SyncFlight)
        → Sound w
        → P w'.entries
        → w'.calls ≡ update w.calls t phase
        → w'.cells ≡ update w.cells t flight
        → GoodPhase phase
        → GoodCell phase flight
        → Sound w'
    move-Sound w w' t phase flight s d calls cells good made = record {
      entries = d;
      phases = λ u. rw calls (elim (Bool-cases (t == u)) [
        | inl same ↦ rw same good
        | inr other ↦ rw other (s.phases u)
      ]);
      cells = λ u.
          rw (calls, cells)
            (elim (Bool-cases (t == u)) [
              | inl same ↦ rw same made
              | inr other ↦ rw other (s.cells u)
            ]);
    }

    -- A call moves on and its flight stays as it is.
    pub stay-Sound :
        (w w' : World) (t : ℕ) (phase : Phase)
        → Sound w
        → P w'.entries
        → w'.calls ≡ update w.calls t phase
        → w'.cells ≡ w.cells
        → GoodPhase phase
        → (flight_key (w.calls t) ≡ none) ⊎ (flight_key phase ≡ flight_key (w.calls t))
        → Sound w'
    stay-Sound w w' t phase s d calls cells good had = record {
      entries = d;
      phases = λ u. rw calls (elim (Bool-cases (t == u)) [
        | inl same ↦ rw same good
        | inr other ↦ rw other (s.phases u)
      ]);
      cells = λ u.
          rw (calls, cells)
            (λ p e. let (k, q, g) = s.cells u p e in (k, key_kept w.calls t phase u k had q, g));
    }
