-- ===== src/Capability/Provenance/Steps.antt =====
-- The steps of one call keep what entries and results satisfy.
use datasluice.Base.{
  ℕ, String, ◌&&◌, Option, none, some, ◌==◌, equatable_nat, equatable_string, leb, ◌+◌, ◌≡◌, refl,
  sym, ap, ◌∙◌, inl, inr, Bool-cases, Option-cases,
}
use datasluice.Base.Dict.{get, remove}
use datasluice.Base.Exec.{Result, ok, raise}
use datasluice.Errors.{Exception, value_error}
use datasluice.Safety.{is_some}
use datasluice.Capability.Profiles.{EffectiveProfile}
use datasluice.Capability.Evidence.{Urls, CacheConfig, ProbeAnswer, resolve_from_answer}
use datasluice.Catalog.{OperationId, equatable_operation}
use datasluice.Capability.Entries.{CacheKey, equatable_cache_key, Entries, cache_key, fresh_entry}
use datasluice.Capability.Flights.{
  new_flight, error_or_invalidation, Phase, idle, missed, probing, completing, failing, waiting,
  finished, World, complete_sync_leader, fail_sync_leader, sync_flight, wait_sync_flight,
  profile_or_error,
}
use datasluice.Capability.Threads.{
  look_up_step, start_call, join_step, answer_step, settle_step, wake_step, after_answer,
  after_look_up,
}
use datasluice.Capability.Consistency.{flight_key}
use datasluice.Capability.Consistency.Runs.{IsConsistent}
use datasluice.Capability.Provenance.{
  Sources, GoodResult, GoodPhase, GoodCell, Sound, move-Sound, stay-Sound,
}

module _ (web : Urls) (c : CacheConfig) (Good : CacheKey → EffectiveProfile → Type 0)
    (P : Entries → Type 0) (l : Sources web c Good P) where
  after_miss :
      (k : CacheKey) (d : Entries) → GoodPhase web c Good P (after_look_up web c k (none, d))
  after_miss k d =
      elim (Bool-cases (is_some (get c.declared_profile.operations k.operation) && c.has_runner)) [
        | inl probes ↦ rw probes tt
        | inr not_probed ↦ rw not_probed (l.baseline k)
      ]

  pub fresh_entry-Good :
      (d : Entries) (k : CacheKey) (now : ℕ)
      → P d
      → P (fresh_entry c.ttl_seconds d k now).1
        × GoodPhase web c Good P (after_look_up web c k (fresh_entry c.ttl_seconds d k now))
  unfolding fresh_entry
  fresh_entry-Good d k now h = elim (Option-cases (get d k)) [
    | inl absent ↦ rw absent (h, after_miss k d)
    | inr (e, there) ↦ rw there (elim (Bool-cases (leb (e.timestamp + c.ttl_seconds) now)) [
      | inl old ↦ rw old (l.removed d k h, after_miss k (remove d k))
      | inr young ↦ rw young (h, l.found d k e h there)
    ])
  ]

  pub look_up_step-Sound :
      (t : ℕ) (i : OperationId) (scope : String) (now : ℕ) (phase : Phase) (w : World)
      → w.calls t ≡ phase
      → IsConsistent w
      → Sound web c Good P w
      → Sound web c Good P (look_up_step web c t i scope now phase w)
  unfolding look_up_step start_call
  look_up_step-Sound t i scope now idle w e v s =
      let k = cache_key c i scope in
      let g = fresh_entry-Good w.entries k now s.entries in
      elim (Bool-cases (scope == "")) [
        | inl blank ↦ rw blank (
            stay-Sound web c Good P l w _ t (finished k (raise value_error)) s s.entries refl refl
              tt (inl (ap flight_key e)))
        | inr given ↦
            rw given (stay-Sound web c Good P l w _ t _ s g.0 refl refl g.1 (inl (ap flight_key e)))
      ]
  look_up_step-Sound t i scope now (missed k) w e v s = s
  look_up_step-Sound t i scope now (probing k) w e v s = s
  look_up_step-Sound t i scope now (completing k p at) w e v s = s
  look_up_step-Sound t i scope now (failing k x) w e v s = s
  look_up_step-Sound t i scope now (waiting k g) w e v s = s
  look_up_step-Sound t i scope now (finished k r) w e v s = s

  pub join_step-Sound :
      (t : ℕ) (phase : Phase) (w : World)
      → w.calls t ≡ phase
      → IsConsistent w
      → Sound web c Good P w
      → Sound web c Good P (join_step web c t phase w)
  unfolding join_step sync_flight
  join_step-Sound t idle w e v s = s
  join_step-Sound t (missed k) w e v s = elim (Option-cases (get w.flights k)) [
    | inl free ↦ rw free (
        move-Sound web c Good P l w _ t (probing k) new_flight s s.entries refl refl tt (λ p q. cc))
    | inr (f, there) ↦ rw there (
        stay-Sound web c Good P l w _ t (waiting k f) s s.entries refl refl tt
          (inl (ap flight_key e)))
  ]
  join_step-Sound t (probing k) w e v s = s
  join_step-Sound t (completing k p at) w e v s = s
  join_step-Sound t (failing k x) w e v s = s
  join_step-Sound t (waiting k g) w e v s = s
  join_step-Sound t (finished k r) w e v s = s

  after_answer-Good :
      (k : CacheKey) (a : ProbeAnswer) (now : ℕ) (r : Result Exception EffectiveProfile)
      → resolve_from_answer web c k.operation k.credential_scope a ≡ r
      → GoodPhase web c Good P (after_answer web c k now r)
        × (flight_key (after_answer web c k now r) ≡ some k)
  after_answer-Good k a now (ok p) e = (l.answered k a p e, refl)
  after_answer-Good k a now (raise x) e = (tt, refl)

  pub answer_step-Sound :
      (t : ℕ) (a : ProbeAnswer) (now : ℕ) (phase : Phase) (w : World)
      → w.calls t ≡ phase
      → IsConsistent w
      → Sound web c Good P w
      → Sound web c Good P (answer_step web c t a now phase w)
  unfolding answer_step
  answer_step-Sound t a now idle w e v s = s
  answer_step-Sound t a now (missed k) w e v s = s
  answer_step-Sound t a now (probing k) w e v s =
      let r = resolve_from_answer web c k.operation k.credential_scope a in
      let g = after_answer-Good k a now r refl in
      stay-Sound web c Good P l w _ t (after_answer web c k now r) s s.entries refl refl g.0
        (inr (g.1 ∙ sym (ap flight_key e)))
  answer_step-Sound t a now (completing k p at) w e v s = s
  answer_step-Sound t a now (failing k x) w e v s = s
  answer_step-Sound t a now (waiting k g) w e v s = s
  answer_step-Sound t a now (finished k r) w e v s = s

  -- The flight of a call that ends keeps its profile.
  ended-Good :
      (t : ℕ) (phase : Phase) (k : CacheKey) (r : Result Exception EffectiveProfile) (w : World)
      → w.calls t ≡ phase
      → flight_key phase ≡ some k
      → Sound web c Good P w
      → GoodCell web c Good P (finished k r) (w.cells t)
  ended-Good t phase k r w e q s p there =
      let (j, made, g) = s.cells t p there in (j, sym q ∙ sym (ap flight_key e) ∙ made, g)

  one_profile : (k : CacheKey) (p p' : EffectiveProfile) → some p ≡ some p' → Good k p → Good k p'
  one_profile k p p' q good = let e : p ≡ p' = cc q in rw (sym e) good

  coming :
      (t : ℕ) (k : CacheKey) (p : EffectiveProfile) (at : ℕ) (w : World)
      → w.calls t ≡ completing k p at
      → Sound web c Good P w
      → Good k p
  coming t k p at w e s = let g = s.phases t in rw e at g

  pub settle_step-Sound :
      (t : ℕ) (phase : Phase) (w : World)
      → w.calls t ≡ phase
      → IsConsistent w
      → Sound web c Good P w
      → Sound web c Good P (settle_step web c t phase w)
  unfolding settle_step complete_sync_leader fail_sync_leader
  settle_step-Sound t idle w e v s = s
  settle_step-Sound t (missed k) w e v s = s
  settle_step-Sound t (probing k) w e v s = s
  settle_step-Sound t (completing k p at) w e v s =
      let good : Good k p = coming t k p at w e s in
      elim (Bool-cases (w.cells t).cancelled) [
        | inl gone ↦ rw gone (
            move-Sound web c Good P l w _ t _ _ s s.entries refl refl tt (
              ended-Good t (completing k p at) k (raise (error_or_invalidation (w.cells t).error)) w
                e refl s))
        | inr live ↦ rw live (
            move-Sound web c Good P l w _ t _ _ s (l.stored w.entries k p at s.entries good) refl
              refl good (λ p' q. (k, refl, one_profile k p p' q good)))
      ]
  settle_step-Sound t (failing k x) w e v s =
      move-Sound web c Good P l w _ t _ _ s s.entries refl refl tt
        (ended-Good t (failing k x) k (raise x) w e refl s)
  settle_step-Sound t (waiting k g) w e v s = s
  settle_step-Sound t (finished k r) w e v s = s

  outcome-Good :
      (w : World) (f : ℕ) (k : CacheKey) (error : Option Exception)
      (profile : Option EffectiveProfile)
      → (w.cells f).profile ≡ profile
      → flight_key (w.calls f) ≡ some k
      → Sound web c Good P w
      → GoodResult web c Good P k (profile_or_error error profile)
  outcome-Good w f k (some x) profile e q s = tt
  outcome-Good w f k none none e q s = tt
  outcome-Good w f k none (some p) e q s =
      let (j, made, g) = s.cells f p e in let same : j ≡ k = cc (sym made ∙ q) in rw (sym same) g

  pub wake_step-Sound :
      (t : ℕ) (phase : Phase) (w : World)
      → w.calls t ≡ phase
      → IsConsistent w
      → Sound web c Good P w
      → Sound web c Good P (wake_step web c t phase w)
  unfolding wake_step wait_sync_flight
  wake_step-Sound t idle w e v s = s
  wake_step-Sound t (missed k) w e v s = s
  wake_step-Sound t (probing k) w e v s = s
  wake_step-Sound t (completing k p at) w e v s = s
  wake_step-Sound t (failing k x) w e v s = s
  wake_step-Sound t (waiting k g) w e v s = elim (Bool-cases (w.cells g).event) [
    | inl set ↦ rw set (
        stay-Sound web c Good P l w _ t _ s s.entries refl refl
          (outcome-Good w g k (w.cells g).error (w.cells g).profile refl (v.waits t g k e).0 s)
          (inl (ap flight_key e)))
    | inr unset ↦ rw unset s
  ]
  wake_step-Sound t (finished k r) w e v s = s
