-- ===== src/Capability/Unmoved.antt =====
-- A call's own action leaves every other call, and every flight that another call made, as it is.
use datasluice.Base.{
  ℕ, String, false, ◌==◌, equatable_nat, equatable_string, ◌≡◌, refl, inl, inr, Bool-cases,
  Option-cases,
}
use datasluice.Base.Dict.{get}
use datasluice.Capability.Evidence.{Urls, CacheConfig, ProbeAnswer}
use datasluice.Catalog.{OperationId}
use datasluice.Capability.Entries.{equatable_cache_key}
use datasluice.Capability.Flights.{
  Phase, idle, missed, probing, completing, failing, waiting, finished, World, sync_flight,
  complete_sync_leader, fail_sync_leader,
}
use datasluice.Capability.Threads.{
  look_up_step, start_call, join_step, answer_step, settle_step, wake_step,
}

abbrev pub Unmoved : ℕ → World → World → Type 0
Unmoved t w w' = (w'.calls t ≡ w.calls t) × (w'.cells t ≡ w.cells t)

module _ (web : Urls) (c : CacheConfig) (t u : ℕ) (other : (u == t) ≡ false) where
  pub look_up_step-Unmoved :
      (i : OperationId) (scope : String) (now : ℕ) (phase : Phase) (w : World)
      → Unmoved t w (look_up_step web c u i scope now phase w)
  unfolding look_up_step start_call
  look_up_step-Unmoved i scope now idle w = elim (Bool-cases (scope == "")) [
    | inl blank ↦ rw (blank, other) (refl, refl)
    | inr given ↦ rw (given, other) (refl, refl)
  ]
  look_up_step-Unmoved i scope now (missed k) w = (refl, refl)
  look_up_step-Unmoved i scope now (probing k) w = (refl, refl)
  look_up_step-Unmoved i scope now (completing k p at) w = (refl, refl)
  look_up_step-Unmoved i scope now (failing k x) w = (refl, refl)
  look_up_step-Unmoved i scope now (waiting k g) w = (refl, refl)
  look_up_step-Unmoved i scope now (finished k r) w = (refl, refl)

  pub join_step-Unmoved : (phase : Phase) (w : World) → Unmoved t w (join_step web c u phase w)
  unfolding join_step sync_flight
  join_step-Unmoved idle w = (refl, refl)
  join_step-Unmoved (missed k) w = elim (Option-cases (get w.flights k)) [
    | inl free ↦ rw (free, other) (refl, refl)
    | inr (f, there) ↦ rw (there, other) (refl, refl)
  ]
  join_step-Unmoved (probing k) w = (refl, refl)
  join_step-Unmoved (completing k p at) w = (refl, refl)
  join_step-Unmoved (failing k x) w = (refl, refl)
  join_step-Unmoved (waiting k g) w = (refl, refl)
  join_step-Unmoved (finished k r) w = (refl, refl)

  pub answer_step-Unmoved :
      (a : ProbeAnswer) (now : ℕ) (phase : Phase) (w : World)
      → Unmoved t w (answer_step web c u a now phase w)
  unfolding answer_step
  answer_step-Unmoved a now idle w = (refl, refl)
  answer_step-Unmoved a now (missed k) w = (refl, refl)
  answer_step-Unmoved a now (probing k) w = (rw other refl, refl)
  answer_step-Unmoved a now (completing k p at) w = (refl, refl)
  answer_step-Unmoved a now (failing k x) w = (refl, refl)
  answer_step-Unmoved a now (waiting k g) w = (refl, refl)
  answer_step-Unmoved a now (finished k r) w = (refl, refl)

  pub settle_step-Unmoved : (phase : Phase) (w : World) → Unmoved t w (settle_step web c u phase w)
  unfolding settle_step complete_sync_leader fail_sync_leader
  settle_step-Unmoved idle w = (refl, refl)
  settle_step-Unmoved (missed k) w = (refl, refl)
  settle_step-Unmoved (probing k) w = (refl, refl)
  settle_step-Unmoved (completing k p at) w = elim (Bool-cases (w.cells u).cancelled) [
    | inl gone ↦ rw (gone, other) (refl, refl)
    | inr live ↦ rw (live, other) (refl, refl)
  ]
  settle_step-Unmoved (failing k x) w = (rw other refl, rw other refl)
  settle_step-Unmoved (waiting k g) w = (refl, refl)
  settle_step-Unmoved (finished k r) w = (refl, refl)

  pub wake_step-Unmoved : (phase : Phase) (w : World) → Unmoved t w (wake_step web c u phase w)
  unfolding wake_step
  wake_step-Unmoved idle w = (refl, refl)
  wake_step-Unmoved (missed k) w = (refl, refl)
  wake_step-Unmoved (probing k) w = (refl, refl)
  wake_step-Unmoved (completing k p at) w = (refl, refl)
  wake_step-Unmoved (failing k x) w = (refl, refl)
  wake_step-Unmoved (waiting k g) w = elim (Bool-cases (w.cells g).event) [
    | inl set ↦ rw set (rw other refl, refl)
    | inr unset ↦ rw unset (refl, refl)
  ]
  wake_step-Unmoved (finished k r) w = (refl, refl)
