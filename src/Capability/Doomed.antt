-- ===== src/Capability/Doomed.antt =====
-- A probe that was under way when its evidence was invalidated ends with an error and stores nothing.
use datasluice.Base.{
  ℕ, String, false, none, some, ◌==◌, equatable_nat, equatable_string, nat_beq_iff, ◌≡◌, refl, sym,
  ap, ◌∙◌, ◌⊎◌, inl, inr, Bool-cases,
}
use datasluice.Base.Dict.{beq_refl}
use datasluice.Base.Exec.{Result, ok, raise}
use datasluice.Errors.{Exception}
use datasluice.Capability.Profiles.{EffectiveProfile}
use datasluice.Capability.Evidence.{Urls, CacheConfig, ProbeAnswer, resolve_from_answer}
use datasluice.Catalog.{OperationId, equatable_operation}
use datasluice.Capability.Entries.{CacheKey, equatable_cache_key}
use datasluice.Capability.Flights.{
  Phase, idle, missed, probing, completing, failing, waiting, finished, World, complete_sync_leader,
  fail_sync_leader, error_or_invalidation,
}
use datasluice.Capability.Threads.{
  look_up_step, join_step, answer_step, settle_step, wake_step, after_answer,
}
use datasluice.Capability.Consistency.{lead_key, flight_key, IsCancelled}
use datasluice.Capability.Unmoved.{Unmoved}

-- The call still leads its flight, or has ended with an error.
abbrev pub LeadsOrFailed : CacheKey → Phase → Type 0
LeadsOrFailed k phase =
    (lead_key phase ≡ some k) ⊎ ((x : Exception) × (phase ≡ finished k (raise x)))

abbrev pub Doomed : ℕ → CacheKey → World → Type 0
Doomed t k w = IsCancelled (w.cells t) × LeadsOrFailed k (w.calls t)

has_begun : (k : CacheKey) (phase : Phase) → LeadsOrFailed k phase → flight_key phase ≡ none → ⊥
has_begun k (probing j) d e = cc
has_begun k (completing j p at) d e = cc
has_begun k (failing j x) d e = cc
has_begun k (finished j r) d e = cc
has_begun k phase (inr (x, q)) e = cc (sym e ∙ ap flight_key q)
has_begun k idle (inl q) e = cc
has_begun k (missed j) (inl q) e = cc
has_begun k (waiting j f) (inl q) e = cc

module _ (web : Urls) (c : CacheConfig) (t : ℕ) (k : CacheKey) where
  unstarted :
      {A : Type 0} (phase : Phase) (w : World)
      → w.calls t ≡ phase
      → flight_key phase ≡ none
      → Doomed t k w
      → A
  unstarted phase w e q d = absurd (has_begun k (w.calls t) d.1 (ap flight_key e ∙ q))

  pub look_up-Doomed :
      (i : OperationId) (scope : String) (now : ℕ) (phase : Phase) (w : World)
      → w.calls t ≡ phase
      → Doomed t k w
      → Doomed t k (look_up_step web c t i scope now phase w)
  unfolding look_up_step
  look_up-Doomed i scope now idle w e d = unstarted idle w e refl d
  look_up-Doomed i scope now (missed j) w e d = d
  look_up-Doomed i scope now (probing j) w e d = d
  look_up-Doomed i scope now (completing j p at) w e d = d
  look_up-Doomed i scope now (failing j x) w e d = d
  look_up-Doomed i scope now (waiting j g) w e d = d
  look_up-Doomed i scope now (finished j r) w e d = d

  pub join-Doomed :
      (phase : Phase) (w : World)
      → w.calls t ≡ phase
      → Doomed t k w
      → Doomed t k (join_step web c t phase w)
  unfolding join_step
  join-Doomed idle w e d = d
  join-Doomed (missed j) w e d = unstarted (missed j) w e refl d
  join-Doomed (probing j) w e d = d
  join-Doomed (completing j p at) w e d = d
  join-Doomed (failing j x) w e d = d
  join-Doomed (waiting j g) w e d = d
  join-Doomed (finished j r) w e d = d

  answered :
      (j : CacheKey) (now : ℕ) (r : Result Exception EffectiveProfile)
      → lead_key (after_answer web c j now r) ≡ some j
  answered j now (ok p) = refl
  answered j now (raise x) = refl

  pub answer-Doomed :
      (a : ProbeAnswer) (now : ℕ) (phase : Phase) (w : World)
      → w.calls t ≡ phase
      → Doomed t k w
      → Doomed t k (answer_step web c t a now phase w)
  unfolding answer_step
  answer-Doomed a now idle w e d = d
  answer-Doomed a now (missed j) w e d = d
  answer-Doomed a now (probing j) w e d =
      let r = resolve_from_answer web c j.operation j.credential_scope a in
      let j_k : some j ≡ some k = elim d.1 [
        | inl q ↦ sym (ap lead_key e) ∙ q
        | inr (x, q) ↦ cc (sym e ∙ q)
      ] in
      rw (beq_refl t) (d.0, inl (answered j now r ∙ j_k))
  answer-Doomed a now (completing j p at) w e d = d
  answer-Doomed a now (failing j x) w e d = d
  answer-Doomed a now (waiting j g) w e d = d
  answer-Doomed a now (finished j r) w e d = d

  same_key :
      (j : CacheKey) (phase : Phase) (w : World)
      → w.calls t ≡ phase
      → lead_key phase ≡ some j
      → Doomed t k w
      → j ≡ k
  same_key j phase w e q d = elim d.1 [
    | inl leads ↦ cc (sym (ap lead_key e ∙ q) ∙ leads)
    | inr (x, failed) ↦ cc (sym (ap lead_key e ∙ q) ∙ ap lead_key failed)
  ]

  pub settle-Doomed :
      (phase : Phase) (w : World)
      → w.calls t ≡ phase
      → Doomed t k w
      → Doomed t k (settle_step web c t phase w)
        × ((settle_step web c t phase w).entries ≡ w.entries)
  unfolding settle_step complete_sync_leader fail_sync_leader
  settle-Doomed idle w e d = (d, refl)
  settle-Doomed (missed j) w e d = (d, refl)
  settle-Doomed (probing j) w e d = (d, refl)
  settle-Doomed (completing j p at) w e d =
      let z : j ≡ k = same_key j (completing j p at) w e refl d in
      rw (d.0.0, beq_refl t)
        (
          (
            (refl, refl, refl),
            inr (
              error_or_invalidation (w.cells t).error,
              ap (λ i. finished i (raise (error_or_invalidation (w.cells t).error))) z,
            ),
          ),
          refl,
        )
  settle-Doomed (failing j x) w e d =
      let z : j ≡ k = same_key j (failing j x) w e refl d in
      rw (beq_refl t) (((d.0.0, refl, refl), inr (x, ap (λ i. finished i (raise x)) z)), refl)
  settle-Doomed (waiting j g) w e d = (d, refl)
  settle-Doomed (finished j r) w e d = (d, refl)

  pub wake-Doomed :
      (phase : Phase) (w : World)
      → w.calls t ≡ phase
      → Doomed t k w
      → Doomed t k (wake_step web c t phase w)
  unfolding wake_step
  wake-Doomed idle w e d = d
  wake-Doomed (missed j) w e d = d
  wake-Doomed (probing j) w e d = d
  wake-Doomed (completing j p at) w e d = d
  wake-Doomed (failing j x) w e d = d
  wake-Doomed (waiting j g) w e d = unstarted (waiting j g) w e refl d
  wake-Doomed (finished j r) w e d = d

  Unmoved-Doomed : (w w' : World) → Unmoved t w w' → Doomed t k w → Doomed t k w'
  Unmoved-Doomed w w' (calls, cells) d = rw (calls, cells) d

  -- An action of the call itself, or of another one.
  pub actor-Doomed :
      (u : ℕ) (w w' : World)
      → ((u ≡ t) → Doomed t k w')
      → ((u == t) ≡ false → Unmoved t w w')
      → Doomed t k w
      → Doomed t k w'
  actor-Doomed u w w' own others d = elim (Bool-cases (u == t)) [
    | inl same ↦ own ((nat_beq_iff u t).0 same)
    | inr other ↦ Unmoved-Doomed w w' (others other) d
  ]
