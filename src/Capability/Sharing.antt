-- ===== src/Capability/Sharing.antt =====
-- Calls that share a flight: one leads it, and the others get what it leaves.
use datasluice.Base.{
  ℕ, true, false, some, List, [], ◌∷◌, ◌==◌, equatable_nat, equatable_string, nat_beq_iff, ◌≡◌,
  refl, sym, ap, ◌∙◌, inl, inr, Bool-cases,
}
use datasluice.Base.Dict.{get, beq_refl}
use datasluice.Base.Exec.{Result, ok, raise}
use datasluice.Errors.{Exception}
use datasluice.Capability.Profiles.{EffectiveProfile}
use datasluice.Capability.Evidence.{Urls, CacheConfig, ProbeAnswer, resolve_from_answer}
use datasluice.Capability.Entries.{CacheKey, equatable_cache_key}
use datasluice.Capability.Flights.{
  Phase, idle, missed, probing, completing, failing, waiting, finished, World, new_world,
  complete_sync_leader, fail_sync_leader, wait_sync_flight,
}
use datasluice.Capability.Threads.{
  Action, answer, settle, wake, place, answer_step, settle_step, wake_step, act, run, after_answer,
}
use datasluice.Capability.Consistency.{lead_key, flight_key, is_settled}
use datasluice.Capability.Consistency.Runs.{IsConsistent, new_world-IsConsistent, run-IsConsistent}
use datasluice.Capability.Unmoved.{answer_step-Unmoved, settle_step-Unmoved}

module _ (web : Urls) (c : CacheConfig) where
  registered :
      (w : World) (t : ℕ) (k : CacheKey)
      → IsConsistent w
      → lead_key (w.calls t) ≡ some k
      → (w.cells t).cancelled ≡ false
      → get w.flights k ≡ some t
  registered w t k v leads live = elim (v.held t k leads) [
    | inl gone ↦ absurd (cc (sym live ∙ gone.0))
    | inr there ↦ there
  ]

  -- In whatever order calls and invalidations act on a new cache, two calls that lead flights for
  -- the same key which are not cancelled are one call.
  pub single_flight :
      (actions : List Action) (t u : ℕ) (k : CacheKey)
      → lead_key ((run web c actions new_world).calls t) ≡ some k
      → lead_key ((run web c actions new_world).calls u) ≡ some k
      → ((run web c actions new_world).cells t).cancelled ≡ false
      → ((run web c actions new_world).cells u).cancelled ≡ false
      → t ≡ u
  single_flight actions t u k leads leads' live live' =
      let w : World = run web c actions new_world in
      let v = run-IsConsistent web c actions new_world new_world-IsConsistent in
      let one : some t ≡ some u =
        sym (registered w t k v leads live) ∙ registered w u k v leads' live' in
      cc one

  -- The leader of a flight sets its event once its runner has answered and it has the lock.
  after_answer-settles :
      (f : ℕ) (k : CacheKey) (now : ℕ) (r : Result Exception EffectiveProfile) (w : World)
      → ((settle_step web c f (after_answer web c k now r) w).cells f).event ≡ true
  unfolding settle_step complete_sync_leader fail_sync_leader
  after_answer-settles f k now (ok p) w = elim (Bool-cases (w.cells f).cancelled) [
    | inl gone ↦ rw (gone, beq_refl f) refl
    | inr live ↦ rw (live, beq_refl f) refl
  ]
  after_answer-settles f k now (raise x) w = rw (beq_refl f) refl

  settle_keeps :
      (f : ℕ) (phase : Phase) (w : World)
      → (w.cells f).event ≡ true
      → ((settle_step web c f phase w).cells f).event ≡ true
  unfolding settle_step
  settle_keeps f idle w set = set
  settle_keeps f (missed k) w set = set
  settle_keeps f (probing k) w set = set
  settle_keeps f (completing k p at) w set = after_answer-settles f k at (ok p) w
  settle_keeps f (failing k x) w set = after_answer-settles f k 0 (raise x) w
  settle_keeps f (waiting k g) w set = set
  settle_keeps f (finished k r) w set = set

  answer_keeps :
      (f : ℕ) (a : ProbeAnswer) (now : ℕ) (phase : Phase) (w : World)
      → (answer_step web c f a now phase w).cells ≡ w.cells
  unfolding answer_step
  answer_keeps f a now idle w = refl
  answer_keeps f a now (missed k) w = refl
  answer_keeps f a now (probing k) w = refl
  answer_keeps f a now (completing k p at) w = refl
  answer_keeps f a now (failing k x) w = refl
  answer_keeps f a now (waiting k g) w = refl
  answer_keeps f a now (finished k r) w = refl

  led_flight_ends :
      (f : ℕ) (a : ProbeAnswer) (now : ℕ) (phase : Phase) (k : CacheKey) (w : World)
      → w.calls f ≡ phase
      → lead_key phase ≡ some k
      → ((act web c (settle f) (answer_step web c f a now phase w)).cells f).event ≡ true
  unfolding act answer_step
  led_flight_ends f a now idle k w e leads = cc
  led_flight_ends f a now (missed j) k w e leads = cc
  led_flight_ends f a now (probing j) k w e leads = rw (beq_refl f) (
      after_answer-settles f j now (resolve_from_answer web c j.operation j.credential_scope a) (
        place f
          (after_answer web c j now (resolve_from_answer web c j.operation j.credential_scope a))
          w))
  led_flight_ends f a now (completing j p at) k w e leads =
      rw e (after_answer-settles f j at (ok p) w)
  led_flight_ends f a now (failing j x) k w e leads = rw e (after_answer-settles f j 0 (raise x) w)
  led_flight_ends f a now (waiting j g) k w e leads = cc
  led_flight_ends f a now (finished j r) k w e leads = cc

  wakes :
      (t f : ℕ) (k : CacheKey) (w : World)
      → w.calls t ≡ waiting k f
      → (w.cells f).event ≡ true
      → (r : Result Exception EffectiveProfile) × ((act web c (wake t) w).calls t ≡ finished k r)
  unfolding act wake_step
  wakes t f k w stands set = rw stands (rw set (wait_sync_flight (w.cells f), rw (beq_refl t) refl))

  served :
      (w : World) (t f : ℕ) (k : CacheKey) (a : ProbeAnswer) (now : ℕ)
      → IsConsistent w
      → w.calls t ≡ waiting k f
      → ((r : Result Exception EffectiveProfile) × ((run web c
                (answer f a now ∷ settle f ∷ wake t ∷ [])
                w).calls
              t
            ≡ finished k r))
        × (is_settled ((run web c (answer f a now ∷ settle f ∷ []) w).cells f) ≡ true)
  unfolding run act
  served w t f k a now v stands =
      let h = v.waits t f k stands in
      let w1 : World = answer_step web c f a now (w.calls f) w in
      let w2 : World = settle_step web c f (w1.calls f) w1 in
      let other : (f == t) ≡ false = elim (Bool-cases (f == t)) [
        | inr differ ↦ differ
        | inl same ↦
            let e = ap (λ n. flight_key (w.calls n)) ((nat_beq_iff f t).0 same) in
            absurd (cc (sym h.0 ∙ e ∙ ap flight_key stands))
      ] in
      let set : (w2.cells f).event ≡ true = elim h.1 [
        | inl done ↦
            settle_keeps f (w1.calls f) w1
              (ap (λ cells. (cells f).event) (answer_keeps f a now (w.calls f) w) ∙ done)
        | inr leads ↦ led_flight_ends f a now (w.calls f) k w refl leads
      ] in
      let stays : w2.calls t ≡ waiting k f =
        (settle_step-Unmoved web c t f other (w1.calls f) w1).0
        ∙ (answer_step-Unmoved web c t f other a now (w.calls f) w).0
        ∙ stands in
      (
        wakes t f k w2 stays set,
        (run-IsConsistent web c (answer f a now ∷ settle f ∷ []) w v).settled f set,
      )

  -- In every world that a new cache reaches, a call that waits for a flight gets its result as
  -- soon as the runner of the flight's leader has answered, whatever it answers, the leader has
  -- had the lock and the call wakes; the flight then has an error or a profile to give.
  pub followers_served :
      (actions : List Action) (t f : ℕ) (k : CacheKey) (a : ProbeAnswer) (now : ℕ)
      → (run web c actions new_world).calls t ≡ waiting k f
      → ((r : Result Exception EffectiveProfile) × ((run web c
                (answer f a now ∷ settle f ∷ wake t ∷ [])
                (run web c actions new_world)).calls
              t
            ≡ finished k r))
        × (is_settled
              ((run web c (answer f a now ∷ settle f ∷ []) (run web c actions new_world)).cells f)
            ≡ true)
  followers_served actions t f k a now stands =
      served (run web c actions new_world) t f k a now
        (run-IsConsistent web c actions new_world new_world-IsConsistent) stands
