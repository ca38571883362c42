-- ===== src/Capability/Consistency/Moves.antt =====
-- How a flight is made, ends and is cancelled, and that each keeps the flights consistent.
use datasluice.Base.{
  ℕ, true, false, none, some, ◌==◌, equatable_nat, nat_beq_iff, ◌≡◌, sym, ap, ◌∙◌, inl, inr, arith,
  Bool-cases,
}
use datasluice.Base.Dict.{get, put, put-same, put-other, remove-other, beq_refl}
use datasluice.Base.AllDict.{All-map, All-put, All-remove}
use datasluice.Base.Exec.{Result}
use datasluice.Errors.{Exception}
use datasluice.Catalog.{equatable_operation}
use datasluice.Capability.Profiles.{EffectiveProfile}
use datasluice.Capability.Entries.{CacheKey, equatable_cache_key}
use datasluice.Capability.Flights.{
  SyncFlight, new_flight, Phase, idle, missed, probing, completing, failing, waiting, finished,
  Flights, update, discard_sync_flight, owned_by,
}
use datasluice.Capability.Consistency.{
  lead_key, flight_key, is_settled, Listed, Followed, Consistent, update_same, update_other,
}

pub lead-flight :
    (phase : Phase) (k : CacheKey) → lead_key phase ≡ some k → flight_key phase ≡ some k
lead-flight idle k e = e
lead-flight (missed j) k e = e
lead-flight (probing j) k e = e
lead-flight (completing j p at) k e = e
lead-flight (failing j x) k e = e
lead-flight (waiting j f) k e = e
lead-flight (finished j r) k e = cc

discard-other :
    (flights : Flights) (k j : CacheKey) (t u : ℕ)
    → get flights j ≡ some u
    → (t == u) ≡ false
    → get (discard_sync_flight k t flights) j ≡ some u
unfolding discard_sync_flight
discard-other flights k j t u there other = elim (Bool-cases (owned_by (get flights k) t)) [
  | inr lost ↦ rw lost there
  | inl owned ↦ rw owned (
      remove-other flights k j (λ e.
        let z : owned_by (some u) t ≡ true =
          ap (λ o. owned_by o t) (sym (ap (get flights) e ∙ there)) ∙ owned in
        absurd (ground arith))
      ∙ there)
]

module _ (flights : Flights) (cells : ℕ → SyncFlight) (calls : ℕ → Phase) where
  -- Two keys that a call leads are one.
  one_key :
      (t : ℕ) (j k : CacheKey) → lead_key (calls t) ≡ some j → lead_key (calls t) ≡ some k → j ≡ k
  one_key t j k p q = cc

  -- A phase that a function takes to another value belongs to another call.
  apart :
      {B : Type 0} (g : Phase → B) (t u : ℕ) (a b : B)
      → g (calls t) ≡ a
      → g (calls u) ≡ b
      → ((a ≡ b) → ⊥)
      → (t == u) ≡ false
  apart g t u a b p q differ = elim (Bool-cases (t == u)) [
    | inl same ↦ absurd (differ (sym p ∙ ap (λ n. g (calls n)) ((nat_beq_iff t u).0 same) ∙ q))
    | inr other ↦ other
  ]

  Listed-other :
      (t : ℕ) (flight : SyncFlight) (phase : Phase) (j : CacheKey) (f : ℕ)
      → (t == f) ≡ false
      → Listed cells calls (j, f)
      → Listed (update cells t flight) (update calls t phase) (j, f)
  Listed-other t flight phase j f other h = rw other h

  Followed-other :
      (t : ℕ) (flight : SyncFlight) (phase : Phase) (j : CacheKey) (f : ℕ)
      → (t == f) ≡ false
      → Followed cells calls j f
      → Followed (update cells t flight) (update calls t phase) j f
  Followed-other t flight phase j f other h = rw other h

  module _ (v : Consistent cells calls flights) (t : ℕ) (k : CacheKey) where
    pub start-Consistent :
        calls t ≡ missed k
        → get flights k ≡ none
        → Consistent (update cells t new_flight) (update calls t (probing k)) (put flights k t)
    start-Consistent stands free =
        let none_led : lead_key (calls t) ≡ none = ap lead_key stands in
        let none_made : flight_key (calls t) ≡ none = ap flight_key stands in
        let cells' : ℕ → SyncFlight = update cells t new_flight in
        let calls' : ℕ → Phase = update calls t (probing k) in
        record {
          listed =
              All-put (Listed cells calls) (Listed cells' calls') flights k t
                (λ x h.
                  let other = apart lead_key t x.1 none (some x.0) none_led h.0 (λ e. cc) in
                  (
                    ap lead_key (update_other calls t (probing k) x.1 other) ∙ h.0,
                    update_other cells t new_flight x.1 other ∙ h.1,
                  ))
                (
                  ap lead_key (update_same calls t (probing k) t (beq_refl t)),
                  update_same cells t new_flight t (beq_refl t),
                )
                v.listed;
          held = λ u j q. elim (Bool-cases (t == u)) [
            | inl same ↦
                let e : k ≡ j =
                  cc (sym (ap lead_key (update_same calls t (probing k) u same)) ∙ q) in
                inr (
                  ap (get (put flights k t)) (sym e)
                  ∙ put-same flights k t
                  ∙ ap some ((nat_beq_iff t u).0 same))
            | inr other ↦
                elim (v.held u j
                  (sym (ap lead_key (update_other calls t (probing k) u other)) ∙ q)) [
                    | inl gone ↦ inl (rw other gone)
                    | inr there ↦ inr (
                        put-other flights k j t (λ e. cc (sym free ∙ ap (get flights) e ∙ there))
                        ∙ there)
                  ]
          ];
          waits = λ u f j q. elim (Bool-cases (t == u)) [
            | inl same ↦ cc (sym (update_same calls t (probing k) u same) ∙ q)
            | inr other ↦
                let h = v.waits u f j (sym (update_other calls t (probing k) u other) ∙ q) in
                Followed-other t new_flight (probing k) j f
                  (apart flight_key t f none (some j) none_made h.0 (λ e. cc)) h
          ];
          settled = λ u q. elim (Bool-cases (t == u)) [
            | inl same ↦ cc (sym (ap (λ z. z.event) (update_same cells t new_flight u same)) ∙ q)
            | inr other ↦
                let z = update_other cells t new_flight u other in
                ap is_settled z ∙ v.settled u (sym (ap (λ c. c.event) z) ∙ q)
          ];
        }

    -- The leader ends, with its event set and an outcome kept.
    pub retire-Consistent :
        (flight : SyncFlight) (r : Result Exception EffectiveProfile)
        → lead_key (calls t) ≡ some k
        → flight.event ≡ true
        → is_settled flight ≡ true
        → Consistent
            (update cells t flight)
            (update calls t (finished k r))
            (discard_sync_flight k t flights)
    unfolding discard_sync_flight
    retire-Consistent flight r leads set kept =
        let made : flight_key (calls t) ≡ some k = lead-flight (calls t) k leads in
        let cells' : ℕ → SyncFlight = update cells t flight in
        let calls' : ℕ → Phase = update calls t (finished k r) in
        record {
          listed = elim (Bool-cases (owned_by (get flights k) t)) [
            | inl owned ↦ rw owned (
                All-remove (Listed cells calls) (Listed cells' calls') flights k
                  (λ j f differ h. elim (Bool-cases (t == f)) [
                    | inr elsewhere ↦ Listed-other t flight (finished k r) j f elsewhere h
                    | inl here ↦
                        let e = ap (λ n. lead_key (calls n)) ((nat_beq_iff t f).0 here) in
                        let z : j ≡ k = cc (sym leads ∙ e ∙ h.0) in
                        absurd (cc (sym differ ∙ ap (λ i. i == k) z ∙ beq_refl k))
                  ])
                  v.listed)
            | inr lost ↦ rw lost (
                All-map (Listed cells calls) (Listed cells' calls')
                  (λ x h. elim (Bool-cases (t == x.1)) [
                    | inr elsewhere ↦ Listed-other t flight (finished k r) x.0 x.1 elsewhere h
                    | inl here ↦
                        let e : cells t ≡ new_flight =
                          ap cells ((nat_beq_iff t x.1).0 here) ∙ h.1 in
                        elim (v.held t k leads) [
                          | inl gone ↦ absurd (cc (sym gone.1 ∙ ap (λ c. c.event) e))
                          | inr there ↦
                              absurd (cc (sym lost ∙ ap (λ o. owned_by o t) there ∙ beq_refl t))
                        ]
                  ])
                  flights v.listed)
          ];
          held = λ u j q. elim (Bool-cases (t == u)) [
            | inl same ↦ cc (sym (ap lead_key (update_same calls t (finished k r) u same)) ∙ q)
            | inr other ↦
                elim (v.held u j
                  (sym (ap lead_key (update_other calls t (finished k r) u other)) ∙ q)) [
                    | inl gone ↦ inl (rw other gone)
                    | inr there ↦ inr (discard-other flights k j t u there other)
                  ]
          ];
          waits = λ u f j q. elim (Bool-cases (t == u)) [
            | inl same ↦ cc (sym (update_same calls t (finished k r) u same) ∙ q)
            | inr other ↦
                let h = v.waits u f j (sym (update_other calls t (finished k r) u other) ∙ q) in
                elim (Bool-cases (t == f)) [
                  | inr elsewhere ↦ Followed-other t flight (finished k r) j f elsewhere h
                  | inl here ↦
                      let e = ap (λ n. flight_key (calls n)) ((nat_beq_iff t f).0 here) in
                      (
                        ap flight_key (update_same calls t (finished k r) f here)
                            ∙ sym made
                            ∙ e
                            ∙ h.0,
                        inl (ap (λ c. c.event) (update_same cells t flight f here) ∙ set),
                      )
                ]
          ];
          settled = λ u q. elim (Bool-cases (t == u)) [
            | inl same ↦ ap is_settled (update_same cells t flight u same) ∙ kept
            | inr other ↦
                let z = update_other cells t flight u other in
                ap is_settled z ∙ v.settled u (sym (ap (λ c. c.event) z) ∙ q)
          ];
        }
