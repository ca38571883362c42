-- ===== src/Capability/Recorded.antt =====
-- From a recorded response to the guard that reads it.
use datasluice.Base.{
  ℕ, ◌+◌, String, false, none, some, ◌==◌, ◌≡◌, refl, ap, ◌∙◌, leb, if◌then◌else◌, equatable_string,
  inl, inr, Bool-cases,
}
use datasluice.Base.Dict.{get, put, remove, put-same}
use datasluice.Base.Exec.{Result, ok, raise}
use datasluice.Errors
use datasluice.Errors.{
  Exception, catalog, unauthenticated, unauthorized_state, forbidden_state, unsupported_state,
  unavailable_state,
}
use datasluice.Catalog.{OperationId, equatable_operation}
use datasluice.Capability.Profiles.{
  OperationSpec, ProbeResponseClass, CapabilityState, OperationCapability, EffectiveProfile, guard,
  is_open, success, responds_unsupported, responds_unauthorized, responds_forbidden,
  responds_unavailable, responds_disabled, CapabilityClass, core_class, optional_class,
  authenticated_class, admin_class, state_of_class,
}
use datasluice.Capability.Evidence.{
  Urls, CacheConfig, recorded_state, declared_state, profile_with_state,
}
use datasluice.Capability.Entries.{
  CacheKey, equatable_cache_key, cache_key, store_entry, fresh_entry, make_room,
}
use datasluice.Capability.Flights.{World}
use datasluice.Capability.Threads.{store_response, peek_profile, store_result}
use datasluice.Capability.Scopes.{made_of}
use datasluice.Capability.Guard.{require_allowed, error_class, state_text}

module _ (web : Urls) (c : CacheConfig) where
  stored_entry :
      (w : World) (k : CacheKey) (p : EffectiveProfile) (now : ℕ)
      → get (store_entry c.ttl_seconds w.entries k p now) k
        ≡ some (record { profile = p; timestamp = now })
  unfolding store_entry
  stored_entry w k p now =
      put-same (make_room c.ttl_seconds now (remove w.entries k)) k
        (record { profile = p; timestamp = now })

  recorded_profile :
      (i : OperationId) (state : CapabilityState) (spec : OperationSpec) (p : EffectiveProfile)
      → get c.declared_profile.operations i ≡ some spec
      → profile_with_state web c i state ≡ ok p
      → get p.capabilities i ≡ some (record { operation = spec; state = state; evidence = none })
  unfolding profile_with_state
  recorded_profile i state spec p there made =
      let cap : OperationCapability = record { operation = spec; state = state; evidence = none } in
      ap (λ m. get m i)
        (made_of web c c.declared_profile (put c.baseline.capabilities i cap) p (rw there at made))
      ∙ put-same c.baseline.capabilities i cap

  guarded :
      (show : OperationId → String) (i : OperationId) (p : EffectiveProfile)
      (cap : OperationCapability)
      → get p.capabilities i ≡ some cap
      → require_allowed show i (some p) none ≡ (
          if is_open cap.state
          then ok tt
          else raise (catalog (error_class cap.state) (state_text cap.state) none none))
  unfolding require_allowed guard
  guarded show i p cap there = rw there (elim (Bool-cases (is_open cap.state)) [
    | inl allowed ↦ rw allowed refl
    | inr refused ↦ rw refused refl
  ])

  kept_result :
      (k : CacheKey) (now : ℕ) (r : Result Exception EffectiveProfile) (p : EffectiveProfile)
      (w : World)
      → (store_result web c k now r w).0 ≡ ok p
      → (r ≡ ok p)
        × ((store_result web c k now r w).1.entries ≡ store_entry c.ttl_seconds w.entries k p now)
  kept_result k now (raise x) p w e = cc
  kept_result k now (ok q) p w e =
      let same : q ≡ p = cc e in (e, ap (λ z. store_entry c.ttl_seconds w.entries k z now) same)

  found_again :
      (k : CacheKey) (p : EffectiveProfile) (now later : ℕ) (w : World)
      → leb (now + c.ttl_seconds) later ≡ false
      → (fresh_entry c.ttl_seconds (store_entry c.ttl_seconds w.entries k p now) k later).0
        ≡ some (record { profile = p; timestamp = now })
  unfolding fresh_entry
  found_again k p now later w young = rw (stored_entry w k p now, young) refl

  -- What a call of an operation comes to, by the response that was recorded for it.
  abbrev pub verdict : ProbeResponseClass → Result Exception (Unit {0})
  verdict success = ok tt
  verdict responds_unsupported =
      raise (catalog Errors.unsupported (some unsupported_state) none none)
  verdict responds_unauthorized =
      raise (catalog unauthenticated (some unauthorized_state) none none)
  verdict responds_forbidden = raise (catalog Errors.forbidden (some forbidden_state) none none)
  verdict responds_unavailable =
      raise (catalog Errors.unsupported (some unavailable_state) none none)
  verdict responds_disabled =
      raise (catalog Errors.unsupported (some Errors.deployment_disabled) none none)

  checked : CapabilityState → Result Exception (Unit {0})
  checked state =
      if is_open state
      then ok tt
      else raise (catalog (error_class state) (state_text state) none none)

  class_open : (k : CapabilityClass) → checked (state_of_class k) ≡ ok tt
  unfolding checked
  class_open core_class = refl
  class_open optional_class = refl
  class_open authenticated_class = refl
  class_open admin_class = refl

  checked-verdict :
      (i : OperationId) (response : ProbeResponseClass) (spec : OperationSpec)
      → get c.declared_profile.operations i ≡ some spec
      → checked (recorded_state c.declared_profile i response) ≡ verdict response
  unfolding recorded_state declared_state checked
  checked-verdict i success spec there = rw there (class_open spec.capability_class)
  checked-verdict i responds_unsupported spec there = refl
  checked-verdict i responds_unauthorized spec there = refl
  checked-verdict i responds_forbidden spec there = refl
  checked-verdict i responds_unavailable spec there = refl
  checked-verdict i responds_disabled spec there = refl

  -- For a declared operation, the profile that record_response gives for a response is what the
  -- very next call, a peek for the same operation and scope within the time to live, gives back;
  -- and the guard on that profile lets the operation through if the response was a success, and for
  -- any other raises the error of that response: unauthenticated, forbidden, or unsupported with
  -- the state that the response names.
  pub recorded-guarded :
      (show : OperationId → String) (i : OperationId) (response : ProbeResponseClass)
      (scope : String) (now later : ℕ) (w : World) (spec : OperationSpec) (p : EffectiveProfile)
      → get c.declared_profile.operations i ≡ some spec
      → (store_response web c i response scope now w).0 ≡ ok p
      → leb (now + c.ttl_seconds) later ≡ false
      → ((peek_profile web c i scope later (store_response web c i response scope now w).1).0
          ≡ ok p)
        × (require_allowed show i (some p) none ≡ verdict response)
  unfolding store_response peek_profile checked
  recorded-guarded show i response scope now later w spec p there done young =
      elim (Bool-cases (scope == "")) [
        | inl blank ↦ cc (rw blank at done)
        | inr given ↦
            let k = cache_key c i scope in
            let state = recorded_state c.declared_profile i response in
            let (made, entries) =
              kept_result k now (profile_with_state web c i state) p w (rw given at done) in
            (
              rw (given, entries, found_again k p now later w young) refl,
              guarded show i p (record { operation = spec; state = state; evidence = none })
                    (recorded_profile i state spec p there made)
                  ∙ checked-verdict i response spec there,
            )
      ]
