-- ===== src/Capability/Scopes.antt =====
-- A profile that a call gets for a credential scope carries no evidence of another scope.
use datasluice.Base.{
  ℕ, String, Bool, true, false, Option, none, some, List, [], ◌∷◌, ◌==◌, ◌≡◌, ◌⊎◌, refl, sym, ap,
  ◌∙◌, inl, inr, arith, Bool-cases, Option-cases, equatable_string, leb, All, length, ◌+◌, ◌*◌,
}
use datasluice.Base.Dict.{Dict, get, put, remove, put-same}
use datasluice.Base.AllDict.{All-get, All-put, All-remove}
use datasluice.Base.Exec.{Result, ok, raise, and_then}
use datasluice.Errors.{Exception}
use datasluice.Safety.{is_some}
use datasluice.Catalog.{OperationId, equatable_operation, operation_beq_iff}
use datasluice.Capability.Profiles.{
  OperationSpec, ProbeEvidence, CapabilityState, OperationCapability, EffectiveProfile,
  Capabilities, DeclaredProfile, make_effective, derive, derived_capabilities, index_evidence,
}
use datasluice.Capability.Evidence.{
  Urls, CacheConfig, ProbeAnswer, evidence, awaitable, other_value, raised, resolve_from_answer,
  validate_evidence, profile_from_evidence, profile_with_state, probe_error,
}
use datasluice.Capability.Entries.{
  CacheKey, equatable_cache_key, CacheEntry, Entries, cache_key, store_entry, make_room, retained,
  without_first, max_cache_entries,
}
use datasluice.Capability.Flights.{new_world, finished}
use datasluice.Capability.Threads.{Action, run}
use datasluice.Capability.Consistency.Runs.{new_world-IsConsistent}
use datasluice.Capability.Consistency.Cancels.{All-drop}
use datasluice.Capability.Provenance.{Sources, new_world-Sound}
use datasluice.Capability.Provenance.Runs.{run-Sound}

abbrev pub is_ok {ℓ} : {E A : Type ℓ} → Result E A → Bool
is_ok (ok a) = true
is_ok (raise x) = false

-- The evidence that a profile has for an operation.
abbrev pub evidence_in : Option OperationCapability → Option ProbeEvidence
evidence_in none = none
evidence_in (some c) = c.evidence

abbrev pub holds_for : (ProbeEvidence → Bool) → Option ProbeEvidence → Bool
holds_for test none = true
holds_for test (some e) = test e

pub Result-cases :
    {E A : Type 0} (r : Result E A) → ((a : A) × (r ≡ ok a)) ⊎ ((x : E) × (r ≡ raise x))
Result-cases (ok a) = inl (a, refl)
Result-cases (raise x) = inr (x, refl)

module _ (web : Urls) (c : CacheConfig) where
  -- What evidence there is for the operation of the key passes the validation for its scope.
  abbrev pub is_scoped : CacheKey → EffectiveProfile → Bool
  is_scoped k p =
      holds_for (λ e. is_ok (validate_evidence web c k.operation e k.credential_scope))
        (evidence_in (get p.capabilities k.operation))

  abbrev pub ScopedTo : CacheKey → EffectiveProfile → Type 0
  ScopedTo k p = (p ≡ c.baseline) ⊎ (is_scoped k p ≡ true)

  pub made_of :
      (d : DeclaredProfile) (m : Capabilities) (p : EffectiveProfile)
      → make_effective d m ≡ ok p
      → p.capabilities ≡ m
  unfolding make_effective
  made_of d m p e = ground arith

  derived_evidence :
      (d : Dict OperationId OperationSpec) (seen : Dict OperationId ProbeEvidence) (i : OperationId)
      (cap : OperationCapability)
      → get (derived_capabilities d seen) i ≡ some cap
      → cap.evidence ≡ get seen i
  unfolding derived_capabilities get
  derived_evidence [] seen i cap e = cc
  derived_evidence ((j, spec) ∷ d) seen i cap e = elim (Bool-cases (j == i)) [
    | inl same ↦
        sym (ap evidence_in (rw same at e)) ∙ ap (get seen) ((operation_beq_iff j i).0 same)
    | inr other ↦ derived_evidence d seen i cap (ground arith)
  ]

  derive_evidence :
      (d : DeclaredProfile) (e : ProbeEvidence) (q : EffectiveProfile) (i : OperationId)
      (cap : OperationCapability)
      → derive d (e ∷ []) ≡ ok q
      → get q.capabilities i ≡ some cap
      → (cap.evidence ≡ none) ⊎ (cap.evidence ≡ some e)
  unfolding derive index_evidence get put
  derive_evidence d e q i cap made there =
      elim (Bool-cases (is_some (get d.operations e.operation_id))) [
        | inr undeclared ↦ cc (rw undeclared at made)
        | inl declared ↦
            let m : Capabilities = derived_capabilities d.operations ((e.operation_id, e) ∷ []) in
            let caps = made_of d m q (rw declared at made) in
            let z =
              derived_evidence d.operations ((e.operation_id, e) ∷ []) i cap
                (ap (λ m. get m i) (sym caps) ∙ there) in
            elim (Bool-cases (e.operation_id == i)) [
              | inl same ↦ inr (z ∙ rw same refl)
              | inr other ↦ inl (z ∙ rw other refl)
            ]
      ]

  holds_either :
      (test : ProbeEvidence → Bool) (o : Option ProbeEvidence) (e : ProbeEvidence)
      → test e ≡ true
      → (o ≡ none) ⊎ (o ≡ some e)
      → holds_for test o ≡ true
  holds_either test o e t (inl absent) = rw absent refl
  holds_either test o e t (inr there) = rw there t

  profile_evidence :
      (test : ProbeEvidence → Bool) (i : OperationId) (e : ProbeEvidence) (p : EffectiveProfile)
      → test e ≡ true
      → profile_from_evidence web c i e ≡ ok p
      → holds_for test (evidence_in (get p.capabilities i)) ≡ true
  unfolding profile_from_evidence
  profile_evidence test i e p t made = elim (Result-cases (derive c.declared_profile (e ∷ []))) [
    | inr (x, failed) ↦ cc (rw failed at made)
    | inl (q, derived) ↦ elim (Option-cases (get q.capabilities i)) [
      | inl absent ↦ cc (rw (derived, absent) at made)
      | inr (cap, there) ↦
          let caps =
            made_of c.declared_profile (put c.baseline.capabilities i cap) p
              (rw (derived, there) at made) in
          let z : get p.capabilities i ≡ some cap =
            ap (λ m. get m i) caps ∙ put-same c.baseline.capabilities i cap in
          rw z (
            holds_either test cap.evidence e t
              (derive_evidence c.declared_profile e q i cap derived there))
    ]
  ]

  -- Validated evidence makes a profile of its scope.
  validated-Scoped :
      (k : CacheKey) (e : ProbeEvidence) (r : Result Exception (Unit {0})) (p : EffectiveProfile)
      → is_ok r ≡ is_ok (validate_evidence web c k.operation e k.credential_scope)
      → and_then r (λ u. profile_from_evidence web c k.operation e) ≡ ok p
      → ScopedTo k p
  validated-Scoped k e (raise x) p same made = cc
  validated-Scoped k e (ok u) p same made = inr (
      profile_evidence (λ e. is_ok (validate_evidence web c k.operation e k.credential_scope))
        k.operation e p (sym same) made)

  probe_error-is_ok : (r : Result Exception (Unit {0})) → is_ok (probe_error web r) ≡ is_ok r
  probe_error-is_ok (ok u) = refl
  probe_error-is_ok (raise x) = refl

  answered-Scoped :
      (k : CacheKey) (a : ProbeAnswer) (p : EffectiveProfile)
      → resolve_from_answer web c k.operation k.credential_scope a ≡ ok p
      → ScopedTo k p
  unfolding resolve_from_answer
  answered-Scoped k (evidence e) p made = validated-Scoped k e _ p (probe_error-is_ok _) made
  answered-Scoped k awaitable p made = cc
  answered-Scoped k other_value p made = cc
  answered-Scoped k (raised x) p made = cc

  recorded-Scoped :
      (i : OperationId) (scope : String) (state : CapabilityState) (p : EffectiveProfile)
      → profile_with_state web c i state ≡ ok p
      → ScopedTo (cache_key c i scope) p
  unfolding profile_with_state cache_key
  recorded-Scoped i scope state p made = elim (Option-cases (get c.declared_profile.operations i)) [
    | inl absent ↦ inl (sym (cc (rw absent at made)))
    | inr (spec, there) ↦
        let cap : OperationCapability = record {
          operation = spec;
          state = state;
          evidence = none;
        } in
        let caps =
          made_of c.declared_profile (put c.baseline.capabilities i cap) p (rw there at made) in
        inr (rw (caps, put-same c.baseline.capabilities i cap) refl)
  ]

  abbrev IsScopedEntry : CacheKey × CacheEntry → Type 0
  IsScopedEntry (k, entry) = ScopedTo k entry.profile

  retained-Scoped :
      (ttl now : ℕ) (d : Entries) → All IsScopedEntry d → All IsScopedEntry (retained ttl now d)
  unfolding retained
  retained-Scoped ttl now [] h = tt
  retained-Scoped ttl now ((k, entry) ∷ d) h =
      elim (Bool-cases (leb now (entry.timestamp + 2 * ttl))) [
        | inl young ↦ rw young (h.0, retained-Scoped ttl now d h.1)
        | inr old ↦ rw old (retained-Scoped ttl now d h.1)
      ]

  without_first-Scoped : (d : Entries) → All IsScopedEntry d → All IsScopedEntry (without_first d)
  without_first-Scoped [] h = tt
  without_first-Scoped (x ∷ d) h = h.1

  room-Scoped :
      (ttl now : ℕ) (d : Entries) → All IsScopedEntry d → All IsScopedEntry (make_room ttl now d)
  unfolding make_room
  room-Scoped ttl now d h = elim (Bool-cases (leb max_cache_entries (length d))) [
    | inr free ↦ rw free h
    | inl full ↦ rw full (elim (Bool-cases (leb max_cache_entries (length (retained ttl now d)))) [
      | inl still ↦ rw still (without_first-Scoped _ (retained-Scoped ttl now d h))
      | inr pruned ↦ rw pruned (retained-Scoped ttl now d h)
    ])
  ]

  stored-Scoped :
      (d : Entries) (k : CacheKey) (p : EffectiveProfile) (now : ℕ)
      → All IsScopedEntry d
      → ScopedTo k p
      → All IsScopedEntry (store_entry c.ttl_seconds d k p now)
  unfolding store_entry
  stored-Scoped d k p now h g =
      All-put IsScopedEntry IsScopedEntry (make_room c.ttl_seconds now (remove d k)) k
        (record { profile = p; timestamp = now }) (λ x q. q) g
        (room-Scoped c.ttl_seconds now (remove d k)
          (All-remove IsScopedEntry IsScopedEntry d k (λ j v other q. q) h))

  sources : Sources web c ScopedTo (All IsScopedEntry)
  unfolding cache_key
  sources = record {
    empty = tt;
    found = λ d k e h q. All-get IsScopedEntry d k e h q;
    removed = λ d k h. All-remove IsScopedEntry IsScopedEntry d k (λ j v other q. q) h;
    dropped = λ d i h. All-drop IsScopedEntry IsScopedEntry i d (λ j v other q. q) h;
    stored = stored-Scoped;
    baseline = λ k. inl refl;
    answered = answered-Scoped;
    recorded = recorded-Scoped;
    evident = λ e scope p q. validated-Scoped (cache_key c e.operation_id scope) e _ p refl q;
  }

  -- In every world that a new cache reaches, a profile that a call got for a key is the baseline,
  -- or what evidence it has for the operation of the key passes the validation for the
  -- credential scope of the key.
  pub results_scoped :
      (actions : List Action) (t : ℕ) (k : CacheKey) (p : EffectiveProfile)
      → (run web c actions new_world).calls t ≡ finished k (ok p)
      → (p ≡ c.baseline) ⊎ (is_scoped k p ≡ true)
  results_scoped actions t k p e =
      let s =
        run-Sound web c ScopedTo (All IsScopedEntry) sources actions new_world
          new_world-IsConsistent (new_world-Sound web c ScopedTo (All IsScopedEntry) sources) in
      let good = s.phases t in rw e at good
