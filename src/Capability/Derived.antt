-- ===== src/Capability/Derived.antt =====
-- A profile that is derived from evidence is one that its constructor accepts.
use datasluice.Base.{
  Bool, true, false, Option, none, some, List, [], ◌∷◌, ◌==◌, ◌≡◌, refl, sym, ap, ◌∙◌, arith,
  Bool-cases, inl, inr,
}
use datasluice.Base.Dict.{Dict, get, put, beq_refl}
use datasluice.Base.Exec.{ok}
use datasluice.Safety.{is_some}
use datasluice.Catalog.{OperationId, equatable_operation, operation_beq_iff}
use datasluice.Capability.Profiles.{
  OperationSpec, ProbeEvidence, OperationCapability, EffectiveProfile, DeclaredProfile,
  Capabilities, specs_match, make_declared, keys_within, ids_match, make_effective, effective_state,
  index_evidence, derived_capabilities, derive, ProbeResponseClass, CapabilityClass,
  CapabilityState, success, responds_unsupported, responds_unauthorized, responds_forbidden,
  responds_unavailable, responds_disabled, core_class, optional_class, authenticated_class,
  admin_class, core, optional, authenticated_only, admin, unsupported, unauthorized, forbidden,
  unavailable, deployment_disabled, response_state,
}

abbrev pub Specs : Type 0
Specs = Dict OperationId OperationSpec

abbrev pub Evidence : Type 0
Evidence = Dict OperationId ProbeEvidence

-- The capability that `derive` gives an operation.
abbrev pub derived_of : Evidence → OperationId → OperationSpec → OperationCapability
derived_of seen i spec = record {
  operation = spec;
  state = effective_state spec (get seen i);
  evidence = get seen i;
}

abbrev derived_option : Evidence → OperationId → Option OperationSpec → Option OperationCapability
derived_option seen i none = none
derived_option seen i (some spec) = some (derived_of seen i spec)

get-derived :
    (d : Specs) (seen : Evidence) (i : OperationId)
    → get (derived_capabilities d seen) i ≡ derived_option seen i (get d i)
unfolding derived_capabilities get
get-derived [] seen i = refl
get-derived ((j, spec) ∷ d) seen i = elim (Bool-cases (j == i)) [
  | inl same ↦
      let e : j ≡ i = (operation_beq_iff j i).0 same in
      rw same (ap (λ k. some (derived_of seen k spec)) e)
  | inr other ↦ rw other (get-derived d seen i)
]

is_some-derived :
    (seen : Evidence) (i : OperationId) (o : Option OperationSpec)
    → is_some (derived_option seen i o) ≡ is_some o
is_some-derived seen i none = refl
is_some-derived seen i (some spec) = refl

module _ {A B : Type 0} where
  keys_wider :
      (c : List (OperationId × A)) (j : OperationId) (b : B) (d : List (OperationId × B))
      → keys_within c d ≡ true
      → keys_within c ((j, b) ∷ d) ≡ true
  unfolding get
  keys_wider [] j b d h = refl
  keys_wider ((i, a) ∷ c) j b d h = ground (arith, keys_wider c j b d)

keys_within_self : {A : Type 0} (d : List (OperationId × A)) → keys_within d d ≡ true
unfolding get
keys_within_self [] = refl
keys_within_self ((i, a) ∷ d) = rw (beq_refl i) (keys_wider d i a d (keys_within_self d))

derived-keys :
    (d : Specs) (seen : Evidence) (big : Specs)
    → keys_within d big ≡ true
    → keys_within (derived_capabilities d seen) big ≡ true
unfolding derived_capabilities
derived-keys [] seen big h = refl
derived-keys ((i, spec) ∷ d) seen big h = ground (arith, derived-keys d seen big)

keys-derived :
    (c d : Specs) (seen : Evidence) → keys_within c (derived_capabilities d seen) ≡ keys_within c d
keys-derived [] d seen = refl
keys-derived ((i, spec) ∷ c) d seen =
    rw (get-derived d seen i, is_some-derived seen i (get d i), keys-derived c d seen) refl

derived-ids :
    (d : Specs) (seen : Evidence)
    → specs_match d ≡ true
    → ids_match (derived_capabilities d seen) ≡ true
unfolding derived_capabilities
derived-ids [] seen h = refl
derived-ids ((i, spec) ∷ d) seen h =
    ground (arith, operation_beq_iff i spec.id, operation_beq_iff spec.id i, derived-ids d seen)

declared_specs :
    (d : Specs) (declared : DeclaredProfile)
    → make_declared d ≡ ok declared
    → specs_match declared.operations ≡ true
unfolding make_declared
declared_specs [] declared e = cc
declared_specs (x ∷ d) declared e = elim (Bool-cases (specs_match (x ∷ d))) [
  | inl good ↦
      let built : DeclaredProfile = record { operations = x ∷ d } in
      let same : built ≡ declared = cc (rw good at e) in
      ap (λ p. specs_match p.operations) (sym same) ∙ good
  | inr bad ↦ cc (rw bad at e)
]

-- The state of an operation whose probe was answered: the one of its class where the probe
-- succeeded, and otherwise the one that the answer names.
pub data Observes : ProbeResponseClass → CapabilityClass → CapabilityState → Type 0 where
  works_core : Observes success core_class core
  works_optional : Observes success optional_class optional
  works_authenticated : Observes success authenticated_class authenticated_only
  works_admin : Observes success admin_class admin
  refuses_support : {c : CapabilityClass} → Observes responds_unsupported c unsupported
  refuses_anonymous : {c : CapabilityClass} → Observes responds_unauthorized c unauthorized
  refuses_caller : {c : CapabilityClass} → Observes responds_forbidden c forbidden
  is_down : {c : CapabilityClass} → Observes responds_unavailable c unavailable
  is_disabled : {c : CapabilityClass} → Observes responds_disabled c deployment_disabled

observed : (r : ProbeResponseClass) (c : CapabilityClass) → Observes r c (response_state r c)
observed success core_class = works_core
observed success optional_class = works_optional
observed success authenticated_class = works_authenticated
observed success admin_class = works_admin
observed responds_unsupported c = refuses_support
observed responds_unauthorized c = refuses_anonymous
observed responds_forbidden c = refuses_caller
observed responds_unavailable c = is_down
observed responds_disabled c = is_disabled

-- The capability of an operation that was probed, with the evidence, or was not.
abbrev pub Derives : (probed : Bool) → OperationSpec → ProbeEvidence → OperationCapability → Type 0
Derives true spec e c =
    (c.operation ≡ spec)
    × (c.evidence ≡ some e)
    × Observes e.observed_response_class spec.capability_class c.state
Derives false spec e c = (c.operation ≡ spec) × (c.evidence ≡ none) × (c.state ≡ unavailable)

derived-Derives :
    (e : ProbeEvidence) (i : OperationId) (spec : OperationSpec)
    → Derives (e.operation_id == i) spec e (derived_of ((e.operation_id, e) ∷ []) i spec)
unfolding effective_state get
derived-Derives e i spec = elim (Bool-cases (e.operation_id == i)) [
  | inl same ↦ rw same (refl, refl, observed e.observed_response_class spec.capability_class)
  | inr other ↦ rw other (refl, refl, refl)
]

-- From a declared profile that its constructor accepted and evidence for one of its operations,
-- derive raises nothing, and its profile has for each declared operation a capability: for the one
-- that was probed it keeps the evidence, and its state is the one of the operation's class if the
-- probe succeeded and else the one that the answer names; any other operation has no evidence and
-- is unavailable.
pub derive-accepted :
    (d : Specs) (declared : DeclaredProfile) (e : ProbeEvidence) (i : OperationId)
    (spec : OperationSpec)
    → make_declared d ≡ ok declared
    → is_some (get declared.operations e.operation_id) ≡ true
    → get declared.operations i ≡ some spec
    → (p : EffectiveProfile) × (c : OperationCapability) × (derive declared (e ∷ []) ≡ ok p)
      × (get p.capabilities i ≡ some c)
      × Derives (e.operation_id == i) spec e c
unfolding derive index_evidence put get make_effective
derive-accepted d declared e i spec accepted probed there =
    let seen : Evidence = (e.operation_id, e) ∷ [] in
    let caps : Capabilities = derived_capabilities declared.operations seen in
    let keys =
      derived-keys declared.operations seen declared.operations
        (keys_within_self declared.operations) in
    let covered =
      keys-derived declared.operations declared.operations seen
      ∙ keys_within_self declared.operations in
    let ids = derived-ids declared.operations seen (declared_specs d declared accepted) in
    (
      record { declared_profile = declared; capabilities = caps },
      derived_of seen i spec,
      rw (probed, keys, covered, ids) refl,
      get-derived declared.operations seen i ∙ ap (derived_option seen i) there,
      derived-Derives e i spec,
    )
