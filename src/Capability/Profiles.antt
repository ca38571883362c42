-- ===== src/Capability/Profiles.antt =====
-- src/datasluice/domain/catalog/profiles.py: evidence of probes and the profiles derived from it,
-- and `OperationSpec` of operations.py. Texts and dates that no code here reads are left out.
use datasluice.Base.{
  String, Bool, true, false, not, ◌&&◌, Option, none, some, List, [], ◌∷◌, ◌==◌, if◌then◌else◌,
  equatable_string,
}
use datasluice.Base.Dict.{Dict, get, put}
use datasluice.Base.Exec.{Result, ok, raise, and_then}
use datasluice.Errors.{Exception, value_error}
use datasluice.Safety.{is_some}
use datasluice.Catalog.{OperationId, equatable_operation}

pub data CapabilityClass : Type 0 where
  core_class optional_class authenticated_class admin_class : CapabilityClass

pub data CredentialClassification : Type 0 where
  anonymous authenticated privileged : CredentialClassification

pub data RoleClassification : Type 0 where
  anonymous_role user_role admin_role unknown_role : RoleClassification

pub data ProbeResponseClass : Type 0 where
  success responds_unsupported responds_unauthorized responds_forbidden responds_unavailable
        responds_disabled :
      ProbeResponseClass

pub data CapabilityState : Type 0 where
  core optional authenticated_only admin unsupported unauthorized forbidden unavailable
        deployment_disabled :
      CapabilityState

pub record OperationSpec : Type 0 where
  pub id : OperationId
  pub capability_class : CapabilityClass

pub record ProbeEvidence : Type 0 where
  pub operation_id : OperationId
  pub deployment_url : String
  pub credential_classification : CredentialClassification
  pub role_classification : RoleClassification
  pub observed_response_class : ProbeResponseClass
  pub credential_scope : Option String

pub record DeclaredProfile : Type 0 where
  pub operations : Dict OperationId OperationSpec

pub record OperationCapability : Type 0 where
  pub operation : OperationSpec
  pub state : CapabilityState
  pub evidence : Option ProbeEvidence

pub record EffectiveProfile : Type 0 where
  pub declared_profile : DeclaredProfile
  pub capabilities : Dict OperationId OperationCapability

abbrev pub Capabilities : Type 0
Capabilities = Dict OperationId OperationCapability

-- The two checks of `DeclaredCapabilityProfile.__post_init__` on the operations.
abbrev pub specs_match : Dict OperationId OperationSpec → Bool
specs_match [] = true
specs_match ((i, spec) ∷ d) = i == spec.id && specs_match d

unfoldable pub make_declared : Dict OperationId OperationSpec → Result Exception DeclaredProfile
make_declared [] = raise value_error
make_declared (x ∷ d) =
    if specs_match (x ∷ d) then ok (record { operations = x ∷ d }) else raise value_error

-- Every key of the one is a key of the other.
abbrev pub keys_within : {A B : Type 0} → List (OperationId × A) → List (OperationId × B) → Bool
keys_within [] d = true
keys_within ((i, a) ∷ c) d = is_some (get d i) && keys_within c d

abbrev pub ids_match : Capabilities → Bool
ids_match [] = true
ids_match ((i, c) ∷ d) = c.operation.id == i && ids_match d

-- `EffectiveCapabilityProfile(declared_profile=…, capabilities=…)`
unfoldable pub make_effective : DeclaredProfile → Capabilities → Result Exception EffectiveProfile
make_effective declared capabilities =
    if keys_within capabilities declared.operations
      && keys_within declared.operations capabilities
      && ids_match capabilities
    then ok (record { declared_profile = declared; capabilities = capabilities })
    else raise value_error

-- `EffectiveCapabilityState(capability_class.value)`
abbrev pub state_of_class : CapabilityClass → CapabilityState
state_of_class core_class = core
state_of_class optional_class = optional
state_of_class authenticated_class = authenticated_only
state_of_class admin_class = admin

abbrev pub response_state : ProbeResponseClass → CapabilityClass → CapabilityState
response_state success c = state_of_class c
response_state responds_unsupported c = unsupported
response_state responds_unauthorized c = unauthorized
response_state responds_forbidden c = forbidden
response_state responds_unavailable c = unavailable
response_state responds_disabled c = deployment_disabled

-- `_effective_state`
unfoldable pub effective_state : OperationSpec → Option ProbeEvidence → CapabilityState
effective_state spec none = unavailable
effective_state spec (some e) = response_state e.observed_response_class spec.capability_class

-- The evidence by operation; undeclared and repeated operations are refused.
unfoldable pub index_evidence :
    DeclaredProfile
    → Dict OperationId ProbeEvidence
    → List ProbeEvidence
    → Result Exception (Dict OperationId ProbeEvidence)
index_evidence declared seen [] = ok seen
index_evidence declared seen (e ∷ es) =
    let rest = index_evidence declared (put seen e.operation_id e) es in
    if not (is_some (get declared.operations e.operation_id))
    then raise value_error
    else if is_some (get seen e.operation_id)
    then raise value_error
    else rest

unfoldable pub derived_capabilities :
    Dict OperationId OperationSpec → Dict OperationId ProbeEvidence → Capabilities
unfolding effective_state
derived_capabilities [] seen = []
derived_capabilities ((i, spec) ∷ d) seen =
    (
      i,
      record { operation = spec; state = effective_state spec (get seen i); evidence = get seen i },
    )
    ∷ derived_capabilities d seen

-- `EffectiveCapabilityProfile.derive`
unfoldable pub derive : DeclaredProfile → List ProbeEvidence → Result Exception EffectiveProfile
derive declared evidence =
    and_then (index_evidence declared [] evidence)
      (λ seen. make_effective declared (derived_capabilities declared.operations seen))

-- `EffectiveCapabilityProfile.guard`, without the remedy.
pub record GuardDecision : Type 0 where
  pub state : CapabilityState
  pub allowed : Bool

abbrev pub is_open : CapabilityState → Bool
is_open core = true
is_open optional = true
is_open authenticated_only = true
is_open admin = true
is_open _ = false

abbrev pub decision_of : Option OperationCapability → GuardDecision
decision_of none = record { state = unsupported; allowed = false }
decision_of (some c) = record { state = c.state; allowed = is_open c.state }

unfoldable pub guard : EffectiveProfile → OperationId → GuardDecision
guard p i = decision_of (get p.capabilities i)
