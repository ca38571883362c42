-- ===== src/Capability/Guard.antt =====
-- src/datasluice/runtime/capability.py: `_EffectiveCapabilityGuard`, and
-- `EffectivePermissions.require` of domain/catalog/auth.py.
use datasluice.Base.{
  String, Bool, true, false, not, ◌&&◌, Option, none, some, List, [], ◌∷◌, ◌==◌, if◌then◌else◌,
  equatable_string, contains,
}
use datasluice.Base.Dict.{Dict, get}
use datasluice.Base.Exec.{Result, ok, raise, and_then}
use datasluice.Errors
use datasluice.Errors.{
  Exception, value_error, catalog, CatalogClass, unauthenticated, forbidden, unsupported_state,
  unauthorized_state, forbidden_state, unavailable_state,
}
use datasluice.Catalog.{OperationId}
use datasluice.Capability.Profiles
use datasluice.Capability.Profiles.{CapabilityState, GuardDecision, EffectiveProfile, guard}

pub record Permissions : Type 0 where
  pub scopes : List String
  pub roles : List String
  pub authenticated : Bool
  pub operation_scopes : Dict String (List String)

-- `required.issubset(held)`
abbrev pub subset : List String → List String → Bool
subset [] held = true
subset (s ∷ required) held = contains held s && subset required held

abbrev pub or_empty : Option (List String) → List String
or_empty none = []
or_empty (some required) = required

abbrev pub is_empty : List String → Bool
is_empty [] = true
is_empty (x ∷ xs) = false

-- `require(operation)`, with no scopes or roles of the caller.
unfoldable pub require : Permissions → String → Result Exception (Unit {0})
require p operation =
    if operation == ""
    then raise value_error
    else if not p.authenticated && is_empty p.scopes && is_empty p.roles
    then raise (catalog unauthenticated (some unauthorized_state) none none)
    else if not (subset (or_empty (get p.operation_scopes operation)) p.scopes)
    then raise (catalog forbidden (some forbidden_state) none none)
    else ok tt

-- The error class of a state, and the text of the state.
abbrev pub error_class : CapabilityState → CatalogClass
error_class Profiles.unauthorized = unauthenticated
error_class Profiles.forbidden = forbidden
error_class _ = Errors.unsupported

abbrev pub state_text : CapabilityState → Option Errors.CapabilityState
state_text Profiles.unauthorized = some unauthorized_state
state_text Profiles.forbidden = some forbidden_state
state_text Profiles.unsupported = some unsupported_state
state_text Profiles.unavailable = some unavailable_state
state_text Profiles.deployment_disabled = some Errors.deployment_disabled
state_text _ = none

abbrev pub check_decision : GuardDecision → Result Exception (Unit {0})
check_decision d =
    if d.allowed
    then ok tt
    else raise (catalog (error_class d.state) (state_text d.state) none none)

abbrev pub check_profile : Option EffectiveProfile → OperationId → Result Exception (Unit {0})
check_profile none i = ok tt
check_profile (some p) i = check_decision (guard p i)

abbrev pub check_permissions : Option Permissions → String → Result Exception (Unit {0})
check_permissions none operation = ok tt
check_permissions (some p) operation = require p operation

-- `require_allowed`; `show` is `str` of an operation.
unfoldable pub require_allowed :
    (OperationId → String)
    → OperationId
    → Option EffectiveProfile
    → Option Permissions
    → Result Exception (Unit {0})
unfolding require
require_allowed show i profile permissions =
    and_then (check_profile profile i) (λ u. check_permissions permissions (show i))
