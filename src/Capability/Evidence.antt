-- ===== src/Capability/Evidence.antt =====
-- src/datasluice/runtime/capability.py: how a cache is set up, and what of a probe's answer counts
-- as evidence. `urlsplit`, `urlunsplit` and `str.lower` are Python's.
use datasluice.Base.{
  ℕ, String, Bool, true, false, not, ◌&&◌, ◌||◌, Option, none, some, [], ◌∷◌, ◌==◌, if◌then◌else◌,
  equatable_string,
}
use datasluice.Base.Dict.{Dict, get, put}
use datasluice.Base.Exec.{Result, ok, raise, and_then}
use datasluice.Errors.{
  Exception, value_error, type_error, foreign, catalog, validation, invalid_evidence,
}
use datasluice.Safety.{is_some}
use datasluice.Catalog.{OperationId, equatable_operation}
use datasluice.Capability.Profiles.{
  CredentialClassification, anonymous, RoleClassification, anonymous_role, ProbeResponseClass,
  success, CapabilityState, unsupported, response_state, core_class, OperationSpec, ProbeEvidence,
  DeclaredProfile, OperationCapability, EffectiveProfile, Capabilities, state_of_class,
  make_effective, derive,
}

pub record SplitUrl : Type 0 where
  pub scheme : String
  pub netloc : String
  pub username : Option String
  pub password : Option String
  pub query : String
  pub fragment : String

-- `urlunsplit((scheme, netloc, "", "", ""))` is `unsplit_origin scheme netloc`; `urlsplit` is
-- `none` where it raises a `ValueError`.
pub record Urls : Type 0 where
  pub urlsplit : String → Option SplitUrl
  pub unsplit_origin : String → String → String
  pub lower : String → String

pub data GivenProfile : Type 0 where
  declared : DeclaredProfile → GivenProfile
  effective : EffectiveProfile → GivenProfile

pub record CacheConfig : Type 0 where
  pub declared_profile : DeclaredProfile
  pub baseline : EffectiveProfile
  pub has_runner : Bool
  pub namespace : String
  pub deployment_origin : Option String
  pub ttl_seconds : ℕ

-- What a runner's `probe` gives back, or raises.
pub data ProbeAnswer : Type 0 where
  evidence : ProbeEvidence → ProbeAnswer
  awaitable : ProbeAnswer
  other_value : ProbeAnswer
  raised : Exception → ProbeAnswer

abbrev pub baseline_capabilities : Dict OperationId OperationSpec → Capabilities
baseline_capabilities [] = []
baseline_capabilities ((i, spec) ∷ d) =
    (i, record { operation = spec; state = state_of_class spec.capability_class; evidence = none })
    ∷ baseline_capabilities d

-- `_baseline_profile`
unfoldable pub baseline_profile : GivenProfile → Result Exception EffectiveProfile
baseline_profile (effective p) = ok p
baseline_profile (declared d) = make_effective d (baseline_capabilities d.operations)

abbrev pub declared_of : GivenProfile → DeclaredProfile
declared_of (effective p) = p.declared_profile
declared_of (declared d) = d

-- `_declared_state`
abbrev pub state_of_spec : Option OperationSpec → CapabilityState
state_of_spec none = unsupported
state_of_spec (some spec) = state_of_class spec.capability_class

unfoldable pub declared_state : DeclaredProfile → OperationId → CapabilityState
declared_state p i = state_of_spec (get p.operations i)

-- What the origin of a URL is, if it is a sanitized HTTPS URL.
abbrev pub is_sanitized : SplitUrl → Bool
is_sanitized u =
    u.scheme == "https"
    && not (u.netloc == "")
    && not (is_some u.username)
    && not (is_some u.password)
    && u.query == ""
    && u.fragment == ""

module _ (web : Urls) where
  abbrev pub origin_of : Option SplitUrl → Result Exception String
  origin_of none = raise value_error
  origin_of (some u) =
      if is_sanitized u
      then ok (web.unsplit_origin (web.lower u.scheme) (web.lower u.netloc))
      else raise value_error

  -- `_origin_from_evidence`, and `_normalize_deployment_origin`.
  unfoldable pub origin_from : String → Result Exception String
  origin_from url = origin_of (web.urlsplit url)

  abbrev pub normalized : Option String → Result Exception (Option String)
  normalized none = ok none
  normalized (some url) = and_then (origin_from url) (λ origin. ok (some origin))

  -- `EffectiveCapabilityCache.__init__`
  unfoldable pub make_config :
      GivenProfile → Bool → String → Option String → ℕ → Result Exception CacheConfig
  unfolding baseline_profile
  make_config given has_runner namespace deployment_origin ttl_seconds =
      and_then (baseline_profile given) (λ baseline.
        if namespace == ""
        then raise value_error
        else and_then (normalized deployment_origin) (λ origin. ok (record {
          declared_profile = declared_of given;
          baseline = baseline;
          has_runner = has_runner;
          namespace = namespace;
          deployment_origin = origin;
          ttl_seconds = ttl_seconds;
        })))

  abbrev pub is_anonymous_credential : CredentialClassification → Bool
  is_anonymous_credential anonymous = true
  is_anonymous_credential _ = false

  abbrev pub is_anonymous_role : RoleClassification → Bool
  is_anonymous_role anonymous_role = true
  is_anonymous_role _ = false

  abbrev pub scope_is : String → Option String → Bool
  scope_is scope none = false
  scope_is scope (some s) = s == scope

  -- `_validate_credential_evidence`: whether it returns.
  unfoldable pub valid_credential_evidence : ProbeEvidence → String → Bool
  valid_credential_evidence e scope =
      if scope == "anonymous"
      then (not (is_some e.credential_scope) || scope_is "anonymous" e.credential_scope)
        && is_anonymous_credential e.credential_classification
      else scope_is scope e.credential_scope
        && not (is_anonymous_credential e.credential_classification)
        && not (is_anonymous_role e.role_classification)

  abbrev pub origin_matches : Option String → String → Bool
  origin_matches none origin = true
  origin_matches (some expected) origin = origin == expected

  -- `_validate_evidence`
  unfoldable pub validate_evidence :
      CacheConfig → OperationId → ProbeEvidence → String → Result Exception (Unit {0})
  unfolding valid_credential_evidence origin_from
  validate_evidence c i e scope =
      if not (e.operation_id == i) || not (valid_credential_evidence e scope)
      then raise value_error
      else and_then (origin_from e.deployment_url)
          (λ origin. if origin_matches c.deployment_origin origin then ok tt else raise value_error)

  -- `for_operation`: a `KeyError` if it is absent.
  abbrev pub capability_of : Option OperationCapability → Result Exception OperationCapability
  capability_of none = raise (foreign 0)
  capability_of (some c) = ok c

  -- `_profile_from_evidence`
  unfoldable pub profile_from_evidence :
      CacheConfig → OperationId → ProbeEvidence → Result Exception EffectiveProfile
  unfolding derive make_effective
  profile_from_evidence c i e = and_then (derive c.declared_profile (e ∷ [])) (λ derived.
      and_then (capability_of (get derived.capabilities i)) (λ capability.
        make_effective c.declared_profile (put c.baseline.capabilities i capability)))

  abbrev pub profile_with_spec :
      CacheConfig
      → OperationId
      → CapabilityState
      → Option OperationSpec
      → Result Exception EffectiveProfile
  profile_with_spec c i state none = ok c.baseline
  profile_with_spec c i state (some spec) =
      make_effective c.declared_profile (
        put c.baseline.capabilities i (record { operation = spec; state = state; evidence = none }))

  -- `_profile_with_state`
  unfoldable pub profile_with_state :
      CacheConfig → OperationId → CapabilityState → Result Exception EffectiveProfile
  profile_with_state c i state = profile_with_spec c i state (get c.declared_profile.operations i)

  -- The `except` clauses of `_resolve_from_runner`.
  abbrev pub as_probe_error : Exception → Exception
  as_probe_error value_error = catalog validation (some invalid_evidence) none none
  as_probe_error type_error = catalog validation (some invalid_evidence) none none
  as_probe_error x = x

  abbrev pub probe_error : Result Exception (Unit {0}) → Result Exception (Unit {0})
  probe_error (ok u) = ok u
  probe_error (raise x) = raise (as_probe_error x)

  -- `_resolve_from_runner`, from the answer of a runner.
  unfoldable pub resolve_from_answer :
      CacheConfig → OperationId → String → ProbeAnswer → Result Exception EffectiveProfile
  unfolding validate_evidence profile_from_evidence
  resolve_from_answer c i scope (evidence e) =
      and_then (probe_error (validate_evidence c i e scope)) (λ u. profile_from_evidence c i e)
  resolve_from_answer c i scope awaitable = raise (as_probe_error type_error)
  resolve_from_answer c i scope other_value = raise (as_probe_error type_error)
  resolve_from_answer c i scope (raised x) = raise (as_probe_error x)

-- The table of `record_response`.
unfoldable pub recorded_state : DeclaredProfile → OperationId → ProbeResponseClass → CapabilityState
unfolding declared_state
recorded_state p i success = declared_state p i
recorded_state p i c = response_state c core_class
