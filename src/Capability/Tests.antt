-- ===== src/Capability/Tests.antt =====
-- Calls of three threads on the capability cache of a portal with one operation.
use datasluice.Base.{ℕ, ◌≡◌, ◌≤◌, ◌⊎◌, refl, true, false, none, some, List, [], ◌∷◌, length}
use datasluice.Base.Dict.{get, put}
use datasluice.Base.Exec.{Result, ok}
use datasluice.Errors.{Exception}
use datasluice.Catalog.{OperationId, equatable_operation}
use datasluice.Capability.Profiles.{
  core_class, anonymous, anonymous_role, responds_forbidden, core, forbidden, OperationSpec,
  ProbeEvidence, DeclaredProfile, EffectiveProfile, make_declared, make_effective, derive,
  index_evidence, derived_capabilities, effective_state, OperationCapability,
}
use datasluice.Capability.Evidence.{
  Urls, CacheConfig, evidence, resolve_from_answer, validate_evidence, valid_credential_evidence,
  origin_from, profile_from_evidence, profile_with_state, recorded_state,
}
use datasluice.Capability.Entries.{
  CacheKey, equatable_cache_key, cache_key, fresh_entry, max_cache_entries,
}
use datasluice.Capability.Flights.{
  finished, new_world, sync_flight, complete_sync_leader, discard_sync_flight, invalidate_all,
  cancel_flights,
}
use datasluice.Capability.Threads.{
  Action, look_up, join, answer, settle, wake, invalidation, run, act, look_up_step, start_call,
  join_step, answer_step, settle_step, store_response, peek_profile,
}
use datasluice.Capability.Consistency.{is_settled}
use datasluice.Capability.Guard.{require_allowed}
use datasluice.Capability.Sharing.{single_flight, followers_served}
use datasluice.Capability.Doomed.{LeadsOrFailed}
use datasluice.Capability.Invalidation.{invalidated_probe}
use datasluice.Capability.Bounds.{entries_bounded}
use datasluice.Capability.Scopes.{results_scoped, is_scoped}
use datasluice.Capability.Derived.{Derives, derive-accepted}
use datasluice.Capability.Recorded.{verdict, recorded-guarded}

abbrev web : Urls
web = record {
  urlsplit = λ url. some (record {
    scheme = "https";
    netloc = "data.example";
    username = none;
    password = none;
    query = "";
    fragment = "";
  });
  unsplit_origin = λ scheme netloc. netloc;
  lower = λ text. text;
}

abbrev package_show : OperationId
package_show = record { platform = "ckan"; service = "action"; method = "package_show" }

abbrev spec : OperationSpec
spec = record { id = package_show; capability_class = core_class }

abbrev declared : DeclaredProfile
declared = record { operations = (package_show, spec) ∷ [] }

abbrev config : CacheConfig
config = record {
  declared_profile = declared;
  baseline = record {
    declared_profile = declared;
    capabilities = (package_show, record { operation = spec; state = core; evidence = none }) ∷ [];
  };
  has_runner = true;
  namespace = "default";
  deployment_origin = some "data.example";
  ttl_seconds = 60;
}

abbrev forbidden_evidence : ProbeEvidence
forbidden_evidence = record {
  operation_id = package_show;
  deployment_url = "https://data.example/api";
  credential_classification = anonymous;
  role_classification = anonymous_role;
  observed_response_class = responds_forbidden;
  credential_scope = none;
}

abbrev probed : EffectiveProfile
probed = record {
  declared_profile = declared;
  capabilities =
      (
        package_show,
        record { operation = spec; state = forbidden; evidence = some forbidden_evidence },
      )
      ∷ [];
}

abbrev key : CacheKey
key = record {
  namespace = "default";
  origin = "data.example";
  credential_scope = "anonymous";
  operation = package_show;
}

abbrev enter : ℕ → List Action → List Action
enter t actions = look_up t package_show "anonymous" 5 ∷ join t ∷ actions

abbrev second_call : ℕ
second_call = 2

single_flight_example : second_call ≡ second_call
unfolding run act look_up_step start_call cache_key fresh_entry join_step sync_flight invalidate_all
    cancel_flights get put
single_flight_example =
    single_flight web config (enter 1 (invalidation none ∷ enter 2 (enter 3 []))) second_call
      second_call key refl refl refl refl

followers_served_example :
    ((r : Result Exception EffectiveProfile) × ((run web config
            (answer 1 (evidence forbidden_evidence) 6 ∷ settle 1 ∷ wake 2 ∷ [])
            (run web config (enter 1 (enter 2 [])) new_world)).calls
          2
        ≡ finished key r))
    × (is_settled (
          (run web config
              (answer 1 (evidence forbidden_evidence) 6 ∷ settle 1 ∷ [])
              (run web config (enter 1 (enter 2 [])) new_world)).cells
            1)
        ≡ true)
unfolding run act look_up_step start_call cache_key fresh_entry join_step sync_flight get put
followers_served_example =
    followers_served web config (enter 1 (enter 2 [])) 2 1 key (evidence forbidden_evidence) 6 refl

invalidated_probe_example :
    LeadsOrFailed key (
      (run web config
          (enter 2 (answer 1 (evidence forbidden_evidence) 7 ∷ []))
          (act web config (invalidation none) (run web config (enter 1 []) new_world))).calls
        1)
    × ((act web config (settle 1) (
          run web config
            (enter 2 (answer 1 (evidence forbidden_evidence) 7 ∷ []))
            (act web config (invalidation none) (run web config (enter 1 []) new_world)))).entries
        ≡ (run web config
            (enter 2 (answer 1 (evidence forbidden_evidence) 7 ∷ []))
            (act web config (invalidation none) (run web config (enter 1 []) new_world))).entries)
unfolding run act look_up_step start_call cache_key fresh_entry join_step sync_flight get put
invalidated_probe_example =
    invalidated_probe web config (enter 1 [])
      (enter 2 (answer 1 (evidence forbidden_evidence) 7 ∷ [])) none 1 key refl refl

entries_bounded_example :
    length
      (run web config
        (enter 1 (answer 1 (evidence forbidden_evidence) 6 ∷ settle 1 ∷ []))
        new_world).entries
    ≤ max_cache_entries
entries_bounded_example =
    entries_bounded web config (enter 1 (answer 1 (evidence forbidden_evidence) 6 ∷ settle 1 ∷ []))

results_scoped_example : (probed ≡ config.baseline) ⊎ (is_scoped web config key probed ≡ true)
unfolding run act look_up_step start_call cache_key fresh_entry join_step sync_flight answer_step
    resolve_from_answer validate_evidence valid_credential_evidence origin_from
    profile_from_evidence make_effective derive index_evidence derived_capabilities effective_state
    settle_step complete_sync_leader discard_sync_flight get put
results_scoped_example =
    results_scoped web config (enter 1 (answer 1 (evidence forbidden_evidence) 6 ∷ settle 1 ∷ [])) 1
      key probed refl

-- The evidence is read, and refused for another scope.
is_read : is_scoped web config key probed ≡ true
unfolding get validate_evidence valid_credential_evidence origin_from
is_read = refl

is_refused : is_scoped web config (record key { credential_scope = "token-1" }) probed ≡ false
unfolding get validate_evidence valid_credential_evidence
is_refused = refl

abbrev recorded : EffectiveProfile
recorded = record {
  declared_profile = declared;
  capabilities =
      (package_show, record { operation = spec; state = forbidden; evidence = none }) ∷ [];
}

recorded-guarded_example :
    ((peek_profile web config package_show "anonymous" 30
        (store_response web config package_show responds_forbidden "anonymous" 5 new_world).1).0
      ≡ ok recorded)
    × (require_allowed (λ o. o.method) package_show (some recorded) none
        ≡ verdict web config responds_forbidden)
unfolding get put store_response recorded_state profile_with_state make_effective
recorded-guarded_example =
    recorded-guarded web config (λ o. o.method) package_show responds_forbidden "anonymous" 5 30
      new_world spec recorded refl refl refl

derive-accepted_example :
    (p : EffectiveProfile) × (c : OperationCapability) × (derive declared (forbidden_evidence ∷ [])
      ≡ ok p)
    × (get p.capabilities package_show ≡ some c)
    × Derives true spec forbidden_evidence c
unfolding make_declared get
derive-accepted_example =
    derive-accepted declared.operations declared forbidden_evidence package_show spec refl refl refl
