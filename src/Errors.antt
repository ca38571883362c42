-- ===== src/Errors.antt =====
-- The exceptions of src/datasluice/errors and src/datasluice/exceptions.py that the modelled code
-- raises or handles. Messages are left out; what callers read of an exception is a field.
use datasluice.Base.{ℕ, ℤ, String, Option, none, some, leb, equatable_nat, ◌==◌, if◌then◌else◌}

-- The `phase` entry of a `BudgetExhaustedError`, with what is recorded beside it.
pub data Phase : Type 0 where
  dispatch : Phase
  retry_wait : (delay attempt max_attempts : ℕ) → Phase

pub record Exhausted : Type 0 where
  pub operation : String
  pub platform : String
  pub elapsed : ℕ
  pub budget : ℕ
  pub phase : Phase

pub data CatalogClass : Type 0 where
  unauthenticated forbidden not_found conflict unavailable validation rate_limit unsupported :
      CatalogClass

-- The texts of `capability_state`.
pub data CapabilityState : Type 0 where
  unauthorized_state forbidden_state unavailable_state deployment_disabled unsupported_state
        invalid_evidence :
      CapabilityState

pub data Exception : Type 0 where
  value_error type_error contract_error : Exception
  budget_exhausted : Exhausted → Exception
  transport_error : ℕ → Exception
  -- "Runtime transport produced neither a response nor a failure."
  no_outcome : Exception
  -- "Retry loop exhausted without a terminal runtime outcome."
  retry_exhausted : Exception
  -- "Capability probe completed without an effective profile."
  no_profile : Exception
  -- `asyncio.CancelledError`
  cancelled_error : Exception
  -- the exceptions of errors/catalog.py that a native failure is mapped to
  catalog : CatalogClass → Option CapabilityState → Option ℕ → (retry_after : Option ℤ) → Exception
  -- any other exception that code outside the model raises, by a tag
  foreign : ℕ → Exception

-- The refusal of a mutation or a bulk plan before dispatch.
abbrev pub rejected_request : Exception
rejected_request = catalog validation none none none

-- `map_catalog_error`; only a rate limit keeps the `Retry-After`.
unfoldable pub map_status : ℕ → Option ℤ → Exception
map_status status retry_after =
    if status == 401
    then catalog unauthenticated (some unauthorized_state) (some status) none
    else if status == 403
    then catalog forbidden (some forbidden_state) (some status) none
    else if status == 404
    then catalog not_found none (some status) none
    else if status == 409
    then catalog conflict none (some status) none
    else if status == 410
    then catalog conflict (some unavailable_state) (some status) none
    else if status == 423
    then catalog unavailable (some deployment_disabled) (some status) none
    else if status == 422
    then catalog validation none (some status) none
    else if status == 429
    then catalog rate_limit none (some status) retry_after
    else if leb 500 status
    then catalog unavailable (some unavailable_state) (some status) none
    else catalog validation none (some status) none

unfoldable pub map_catalog_error : Option ℕ → Option ℤ → Exception
unfolding map_status
map_catalog_error none retry_after = catalog unavailable (some unavailable_state) none none
map_catalog_error (some status) retry_after = map_status status retry_after
