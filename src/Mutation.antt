-- ===== src/Mutation.antt =====
-- src/datasluice/runtime/mutation.py: `MutationEnforcer`. `redact` stands for the redaction of
-- audit metadata and `freeze` for the checks that a receipt makes of it; both are arbitrary here.
pub mod Laws
pub mod Tests
use datasluice.Base.{
  ℕ, String, Bool, true, false, not, ◌&&◌, ◌||◌, Option, none, some, [], leb, ltb, if◌then◌else◌,
}
use datasluice.Base.Exec.{Exec, Result, ok, raise, pure, throw, then_do, ◌>>=◌, ◌>>◌}
use datasluice.Errors.{Exception, rejected_request, map_catalog_error, value_error}
use datasluice.Json.{Members, bool, put_member}
use datasluice.Safety.{
  IdempotencyPolicy, ConcurrencyPolicy, MutationPolicy, mutation_allows, concurrency_allows,
  independent,
}
use datasluice.Catalog.{
  CatalogId, OperationId, Outcome, succeeded, failed, skipped, MutationReceipt,
}
use datasluice.Resilience.Budget.{TimeBudget, DeadlineMonitor, make_monitor, assert_dispatchable}
use datasluice.Resilience.Retry.{RuntimeResponse, Sent, RetryLoop, make_loop, Run, run, tick}

pub record MutationDispatchRequest : Type 0 where
  pub operation_id : OperationId
  pub target : CatalogId
  pub concurrency_token : Option String
  pub overwrite : Bool
  pub idempotency_key : Option String

-- The enforcer's last receipt, beside the run of its dispatches.
pub record Enforcer (W : Type 0) : Type 0 where
  pub dispatches : Run W
  pub last_receipt : Option MutationReceipt

-- What the enforcer is built with, and the code that it calls.
pub record Setup (W : Type 0) : Type 0 where
  pub send : MutationDispatchRequest → W → Sent × W
  pub clock : W → ℕ × W
  pub sleep : ℕ → W → W
  pub budget : TimeBudget
  pub max_attempts : ℕ
  pub redact : Members → Members
  pub freeze : Members → Result Exception Members
  pub show : OperationId → String

abbrev token_of : Option ConcurrencyPolicy → Option String
token_of none = none
token_of (some c) = c.token

abbrev overwrite_of : Option ConcurrencyPolicy → Bool
overwrite_of none = false
overwrite_of (some c) = c.overwrite

abbrev pub has_instruction : Option ConcurrencyPolicy → Bool
has_instruction none = false
has_instruction (some c) = concurrency_allows c

-- `_validate`, on a policy that is there.
unfoldable pub is_permitted : MutationPolicy → Bool
is_permitted p = mutation_allows p true && has_instruction p.concurrency

abbrev pub dispatch_request : OperationId → CatalogId → MutationPolicy → MutationDispatchRequest
dispatch_request operation_id target p = record {
  operation_id = operation_id;
  target = target;
  concurrency_token = token_of p.concurrency;
  overwrite = overwrite_of p.concurrency;
  idempotency_key = p.idempotency.key;
}

abbrev pub is_ok_status : ℕ → Bool
is_ok_status status = leb 200 status && ltb status 300

module _ {W : Type 0} (u : Setup W) where
  abbrev pub receipt_with :
      OperationId
      → CatalogId
      → MutationPolicy
      → Outcome
      → Result Exception Members
      → Result Exception MutationReceipt
  receipt_with operation_id target p outcome (raise x) = raise x
  receipt_with operation_id target p outcome (ok audit) = ok (record {
    operation = u.show operation_id;
    outcome = outcome;
    target = target;
    version_token = token_of p.concurrency;
    request_id = none;
    atomicity = independent;
    operation_atomicity = independent;
    audit_metadata = audit;
  })

  unfoldable pub build_mutation_receipt :
      OperationId
      → CatalogId
      → MutationPolicy
      → Outcome
      → Members
      → Result Exception MutationReceipt
  build_mutation_receipt operation_id target p outcome metadata =
      receipt_with operation_id target p outcome (u.freeze (u.redact metadata))

  abbrev pub keep_receipt :
      Result Exception MutationReceipt → Exec (Enforcer W) Exception MutationReceipt
  keep_receipt (raise x) s = (raise x, s)
  keep_receipt (ok receipt) s = (ok receipt, record s { last_receipt = some receipt })

  -- `_receipt`
  unfoldable pub make_receipt :
      OperationId
      → CatalogId
      → MutationPolicy
      → Outcome
      → Members
      → Exec (Enforcer W) Exception MutationReceipt
  unfolding build_mutation_receipt
  make_receipt operation_id target p outcome metadata =
      keep_receipt (build_mutation_receipt operation_id target p outcome metadata)

  -- An action of the dispatch run, as one of the enforcer.
  abbrev pub on_run : {A : Type 0} → Exec (Run W) Exception A → Exec (Enforcer W) Exception A
  on_run m s = ((m s.dispatches).0, record s { dispatches = (m s.dispatches).1 })

  abbrev pub checked_response : RuntimeResponse → Exec (Run W) Exception RuntimeResponse
  checked_response response =
      if is_ok_status response.status_code
      then pure response
      else throw (map_catalog_error (some response.status_code) response.retry_after)

  -- The body of the `try`: the retry loop, and the test of its response.
  unfoldable pub dispatch_mutation :
      MutationDispatchRequest
      → IdempotencyPolicy
      → DeadlineMonitor
      → Exec (Run W) Exception RuntimeResponse
  dispatch_mutation request idempotency deadline s =
      then_do
        (make_loop (record {
          budget = u.budget;
          idempotency = idempotency;
          deadline = deadline;
          max_attempts = u.max_attempts;
        }))
        (λ l. run u.clock (u.send request) u.sleep l >>= checked_response) s

  -- Behind the `try`: a failure is recorded, if a receipt for it can be built, and raised again.
  unfoldable pub conclude :
      OperationId
      → CatalogId
      → MutationPolicy
      → Members
      → Result Exception RuntimeResponse
      → Exec (Enforcer W) Exception MutationReceipt
  unfolding make_receipt
  conclude operation_id target p metadata (ok response) s =
      make_receipt operation_id target p succeeded metadata s
  conclude operation_id target p metadata (raise x) s =
      (raise x, (make_receipt operation_id target p failed metadata s).1)

  unfoldable pub dispatch_and_record :
      OperationId
      → CatalogId
      → MutationPolicy
      → Members
      → DeadlineMonitor
      → Exec (Enforcer W) Exception MutationReceipt
  unfolding dispatch_mutation conclude
  dispatch_and_record operation_id target p metadata deadline s =
      conclude operation_id target p metadata
        (dispatch_mutation (dispatch_request operation_id target p) p.idempotency deadline
          s.dispatches).0
        (record s {
          dispatches =
              (dispatch_mutation (dispatch_request operation_id target p) p.idempotency deadline
                s.dispatches).1;
        })

  unfoldable pub execute_permitted :
      OperationId
      → CatalogId
      → MutationPolicy
      → Members
      → Exec (Enforcer W) Exception MutationReceipt
  unfolding dispatch_and_record make_receipt make_monitor assert_dispatchable
  execute_permitted operation_id target p metadata =
      if p.dry_run.requested
      then make_receipt operation_id target p skipped (put_member "dry_run" (bool true) metadata)
      else do
        deadline ← on_run (make_monitor (tick u.clock) u.budget)
        named ← on_run (
            assert_dispatchable (tick u.clock) deadline (some (u.show operation_id))
              (some operation_id.platform))
        dispatch_and_record operation_id target p metadata named

  unfoldable pub execute :
      OperationId
      → CatalogId
      → Option MutationPolicy
      → Members
      → Exec (Enforcer W) Exception MutationReceipt
  unfolding execute_permitted is_permitted
  execute operation_id target none metadata = throw rejected_request
  execute operation_id target (some p) metadata =
      if is_permitted p
      then execute_permitted operation_id target p metadata
      else throw rejected_request
