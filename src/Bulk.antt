-- ===== src/Bulk.antt =====
-- src/datasluice/domain/catalog/receipts.py (bulk records) and the plan checks of
-- src/datasluice/runtime/bulk.py. The children model the rest of bulk.py.
pub mod Item
pub mod Progress
pub mod Executor
pub mod Summary
pub mod Tests
use datasluice.Base.{
  ℕ, zero, suc, String, Bool, true, false, not, ◌&&◌, ◌||◌, Option, none, some, List, [], ◌∷◌, ◌++◌,
  map, leb, ltb, length, get_elem?, ◌==◌, equatable_nat, equatable_string, Equatable, min, contains,
  if◌then◌else◌,
}
use datasluice.Base.Dict
use datasluice.Base.Exec.{Result, ok, raise}
use datasluice.Errors.{Exception, contract_error, rejected_request, value_error, Exhausted}
use datasluice.Json.{Members, end, member, bool}
use datasluice.Safety.{Atomicity, independent, is_atomic, BulkExecutionPolicy}
use datasluice.Catalog.{CatalogId, equatable_id, MutationReceipt, failed}

pub record BulkPlan : Type 0 where
  pub operation : String
  pub items : List CatalogId
  pub preview : Bool
  pub atomicity : Atomicity
  pub cancellation_requested : Bool
  pub resumption_cursor : Option String

unfoldable pub make_plan : BulkPlan → Result Exception BulkPlan
make_plan p = if p.operation == "" then raise contract_error else ok p

pub record BulkItemReceipt : Type 0 where
  pub index : ℕ
  pub receipt : MutationReceipt

pub record BulkCheckpoint : Type 0 where
  pub plan : BulkPlan
  pub item_receipts : List BulkItemReceipt
  pub cancellation_requested : Bool
  pub resumption_cursor : Option String

-- `indices` is sorted, has no index twice, and has none out of range: each is above the one before.
unfoldable pub increasing_below : ℕ → ℕ → List ℕ → Bool
increasing_below bound low [] = true
increasing_below bound low (i ∷ indices) =
    let rest = increasing_below bound (suc i) indices in leb low i && ltb i bound && rest

unfoldable pub make_checkpoint : BulkCheckpoint → Result Exception BulkCheckpoint
unfolding increasing_below
make_checkpoint c =
    if increasing_below (length c.plan.items) 0 (map (λ r. r.index) c.item_receipts)
    then ok c
    else raise contract_error

unfoldable pub parallelism : BulkExecutionPolicy → ℕ → Result Exception ℕ
parallelism policy platform_max_parallelism =
    if not (leb 1 platform_max_parallelism && leb platform_max_parallelism 32)
    then raise value_error
    else ok (min policy.max_parallelism (min platform_max_parallelism 32))

-- `_platform_for`
unfoldable pub platform_for : BulkPlan → String
platform_for plan = elim plan.items [ [] ↦ "runtime" | item ∷ rest ↦ item.platform ]

-- The first loop of `_validate_plan`: whether an item repeats one before it.
unfoldable pub repeats : List CatalogId → List CatalogId → Bool
unfolding Dict.mem
repeats seen [] = false
repeats seen (item ∷ items) = let rest = repeats (item ∷ seen) items in Dict.mem seen item || rest

abbrev targets : List CatalogId → ℕ → CatalogId → Bool
targets items index target = elim (get_elem? items index) [
  | none ↦ false
  | some item ↦ target == item
]

unfoldable pub receipts_match : List CatalogId → List BulkItemReceipt → Bool
receipts_match items [] = true
receipts_match items (r ∷ receipts) =
    targets items r.index r.receipt.target && receipts_match items receipts

-- `same_plan` is the equality of plans, `checkpoint.plan == plan`.
unfoldable pub validate_plan :
    (same_plan : BulkPlan → BulkPlan → Bool)
    → BulkPlan
    → Option BulkCheckpoint
    → Result Exception (Unit {0})
unfolding repeats
validate_plan same_plan plan none = if repeats [] plan.items then raise rejected_request else ok tt
validate_plan same_plan plan (some checkpoint) =
    if repeats [] plan.items
    then raise rejected_request
    else if not (same_plan checkpoint.plan plan)
    then raise rejected_request
    else if receipts_match plan.items checkpoint.item_receipts
    then ok tt
    else raise rejected_request

-- `_failure_receipt`
unfoldable pub failure_receipt : BulkPlan → CatalogId → (budget_exhausted : Bool) → MutationReceipt
failure_receipt plan item budget_exhausted = record {
  operation = plan.operation;
  outcome = failed;
  target = item;
  version_token = none;
  request_id = none;
  atomicity = independent;
  operation_atomicity = independent;
  audit_metadata =
      member "bulk_failure" (bool true)
        (if budget_exhausted then member "budget_exhausted" (bool true) end else end);
}

pub record ItemResult : Type 0 where
  pub receipt : MutationReceipt
  pub budget_error : Option Exhausted
