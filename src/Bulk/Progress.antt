-- ===== src/Bulk/Progress.antt =====
-- The state of the run of a bulk plan: `_BulkProgress`, the variables of `stream`, what an executor
-- is built with, and the lists and dictionaries of indices that they are made of.
use datasluice.Base.{
  ℕ, zero, suc, String, Bool, true, false, Option, none, some, List, [], ◌∷◌, leb, equatable_nat,
  if◌then◌else◌,
}
use datasluice.Base.Dict
use datasluice.Base.Dict.{Dict}
use datasluice.Base.Exec.{Result}
use datasluice.Errors.{Exception, Exhausted, type_error}
use datasluice.Safety.{BulkExecutionPolicy, is_some}
use datasluice.Resilience.Budget.{DeadlineMonitor}
use datasluice.Bulk.{BulkPlan, BulkItemReceipt, BulkCheckpoint, ItemResult}

pub data StopReason : Type 0 where
  cancelled budget_exhausted : StopReason

abbrev pub is_cancelled : Option StopReason → Bool
is_cancelled (some cancelled) = true
is_cancelled _ = false

abbrev pub same_reason : Option StopReason → Option StopReason → Bool
same_reason none none = true
same_reason (some cancelled) (some cancelled) = true
same_reason (some budget_exhausted) (some budget_exhausted) = true
same_reason _ _ = false

pub record BulkProgress : Type 0 where
  pub completed : Dict ℕ BulkItemReceipt
  pub pending : List ℕ
  pub stop_reason : Option StopReason
  pub budget_error : Option Exhausted
  pub item_budget_error : Option Exhausted
  pub dispatches : ℕ
  pub next_emit : ℕ
  -- `none` for the -1 of the source
  pub last_persisted_count : Option ℕ
  pub last_persisted_stop_reason : Option StopReason

-- What a future gives: the item's result, or an exception.
pub data TaskResult : Type 0 where
  finished : ItemResult → TaskResult
  broke : TaskResult

-- What a call of the checkpoint sink does.
pub data Sunk : Type 0 where
  returned awaitable : Sunk
  raised : Exception → Sunk

-- The exception that `_persist` ends with: a synchronous run takes no awaitable of its sink.
abbrev pub sink_error : Sunk → Option Exception
sink_error returned = none
sink_error awaitable = some type_error
sink_error (raised e) = some e

-- What an executor is built with, and the monitor of the whole run.
pub record Executor (W : Type 0) : Type 0 where
  pub policy : BulkExecutionPolicy
  pub checkpoint : Option BulkCheckpoint
  pub parallelism : ℕ
  pub monitor : Option DeadlineMonitor
  pub clock : W → ℕ × W
  pub cancel_requested : W → Bool × W
  -- the equality of plans
  pub same_plan : BulkPlan → BulkPlan → Bool
  pub sink : BulkCheckpoint → W → Sunk × W
  pub wait : List ℕ → W → List (ℕ × TaskResult) × W

-- The variables of `stream`. Beside them: the receipts that were yielded, the indices that were
-- dispatched, the checkpoints that were built, each with what its constructor said, and the
-- exception that ended the run, if one did: behind it no method goes on.
pub record Stream (W : Type 0) : Type 0 where
  pub progress : BulkProgress
  pub in_flight : List ℕ
  pub yielded : List BulkItemReceipt
  pub dispatched : List ℕ
  pub saved : List (Result Exception BulkCheckpoint)
  pub failure : Option Exception
  pub world : W

abbrev pub is_empty {ℓ} : {A : Type ℓ} → List A → Bool
is_empty [] = true
is_empty (x ∷ xs) = false

-- `range(len(items))`, from `i`.
unfoldable pub range_from : ℕ → ℕ → List ℕ
range_from i zero = []
range_from i (suc n) = i ∷ range_from (suc i) n

-- `[index for index in … if index not in completed]`
unfoldable pub not_completed : Dict ℕ BulkItemReceipt → List ℕ → List ℕ
not_completed completed [] = []
not_completed completed (i ∷ indices) =
    let rest = not_completed completed indices in
    if is_some (Dict.get completed i) then rest else i ∷ rest

-- `{item.index: item for item in checkpoint.item_receipts}`
unfoldable pub by_index : List BulkItemReceipt → Dict ℕ BulkItemReceipt → Dict ℕ BulkItemReceipt
by_index [] d = d
by_index (r ∷ receipts) d = by_index receipts (Dict.put d r.index r)

-- `sorted(…)`
unfoldable pub insert_sorted : ℕ → List ℕ → List ℕ
insert_sorted i [] = i ∷ []
insert_sorted i (j ∷ js) = let rest = insert_sorted i js in if leb i j then i ∷ j ∷ js else j ∷ rest

unfoldable pub sorted_keys : Dict ℕ BulkItemReceipt → List ℕ
unfolding insert_sorted
sorted_keys [] = []
sorted_keys ((i, r) ∷ d) = insert_sorted i (sorted_keys d)

-- `tuple(completed[index] for index in …)`
unfoldable pub pick : Dict ℕ BulkItemReceipt → List ℕ → List BulkItemReceipt
pick completed [] = []
pick completed (i ∷ indices) =
    let rest = pick completed indices in
    elim (Dict.get completed i) [ none ↦ rest | some r ↦ r ∷ rest ]

abbrev pub cursor_of : Option BulkCheckpoint → Option String → Option String
cursor_of none own = own
cursor_of (some c) own = c.resumption_cursor

abbrev pub first_error : Option Exhausted → Option Exhausted → Option Exhausted
first_error (some e) new = some e
first_error none new = new
