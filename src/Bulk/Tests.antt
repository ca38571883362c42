-- ===== src/Bulk/Tests.antt =====
-- A run over two items with one worker, whose futures are done as soon as they are waited for.
use datasluice.Base.{
  ℕ, suc, ◌+◌, ◌≤◌, ◌<◌, ◌≡◌, ◌⊎◌, refl, arith, true, false, none, some, List, [], ◌∷◌, map, length,
  equatable_nat, String, ◌==◌, equatable_string,
}
use mathlib.Core.Path.{subst}
use datasluice.Base.Dict
use datasluice.Base.Exec.{ok}
use datasluice.Safety.{is_some, independent, BulkExecutionPolicy}
use datasluice.Catalog.{CatalogId, MutationReceipt, succeeded}
use datasluice.Errors.{type_error}
use datasluice.Bulk.{
  BulkPlan, BulkCheckpoint, make_checkpoint, validate_plan, repeats, receipts_match,
  failure_receipt,
}
use datasluice.Resilience.Budget.{TimeBudget, assert_dispatchable}
use datasluice.Bulk.Item.{
  Executed, receipt_of, SettlesAs, too_late, preflown, execute_sync_item,
  execute_sync_item-SettlesAs,
}
use datasluice.Bulk.Progress.{
  Executor, Stream, TaskResult, broke, returned, awaitable, range_from, is_empty,
}
use datasluice.Bulk.Executor.{probe_stop_state, stream, start, run_rounds, dispatch_available}
use datasluice.Bulk.Executor.Counts.{count, has}
use datasluice.Bulk.Executor.Conserve.{WaitsFor, AreInFlight}
use datasluice.Bulk.Executor.Causes.{SavingFailed}
use datasluice.Bulk.Executor.Ends.{load, Ended, Taken, rounds-Ended, dispatch_fills}
use datasluice.Bulk.Executor.Runs.{Resumes, planned, open_item, stream-once, stream-ordered}
use datasluice.Bulk.Executor.Complete.{stream_complete}
use datasluice.Bulk.Summary.{Summarises, terminal_summary, terminal_summary-Summarises}

abbrev item_of : (value : String) → CatalogId
item_of value = record { platform = "ckan"; resource_kind = "dataset"; value = value }

abbrev plan : BulkPlan
plan = record {
  operation = "dataset.delete";
  items = item_of "d1" ∷ item_of "d2" ∷ [];
  preview = false;
  atomicity = independent;
  cancellation_requested = false;
  resumption_cursor = none;
}

abbrev resumed : BulkCheckpoint
resumed = record {
  plan = plan;
  item_receipts = [];
  cancellation_requested = false;
  resumption_cursor = none;
}

abbrev policy : BulkExecutionPolicy
policy = record {
  atomicity = independent;
  native_atomic_available = false;
  max_parallelism = 1;
  cancellation_requested = false;
  checkpoint_required = true;
}

-- The first future is done, and its item failed.
abbrev first_done : List ℕ → List (ℕ × TaskResult)
first_done [] = []
first_done (i ∷ futures) = (i, broke) ∷ []

-- The world counts the checkpoints.
abbrev executor : Executor ℕ
executor = record {
  policy = policy;
  checkpoint = some resumed;
  parallelism = 1;
  monitor = none;
  clock = λ n. (0, n);
  cancel_requested = λ n. (false, n);
  same_plan = λ a b. a.operation == b.operation;
  sink = λ c n. (returned, suc n);
  wait = λ futures n. (first_done futures, n);
}

first_done-AreInFlight :
    (futures : List ℕ)
    → is_empty futures ≡ false
    → AreInFlight executor plan (first_done futures) futures
      × (is_empty (first_done futures) ≡ false)
first_done-AreInFlight [] e = cc
first_done-AreInFlight (i ∷ futures) e = ((ground (arith, Dict.beq_refl i), tt), refl)

executor-WaitsFor : WaitsFor executor plan
executor-WaitsFor = record { waits = λ futures n e. first_done-AreInFlight futures e }

resumed-built : make_checkpoint resumed ≡ ok resumed
unfolding make_checkpoint
resumed-built = refl

some_eq : (c : BulkCheckpoint) → some resumed ≡ some c → resumed ≡ c
some_eq c e = cc

executor-Resumes : Resumes executor plan
executor-Resumes = record {
  valid = λ c e.
      subst (λ (b : BulkCheckpoint). (b.plan ≡ plan) × (make_checkpoint b ≡ ok b)) (some_eq c e)
        (refl, resumed-built);
}

plan_accepted : validate_plan executor.same_plan plan (some resumed) ≡ ok tt
unfolding validate_plan repeats Dict.mem receipts_match
plan_accepted = refl

stream_complete_example :
    SavingFailed executor plan (stream executor plan 0)
    ⊎ (is_some (stream executor plan 0).progress.stop_reason ≡ true)
    ⊎ (map (λ r. r.index) (stream executor plan 0).yielded ≡ range_from 0 2)
stream_complete_example =
    stream_complete executor plan 0 executor-WaitsFor executor-Resumes plan_accepted (omega arith)

stream-once_example :
    (count 1 (stream executor plan 0).dispatched ≤ open_item executor plan 1)
    × (count 1 (stream executor plan 0).progress.pending
          + count 1 (stream executor plan 0).in_flight
          + has 1 (stream executor plan 0).progress.completed
        ≡ planned executor plan 1)
    × (SavingFailed executor plan (stream executor plan 0)
        ⊎ ((stream executor plan 0).in_flight ≡ []))
stream-once_example =
    stream-once executor plan 1 0 executor-WaitsFor executor-Resumes plan_accepted (omega arith)

-- The run yields both receipts, and saves two checkpoints.
runs_through : map (λ r. r.index) (stream executor plan 0).yielded ≡ 0 ∷ 1 ∷ []
unfolding validate_plan repeats Dict.mem receipts_match stream Dict.get Dict.put make_checkpoint
    probe_stop_state
runs_through = refl

saves_twice : (stream executor plan 0).world ≡ 2
unfolding validate_plan repeats Dict.mem receipts_match stream Dict.get Dict.put make_checkpoint
    probe_stop_state
saves_twice = refl

-- A sink of an asynchronous run ends the run behind the first item.
abbrev awaiting : Executor ℕ
awaiting = record executor { sink = λ c n. (awaitable, suc n) }

awaitable_refused :
    ((stream awaiting plan 0).failure ≡ some type_error)
    × (map (λ r. r.index) (stream awaiting plan 0).yielded ≡ [])
    × ((stream awaiting plan 0).progress.pending ≡ 1 ∷ [])
unfolding validate_plan repeats Dict.mem receipts_match stream Dict.get Dict.put make_checkpoint
    probe_stop_state
awaitable_refused = (refl, refl, refl)

stream-ordered_example :
    map (λ r. r.index) (stream executor plan 0).yielded
    ≡ range_from 0 (stream executor plan 0).progress.next_emit
stream-ordered_example = stream-ordered executor plan 0 executor-Resumes

load-start : load (start executor plan 0) < 3
unfolding start Dict.get
load-start = omega arith

start_quiet : is_some (start executor plan 0).failure ≡ false
unfolding start
start_quiet = refl

rounds-Ended_example :
    SavingFailed executor plan (run_rounds executor plan 3 (start executor plan 0))
    ⊎ Ended executor plan (run_rounds executor plan 3 (start executor plan 0))
rounds-Ended_example =
    rounds-Ended executor plan (omega arith) executor-WaitsFor 3 (start executor plan 0) load-start
      start_quiet

start_idle : length (start executor plan 0).in_flight ≤ 1
unfolding start
start_idle = omega arith

dispatch_fills_example :
    (length
        (dispatch_available executor plan
          (length (start executor plan 0).progress.pending)
          (start executor plan 0)).in_flight
      ≤ 1)
    × Taken executor plan (start executor plan 0) (
        dispatch_available executor plan
          (length (start executor plan 0).progress.pending)
          (start executor plan 0))
    × (((dispatch_available executor plan
            (length (start executor plan 0).progress.pending)
            (start executor plan 0)).progress.pending
          ≡ [])
        ⊎ (1
            ≤ length
                (dispatch_available executor plan
                  (length (start executor plan 0).progress.pending)
                  (start executor plan 0)).in_flight)
        ⊎ (is_some
              (dispatch_available executor plan
                (length (start executor plan 0).progress.pending)
                (start executor plan 0)).progress.stop_reason
            ≡ true))
dispatch_fills_example = dispatch_fills executor plan (start executor plan 0) start_idle

-- Two items are settled: the first with a receipt of the platform, the second has failed.
abbrev done : MutationReceipt
done = record (failure_receipt plan (item_of "d1") false) { outcome = succeeded }

abbrev settled_run : Stream ℕ
settled_run = record (start executor plan 0) {
  progress = record (start executor plan 0).progress {
    completed =
        (0, record { index = 0; receipt = done })
        ∷ (1, record { index = 1; receipt = failure_receipt plan (item_of "d2") false })
        ∷ [];
    pending = [];
  };
}

terminal_summary-Summarises_example :
    Summarises executor plan settled_run (terminal_summary executor plan 7 settled_run)
terminal_summary-Summarises_example =
    terminal_summary-Summarises executor plan 7 settled_run (omega arith)

-- A caller that answers late: the clock moves by 2 at each reading, and by 9 in the call.
abbrev answer_late : CatalogId → ℕ → Executed × ℕ
answer_late item n = (receipt_of done, n + 9)

abbrev slow_clock : ℕ → ℕ × ℕ
slow_clock n = (n, n + 2)

abbrev short : TimeBudget
short = record { connect = 5; read = 5; write = 5; total = 5 }

execute_sync_item-SettlesAs_example :
    SettlesAs slow_clock plan answer_late
      (too_late slow_clock plan (some short) 0)
      (item_of "d1")
      (preflown slow_clock plan (some short) 0)
      (execute_sync_item slow_clock plan answer_late (some short) (item_of "d1") 0)
execute_sync_item-SettlesAs_example =
    execute_sync_item-SettlesAs slow_clock plan answer_late (some short) (item_of "d1") 0

-- The budget is used up behind the call, and the receipt is kept.
late_receipt_kept :
    ((execute_sync_item slow_clock plan answer_late (some short) (item_of "d1") 0).0.receipt ≡ done)
    × (is_some
          (execute_sync_item slow_clock plan answer_late
            (some short)
            (item_of "d1")
            0).0.budget_error
        ≡ true)
unfolding execute_sync_item assert_dispatchable
late_receipt_kept = (refl, refl)
