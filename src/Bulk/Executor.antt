-- ===== src/Bulk/Executor.antt =====
-- The run of a bulk plan: `_BulkProgress`, `_stop_state`, the methods of `_BulkExecutorState`, and
-- `BulkExecutor`. A future is known by the index of its item. What the workers do while the run
-- waits is up to the world: `wait` says which futures are done, and with what.
pub mod Counts
pub mod Frames
pub mod Conserve
pub mod Order
pub mod Ends
pub mod Runs
pub mod Causes
pub mod Complete
use datasluice.Base.{
  ℕ, zero, suc, ◌+◌, ◌-◌, String, Bool, true, false, not, ◌&&◌, ◌||◌, Option, none, some, List, [],
  ◌∷◌, ◌++◌, map, leb, ltb, length, contains, clip, sub_ℕ, ◌==◌, equatable_nat, if◌then◌else◌,
}
use datasluice.Base.Dict
use datasluice.Base.Dict.{Dict}
use datasluice.Base.Exec.{Result, ok, raise}
use datasluice.Errors.{Exception, Exhausted, type_error}
use datasluice.Safety.{BulkExecutionPolicy, is_some}
use datasluice.Catalog.{CatalogId, MutationReceipt, Outcome, succeeded, failed, skipped}
use datasluice.Resilience.Budget.{DeadlineMonitor, assert_dispatchable}
use datasluice.Bulk.{
  BulkPlan, BulkItemReceipt, BulkCheckpoint, make_checkpoint, ItemResult, failure_receipt,
  platform_for, validate_plan,
}
use datasluice.Bulk.Item.{exhausted_by}
use datasluice.Bulk.Progress.{
  StopReason, cancelled, budget_exhausted, is_cancelled, same_reason, BulkProgress, TaskResult,
  finished, broke, raised, sink_error, Executor, Stream, is_empty, range_from, not_completed,
  by_index, sorted_keys, pick, cursor_of, first_error,
}

module _ {W : Type 0} (x : Executor W) (plan : BulkPlan) where
  abbrev stop_of : Option Exhausted → Option StopReason × Option Exhausted
  stop_of none = (none, none)
  stop_of (some e) = (some budget_exhausted, some e)

  -- `_cancel_requested`: the source of cancellation is asked only if the policy does not say so.
  unfoldable pub cancel_is_requested : W → Bool × W
  cancel_is_requested w =
      if x.policy.cancellation_requested then (true, w) else x.cancel_requested w

  abbrev budget_stop :
      Option DeadlineMonitor
      → (check_budget : Bool) → W
      → (Option StopReason × Option Exhausted) × W
  budget_stop none check_budget w = ((none, none), w)
  budget_stop (some m) false w = ((none, none), w)
  budget_stop (some m) true w =
      let (r, w') =
        assert_dispatchable x.clock m (some plan.operation) (some (platform_for plan)) w in
      (stop_of (exhausted_by r), w')

  -- `_probe_stop_state`, which is `_stop_state`.
  unfoldable pub probe_stop_state :
      (check_budget : Bool) → W → (Option StopReason × Option Exhausted) × W
  unfolding cancel_is_requested
  probe_stop_state check_budget w =
      let (requested, w') = cancel_is_requested w in
      if requested then ((some cancelled, none), w') else budget_stop x.monitor check_budget w'

  abbrev pub set_stop : (Option StopReason × Option Exhausted) × W → Stream W → Stream W
  set_stop (stop, w) s = record s {
    progress = record s.progress { stop_reason = stop.0; budget_error = stop.1 };
    world = w;
  }

  unfoldable pub refresh_stop_state : (check_budget : Bool) → Stream W → Stream W
  refresh_stop_state check_budget s =
      if is_some s.progress.stop_reason
      then s
      else set_stop (probe_stop_state check_budget s.world) s

  abbrev pub pop_pending : List ℕ → Stream W → Option ℕ × Stream W
  pop_pending [] s = (none, s)
  pop_pending (i ∷ rest) s = (some i, record s { progress = record s.progress { pending = rest } })

  unfoldable pub next_dispatchable : Stream W → Option ℕ × Stream W
  next_dispatchable s =
      if is_empty s.progress.pending
        || leb x.parallelism (length s.in_flight)
        || is_some s.progress.stop_reason
      then (none, s)
      else let s' = set_stop (probe_stop_state true s.world) s in
        if is_some s'.progress.stop_reason then (none, s') else pop_pending s'.progress.pending s'

  -- `workers.submit`: the item goes to a worker.
  abbrev pub submit : ℕ → Stream W → Stream W
  submit i s = record s {
    in_flight = s.in_flight ++ i ∷ [];
    dispatched = i ∷ s.dispatched;
    progress = record s.progress { dispatches = suc s.progress.dispatches };
  }

  -- The `while` of `_dispatch_available`, by a bound on the items that are pending.
  unfoldable pub dispatch_available : ℕ → Stream W → Stream W
  unfolding next_dispatchable
  dispatch_available zero s = s
  dispatch_available (suc fuel) s =
      let (index, s') = next_dispatchable s in
      elim index [ none ↦ s' | some i ↦ dispatch_available fuel (submit i s') ]

  abbrev pub completed_with : ℕ → ItemResult → Stream W → Stream W
  completed_with index result s = record s {
    progress = record s.progress {
      completed =
          Dict.put s.progress.completed index (record { index = index; receipt = result.receipt });
      item_budget_error = first_error s.progress.item_budget_error result.budget_error;
    };
  }

  unfoldable pub record_completed : ℕ → ItemResult → Stream W → Stream W
  unfolding refresh_stop_state
  record_completed index result s =
      refresh_stop_state (not (is_empty s.progress.pending)) (completed_with index result s)

  unfoldable pub build_checkpoint :
      Dict ℕ BulkItemReceipt
      → (cancellation_requested : Bool) → Option (Result Exception BulkCheckpoint)
  unfolding sorted_keys pick
  build_checkpoint completed cancellation_requested =
      if not x.policy.checkpoint_required
      then none
      else some (
          make_checkpoint (record {
            plan = plan;
            item_receipts = pick completed (sorted_keys completed);
            cancellation_requested = cancellation_requested;
            resumption_cursor = cursor_of x.checkpoint plan.resumption_cursor;
          }))

  abbrev pub sunk : Result Exception BulkCheckpoint → W → Option Exception × W
  sunk (ok checkpoint) w = let (answer, w') = x.sink checkpoint w in (sink_error answer, w')
  sunk (raise e) w = (some e, w)

  abbrev pub save : Option (Result Exception BulkCheckpoint) → Stream W → Stream W
  save none s = s
  save (some built) s = record s {
    saved = built ∷ s.saved;
    failure = (sunk built s.world).0;
    world = (sunk built s.world).1;
  }

  unfoldable pub persist : (cancellation_requested : Bool) → Stream W → Stream W
  unfolding build_checkpoint
  persist cancellation_requested s =
      save (build_checkpoint s.progress.completed cancellation_requested) s

  abbrev item_at : List CatalogId → ℕ → CatalogId → CatalogId
  item_at [] i default = default
  item_at (c ∷ items) zero default = c
  item_at (c ∷ items) (suc i) default = item_at items i default

  -- A future that raised settles as a failure of its item.
  abbrev pub result_of : ℕ → TaskResult → ItemResult
  result_of index (finished result) = result
  result_of index broke = record {
    receipt =
        failure_receipt plan
          (item_at plan.items index (record { platform = ""; resource_kind = ""; value = "" }))
          false;
    budget_error = none;
  }

  abbrev pub mark_persisted : Stream W → Stream W
  mark_persisted s = if is_some s.failure then s else record s {
    progress = record s.progress {
      last_persisted_count = some (length s.progress.completed);
      last_persisted_stop_reason = s.progress.stop_reason;
    };
  }

  unfoldable pub record_sync_result : ℕ → TaskResult → Stream W → Stream W
  unfolding record_completed persist
  record_sync_result index result s =
      let s' = record_completed index (result_of index result) s in
      mark_persisted (persist (is_cancelled s'.progress.stop_reason) s')

  abbrev pub yield_one : BulkItemReceipt → Stream W → Stream W
  yield_one r s = record s {
    yielded = s.yielded ++ r ∷ [];
    progress = record s.progress { next_emit = suc s.progress.next_emit };
  }

  -- `yield from progress.ordered_receipts()`, by a bound on the completed items.
  unfoldable pub yield_ordered : ℕ → Stream W → Stream W
  yield_ordered zero s = s
  yield_ordered (suc fuel) s = elim (Dict.get s.progress.completed s.progress.next_emit) [
    | none ↦ s
    | some r ↦ yield_ordered fuel (yield_one r s)
  ]

  -- `in_flight.pop(future)`
  unfoldable pub pop_in_flight : ℕ → List ℕ → List ℕ
  pop_in_flight i [] = []
  pop_in_flight i (j ∷ js) = if i == j then js else j ∷ pop_in_flight i js

  -- `for future in done`
  unfoldable pub settle_done : List (ℕ × TaskResult) → Stream W → Stream W
  unfolding pop_in_flight record_sync_result yield_ordered
  settle_done [] s = s
  settle_done ((index, result) ∷ done) s =
      let s' =
        record_sync_result index result
          (record s { in_flight = pop_in_flight index s.in_flight }) in
      elim (is_some s'.failure) [
        | true ↦ s'
        | false ↦ settle_done done (yield_ordered (length s'.progress.completed) s')
      ]

  abbrev pub await_done : Stream W → Stream W
  await_done s =
      let (done, w) = x.wait s.in_flight s.world in settle_done done (record s { world = w })

  -- The `while` of `stream`, by a bound on its rounds.
  unfoldable pub run_rounds : ℕ → Stream W → Stream W
  unfolding dispatch_available settle_done
  run_rounds zero s = s
  run_rounds (suc fuel) s =
      if is_empty s.progress.pending && is_empty s.in_flight
      then s
      else let s' = dispatch_available (length s.progress.pending) s in
        elim (is_empty s'.in_flight) [
          | true ↦ s'
          | false ↦
              let s'' = await_done s' in
              elim (is_some s''.failure) [ true ↦ s'' | false ↦ run_rounds fuel s'' ]
        ]

  abbrev pub unsaved : BulkProgress → Bool
  unsaved p =
      is_some p.stop_reason
      && not (
          elim p.last_persisted_count [ none ↦ false | some n ↦ n == length p.completed ]
          && same_reason p.last_persisted_stop_reason p.stop_reason)

  unfoldable pub finish_progress : Stream W → Stream W
  unfolding refresh_stop_state persist
  finish_progress s =
      let s' = refresh_stop_state false s in
      if unsaved s'.progress then persist (is_cancelled s'.progress.stop_reason) s' else s'

  -- The body of `_drain_sync` behind its `wait`: every future is done, with the given results.
  unfoldable pub drain_results : List (ℕ × TaskResult) → Stream W → Stream W
  unfolding pop_in_flight
  drain_results [] s = s
  drain_results ((index, result) ∷ done) s = drain_results done (
      completed_with index (result_of index result)
        (record s { in_flight = pop_in_flight index s.in_flight }))

  unfoldable pub drain_sync : List (ℕ × TaskResult) → Stream W → Stream W
  unfolding drain_results persist
  drain_sync results s = persist true (drain_results results s)

  abbrev pub checkpointed : Option BulkCheckpoint → Dict ℕ BulkItemReceipt
  checkpointed none = []
  checkpointed (some c) = by_index c.item_receipts []

  -- `_bulk_progress`
  unfoldable pub start : W → Stream W
  unfolding by_index not_completed range_from
  start w =
      let completed = checkpointed x.checkpoint in
      let pending = not_completed completed (range_from 0 (length plan.items)) in
      set_stop (probe_stop_state (not (is_empty pending)) w) (record {
        progress = record {
          completed = completed;
          pending = pending;
          stop_reason = none;
          budget_error = none;
          item_budget_error = none;
          dispatches = 0;
          next_emit = 0;
          last_persisted_count = none;
          last_persisted_stop_reason = none;
        };
        in_flight = [];
        yielded = [];
        dispatched = [];
        saved = [];
        failure = none;
        world = w;
      })

  -- What `stream` does behind its loop, up to its terminal summary.
  unfoldable pub conclude : Stream W → Stream W
  unfolding finish_progress yield_ordered
  conclude s =
      if is_some s.failure
      then s
      else let s' = finish_progress s in
        if is_some s'.failure then s' else yield_ordered (length s'.progress.completed) s'

  -- `stream` behind `_validate_plan`.
  unfoldable pub run_validated : W → Stream W
  unfolding start run_rounds yield_ordered conclude
  run_validated w =
      let s0 = start w in
      let s1 = yield_ordered (length s0.progress.completed) s0 in
      conclude (run_rounds (suc (length plan.items)) s1)

  -- A plan that is refused has no run.
  abbrev pub refused : Exception → W → Stream W
  refused e w = record {
    progress = record {
      completed = [];
      pending = [];
      stop_reason = none;
      budget_error = none;
      item_budget_error = none;
      dispatches = 0;
      next_emit = 0;
      last_persisted_count = none;
      last_persisted_stop_reason = none;
    };
    in_flight = [];
    yielded = [];
    dispatched = [];
    saved = [];
    failure = some e;
    world = w;
  }

  -- `stream`, up to its terminal summary.
  unfoldable pub stream : W → Stream W
  unfolding run_validated
  stream w = elim (validate_plan x.same_plan plan x.checkpoint) [
    | raise e ↦ refused e w
    | ok _ ↦ run_validated w
  ]
