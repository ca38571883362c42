-- ===== src/Bulk/Summary.antt =====
-- The terminal summary of a bulk run: `BulkSummary`, `_summary` and `_terminal_summary`.
use datasluice.Base.{
  ℕ, suc, ◌+◌, ◌-◌, ◌≤◌, ◌≡◌, refl, sym, ◌∙◌, not, Bool, true, false, ◌||◌, Option, none, some, [],
  ◌∷◌, length, ℤ, pos, negsuc, sub_ℕ, is_neg, if◌then◌else◌, arith, Bool-cases, inl, inr,
}
use datasluice.Base.Dict.{Dict}
use datasluice.Base.Exec.{Exec, Result, ok, raise, pure, ◌>>=◌}
use datasluice.Errors.{Exception, Exhausted, value_error}
use datasluice.Safety.{is_some}
use datasluice.Catalog.{Outcome, succeeded, failed, skipped, rejected, cancelled, ambiguous}
use datasluice.Resilience.Budget.{DeadlineMonitor, remaining, read_clock}
use datasluice.Bulk.{BulkItemReceipt, BulkPlan}
use datasluice.Bulk.Progress.{StopReason, is_cancelled, Executor, Stream}

pub data State : Type 0 where
  completed_state cancelled_state exhausted_state : State

-- `none`, the fixed text of a cancellation, or the text of an error.
pub data SummaryReason : Type 0 where
  no_reason was_cancelled : SummaryReason
  error_text : Exhausted → SummaryReason

-- `outstanding` may be given below zero, which the constructor refuses.
pub record BulkSummary : Type 0 where
  pub total : ℕ
  pub succeeded_count : ℕ
  pub failed_count : ℕ
  pub skipped_count : ℕ
  pub settled : ℕ
  pub outstanding : ℤ
  pub dispatches : ℕ
  pub state : State
  pub cancelled : Bool
  pub budget_exhausted : Bool
  pub elapsed : ℕ
  pub budget : Option ℕ
  pub reason : SummaryReason
  pub budget_error : Option Exhausted

abbrev pub is_completed_state : State → Bool
is_completed_state completed_state = true
is_completed_state _ = false

-- `__post_init__`, where both counts are given, as `_summary` gives them.
unfoldable pub make_summary : BulkSummary → Result Exception BulkSummary
make_summary s =
    if is_neg s.outstanding
    then raise value_error
    else if is_completed_state s.state
    then ok (record s {
      state =
          if s.cancelled
          then cancelled_state
          else if s.budget_exhausted
          then exhausted_state
          else completed_state;
    })
    else ok s

abbrev same_outcome : Outcome → Outcome → Bool
same_outcome succeeded succeeded = true
same_outcome failed failed = true
same_outcome skipped skipped = true
same_outcome rejected rejected = true
same_outcome cancelled cancelled = true
same_outcome ambiguous ambiguous = true
same_outcome _ _ = false

-- `outcomes.count(…)`
unfoldable pub count_outcome : Outcome → Dict ℕ BulkItemReceipt → ℕ
count_outcome o [] = 0
count_outcome o ((i, r) ∷ completed) =
    let rest = count_outcome o completed in
    if same_outcome r.receipt.outcome o then suc rest else rest

-- `max(0.0, total - remaining)`
abbrev spent : ℕ → ℤ → ℕ
spent total (pos left) = total - left
spent total (negsuc over) = total + suc over

abbrev terminal_error : Option Exhausted → Option Exhausted → Option Exhausted
terminal_error none item = item
terminal_error (some e) item = some e

abbrev state_of : Option StopReason → Bool → State
state_of none exhausted = if exhausted then exhausted_state else completed_state
state_of (some StopReason.cancelled) exhausted = cancelled_state
state_of (some StopReason.budget_exhausted) exhausted = exhausted_state

abbrev stopped_by_budget : Option StopReason → Bool
stopped_by_budget (some StopReason.budget_exhausted) = true
stopped_by_budget _ = false

abbrev reason_of : Option StopReason → Option Exhausted → SummaryReason
reason_of (some StopReason.cancelled) error = was_cancelled
reason_of _ (some e) = error_text e
reason_of _ none = no_reason

module _ {W : Type 0} (x : Executor W) (plan : BulkPlan) where
  -- The elapsed time and the budget: of the error, of the run's monitor, or by the clock.
  unfoldable pub elapsed_of :
      Option Exhausted → Option DeadlineMonitor → (started_at : ℕ) → Exec W Exception (ℕ × Option ℕ)
  elapsed_of (some e) monitor started_at = pure (e.elapsed, some e.budget)
  elapsed_of none (some m) started_at = do
    left ← remaining x.clock m
    pure (spent m.budget.total left, some m.budget.total)
  elapsed_of none none started_at = do now ← read_clock x.clock; pure (now - started_at, none)

  abbrev summary_with : Stream W → ℕ × Option ℕ → BulkSummary
  summary_with s (elapsed, budget) =
      let p = s.progress in
      let error = terminal_error p.budget_error p.item_budget_error in
      let exhausted = stopped_by_budget p.stop_reason || is_some p.item_budget_error in
      record {
        total = length plan.items;
        succeeded_count = count_outcome succeeded p.completed;
        failed_count = count_outcome failed p.completed;
        skipped_count = count_outcome skipped p.completed;
        settled = length p.completed;
        outstanding = sub_ℕ (length plan.items) (length p.completed);
        dispatches = p.dispatches;
        state = state_of p.stop_reason exhausted;
        cancelled = is_cancelled p.stop_reason;
        budget_exhausted = exhausted;
        elapsed = elapsed;
        budget = budget;
        reason = reason_of p.stop_reason error;
        budget_error = error;
      }

  abbrev built : Stream W → Result Exception (ℕ × Option ℕ) → Result Exception BulkSummary
  built s (ok times) = make_summary (summary_with s times)
  built s (raise e) = raise e

  -- `_terminal_summary`, which is `_summary`.
  unfoldable pub terminal_summary : (started_at : ℕ) → Stream W → Result Exception BulkSummary
  unfolding make_summary elapsed_of
  terminal_summary started_at s =
      let error = terminal_error s.progress.budget_error s.progress.item_budget_error in
      built s (elapsed_of error x.monitor started_at s.world).0

  -- The number of receipts, each counted by its outcome.
  abbrev pub tally : (Outcome → ℕ) → Dict ℕ BulkItemReceipt → ℕ
  tally weight [] = 0
  tally weight ((i, r) ∷ completed) = weight r.receipt.outcome + tally weight completed

  abbrev pub is_success : Outcome → ℕ
  is_success succeeded = 1
  is_success _ = 0

  abbrev pub is_failure : Outcome → ℕ
  is_failure failed = 1
  is_failure _ = 0

  abbrev pub is_skip : Outcome → ℕ
  is_skip skipped = 1
  is_skip _ = 0

  -- Outcomes that no count of the summary shows.
  abbrev pub is_other : Outcome → ℕ
  is_other rejected = 1
  is_other cancelled = 1
  is_other ambiguous = 1
  is_other _ = 0

  -- Each count is the number of receipts with its outcome, and only receipts with none of these
  -- outcomes are missing from the counts.
  record Counts (d : Dict ℕ BulkItemReceipt) : Type 0 where
    successes : count_outcome succeeded d ≡ tally is_success d
    failures : count_outcome failed d ≡ tally is_failure d
    skips : count_outcome skipped d ≡ tally is_skip d
    whole : tally is_success d + tally is_failure d + tally is_skip d + tally is_other d ≡ length d

  counts : (d : Dict ℕ BulkItemReceipt) → Counts d
  unfolding count_outcome
  counts [] = record { successes = refl; failures = refl; skips = refl; whole = refl }
  counts ((i, r) ∷ d) = one r.receipt.outcome (counts d)
    where
      one :
          (o : Outcome)
          → Counts d
          → Counts ((i, record r { receipt = record r.receipt { outcome = o } }) ∷ d)
      one succeeded c = record {
        successes = omega (arith, c.successes);
        failures = omega (arith, c.failures);
        skips = omega (arith, c.skips);
        whole = omega (arith, c.whole);
      }
      one failed c = record {
        successes = omega (arith, c.successes);
        failures = omega (arith, c.failures);
        skips = omega (arith, c.skips);
        whole = omega (arith, c.whole);
      }
      one skipped c = record {
        successes = omega (arith, c.successes);
        failures = omega (arith, c.failures);
        skips = omega (arith, c.skips);
        whole = omega (arith, c.whole);
      }
      one rejected c = record {
        successes = omega (arith, c.successes);
        failures = omega (arith, c.failures);
        skips = omega (arith, c.skips);
        whole = omega (arith, c.whole);
      }
      one cancelled c = record {
        successes = omega (arith, c.successes);
        failures = omega (arith, c.failures);
        skips = omega (arith, c.skips);
        whole = omega (arith, c.whole);
      }
      one ambiguous c = record {
        successes = omega (arith, c.successes);
        failures = omega (arith, c.failures);
        skips = omega (arith, c.skips);
        whole = omega (arith, c.whole);
      }

  -- What a summary says of the state of a run.
  abbrev pub Summarises : Stream W → Result Exception BulkSummary → Type 0
  Summarises s (raise e) = true ≡ false
  Summarises s (ok b) =
      (b.total ≡ length plan.items)
      × (b.settled ≡ length s.progress.completed)
      × (b.outstanding ≡ pos (length plan.items - length s.progress.completed))
      × (b.succeeded_count ≡ tally is_success s.progress.completed)
      × (b.failed_count ≡ tally is_failure s.progress.completed)
      × (b.skipped_count ≡ tally is_skip s.progress.completed)
      × (b.succeeded_count + b.failed_count + b.skipped_count + tally is_other s.progress.completed
          ≡ b.settled)
      × (is_completed_state b.state
          ≡ not (is_some s.progress.stop_reason || is_some s.progress.item_budget_error))

  final_state :
      (stop : Option StopReason) (item : Option Exhausted)
      → is_completed_state (state_of stop (stopped_by_budget stop || is_some item))
        ≡ not (is_some stop || is_some item)
  final_state none none = refl
  final_state none (some e) = refl
  final_state (some StopReason.cancelled) item = refl
  final_state (some StopReason.budget_exhausted) item = refl

  quiet :
      (stop : Option StopReason) (item : Option Exhausted)
      → not (is_some stop || is_some item) ≡ true
      → (is_cancelled stop ≡ false) × ((stopped_by_budget stop || is_some item) ≡ false)
  quiet none none e = (refl, refl)
  quiet none (some x) e = cc
  quiet (some r) item e = cc

  summed :
      (s : Stream W) (times : ℕ × Option ℕ)
      → length s.progress.completed ≤ length plan.items
      → Summarises s (make_summary (summary_with s times))
  unfolding make_summary
  summed s times le =
      let p = s.progress in
      let exhausted = stopped_by_budget p.stop_reason || is_some p.item_budget_error in
      let whole : sub_ℕ (length plan.items) (length p.completed)
          ≡ pos (length plan.items - length p.completed) =
        ground arith in
      let n = counts p.completed in
      let sum : count_outcome succeeded p.completed
            + count_outcome failed p.completed
            + count_outcome skipped p.completed
            + tally is_other p.completed
          ≡ length p.completed =
        omega (arith, n.successes, n.failures, n.skips, n.whole) in
      let final = final_state p.stop_reason p.item_budget_error in
      rw whole (elim (Bool-cases (is_completed_state (state_of p.stop_reason exhausted))) [
        | inl done ↦
            let q = quiet p.stop_reason p.item_budget_error (sym final ∙ done) in
            rw done (
              refl,
              refl,
              refl,
              n.successes,
              n.failures,
              n.skips,
              sum,
              rw (q.0, q.1) (sym done ∙ final),
            )
        | inr stopped ↦ rw stopped (refl, refl, refl, n.successes, n.failures, n.skips, sum, final)
      ])

  elapsed-ok :
      (o : Option Exhausted) (m : Option DeadlineMonitor) (t : ℕ) (w : W) (s : Stream W)
      → length s.progress.completed ≤ length plan.items
      → Summarises s (built s (elapsed_of o m t w).0)
  unfolding elapsed_of remaining read_clock
  elapsed-ok (some e) m t w s le = summed s (e.elapsed, some e.budget) le
  elapsed-ok none (some m) t w s le =
      summed s
        (
          spent m.budget.total (sub_ℕ (m.budget.total + m.started_at) (x.clock w).0),
          some m.budget.total,
        )
        le
  elapsed-ok none none t w s le = summed s ((x.clock w).0 - t, none) le

  -- A run with no more settled items than the plan has gets a summary. Its total is that of the
  -- plan's items, and those that are not settled are outstanding. Its counts are the numbers of
  -- receipts that succeeded, failed and were skipped; with the receipts of any other outcome they
  -- add up to the settled items. It calls the run completed exactly if nothing stopped it and no
  -- item ran out of its budget.
  pub terminal_summary-Summarises :
      (started_at : ℕ) (s : Stream W)
      → length s.progress.completed ≤ length plan.items
      → Summarises s (terminal_summary started_at s)
  unfolding terminal_summary
  terminal_summary-Summarises started_at s le =
      elapsed-ok (terminal_error s.progress.budget_error s.progress.item_budget_error) x.monitor
        started_at s.world s le
