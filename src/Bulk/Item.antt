-- ===== src/Bulk/Item.antt =====
-- One item of a bulk run: `_item_monitor`, `_preflight_item`, `_execute_sync_item`, `_settle_item`.
use datasluice.Base.{
  ℕ, ◌+◌, ◌≡◌, refl, ◌∙◌, Bool, true, false, Option, none, some, inl, inr, leb, arith, Bool-cases,
  is_le_zero, sub_ℕ,
}
use datasluice.Safety.{is_some}
use datasluice.Base.Exec.{Result, ok, raise}
use datasluice.Errors.{Exception, Exhausted, budget_exhausted}
use datasluice.Catalog.{CatalogId, MutationReceipt}
use datasluice.Resilience.Budget.{TimeBudget, DeadlineMonitor, assert_dispatchable}
use datasluice.Bulk.{BulkPlan, ItemResult, failure_receipt, platform_for}

-- What the caller's `execute_item` does.
pub data Executed : Type 0 where
  receipt_of : MutationReceipt → Executed
  -- a value that is no `MutationReceipt`
  other_value : Executed
  out_of_budget : Exhausted → Executed
  -- any other exception
  crashed : Executed

abbrev failure : BulkPlan → CatalogId → ItemResult
failure plan item = record { receipt = failure_receipt plan item false; budget_error = none }

abbrev budget_failure : BulkPlan → CatalogId → Exhausted → ItemResult
budget_failure plan item e = record {
  receipt = failure_receipt plan item true;
  budget_error = some e;
}

-- Only a `BudgetExhaustedError` is caught, and `assert_dispatchable` raises no other.
abbrev pub exhausted_by : {A : Type 0} → Result Exception A → Option Exhausted
exhausted_by (raise (budget_exhausted e)) = some e
exhausted_by _ = none

module _ {W : Type 0} (clock : W → ℕ × W) (plan : BulkPlan) where
  abbrev monitor_of : DeadlineMonitor → Result Exception DeadlineMonitor → DeadlineMonitor
  monitor_of m (ok m') = m'
  monitor_of m (raise x) = m

  unfoldable pub item_monitor : Option TimeBudget → W → Option DeadlineMonitor × W
  item_monitor none w = (none, w)
  item_monitor (some budget) w = (
    some (record { budget = budget; started_at = (clock w).0; operation = none; platform = none }),
    (clock w).1,
  )

  -- The exhaustion before the dispatch, if there is one, and the monitor with its names.
  unfoldable pub preflight_item :
      Option DeadlineMonitor → W → (Option Exhausted × Option DeadlineMonitor) × W
  preflight_item none w = ((none, none), w)
  preflight_item (some m) w =
      let (r, w') =
        assert_dispatchable clock m (some plan.operation) (some (platform_for plan)) w in
      ((exhausted_by r, some (monitor_of m r)), w')

  unfoldable pub settle_item : CatalogId → Executed → Option DeadlineMonitor → W → ItemResult × W
  settle_item item (receipt_of receipt) none w =
      (record { receipt = receipt; budget_error = none }, w)
  settle_item item (receipt_of receipt) (some m) w =
      let (r, w') = assert_dispatchable clock m none none w in
      (record { receipt = receipt; budget_error = exhausted_by r }, w')
  settle_item item other_value m w = (failure plan item, w)
  settle_item item (out_of_budget e) m w = (budget_failure plan item e, w)
  settle_item item crashed m w = (failure plan item, w)

  abbrev after_preflight :
      (CatalogId → W → Executed × W)
      → CatalogId
      → (Option Exhausted × Option DeadlineMonitor) × W
      → ItemResult × W
  after_preflight execute_item item ((some e, m), w) = (budget_failure plan item e, w)
  after_preflight execute_item item ((none, m), w) =
      let (done, w') = execute_item item w in settle_item item done m w'

  unfoldable pub execute_sync_item :
      (CatalogId → W → Executed × W) → Option TimeBudget → CatalogId → W → ItemResult × W
  unfolding item_monitor preflight_item settle_item
  execute_sync_item execute_item item_budget item w =
      let (monitor, w') = item_monitor item_budget w in
      after_preflight execute_item item (preflight_item monitor w')

  -- The item's own budget is used up before its dispatch, by the two readings of the clock.
  abbrev pub too_late : Option TimeBudget → W → Bool
  too_late none w = false
  too_late (some b) w = leb (b.total + (clock w).0) (clock (clock w).1).0

  -- The world behind these readings.
  abbrev pub preflown : Option TimeBudget → W → W
  preflown none w = w
  preflown (some b) w = (clock (clock w).1).1

  -- The result for what `execute_item` did: a receipt is kept as it is, with the exhaustion found
  -- behind it if there is one; anything else is a failure of the item.
  abbrev Reports : CatalogId → Executed → ItemResult → Type 0
  Reports item (receipt_of r) result = result.receipt ≡ r
  Reports item other_value result =
      (result.receipt ≡ failure_receipt plan item false) × (result.budget_error ≡ none)
  Reports item (out_of_budget e) result =
      (result.receipt ≡ failure_receipt plan item true) × (result.budget_error ≡ some e)
  Reports item crashed result =
      (result.receipt ≡ failure_receipt plan item false) × (result.budget_error ≡ none)

  -- An item that is too late is not executed: all that is done is to read the clock once more.
  abbrev pub SettlesAs :
      (CatalogId → W → Executed × W)
      → (late : Bool) → CatalogId
      → (before : W) → ItemResult × W
      → Type 0
  SettlesAs execute_item true item before out =
      (out.0.receipt ≡ failure_receipt plan item true)
      × (is_some out.0.budget_error ≡ true)
      × (out.1 ≡ (clock before).1)
  SettlesAs execute_item false item before out = Reports item (execute_item item before).0 out.0

  settle-Reports :
      (item : CatalogId) (done : Executed) (m : Option DeadlineMonitor) (w : W)
      → Reports item done (settle_item item done m w).0
  unfolding settle_item
  settle-Reports item (receipt_of r) none w = refl
  settle-Reports item (receipt_of r) (some m) w = refl
  settle-Reports item other_value m w = (refl, refl)
  settle-Reports item (out_of_budget e) m w = (refl, refl)
  settle-Reports item crashed m w = (refl, refl)

  is_le_zero-sub : (a b : ℕ) → is_le_zero (sub_ℕ a b) ≡ leb a b
  is_le_zero-sub a b = ground arith

  -- An item whose budget is used up before its dispatch is not executed, and gets the failure
  -- receipt of a budget and the exhaustion. Any other item is executed, once the clock was read: a
  -- receipt that comes back is kept as it is, also where the budget is used up by then, and
  -- anything else gives the failure receipt of this item, marked as one of a budget exactly if
  -- `execute_item` ran out of one, with that exhaustion.
  pub execute_sync_item-SettlesAs :
      (execute_item : CatalogId → W → Executed × W) (budget : Option TimeBudget) (item : CatalogId)
      (w : W)
      → SettlesAs execute_item
          (too_late budget w)
          item
          (preflown budget w)
          (execute_sync_item execute_item budget item w)
  unfolding execute_sync_item item_monitor preflight_item assert_dispatchable
  execute_sync_item-SettlesAs execute_item none item w =
      settle-Reports item (execute_item item w).0 none (execute_item item w).1
  execute_sync_item-SettlesAs execute_item (some b) item w =
      let same = is_le_zero-sub (b.total + (clock w).0) (clock (clock w).1).0 in
      elim (Bool-cases (leb (b.total + (clock w).0) (clock (clock w).1).0)) [
        | inl late ↦ rw (late, same ∙ late) (refl, refl, refl)
        | inr early ↦
            rw (early, same ∙ early)
              (settle-Reports item (execute_item item (clock (clock w).1).1).0 _ _)
      ]
