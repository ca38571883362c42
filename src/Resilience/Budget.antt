-- ===== src/Resilience/Budget.antt =====
-- `TimeBudget` and `DeadlineMonitor`. A clock is a function on the state of the world; the source
-- reads `monotonic()`.
use datasluice.Base.{
  ℕ, ◌+◌, ℤ, sub_ℕ, is_le_zero, exceeds, clip, String, Option, none, some, ltb, max, ◌==◌,
  equatable_nat, equatable_string, ◌||◌, if◌then◌else◌,
}
use datasluice.Base.Exec.{Exec, Result, ok, raise, pure, throw, ◌>>=◌}
use datasluice.Errors.{Exception, Phase, dispatch, value_error, budget_exhausted}

pub record TimeBudget : Type 0 where
  pub connect : ℕ
  pub read : ℕ
  pub write : ℕ
  pub total : ℕ

unfoldable pub make_budget : TimeBudget → Result Exception TimeBudget
make_budget b =
    if b.connect == 0 || b.read == 0 || b.write == 0 || b.total == 0
    then raise value_error
    else if ltb b.total (max b.connect (max b.read b.write))
    then raise value_error
    else ok b

pub record DeadlineMonitor : Type 0 where
  pub budget : TimeBudget
  pub started_at : ℕ
  pub operation : Option String
  pub platform : Option String

-- `name or default`: an empty name is replaced as well.
abbrev or_else : Option String → String → String
or_else none d = d
or_else (some name) d = if name == "" then d else name

abbrev first_some {ℓ} : {A : Type ℓ} → Option A → Option A → Option A
first_some none o = o
first_some (some a) o = some a

module _ {S : Type 0} (clock : S → ℕ × S) where
  unfoldable pub read_clock : Exec S Exception ℕ
  read_clock s = (ok (clock s).0, (clock s).1)

  unfoldable pub make_monitor : TimeBudget → Exec S Exception DeadlineMonitor
  unfolding read_clock
  make_monitor budget = do
    now ← read_clock
    pure (record { budget = budget; started_at = now; operation = none; platform = none })

  -- `total - (clock() - started_at)`
  unfoldable pub remaining : DeadlineMonitor → Exec S Exception ℤ
  unfolding read_clock
  remaining m = do now ← read_clock; pure (sub_ℕ (m.budget.total + m.started_at) now)

  -- The clock is read once more for the elapsed time.
  unfoldable pub raise_exhausted : {A : Type 0} → DeadlineMonitor → Phase → Exec S Exception A
  unfolding read_clock
  raise_exhausted m phase = do
    now ← read_clock
    throw (
        budget_exhausted (record {
          operation = or_else m.operation "runtime.dispatch";
          platform = or_else m.platform "runtime";
          elapsed = clip (sub_ℕ now m.started_at);
          budget = m.budget.total;
          phase = phase;
        }))

  -- Returns the monitor with the names that it keeps for its error messages.
  unfoldable pub assert_dispatchable :
      DeadlineMonitor → Option String → Option String → Exec S Exception DeadlineMonitor
  unfolding remaining raise_exhausted
  assert_dispatchable m operation platform = do
    let m' = record m {
      operation = first_some operation m.operation;
      platform = first_some platform m.platform;
    }
    left ← remaining m'
    if is_le_zero left then raise_exhausted m' dispatch else pure m'

  -- The delay is a natural number, so the source's test for a negative one has no counterpart.
  unfoldable pub check_wait : DeadlineMonitor → ℕ → Phase → Exec S Exception (Unit {0})
  unfolding remaining raise_exhausted
  check_wait m delay phase = do
    left ← remaining m
    if exceeds delay left then raise_exhausted m phase else pure tt
