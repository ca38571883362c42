-- ===== src/Safety.antt =====
-- src/datasluice/domain/catalog/safety.py: the caller's policies for mutations and bulk runs. A
-- constructor is a function `make_…` that runs `__post_init__`; the tests of a value's Python
-- type hold by typing and are left out.
use datasluice.Base.{
  ℕ, String, Bool, true, false, not, ◌&&◌, ◌||◌, Option, none, some, leb, ◌==◌, equatable_nat,
  equatable_string, if◌then◌else◌,
}
use datasluice.Base.Exec.{Result, ok, raise}
use datasluice.Errors.{Exception, value_error}

-- `value is not None and not value`
unfoldable pub is_empty_text : Option String → Bool
is_empty_text none = false
is_empty_text (some s) = s == ""

abbrev pub is_some {ℓ} : {A : Type ℓ} → Option A → Bool
is_some none = false
is_some (some a) = true

pub record ConfirmationPolicy : Type 0 where
  pub confirmed : Bool
  pub operation : Option String
  pub target : Option String

unfoldable pub make_confirmation :
    Bool → Option String → Option String → Result Exception ConfirmationPolicy
make_confirmation confirmed operation target =
    if is_empty_text operation || is_empty_text target
    then raise value_error
    else ok (record { confirmed = confirmed; operation = operation; target = target })

pub record IdempotencyPolicy : Type 0 where
  pub safe : Bool
  pub key : Option String
  pub explicit_retry_opt_in : Bool

unfoldable pub make_idempotency : Bool → Option String → Bool → Result Exception IdempotencyPolicy
make_idempotency safe key opt_in =
    if is_empty_text key
    then raise value_error
    else ok (record { safe = safe; key = key; explicit_retry_opt_in = opt_in })

unfoldable pub allows_retry : IdempotencyPolicy → Bool
allows_retry p = p.safe || is_some p.key || p.explicit_retry_opt_in

pub record ConcurrencyPolicy : Type 0 where
  pub token : Option String
  pub overwrite : Bool

unfoldable pub make_concurrency : Option String → Bool → Result Exception ConcurrencyPolicy
make_concurrency token overwrite =
    if is_empty_text token
    then raise value_error
    else ok (record { token = token; overwrite = overwrite })

unfoldable pub concurrency_allows : ConcurrencyPolicy → Bool
concurrency_allows p = is_some p.token || p.overwrite

pub record DryRunPolicy : Type 0 where
  pub requested : Bool

unfoldable pub dry_run_allows : DryRunPolicy → Bool → Bool
dry_run_allows p capability_supported = not p.requested || capability_supported

pub record MutationPolicy : Type 0 where
  pub destructive : Bool
  pub confirmation : Option ConfirmationPolicy
  pub concurrency : Option ConcurrencyPolicy
  pub idempotency : IdempotencyPolicy
  pub dry_run : DryRunPolicy

abbrev pub is_confirmed : Option ConfirmationPolicy → Bool
is_confirmed none = false
is_confirmed (some c) = c.confirmed

unfoldable pub mutation_allows : MutationPolicy → Bool → Bool
unfolding dry_run_allows
mutation_allows p capability_supported =
    (not p.destructive || is_confirmed p.confirmation)
    && dry_run_allows p.dry_run capability_supported

pub data Atomicity : Type 0 where
  atomic independent : Atomicity

abbrev pub is_atomic : Atomicity → Bool
is_atomic atomic = true
is_atomic independent = false

pub record BulkExecutionPolicy : Type 0 where
  pub atomicity : Atomicity
  pub native_atomic_available : Bool
  pub max_parallelism : ℕ
  pub cancellation_requested : Bool
  pub checkpoint_required : Bool

abbrev pub max_bulk_parallelism : ℕ
max_bulk_parallelism = 32

unfoldable pub make_bulk_policy : BulkExecutionPolicy → Result Exception BulkExecutionPolicy
make_bulk_policy p =
    if not (leb 1 p.max_parallelism && leb p.max_parallelism max_bulk_parallelism)
    then raise value_error
    else if is_atomic p.atomicity && not p.native_atomic_available
    then raise value_error
    else if is_atomic p.atomicity && not (p.max_parallelism == 1)
    then raise value_error
    else ok p
