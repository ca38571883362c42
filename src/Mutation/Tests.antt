-- ===== src/Mutation/Tests.antt =====
-- A confirmed mutation that the portal accepts.
use datasluice.Base.{
  ℕ, suc, ◌+◌, ◌≤◌, ◌<◌, ◌≡◌, ◌⊎◌, arith, true, false, none, some, [], if◌then◌else◌,
}
use datasluice.Base.Exec.{ok}
use datasluice.Json.{end}
use datasluice.Safety.{
  MutationPolicy, is_confirmed, allows_retry, mutation_allows, concurrency_allows, dry_run_allows,
}
use datasluice.Catalog.{CatalogId, OperationId}
use datasluice.Resilience.Retry.{responded, run, make_loop}
use datasluice.Resilience.Decision.{for_response}
use datasluice.Mutation.{Setup, Enforcer, execute, is_permitted, has_instruction}
use datasluice.Mutation.Laws.{execute-Records, sent-Confirmed, Records}

-- The world counts what was sent.
abbrev portal : Setup ℕ
portal = record {
  send = λ request n.
      (responded (record { status_code = 200; headers = []; retry_after = none }), suc n);
  clock = λ n. (0, n);
  sleep = λ delay n. n;
  budget = record { connect = 1000; read = 1000; write = 1000; total = 5000 };
  max_attempts = 2;
  redact = λ m. m;
  freeze = λ m. ok m;
  show = λ o. o.method;
}

abbrev delete_dataset : OperationId
delete_dataset = record { platform = "ckan"; service = "action"; method = "dataset_delete" }

abbrev dataset : CatalogId
dataset = record { platform = "ckan"; resource_kind = "dataset"; value = "d1" }

abbrev policy : MutationPolicy
policy = record {
  destructive = true;
  confirmation = some (record { confirmed = true; operation = none; target = none });
  concurrency = some (record { token = some "v1"; overwrite = false });
  idempotency = record { safe = false; key = none; explicit_retry_opt_in = false };
  dry_run = record { requested = false };
}

abbrev before : Enforcer ℕ
before = record { dispatches = record { world = 0; sends = 0; sleeps = [] }; last_receipt = none }

execute-Records_example :
    ((execute portal delete_dataset dataset (some policy) end before).1.dispatches.sends
      ≤ 0 + (if allows_retry policy.idempotency then 2 else 1))
    × ((false ≡ false)
        ⊎ ((execute portal delete_dataset dataset (some policy) end before).1.dispatches.sends ≡ 0))
    × Records portal policy before
        (execute portal delete_dataset dataset (some policy) end before).0
        (execute portal delete_dataset dataset (some policy) end before).1
execute-Records_example = execute-Records portal delete_dataset dataset policy end before

is_sent : 0 < (execute portal delete_dataset dataset (some policy) end before).1.dispatches.sends
unfolding execute is_permitted mutation_allows concurrency_allows dry_run_allows run for_response
    allows_retry make_loop
is_sent = omega arith

sent-Confirmed_example :
    (p : MutationPolicy) × (some policy ≡ some p)
    × ((p.destructive ≡ false) ⊎ (is_confirmed p.confirmation ≡ true))
    × (has_instruction p.concurrency ≡ true)
    × (p.dry_run.requested ≡ false)
sent-Confirmed_example =
    sent-Confirmed portal delete_dataset dataset (some policy) end before is_sent
