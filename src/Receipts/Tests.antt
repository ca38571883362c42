-- ===== src/Receipts/Tests.antt =====
-- A checkpoint behind the first of two items.
use datasluice.Base.{[], ◌∷◌, none, some, true, false, ◌≡◌, refl}
use datasluice.Base.Exec.{ok}
use datasluice.Json.{end, member, bool}
use datasluice.Safety.{independent}
use datasluice.Catalog.{CatalogId, MutationReceipt, failed}
use datasluice.Bulk.{BulkPlan, make_plan, BulkCheckpoint, make_checkpoint}
use datasluice.Receipts.{Contract, build_id, build_receipt}
use datasluice.Receipts.Plans.{checkpoint_to_dict, checkpoint_from_dict}
use datasluice.Receipts.RoundTrips.{IsPlan, IsReceipt, checkpoint-round}

abbrev contract : Contract
contract = record { is_name = λ s. true; freeze = λ m. ok m }

abbrev first_item : CatalogId
first_item = record { platform = "ckan"; resource_kind = "dataset"; value = "d1" }

abbrev second_item : CatalogId
second_item = record { platform = "ckan"; resource_kind = "dataset"; value = "d2" }

abbrev plan : BulkPlan
plan = record {
  operation = "dataset.delete";
  items = first_item ∷ second_item ∷ [];
  preview = false;
  atomicity = independent;
  cancellation_requested = false;
  resumption_cursor = some "c1";
}

abbrev receipt : MutationReceipt
receipt = record {
  operation = "dataset.delete";
  outcome = failed;
  target = first_item;
  version_token = none;
  request_id = some "r1";
  atomicity = independent;
  operation_atomicity = independent;
  audit_metadata = member "bulk_failure" (bool true) end;
}

abbrev checkpoint : BulkCheckpoint
checkpoint = record {
  plan = plan;
  item_receipts = record { index = 0; receipt = receipt } ∷ [];
  cancellation_requested = false;
  resumption_cursor = none;
}

built : make_checkpoint checkpoint ≡ ok checkpoint
unfolding make_checkpoint
built = refl

plan-IsPlan : IsPlan contract plan
unfolding make_plan build_id
plan-IsPlan = (refl, (refl, (refl, tt)))

receipt-IsReceipt : IsReceipt contract receipt
unfolding build_receipt build_id
receipt-IsReceipt = (refl, refl)

checkpoint-round_example :
    checkpoint_from_dict contract (checkpoint_to_dict checkpoint) ≡ ok checkpoint
checkpoint-round_example =
    checkpoint-round contract checkpoint built plan-IsPlan (receipt-IsReceipt, tt)
