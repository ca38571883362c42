-- ===== src/Receipts/Plans.antt =====
-- The envelopes of bulk plans, item receipts and checkpoints.
use datasluice.Base.{String, List, [], ◌∷◌, pos, equatable_string}
use datasluice.Base.Exec.{Result, ok, raise}
use datasluice.Errors.{Exception, contract_error}
use datasluice.Json.{Json, bool, int, text, array, object, Items, nil, cons, end, member}
use datasluice.Bulk.{BulkPlan, make_plan, BulkItemReceipt, BulkCheckpoint, make_checkpoint}
use datasluice.Receipts.{
  Contract, and_then, lookup, envelope, required_text, optional_text, plain_bool, plain_index,
  optional, atomicity_text, atomicity_of, id_to_dict, id_from_dict, receipt_to_dict,
  receipt_from_dict,
}

-- `[f(item) for item in items]` and `tuple(f(item) for item in items)`
unfoldable pub encode_all : {A : Type 0} → (A → Json) → List A → Items
encode_all f [] = nil
encode_all f (x ∷ xs) = cons (f x) (encode_all f xs)

abbrev pub prepend : {A : Type 0} → A → List A → Result Exception (List A)
prepend x xs = ok (x ∷ xs)

unfoldable pub decode_items :
    {A : Type 0} → (Json → Result Exception A) → Items → Result Exception (List A)
decode_items f nil = ok []
decode_items f (cons v items) = and_then (f v) (λ x. and_then (decode_items f items) (prepend x))

abbrev pub decode_all :
    {A : Type 0} → (Json → Result Exception A) → Json → Result Exception (List A)
decode_all f (array items) = decode_items f items
decode_all f _ = raise contract_error

unfoldable pub plan_to_dict : BulkPlan → Json
unfolding encode_all
plan_to_dict p = object (
    member "schema_version" (int (pos 1)) (
      member "kind" (text "bulk_plan") (
        member "operation" (text p.operation) (
          member "items" (array (encode_all id_to_dict p.items)) (
            member "preview" (bool p.preview) (
              member "atomicity" (text (atomicity_text p.atomicity)) (
                member "cancellation_requested" (bool p.cancellation_requested)
                  (member "resumption_cursor" (optional p.resumption_cursor) end))))))))

unfoldable pub item_to_dict : BulkItemReceipt → Json
item_to_dict r = object (
    member "schema_version" (int (pos 1)) (
      member "kind" (text "bulk_item_receipt")
        (member "index" (int (pos r.index)) (member "receipt" (receipt_to_dict r.receipt) end))))

unfoldable pub checkpoint_to_dict : BulkCheckpoint → Json
unfolding encode_all
checkpoint_to_dict c = object (
    member "schema_version" (int (pos 1)) (
      member "kind" (text "bulk_checkpoint") (
        member "plan" (plan_to_dict c.plan) (
          member "item_receipts" (array (encode_all item_to_dict c.item_receipts)) (
            member "cancellation_requested" (bool c.cancellation_requested)
              (member "resumption_cursor" (optional c.resumption_cursor) end))))))

abbrev plan_keys : List String
plan_keys =
    "schema_version" ∷ "kind" ∷ "operation" ∷ "items" ∷ "preview" ∷ "atomicity"
    ∷ "cancellation_requested" ∷ "resumption_cursor" ∷ []

abbrev checkpoint_keys : List String
checkpoint_keys =
    "schema_version" ∷ "kind" ∷ "plan" ∷ "item_receipts" ∷ "cancellation_requested"
    ∷ "resumption_cursor" ∷ []

module _ (k : Contract) where
  unfoldable pub plan_from_dict : Json → Result Exception BulkPlan
  unfolding decode_items
  plan_from_dict value = and_then (envelope "bulk_plan" plan_keys value) (λ m.
      and_then (plain_bool (lookup "preview" m)) (λ preview.
        and_then (plain_bool (lookup "cancellation_requested" m)) (λ cancellation_requested.
          and_then (required_text (lookup "operation" m)) (λ operation.
            and_then (decode_all (id_from_dict k) (lookup "items" m)) (λ items.
              and_then (and_then (required_text (lookup "atomicity" m)) atomicity_of) (λ atomicity.
                and_then (optional_text (lookup "resumption_cursor" m)) (λ resumption_cursor.
                  make_plan (record {
                    operation = operation;
                    items = items;
                    preview = preview;
                    atomicity = atomicity;
                    cancellation_requested = cancellation_requested;
                    resumption_cursor = resumption_cursor;
                  }))))))))

  unfoldable pub item_from_dict : Json → Result Exception BulkItemReceipt
  item_from_dict value =
      and_then
        (envelope "bulk_item_receipt" ("schema_version" ∷ "kind" ∷ "index" ∷ "receipt" ∷ []) value)
        (λ m. and_then (plain_index (lookup "index" m)) (λ index.
          and_then (receipt_from_dict k (lookup "receipt" m))
            (λ receipt. ok (record { index = index; receipt = receipt }))))

  unfoldable pub checkpoint_from_dict : Json → Result Exception BulkCheckpoint
  unfolding plan_from_dict item_from_dict decode_items
  checkpoint_from_dict value = and_then (envelope "bulk_checkpoint" checkpoint_keys value) (λ m.
      and_then (plain_bool (lookup "cancellation_requested" m)) (λ cancellation_requested.
        and_then (plan_from_dict (lookup "plan" m)) (λ plan.
          and_then (decode_all item_from_dict (lookup "item_receipts" m)) (λ item_receipts.
            and_then (optional_text (lookup "resumption_cursor" m)) (λ resumption_cursor.
              make_checkpoint (record {
                plan = plan;
                item_receipts = item_receipts;
                cancellation_requested = cancellation_requested;
                resumption_cursor = resumption_cursor;
              }))))))
