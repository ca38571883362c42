-- ===== src/Receipts/RoundTrips.antt =====
-- What `to_dict` writes, `from_dict` reads back.
use datasluice.Base.{
  String, false, Option, none, some, List, [], ◌∷◌, ◌≡◌, refl, ◌==◌, equatable_string, All, arith,
}
use datasluice.Base.Exec.{Result, ok}
use datasluice.Errors.{Exception}
use datasluice.Json.{Json, text}
use datasluice.Safety.{Atomicity, atomic, independent}
use datasluice.Catalog.{
  CatalogId, MutationReceipt, Outcome, succeeded, rejected, failed, cancelled, ambiguous, skipped,
}
use datasluice.Bulk.{BulkPlan, make_plan, BulkItemReceipt, BulkCheckpoint, make_checkpoint}
use datasluice.Receipts.{
  Contract, and_then, required_text, optional_text, optional, outcome_text, outcome_of,
  atomicity_text, atomicity_of, id_to_dict, id_from_dict, build_id, build_receipt, receipt_to_dict,
  receipt_from_dict,
}
use datasluice.Receipts.Plans.{
  encode_all, decode_items, plan_to_dict, plan_from_dict, item_to_dict, item_from_dict,
  checkpoint_to_dict, checkpoint_from_dict,
}

read_outcome : (o : Outcome) → and_then (required_text (text (outcome_text o))) outcome_of ≡ ok o
unfolding outcome_of
read_outcome succeeded = refl
read_outcome rejected = refl
read_outcome failed = refl
read_outcome cancelled = refl
read_outcome ambiguous = refl
read_outcome skipped = refl

read_atomicity :
    (a : Atomicity) → and_then (required_text (text (atomicity_text a))) atomicity_of ≡ ok a
unfolding atomicity_of
read_atomicity atomic = refl
read_atomicity independent = refl

read_optional : (o : Option String) → optional_text (optional o) ≡ ok o
read_optional none = refl
read_optional (some s) = refl

read_text : (s : String) → (s == "") ≡ false → required_text (text s) ≡ ok s
read_text s e = rw e refl

read-All :
    {A : Type 0} (f : Json → Result Exception A) (g : A → Json) (xs : List A)
    → All (λ x. f (g x) ≡ ok x) xs
    → decode_items f (encode_all g xs) ≡ ok xs
unfolding encode_all decode_items
read-All f g [] h = refl
read-All f g (x ∷ xs) (h, hs) = rw (h, read-All f g xs hs) refl

module _ (k : Contract) where
  id-round : (i : CatalogId) → build_id k i ≡ ok i → id_from_dict k (id_to_dict i) ≡ ok i
  unfolding id_from_dict id_to_dict
  id-round i built = built

  -- A receipt that was built: its constructor and its target's accept it as it is.
  abbrev pub IsReceipt : MutationReceipt → Type 0
  IsReceipt r = (build_id k r.target ≡ ok r.target) × (build_receipt k r ≡ ok r)

  named : (r : MutationReceipt) → build_receipt k r ≡ ok r → (r.operation == "") ≡ false
  unfolding build_receipt
  named r e = ground (arith, e)

  receipt-round :
      (r : MutationReceipt) → IsReceipt r → receipt_from_dict k (receipt_to_dict r) ≡ ok r
  unfolding receipt_from_dict receipt_to_dict
  receipt-round r (target, built) =
      rw
        (
          named r built,
          read_outcome r.outcome,
          id-round r.target target,
          read_optional r.version_token,
          read_optional r.request_id,
          read_atomicity r.atomicity,
          read_atomicity r.operation_atomicity,
        )
        built

  item-round :
      (r : BulkItemReceipt) → IsReceipt r.receipt → item_from_dict k (item_to_dict r) ≡ ok r
  unfolding item_from_dict item_to_dict
  item-round r built = rw (receipt-round r.receipt built) refl

  abbrev pub IsPlan : BulkPlan → Type 0
  IsPlan p = (make_plan p ≡ ok p) × All (λ i. build_id k i ≡ ok i) p.items

  titled : (p : BulkPlan) → make_plan p ≡ ok p → (p.operation == "") ≡ false
  unfolding make_plan
  titled p e = ground (arith, e)

  ids-round :
      (items : List CatalogId)
      → All (λ i. build_id k i ≡ ok i) items
      → All (λ i. id_from_dict k (id_to_dict i) ≡ ok i) items
  ids-round [] h = tt
  ids-round (i ∷ items) (h, hs) = (id-round i h, ids-round items hs)

  plan-round : (p : BulkPlan) → IsPlan p → plan_from_dict k (plan_to_dict p) ≡ ok p
  unfolding plan_from_dict plan_to_dict
  plan-round p (built, ids) =
      rw
        (
          titled p built,
          read-All (id_from_dict k) id_to_dict p.items (ids-round p.items ids),
          read_atomicity p.atomicity,
          read_optional p.resumption_cursor,
        )
        built

  items-round :
      (rs : List BulkItemReceipt)
      → All (λ r. IsReceipt r.receipt) rs
      → All (λ r. item_from_dict k (item_to_dict r) ≡ ok r) rs
  items-round [] h = tt
  items-round (r ∷ rs) (h, hs) = (item-round r h, items-round rs hs)

  -- A checkpoint that its constructors accept, with the plan, the identifiers and the receipts in
  -- it, is written and read back as it was.
  pub checkpoint-round :
      (c : BulkCheckpoint)
      → make_checkpoint c ≡ ok c
      → IsPlan c.plan
      → All (λ r. IsReceipt r.receipt) c.item_receipts
      → checkpoint_from_dict k (checkpoint_to_dict c) ≡ ok c
  unfolding checkpoint_from_dict checkpoint_to_dict
  checkpoint-round c built plan receipts =
      rw
        (
          plan-round c.plan plan,
          read-All (item_from_dict k) item_to_dict c.item_receipts
              (items-round c.item_receipts receipts),
          read_optional c.resumption_cursor,
        )
        built
