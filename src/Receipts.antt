-- ===== src/Receipts.antt =====
-- The schema-v1 envelopes of src/datasluice/domain/catalog/receipts.py and of `CatalogId` in
-- ids.py: `to_dict` and `from_dict`. The check of a platform's or kind's text and the freezing of
-- audit metadata, which rejects credentials, are parameters.
pub mod Plans
pub mod RoundTrips
pub mod Tests
use datasluice.Base.{
  ℕ, ℤ, pos, negsuc, String, Bool, true, false, not, ◌&&◌, ◌||◌, Option, none, some, List, [], ◌∷◌,
  contains, ◌==◌, equatable_string, equatable_nat, if◌then◌else◌,
}
use datasluice.Base.Exec.{Result, ok, raise}
use datasluice.Errors.{Exception, contract_error}
use datasluice.Json.{
  Json, null, bool, int, text, array, object, Items, nil, cons, Members, end, member,
}
use datasluice.Safety.{Atomicity, atomic, independent, is_atomic}
use datasluice.Catalog.{
  CatalogId, MutationReceipt, Outcome, succeeded, rejected, failed, cancelled, ambiguous, skipped,
}
use datasluice.Bulk.{BulkPlan, make_plan, BulkItemReceipt, BulkCheckpoint, make_checkpoint}

-- What the codecs call: whether a text is a platform or a kind, and the freezing of metadata.
pub record Contract : Type 0 where
  pub is_name : String → Bool
  pub freeze : Members → Result Exception Members

abbrev pub and_then :
    {A B : Type 0} → Result Exception A → (A → Result Exception B) → Result Exception B
and_then (ok a) f = f a
and_then (raise e) f = raise e

abbrev pub lookup : String → Members → Json
lookup key end = null
lookup key (member k v rest) = if k == key then v else lookup key rest

abbrev pub has_key : Members → String → Bool
has_key end key = false
has_key (member k v rest) key = (k == key) || has_key rest key

abbrev pub all_in : List String → Members → Bool
all_in keys end = true
all_in keys (member k v rest) = contains keys k && all_in keys rest

abbrev pub all_of : List String → Members → Bool
all_of [] m = true
all_of (key ∷ keys) m = has_key m key && all_of keys m

-- `set(data) == {…}`
abbrev pub has_keys : List String → Members → Bool
has_keys keys m = all_in keys m && all_of keys m

-- `schema_version` is the int 1 and `kind` is the given text.
abbrev pub is_version : Json → Bool
is_version (int (pos n)) = n == 1
is_version _ = false

abbrev pub is_text : String → Json → Bool
is_text s (text t) = s == t
is_text s _ = false

-- `_object_dict`, the test of the keys, and the test of the version and the kind.
abbrev pub envelope : String → List String → Json → Result Exception Members
envelope kind keys (object m) =
    if has_keys keys m && (is_version (lookup "schema_version" m) && is_text kind (lookup "kind" m))
    then ok m
    else raise contract_error
envelope kind keys _ = raise contract_error

abbrev pub required_text : Json → Result Exception String
required_text (text s) = if s == "" then raise contract_error else ok s
required_text _ = raise contract_error

abbrev pub plain_text : Json → Result Exception String
plain_text (text s) = ok s
plain_text _ = raise contract_error

abbrev pub optional_text : Json → Result Exception (Option String)
optional_text null = ok none
optional_text (text s) = ok (some s)
optional_text _ = raise contract_error

abbrev pub plain_bool : Json → Result Exception Bool
plain_bool (bool b) = ok b
plain_bool _ = raise contract_error

abbrev pub plain_index : Json → Result Exception ℕ
plain_index (int (pos n)) = ok n
plain_index _ = raise contract_error

abbrev pub object_dict : Json → Result Exception Members
object_dict (object m) = ok m
object_dict _ = raise contract_error

abbrev pub optional : Option String → Json
optional none = null
optional (some s) = text s

abbrev pub outcome_text : Outcome → String
outcome_text succeeded = "succeeded"
outcome_text rejected = "rejected"
outcome_text failed = "failed"
outcome_text cancelled = "cancelled"
outcome_text ambiguous = "ambiguous"
outcome_text skipped = "skipped"

-- `outcome in _OUTCOMES`
unfoldable pub outcome_of : String → Result Exception Outcome
outcome_of s =
    if s == "succeeded"
    then ok succeeded
    else if s == "rejected"
    then ok rejected
    else if s == "failed"
    then ok failed
    else if s == "cancelled"
    then ok cancelled
    else if s == "ambiguous"
    then ok ambiguous
    else if s == "skipped"
    then ok skipped
    else raise contract_error

abbrev pub atomicity_text : Atomicity → String
atomicity_text atomic = "atomic"
atomicity_text independent = "independent"

-- `atomicity in _ATOMICITIES`
unfoldable pub atomicity_of : String → Result Exception Atomicity
atomicity_of s =
    if s == "atomic"
    then ok atomic
    else if s == "independent"
    then ok independent
    else raise contract_error

unfoldable pub id_to_dict : CatalogId → Json
id_to_dict i = object (
    member "schema_version" (int (pos 1)) (
      member "kind" (text "catalog_id") (
        member "platform" (text i.platform)
          (member "resource_kind" (text i.resource_kind) (member "value" (text i.value) end)))))

module _ (k : Contract) where
  -- `CatalogId(CatalogPlatform(…), ResourceKind(…), …)`
  unfoldable pub build_id : CatalogId → Result Exception CatalogId
  build_id i =
      if not (k.is_name i.platform && k.is_name i.resource_kind)
      then raise contract_error
      else if i.value == ""
      then raise contract_error
      else ok i

  unfoldable pub id_from_dict : Json → Result Exception CatalogId
  unfolding build_id
  id_from_dict value =
      and_then
        (envelope "catalog_id"
          ("schema_version" ∷ "kind" ∷ "platform" ∷ "resource_kind" ∷ "value" ∷ []) value)
        (λ m. and_then (plain_text (lookup "platform" m)) (λ platform.
          and_then (plain_text (lookup "resource_kind" m)) (λ resource_kind.
            and_then (plain_text (lookup "value" m)) (λ v.
              build_id
                (record { platform = platform; resource_kind = resource_kind; value = v })))))

  -- `MutationReceipt.__post_init__`
  unfoldable pub build_receipt : MutationReceipt → Result Exception MutationReceipt
  build_receipt r =
      if r.operation == "" || (is_atomic r.atomicity && not (is_atomic r.operation_atomicity))
      then raise contract_error
      else and_then (k.freeze r.audit_metadata) (λ audit. ok (record r { audit_metadata = audit }))

unfoldable pub receipt_to_dict : MutationReceipt → Json
unfolding id_to_dict
receipt_to_dict r = object (
    member "schema_version" (int (pos 1)) (
      member "kind" (text "mutation_receipt") (
        member "operation" (text r.operation) (
          member "outcome" (text (outcome_text r.outcome)) (
            member "target" (id_to_dict r.target) (
              member "version_token" (optional r.version_token) (
                member "request_id" (optional r.request_id) (
                  member "atomicity" (text (atomicity_text r.atomicity)) (
                    member "operation_atomicity" (text (atomicity_text r.operation_atomicity))
                      (member "audit_metadata" (object r.audit_metadata) end))))))))))

abbrev receipt_keys : List String
receipt_keys =
    "schema_version" ∷ "kind" ∷ "operation" ∷ "outcome" ∷ "target" ∷ "version_token" ∷ "request_id"
    ∷ "atomicity" ∷ "operation_atomicity" ∷ "audit_metadata" ∷ []

module _ (k : Contract) where
  unfoldable pub receipt_from_dict : Json → Result Exception MutationReceipt
  unfolding id_from_dict build_receipt outcome_of atomicity_of
  receipt_from_dict value = and_then (envelope "mutation_receipt" receipt_keys value) (λ m.
      and_then (required_text (lookup "operation" m)) (λ operation.
        and_then (and_then (required_text (lookup "outcome" m)) outcome_of) (λ outcome.
          and_then (id_from_dict k (lookup "target" m)) (λ target.
            and_then (optional_text (lookup "version_token" m)) (λ version_token.
              and_then (optional_text (lookup "request_id" m)) (λ request_id.
                and_then (and_then (required_text (lookup "atomicity" m)) atomicity_of)
                  (λ atomicity.
                    and_then
                      (and_then (required_text (lookup "operation_atomicity" m)) atomicity_of)
                      (λ operation_atomicity.
                        and_then (object_dict (lookup "audit_metadata" m)) (λ audit_metadata.
                          build_receipt k (record {
                            operation = operation;
                            outcome = outcome;
                            target = target;
                            version_token = version_token;
                            request_id = request_id;
                            atomicity = atomicity;
                            operation_atomicity = operation_atomicity;
                            audit_metadata = audit_metadata;
                          }))))))))))
