-- ===== src/Catalog.antt =====
-- src/datasluice/domain/catalog: identifiers (ids.py, operations.py) and mutation receipts
-- (receipts.py).
use datasluice.Base.{
  String, Bool, true, ◌&&◌, Option, ◌==◌, Equatable, equatable_string, ◌≡◌, ◌↔◌, arith, eq_iff,
}
use datasluice.Json.{Members}
use datasluice.Safety.{Atomicity}

pub record CatalogId : Type 0 where
  pub platform : String
  pub resource_kind : String
  pub value : String

abbrev pub id_beq : CatalogId → CatalogId → Bool
id_beq a b = a.platform == b.platform && (a.resource_kind == b.resource_kind && a.value == b.value)

pub id_beq_iff : (a b : CatalogId) → (id_beq a b ≡ true) ↔ (a ≡ b)
id_beq_iff a b = ground (
  arith,
  eq_iff a.platform b.platform,
  eq_iff a.resource_kind b.resource_kind,
  eq_iff a.value b.value,
)

instance abbrev pub equatable_id : Equatable CatalogId
equatable_id = record { equals = id_beq; equals_iff = id_beq_iff }

pub record OperationId : Type 0 where
  pub platform : String
  pub service : String
  pub method : String

abbrev pub operation_beq : OperationId → OperationId → Bool
operation_beq a b = a.platform == b.platform && (a.service == b.service && a.method == b.method)

pub operation_beq_iff : (a b : OperationId) → (operation_beq a b ≡ true) ↔ (a ≡ b)
operation_beq_iff a b =
    ground
      (arith, eq_iff a.platform b.platform, eq_iff a.service b.service, eq_iff a.method b.method)

instance abbrev pub equatable_operation : Equatable OperationId
equatable_operation = record { equals = operation_beq; equals_iff = operation_beq_iff }

pub data Outcome : Type 0 where
  succeeded rejected failed cancelled ambiguous skipped : Outcome

pub record MutationReceipt : Type 0 where
  pub operation : String
  pub outcome : Outcome
  pub target : CatalogId
  pub version_token : Option String
  pub request_id : Option String
  pub atomicity : Atomicity
  pub operation_atomicity : Atomicity
  pub audit_metadata : Members
