-- ===== src/Ledger/Port.antt =====
-- ledger/port.py: the capability record, what a post answers, and the capabilities in effect.
use ledger_exception_control.Common.{
  none, ℕ, Option, Bool, false, List, ◌||◌, true, if◌then◌else◌, some, not,
}
use ledger_exception_control.Ledger.Vocabulary.{
  IdempotencyMode, PostingQueryMode, IdempotencyScope, Atomicity, ReversalMode, IdempotencyWindow,
  QueryConsistency,
}
use ledger_exception_control.Money.Decimal.{Decimal}
use ledger_exception_control.Common.Int.{ℤ, pos}
use ledger_exception_control.Common.Text.{Text}

-- A day, in microseconds.
abbrev pub undeclared_lag : ℤ
undeclared_lag = pos 86400000000

pub record LedgerAdapterCapabilities : Type 0 where
  pub idempotency : IdempotencyMode
  pub idempotency_window : IdempotencyWindow
  pub idempotency_scope : IdempotencyScope
  pub posting_identity_query : PostingQueryMode
  pub query_consistency : QueryConsistency
  pub max_inflight_window : ℤ
  pub atomicity : Atomicity
  pub reversal : ReversalMode

-- `LedgerAdapterCapabilities()`
abbrev pub default_capabilities : LedgerAdapterCapabilities
default_capabilities = record {
  idempotency = IdempotencyMode.none;
  idempotency_window = IdempotencyWindow.bounded (pos 0);
  idempotency_scope = IdempotencyScope.per_endpoint;
  posting_identity_query = PostingQueryMode.none;
  query_consistency = QueryConsistency.eventual undeclared_lag;
  max_inflight_window = undeclared_lag;
  atomicity = Atomicity.non_atomic;
  reversal = ReversalMode.none;
}

abbrev pub is_enforces_key : IdempotencyMode → Bool
is_enforces_key IdempotencyMode.enforces_key = true
is_enforces_key _ = false

abbrev pub is_by_operation_id : PostingQueryMode → Bool
is_by_operation_id PostingQueryMode.by_operation_id = true
is_by_operation_id _ = false

unfoldable pub suppresses_duplicates : LedgerAdapterCapabilities → Bool
suppresses_duplicates c = is_enforces_key c.idempotency

unfoldable pub queryable_by_operation_id : LedgerAdapterCapabilities → Bool
queryable_by_operation_id c = is_by_operation_id c.posting_identity_query

unfoldable pub permits_effectively_once_claim : LedgerAdapterCapabilities → Bool
unfolding suppresses_duplicates queryable_by_operation_id
permits_effectively_once_claim c = suppresses_duplicates c || queryable_by_operation_id c

pub record VerifiedCapabilities : Type 0 where
  pub adapter_name : Text
  pub suppression_proven : Bool
  pub query_proven : Bool

-- `verified is not None and verified.suppression_proven`, and the same of the query.
abbrev pub suppression_ok : Option VerifiedCapabilities → Bool
suppression_ok none = false
suppression_ok (some v) = v.suppression_proven

abbrev pub query_ok : Option VerifiedCapabilities → Bool
query_ok none = false
query_ok (some v) = v.query_proven

unfoldable pub effective_capabilities :
    LedgerAdapterCapabilities → Option VerifiedCapabilities → LedgerAdapterCapabilities
effective_capabilities declared verified = record declared {
  idempotency =
      if suppression_ok verified || not (is_enforces_key declared.idempotency)
      then declared.idempotency
      else IdempotencyMode.none;
  posting_identity_query =
      if query_ok verified || not (is_by_operation_id declared.posting_identity_query)
      then declared.posting_identity_query
      else PostingQueryMode.none;
}

pub record PostingInstruction : Type 0 where
  pub adjustment_id : ℕ
  pub amount : Decimal
  pub currency : Text
  pub account_code : Text
  pub period : Text

pub data PostingOutcome : Type 0 where
  confirmed : Text → PostingOutcome
  rejected : Text → PostingOutcome
  -- `retry_after`, in microseconds.
  throttled : ℤ → PostingOutcome
  unknown : Text → PostingOutcome
  partially_applied : ℤ → List Text → PostingOutcome

pub data QueryOutcome : Type 0 where
  found : Text → QueryOutcome
  not_found : QueryOutcome
  indeterminate : Text → QueryOutcome
