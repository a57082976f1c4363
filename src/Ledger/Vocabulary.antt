-- ===== src/Ledger/Vocabulary.antt =====
-- ledger/port.py: the closed vocabularies of the capability record.
use ledger_exception_control.Common.Int.{ℤ}

pub data IdempotencyMode : Type 0 where
  none accepts_key enforces_key : IdempotencyMode

pub data PostingQueryMode : Type 0 where
  none by_operation_id : PostingQueryMode

pub data IdempotencyScope : Type 0 where
  global per_endpoint per_account : IdempotencyScope

pub data Atomicity : Type 0 where
  atomic non_atomic : Atomicity

pub data ReversalMode : Type 0 where
  none void compensating : ReversalMode

-- `dt.timedelta | Unbounded`; a `timedelta` is a whole number of microseconds.
pub data IdempotencyWindow : Type 0 where
  bounded : ℤ → IdempotencyWindow
  unbounded : IdempotencyWindow

pub data QueryConsistency : Type 0 where
  linearizable : QueryConsistency
  eventual : ℤ → QueryConsistency
