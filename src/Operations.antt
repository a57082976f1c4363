-- ===== src/Operations.antt =====
-- src/ledger_exception_control_plane/operations: the dispatch of one adjustment, its retries, its
-- replay, its reconciliation and the judgement of an operator.
pub mod Rows
pub mod Resend
pub mod Dispatch
pub mod Retry
pub mod Replay
pub mod Recovery
pub mod Reconcile
pub mod Steps
pub mod Approval
pub mod Identity
pub mod Queue
pub mod Claim
pub mod Tests
