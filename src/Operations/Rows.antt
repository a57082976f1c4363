-- ===== src/Operations/Rows.antt =====
-- db/control.py: the rows that the database holds of one adjustment.
use ledger_exception_control.Common.{ℕ, none, Option, List}
use ledger_exception_control.Control.{
  OutcomeCode, AttemptState, DispatchState, ReplayState, RecoveryState, RecoveryResolution,
  QueryAnswer, AuditTool, AuditOutcome,
}
use ledger_exception_control.Ledger.Transport.{TransportVerdict}
use ledger_exception_control.Common.Int.{ℤ}
use ledger_exception_control.Common.Text.{Text}

-- Times are microseconds since the epoch, durations microseconds.
pub record PostingAttempt : Type 0 where
  pub attempt_no : ℕ
  pub sent_at : ℤ
  pub endpoint : Option Text
  pub state : AttemptState
  pub outcome : Option OutcomeCode
  pub resolved_at : Option ℤ
  pub posting_ref : Option Text

pub record Outbox : Type 0 where
  pub state : DispatchState
  pub last_outcome : Option OutcomeCode
  pub attempt_count : ℕ
  pub next_attempt_at : Option ℤ

pub data DeadLetterReason : Type 0 where
  attempts_exhausted time_budget_exhausted terminal_rejection : DeadLetterReason

-- The envelope of a dead letter, but for the identifiers of the operation and the adapter's name.
pub record Envelope : Type 0 where
  pub attempt_no : ℕ
  pub last_outcome : OutcomeCode
  pub transport : Option TransportVerdict
  pub first_sent_at : Option ℤ

pub record DeadLetter : Type 0 where
  pub envelope : Envelope
  pub reason : DeadLetterReason
  pub attempts : ℕ
  pub replay_state : ReplayState
  pub replayed_at : Option ℤ

pub record ReconciliationQuery : Type 0 where
  pub query_no : ℕ
  pub queried_at : ℤ
  pub answer : QueryAnswer
  pub posting_ref : Option Text
  pub detail : Option Text
  pub visibility_bound : ℤ
  pub max_inflight_window : ℤ

pub data RecoveryReason : Type 0 where
  no_suppression_or_query resend_window_expired resend_scope_unproven : RecoveryReason
  reconciliation_exhausted partially_applied : RecoveryReason

-- A recovery item, but for its text; `resolution`, `resolved_by` and `resolved_at` are set together.
pub record RecoveryItem : Type 0 where
  pub id : ℕ
  pub state : RecoveryState
  pub reason : RecoveryReason
  pub opened_at : ℤ
  pub sla_due_at : ℤ
  pub approving_principal : Text
  pub resolution : Option RecoveryResolution
  pub resolved_by : Option Text
  pub resolved_at : Option ℤ

-- An audit event; the principal is `none` for the system itself.
pub record AuditEvent : Type 0 where
  pub tool : AuditTool
  pub outcome : AuditOutcome
  pub occurred_at : ℤ
  pub principal : Option Text

-- All rows of one adjustment: its intent if there is one, the reference and the approver on the
-- adjustment itself, the attempts and the queries in the order of their numbers, its dead letter,
-- its recovery items and its audit events, the last one first.
pub record Store : Type 0 where
  pub outbox : Option Outbox
  pub posting_ref : Option Text
  pub approving_principal : Text
  pub attempts : List PostingAttempt
  pub dead_letter : Option DeadLetter
  pub queries : List ReconciliationQuery
  pub recovery : List RecoveryItem
  pub audit : List AuditEvent

-- `emit`, in the name of the system.
abbrev pub event : AuditTool → AuditOutcome → ℤ → AuditEvent
event tool outcome occurred_at = record {
  tool = tool;
  outcome = outcome;
  occurred_at = occurred_at;
  principal = none;
}
