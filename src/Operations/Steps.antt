-- ===== src/Operations/Steps.antt =====
-- The operations on one adjustment as steps of its store: a turn of the retry path, a replay, a pass
-- of the reconciliation, and an operator's judgement, in any order.
pub mod ByTurns
pub mod Along
pub mod Apart
pub mod Settled
pub mod Constraint
use ledger_exception_control.Common.{ℕ, some, Option, ◌≡◌, Bool}
use ledger_exception_control.Control.{RecoveryResolution}
use ledger_exception_control.Operations.Rows.{Store, DeadLetterReason, Envelope, RecoveryReason}
use ledger_exception_control.Operations.Dispatch.{dispatch_once, AdapterAnswer, adapter_raised}
use ledger_exception_control.Operations.Retry.{RetryPolicy, dead_letter, resolve_not_sent, schedule}
use ledger_exception_control.Operations.Retry.Passes.{Turn, take_turn}
use ledger_exception_control.Operations.Replay.{replay_dead_letter, close_entry}
use ledger_exception_control.Operations.Recovery.{Principal, open_item, resolve_item}
use ledger_exception_control.Operations.Reconcile.{Adapter, ReconciliationPolicy}
use ledger_exception_control.Operations.Reconcile.Pass.{
  with_answer, conclude_confirmed, conclude_rejected, reconcile_once,
}
use ledger_exception_control.Ledger.Port.{LedgerAdapterCapabilities, QueryOutcome}
use ledger_exception_control.Ledger.Transport.{RaisedError}
use ledger_exception_control.Common.Int.{ℤ}
use ledger_exception_control.Common.Text.{Text}

pub data Step : Store → Store → Type 0 where
  turn : (policy : RetryPolicy) (s : Store) (k : Turn) → Step s (take_turn policy s k)
  replay :
      (c : LedgerAdapterCapabilities) (now : ℤ) (target : Option Text) (answer : AdapterAnswer)
      (principal : Text) (s : Store)
      → Step s (replay_dead_letter c now target answer principal s).1
  reconcile :
      (item_id : ℕ) (a : Adapter) (now : ℤ) (policy : ReconciliationPolicy)
      (requested : Option Text) (s : Store)
      → Step s (reconcile_once item_id a now policy requested s).1
  resolve :
      (item_id : ℕ) (p : Principal) (resolution : RecoveryResolution) (now : ℤ) (ref : Option Text)
      (s : Store)
      → Step s (resolve_item item_id p resolution now ref s).1

pub data Reachable (s : Store) : Store → Type 0 where
  start : Reachable s s
  after : {t u : Store} → Reachable s t → Step t u → Reachable s u

-- What every write to the store preserves. A request that is known not to have reached the ledger is
-- taken together with the dispatch that made it.
pub record Kept (P : Store → Type 0) : Type 0 where
  pub by_dispatch :
      (c : LedgerAdapterCapabilities) (now : ℤ) (target : Option Text) (answer : AdapterAnswer)
      (s : Store)
      → P s
      → P (dispatch_once c now target answer s).1
  pub by_failed_send :
      (c : LedgerAdapterCapabilities) (now : ℤ) (target : Option Text) (answer : AdapterAnswer)
      (s t u : Store) (e : RaisedError) (n : ℕ)
      → P s
      → dispatch_once c now target answer s ≡ (adapter_raised e, t)
      → resolve_not_sent t ≡ some (n, u)
      → P u
  pub by_letter :
      (reason : DeadLetterReason) (e : Envelope) (n : ℕ) (mark : Bool) (now : ℤ) (s t : Store)
      → P s
      → dead_letter reason e n mark now s ≡ some t
      → P t
  pub by_schedule : (at now : ℤ) (s : Store) → P s → P (schedule at now s)
  pub by_closing : (now : ℤ) (principal : Text) (s : Store) → P s → P (close_entry now principal s)
  pub by_opening :
      (item_id : ℕ) (reason : RecoveryReason) (now sla : ℤ) (s t : Store)
      → P s
      → open_item item_id reason now sla s ≡ some t
      → P t
  pub by_answer :
      (c : LedgerAdapterCapabilities) (now : ℤ) (answer : QueryOutcome) (s : Store)
      → P s
      → P (with_answer c now answer s)
  pub by_confirming : (now : ℤ) (ref : Text) (s : Store) → P s → P (conclude_confirmed now ref s)
  pub by_rejecting : (now : ℤ) (s : Store) → P s → P (conclude_rejected now s)
  pub by_judgement :
      (item_id : ℕ) (p : Principal) (resolution : RecoveryResolution) (now : ℤ) (ref : Option Text)
      (s : Store)
      → P s
      → P (resolve_item item_id p resolution now ref s).1
