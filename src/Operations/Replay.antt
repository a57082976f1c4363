-- ===== src/Operations/Replay.antt =====
-- operations/retry.py: `replay_dead_letter`.
pub mod Grounds
use mathlib.Core.Option
use ledger_exception_control.Common.{
  ℕ, none, some, Option, Bool, true, if◌then◌else◌, ◌∷◌, false, not,
}
use ledger_exception_control.Control.{OutcomeCode, ReplayState, AuditTool, AuditOutcome}
use ledger_exception_control.Operations.Rows.{Outbox, Store, DeadLetter}
use ledger_exception_control.Ledger.Port.{PostingOutcome, LedgerAdapterCapabilities}
use ledger_exception_control.Ledger.Transport.{
  TransportVerdict, retryable, classify_transport_failure,
}
use ledger_exception_control.Common.Int.{ℤ}
use ledger_exception_control.Operations.Dispatch.{
  dispatch_once, DispatchEnd, AdapterAnswer, adapter_raised, recorded, dispatched,
  unrecognised_answer,
}
use ledger_exception_control.Operations.Retry.{resolve_not_sent}
use ledger_exception_control.Common.Text.{Text}

pub data ReplayOutcome : Type 0 where
  applied already_confirmed rejected refused not_sent held : ReplayOutcome

-- How a replay ends: with a report, or by the exception for an entry that is missing or not
-- pending, for a missing intent, or for an answer that is no outcome.
pub data ReplayEnd : Type 0 where
  replayed : ReplayOutcome → Option Text → ReplayEnd
  no_dead_letter not_pending intent_missing answer_unrecognised : ReplayEnd

-- `_RESOLVES_THE_ENTRY`
abbrev pub resolves_entry : ReplayOutcome → Bool
resolves_entry ReplayOutcome.applied = true
resolves_entry ReplayOutcome.already_confirmed = true
resolves_entry ReplayOutcome.rejected = true
resolves_entry _ = false

abbrev pub is_replay_pending : ReplayState → Bool
is_replay_pending ReplayState.pending = true
is_replay_pending _ = false

abbrev pub mark_replayed : ℤ → DeadLetter → DeadLetter
mark_replayed now d = record d { replay_state = ReplayState.replayed; replayed_at = some now }

-- `_close_entry`
unfoldable pub close_entry : ℤ → Text → Store → Store
close_entry now principal s = record s {
  dead_letter = Option.map (mark_replayed now) s.dead_letter;
  audit =
      (record {
        tool = AuditTool.replay;
        outcome = AuditOutcome.success;
        occurred_at = now;
        principal = some principal;
      })
      ∷ s.audit;
}

-- `_resolve_not_sent`, of which the replay does not use the answer.
abbrev pub resolved_or_same : Store → Option (ℕ × Store) → Store
resolved_or_same s none = s
resolved_or_same s (some (n, t)) = t

abbrev pub replay_raised : TransportVerdict → Store → ReplayEnd × Store
replay_raised verdict s =
    if retryable verdict
    then (replayed ReplayOutcome.not_sent none, resolved_or_same s (resolve_not_sent s))
    else (replayed ReplayOutcome.held none, s)

abbrev pub replay_answered : ℤ → Text → PostingOutcome → Store → ReplayEnd × Store
replay_answered now principal (PostingOutcome.confirmed ref) s =
    (replayed ReplayOutcome.applied (some ref), close_entry now principal s)
replay_answered now principal (PostingOutcome.rejected why) s =
    (replayed ReplayOutcome.rejected none, close_entry now principal s)
replay_answered now principal _ s = (replayed ReplayOutcome.held none, s)

abbrev pub replay_dispatched : ℤ → Text → DispatchEnd × Store → ReplayEnd × Store
replay_dispatched now principal (DispatchEnd.refused why, s) =
    (replayed ReplayOutcome.refused none, s)
replay_dispatched now principal (adapter_raised error, s) =
    replay_raised (classify_transport_failure error) s
replay_dispatched now principal (unrecognised_answer, s) = (answer_unrecognised, s)
replay_dispatched now principal (dispatched n outcome is_settled, s) =
    replay_answered now principal outcome s

abbrev pub is_rejected : OutcomeCode → Bool
is_rejected OutcomeCode.rejected = true
is_rejected _ = false

-- From the reading of the entry's operation on.
abbrev pub replay_entry :
    LedgerAdapterCapabilities
    → ℤ
    → Option Text
    → AdapterAnswer
    → Text
    → Store
    → Option Text
    → Option Outbox
    → ReplayEnd × Store
replay_entry c now target answer principal s ref none = (intent_missing, s)
replay_entry c now target answer principal s (some already) (some o) =
    (replayed ReplayOutcome.already_confirmed (some already), close_entry now principal s)
replay_entry c now target answer principal s none (some o) =
    if recorded is_rejected o.last_outcome
    then (replayed ReplayOutcome.rejected none, close_entry now principal s)
    else replay_dispatched now principal (dispatch_once c now target answer s)

abbrev pub replay_letter :
    LedgerAdapterCapabilities
    → ℤ
    → Option Text
    → AdapterAnswer
    → Text
    → Store
    → Option DeadLetter
    → ReplayEnd × Store
replay_letter c now target answer principal s none = (no_dead_letter, s)
replay_letter c now target answer principal s (some d) =
    if not (is_replay_pending d.replay_state)
    then (not_pending, s)
    else replay_entry c now target answer principal s s.posting_ref s.outbox

-- `replay_dead_letter`
unfoldable pub replay_dead_letter :
    LedgerAdapterCapabilities → ℤ → Option Text → AdapterAnswer → Text → Store → ReplayEnd × Store
unfolding dispatch_once close_entry resolve_not_sent
replay_dead_letter c now target answer principal s =
    replay_letter c now target answer principal s s.dead_letter
