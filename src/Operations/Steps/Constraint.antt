-- ===== src/Operations/Steps/Constraint.antt =====
-- That every operation keeps the check constraint `settled_requires_terminal_outcome` of the intent.
use mathlib.Core.Option
use ledger_exception_control.Common.{
  ℕ, none, some, Option, ◌≡◌, true, refl, inl, inr, Bool-cases, arith, any,
}
use ledger_exception_control.Control.{OutcomeCode, RecoveryResolution}
use ledger_exception_control.Operations.Rows.{Store, Outbox, RecoveryItem, RecoveryReason}
use ledger_exception_control.Operations.Dispatch.{is_terminal}
use ledger_exception_control.Operations.Retry.{schedule, schedule_at}
use ledger_exception_control.Common.Int.{ℤ}
use ledger_exception_control.Common.Text.{Text, text_eq}
use ledger_exception_control.Operations.Recovery.{
  open_item, resolve_item, settle_as, Principal, settled_code, after_evidence, settle_intent_as,
  settle_by_evidence, resolve_found, is_open, RecoveryRefusal, after_check, find_item,
  is_operations_role, check_reference,
}
use ledger_exception_control.Operations.Steps.{Reachable, Kept}
use ledger_exception_control.Operations.Steps.Along.{Reachable-kept}
use ledger_exception_control.Operations.Replay.{close_entry}
use ledger_exception_control.Operations.Reconcile.Pass.{
  with_answer, conclude_confirmed, conclude_rejected,
}
use mathlib.Core.Path.{subst}
use ledger_exception_control.Operations.Steps.Settled.{
  SettledIsTerminal, IsConstrained, Sent, Sent-kept, dispatch_once-Sent, ConstrainedResult,
  ConstrainedResolved, unsent-kept, letter-kept,
}
use ledger_exception_control.Operations.Retry.{schedule_at}

judged-kept :
    (item_id : ℕ) (p : Principal) (resolution : RecoveryResolution) (now : ℤ) (ref : Option Text)
    (s : Store)
    → IsConstrained s
    → IsConstrained (resolve_item item_id p resolution now ref s).1
unfolding resolve_item
judged-kept item_id p resolution now ref s h = elim (Bool-cases (is_operations_role p.role)) [
  | inl able ↦ rw able (checked (check_reference resolution ref))
  | inr barred ↦ rw barred h
]
  where
    intent :
        (i : RecoveryItem) (o : Option Outbox) (r : RecoveryResolution) (c : OutcomeCode)
        → settled_code r ≡ some c
        → IsConstrained
            (after_evidence item_id p.id resolution now i s (settle_intent_as c ref s o)).1
    intent i none r c e = h
    intent i (some o) RecoveryResolution.confirmed_by_evidence c e = ground (arith, e)
    intent i (some o) RecoveryResolution.rejected_by_evidence c e = ground (arith, e)
    intent i (some o) RecoveryResolution.resolved_unverified c e = absurd (cc (e))

    evidenced :
        (i : RecoveryItem) (code : Option OutcomeCode)
        → settled_code resolution ≡ code
        → IsConstrained
            (after_evidence item_id p.id resolution now i s (settle_by_evidence code ref s)).1
    evidenced i none e = h
    evidenced i (some c) e = intent i s.outbox resolution c e

    found :
        (o : Option RecoveryItem)
        → IsConstrained (resolve_found item_id p.id resolution now ref s o).1
    found none = h
    found (some i) = elim (Bool-cases (is_open i)) [
      | inr shut ↦ rw shut h
      | inl free ↦ elim (Bool-cases (text_eq p.id i.approving_principal)) [
        | inl own ↦ rw (free, own) h
        | inr other ↦ rw (free, other) (evidenced i (settled_code resolution) refl)
      ]
    ]

    checked :
        (o : Option RecoveryRefusal)
        → IsConstrained (after_check item_id p.id resolution now ref s o).1
    checked (some refusal) = h
    checked none = found (find_item item_id s.recovery)

opened-kept :
    (item_id : ℕ) (reason : RecoveryReason) (now sla : ℤ) (s : Store)
    → IsConstrained s
    → ConstrainedResult (open_item item_id reason now sla s)
unfolding open_item
opened-kept item_id reason now sla s h = elim (Bool-cases (any is_open s.recovery)) [
  | inl held ↦ rw held tt
  | inr free ↦ rw free h
]

settled_by-terminal :
    (code : OutcomeCode) (o : Option Outbox)
    → is_terminal code ≡ true
    → SettledIsTerminal (Option.map (settle_as code) o)
settled_by-terminal code none e = tt
settled_by-terminal code (some o) e = e

scheduled-kept :
    (at : ℤ) (o : Option Outbox)
    → SettledIsTerminal o
    → SettledIsTerminal (Option.map (schedule_at at) o)
scheduled-kept at none h = tt
scheduled-kept at (some o) h = h

constraint-Kept : Kept IsConstrained
unfolding schedule close_entry with_answer conclude_confirmed conclude_rejected
constraint-Kept = record {
  by_dispatch = λ c now target answer s h. Sent-kept _ (dispatch_once-Sent c now target answer s h);
  by_failed_send = λ c now target answer s t u e n h d f.
      subst ConstrainedResolved f
        (unsent-kept t (subst Sent d (dispatch_once-Sent c now target answer s h)));
  by_letter = λ reason e n mark now s t h f.
      subst ConstrainedResult f (letter-kept reason e n mark now s h);
  by_schedule = λ at now s h. scheduled-kept at s.outbox h;
  by_closing = λ now principal s h. h;
  by_opening = λ item_id reason now sla s t h f.
      subst ConstrainedResult f (opened-kept item_id reason now sla s h);
  by_answer = λ c now answer s h. h;
  by_confirming = λ now ref s h. settled_by-terminal OutcomeCode.confirmed s.outbox refl;
  by_rejecting = λ now s h. settled_by-terminal OutcomeCode.rejected s.outbox refl;
  by_judgement = judged-kept;
}

-- Wherever the turns of the retry path, the replays, the passes of the reconciliation and the
-- judgements of operators lead, in any order, a settled intent holds the outcome `confirmed` or
-- `rejected`, given that this held at the start: the check constraint refuses none of their writes.
pub Reachable-IsConstrained : (s t : Store) → Reachable s t → IsConstrained s → IsConstrained t
Reachable-IsConstrained s t r = Reachable-kept constraint-Kept r
