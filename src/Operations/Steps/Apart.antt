-- ===== src/Operations/Steps/Apart.antt =====
-- What is said of the recovery items and of the approver only, the writes to the other rows preserve.
use ledger_exception_control.Common.{
  ℕ, none, some, Option, ◌≡◌, false, inl, inr, Bool-cases, ◌++◌, ◌∷◌, [], List, any, keep, Bool,
  true, refl,
}
use ledger_exception_control.Control.{RecoveryResolution, OutcomeCode}
use ledger_exception_control.Operations.Rows.{
  Store, PostingAttempt, DeadLetter, DeadLetterReason, Envelope, RecoveryItem, RecoveryReason,
  Outbox,
}
use ledger_exception_control.Operations.Dispatch.{
  dispatch_once, AdapterAnswer, record_outcome, is_in_flight,
}
use ledger_exception_control.Operations.Retry.{
  dead_letter, dead_letter_over, resolve_not_sent, resolve_not_sent_of, schedule,
}
use ledger_exception_control.Operations.Replay.{close_entry}
use ledger_exception_control.Operations.Recovery.{
  find_item, rewrite_item, judge, after_evidence, resolve_found, after_check, settle_intent_as,
  settled_code, check_reference, is_operations_role, RecoveryRefusal, Principal, open_item,
  resolve_item, new_item, is_open, settle_by_evidence,
}
use ledger_exception_control.Operations.Reconcile.Pass.{
  with_answer, conclude_confirmed, conclude_rejected,
}
use ledger_exception_control.Operations.Steps.{Kept}
use ledger_exception_control.Ledger.Port.{LedgerAdapterCapabilities}
use ledger_exception_control.Common.Int.{ℤ}
use ledger_exception_control.Common.Text.{Text, text_eq}
use mathlib.Core.Path.{subst}
use ledger_exception_control.Operations.Dispatch.Sends.{dispatch_once-elim}

module _ (Q : Text → List RecoveryItem → Type 0) where
  abbrev pub On : Store → Type 0
  On s = Q s.approving_principal s.recovery

  abbrev OnResult : Option Store → Type 0
  OnResult none = Unit
  OnResult (some s) = On s

  abbrev OnResolved : Option (ℕ × Store) → Type 0
  OnResolved none = Unit
  OnResolved (some (n, s)) = On s

  dispatched-On :
      (c : LedgerAdapterCapabilities) (now : ℤ) (target : Option Text) (answer : AdapterAnswer)
      (s : Store)
      → On s
      → On (dispatch_once c now target answer s).1
  unfolding record_outcome
  dispatched-On c now target answer s h =
      dispatch_once-elim c now target answer s On h (λ n. h) (λ n outcome. h)

  unsent-On : (s : Store) → On s → OnResolved (resolve_not_sent s)
  unfolding resolve_not_sent
  unsent-On s h = go (keep is_in_flight s.attempts)
    where
      go : (l : List PostingAttempt) → OnResolved (resolve_not_sent_of l s)
      go [] = tt
      go (a ∷ []) = h
      go (a ∷ b ∷ more) = tt

  letter-On :
      (reason : DeadLetterReason) (e : Envelope) (n : ℕ) (mark : Bool) (now : ℤ) (s : Store)
      → On s
      → OnResult (dead_letter reason e n mark now s)
  unfolding dead_letter
  letter-On reason e n mark now s h = go s.dead_letter
    where
      go : (o : Option DeadLetter) → OnResult (dead_letter_over reason e n mark now s o)
      go none = h
      go (some earlier) = tt

  -- A judgement rewrites the item that has the identifier, if it is open and another principal's.
  judged-On :
      (item_id : ℕ) (p : Principal) (resolution : RecoveryResolution) (now : ℤ) (ref : Option Text)
      (s : Store)
      → On s
      → ((i : RecoveryItem)
          → find_item item_id s.recovery ≡ some i
          → is_open i ≡ true
          → text_eq p.id i.approving_principal ≡ false
          → Q s.approving_principal (rewrite_item item_id (judge p.id resolution now) s.recovery))
      → On (resolve_item item_id p resolution now ref s).1
  unfolding resolve_item
  judged-On item_id p resolution now ref s h w = elim (Bool-cases (is_operations_role p.role)) [
    | inl able ↦ rw able (checked (check_reference resolution ref))
    | inr barred ↦ rw barred h
  ]
    where
      intent :
          (i : RecoveryItem) (c : OutcomeCode) (o : Option Outbox)
          → Q s.approving_principal (rewrite_item item_id (judge p.id resolution now) s.recovery)
          → On (after_evidence item_id p.id resolution now i s (settle_intent_as c ref s o)).1
      intent i c none g = h
      intent i c (some o) g = g

      evidenced :
          (i : RecoveryItem) (code : Option OutcomeCode)
          → Q s.approving_principal (rewrite_item item_id (judge p.id resolution now) s.recovery)
          → On (after_evidence item_id p.id resolution now i s (settle_by_evidence code ref s)).1
      evidenced i none g = g
      evidenced i (some c) g = intent i c s.outbox g

      found :
          (o : Option RecoveryItem)
          → find_item item_id s.recovery ≡ o
          → On (resolve_found item_id p.id resolution now ref s o).1
      found none e = h
      found (some i) e = elim (Bool-cases (is_open i)) [
        | inr shut ↦ rw shut h
        | inl free ↦ elim (Bool-cases (text_eq p.id i.approving_principal)) [
          | inl own ↦ rw (free, own) h
          | inr other ↦ rw (free, other) (evidenced i (settled_code resolution) (w i e free other))
        ]
      ]

      checked :
          (o : Option RecoveryRefusal) → On (after_check item_id p.id resolution now ref s o).1
      checked (some refusal) = h
      checked none = found (find_item item_id s.recovery) refl

  -- What remains to show: that an item may be opened, and that an item may be judged.
  pub items-Kept :
      ((item_id : ℕ) (reason : RecoveryReason) (now sla : ℤ) (s : Store)
        → On s
        → any is_open s.recovery ≡ false
        → Q s.approving_principal
            (s.recovery ++ new_item item_id reason now sla s.approving_principal ∷ []))
      → ((item_id : ℕ) (p : Principal) (resolution : RecoveryResolution) (now : ℤ)
            (ref : Option Text) (s : Store)
          → On s
          → (i : RecoveryItem) → find_item item_id s.recovery ≡ some i
          → is_open i ≡ true
          → text_eq p.id i.approving_principal ≡ false
          → Q s.approving_principal (rewrite_item item_id (judge p.id resolution now) s.recovery))
      → Kept On
  unfolding schedule close_entry open_item with_answer conclude_confirmed conclude_rejected
  items-Kept opened judged = record {
    by_dispatch = dispatched-On;
    by_failed_send = λ c now target answer s t u e n h d f.
        subst OnResolved f
          (unsent-On t (subst (λ r. On r.1) d (dispatched-On c now target answer s h)));
    by_letter = λ reason e n mark now s t h f. subst OnResult f (letter-On reason e n mark now s h);
    by_schedule = λ at now s h. h;
    by_closing = λ now principal s h. h;
    by_opening =
        λ item_id reason now sla s t h f. subst OnResult f (opening item_id reason now sla s h);
    by_answer = λ c now answer s h. h;
    by_confirming = λ now ref s h. h;
    by_rejecting = λ now s h. h;
    by_judgement = λ item_id p resolution now ref s h.
        judged-On item_id p resolution now ref s h (judged item_id p resolution now ref s h);
  }
    where
      opening :
          (item_id : ℕ) (reason : RecoveryReason) (now sla : ℤ) (s : Store)
          → On s
          → OnResult (open_item item_id reason now sla s)
      opening item_id reason now sla s h = elim (Bool-cases (any is_open s.recovery)) [
        | inl held ↦ rw held tt
        | inr free ↦ rw free (opened item_id reason now sla s h free)
      ]
