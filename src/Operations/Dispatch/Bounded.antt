-- ===== src/Operations/Dispatch/Bounded.antt =====
-- When an operation whose outcome is undetermined is sent again.
use ledger_exception_control.Common.{none, some, [], ◌∷◌, true, ◌≡◌, Option, refl, arith, List}
use ledger_exception_control.Operations.Resend.{
  ResendBound, ResendDecision, resend_decision, resend_is_within_bounds,
}
use ledger_exception_control.Ledger.Port.{LedgerAdapterCapabilities, suppresses_duplicates}
use ledger_exception_control.Operations.Dispatch.{
  gate, refuse_unless_permitted, check_decision, undetermined_state,
}
use ledger_exception_control.Operations.Rows.{PostingAttempt, Outbox}
use ledger_exception_control.Common.Int.{ℤ}
use ledger_exception_control.Common.Text.{Text}

not_refused : (b : ResendBound) → refuse_unless_permitted b ≡ none → b ≡ ResendBound.permitted
not_refused ResendBound.permitted h = refl
not_refused ResendBound.window_expired h = absurd (cc (h))
not_refused ResendBound.scope_unproven h = absurd (cc (h))
not_refused ResendBound.not_enforced h = absurd (cc (h))

-- The branch of the gate for an undetermined operation, on the decision.
decision-bounded :
    (c : LedgerAdapterCapabilities) (sent_at : ℤ) (target : Option Text)
    (attempts : List PostingAttempt) (d : ResendDecision)
    → check_decision c sent_at target attempts d ≡ none
    → (d ≡ ResendDecision.permitted)
      × ((first : PostingAttempt) × (more : List PostingAttempt) × (attempts ≡ first ∷ more)
          × (resend_is_within_bounds c (some first.sent_at) sent_at first.endpoint target
              ≡ ResendBound.permitted))
decision-bounded c sent_at target [] ResendDecision.permitted h = absurd (cc (h))
decision-bounded c sent_at target (a ∷ l) ResendDecision.permitted h = (
  refl,
  (
    a,
    l,
    refl,
    not_refused (resend_is_within_bounds c (some a.sent_at) sent_at a.endpoint target) h,
  ),
)
decision-bounded c sent_at target attempts ResendDecision.reconcile_first h = absurd (cc (h))
decision-bounded c sent_at target attempts ResendDecision.manual_recovery h = absurd (cc (h))

decision-suppresses :
    (c : LedgerAdapterCapabilities)
    → resend_decision c ≡ ResendDecision.permitted
    → suppresses_duplicates c ≡ true
unfolding resend_decision
decision-suppresses c h = ground (arith, h)

gate-cleared :
    (c : LedgerAdapterCapabilities) (sent_at : ℤ) (target : Option Text)
    (attempts : List PostingAttempt) (o : Outbox)
    → gate c sent_at target attempts (some o) ≡ none
    → undetermined_state o attempts ≡ true
    → check_decision c sent_at target attempts (resend_decision c) ≡ none
unfolding gate
gate-cleared c sent_at target attempts o h u = ground (arith, h, u)

-- The gate lets an operation through that has an attempt in flight or an ambiguous outcome only where
-- the adapter suppresses duplicates and the send is within the bounds counted from the first attempt.
pub gate-bounded :
    (c : LedgerAdapterCapabilities) (sent_at : ℤ) (target : Option Text)
    (attempts : List PostingAttempt) (o : Outbox)
    → gate c sent_at target attempts (some o) ≡ none
    → undetermined_state o attempts ≡ true
    → (suppresses_duplicates c ≡ true)
      × ((first : PostingAttempt) × (more : List PostingAttempt) × (attempts ≡ first ∷ more)
          × (resend_is_within_bounds c (some first.sent_at) sent_at first.endpoint target
              ≡ ResendBound.permitted))
gate-bounded c sent_at target attempts o h u =
    let (d, f) =
      decision-bounded c sent_at target attempts (resend_decision c)
        (gate-cleared c sent_at target attempts o h u) in
    (decision-suppresses c d, f)
