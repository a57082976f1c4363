-- ===== src/Operations/Resend.antt =====
-- operations/dispatcher.py: `resend_decision` and `resend_is_within_bounds`.
use ledger_exception_control.Common.{
  none, some, Option, Bool, true, false, not, if◌then◌else◌, ◌≡◌, ◌&&◌, ◌↔◌, arith, refl, ◌≢◌,
}
use ledger_exception_control.Ledger.Vocabulary.{IdempotencyScope, IdempotencyWindow}
use ledger_exception_control.Common.Text.{Text, text_eq}
use ledger_exception_control.Common.Int.{ℤ, ltb_ℤ, ◌-ℤ◌}
use ledger_exception_control.Ledger.Port.{
  LedgerAdapterCapabilities, is_enforces_key, suppresses_duplicates, queryable_by_operation_id,
}

pub data ResendDecision : Type 0 where
  permitted reconcile_first manual_recovery : ResendDecision

unfoldable pub resend_decision : LedgerAdapterCapabilities → ResendDecision
resend_decision c =
    if suppresses_duplicates c
    then ResendDecision.permitted
    else if queryable_by_operation_id c
    then ResendDecision.reconcile_first
    else ResendDecision.manual_recovery

pub data ResendBound : Type 0 where
  permitted window_expired scope_unproven not_enforced : ResendBound

-- `original_endpoint is None or original_endpoint != target_endpoint`
abbrev pub another_endpoint : Option Text → Option Text → Bool
another_endpoint none target = true
another_endpoint (some original) none = true
another_endpoint (some original) (some target) = not (text_eq original target)

abbrev pub is_per_endpoint : IdempotencyScope → Bool
is_per_endpoint IdempotencyScope.per_endpoint = true
is_per_endpoint _ = false

-- The end of the function, on the window: `elapsed` is `now - first_sent_at`.
abbrev pub within_idempotency_window : IdempotencyWindow → ℤ → ResendBound
within_idempotency_window IdempotencyWindow.unbounded elapsed = ResendBound.permitted
within_idempotency_window (IdempotencyWindow.bounded window) elapsed =
    if ltb_ℤ elapsed window then ResendBound.permitted else ResendBound.window_expired

abbrev pub bound_since :
    LedgerAdapterCapabilities → Option ℤ → ℤ → Option Text → Option Text → ResendBound
bound_since c none now original target = ResendBound.not_enforced
bound_since c (some first) now original target =
    if is_per_endpoint c.idempotency_scope && another_endpoint original target
    then ResendBound.scope_unproven
    else within_idempotency_window c.idempotency_window (now -ℤ first)

unfoldable pub resend_is_within_bounds :
    LedgerAdapterCapabilities → Option ℤ → ℤ → Option Text → Option Text → ResendBound
resend_is_within_bounds c first_sent_at now original target =
    if not (is_enforces_key c.idempotency)
    then ResendBound.not_enforced
    else bound_since c first_sent_at now original target

-- That less than the window has gone by, where the window is bounded.
abbrev pub WithinWindow : IdempotencyWindow → ℤ → Type 0
WithinWindow IdempotencyWindow.unbounded elapsed = Unit
WithinWindow (IdempotencyWindow.bounded window) elapsed = ltb_ℤ elapsed window ≡ true

window-permitted :
    (w : IdempotencyWindow) (elapsed : ℤ)
    → (within_idempotency_window w elapsed ≡ ResendBound.permitted) ↔ WithinWindow w elapsed
window-permitted IdempotencyWindow.unbounded elapsed = (λ h. tt, λ h. refl)
window-permitted (IdempotencyWindow.bounded window) elapsed = (λ h. ground arith, λ h. ground arith)

-- A re-send is within bounds exactly where the adapter enforces the key, under a scope per endpoint
-- the target is the endpoint of the first send, and less time has gone by since the first send than
-- the window, if it is bounded; and where nothing was sent it never is.
pub resend_is_within_bounds-permitted :
    (c : LedgerAdapterCapabilities) (first now : ℤ) (original target : Option Text)
    → ((resend_is_within_bounds c (some first) now original target ≡ ResendBound.permitted) ↔ (
        (is_enforces_key c.idempotency ≡ true)
        × (is_per_endpoint c.idempotency_scope && another_endpoint original target ≡ false)
        × WithinWindow c.idempotency_window (now -ℤ first)))
      × (resend_is_within_bounds c none now original target ≢ ResendBound.permitted)
unfolding resend_is_within_bounds
resend_is_within_bounds-permitted c first now original target =
    let (to, from) = window-permitted c.idempotency_window (now -ℤ first) in
    ((λ h. ground (arith, to), λ (e, o, w). rw (e, o) (from w)), λ h. ground arith)
