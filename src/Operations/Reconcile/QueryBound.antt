-- ===== src/Operations/Reconcile/QueryBound.antt =====
-- operations/reconcile.py: the bound on the passes that conclude nothing.
use ledger_exception_control.Common.{
  ℕ, none, some, Option, arith, ◌+◌, ◌≤◌, ◌&&◌, any, List, [], ◌∷◌, length, not, if-cases,
}
use ledger_exception_control.Operations.Rows.{Store, Outbox, RecoveryReason}
use ledger_exception_control.Operations.Dispatch.{
  DispatchEnd, dispatch_once, recorded, refused, adapter_raised, unrecognised_answer, dispatched,
  record_outcome,
}
use ledger_exception_control.Operations.Dispatch.Sends.{dispatch_once-elim}
use ledger_exception_control.Operations.Recovery.{is_open}
use ledger_exception_control.Operations.Reconcile.{
  Adapter, ReconciliationPolicy, ReconcileEnd, is_partially_applied,
}
use ledger_exception_control.Operations.Reconcile.Pass.{
  reconcile_once, resend_by_bound, after_resend, by_capability, reconcile_intent, base_report,
  is_ambiguous_operation,
}
use ledger_exception_control.Operations.Reconcile.Queries.{
  Progress, IsWithin, Pass, run_pass, count_unresolved, route-Progress, query-Progress,
}
use ledger_exception_control.Operations.Resend.{ResendBound}
use ledger_exception_control.Ledger.Port.{queryable_by_operation_id, suppresses_duplicates}
use ledger_exception_control.Common.Int.{ℤ, pos, ◌≤ℤ◌}
use ledger_exception_control.Common.Text.{Text}

module _ (item_id : ℕ) (a : Adapter) (now : ℤ) (policy : ReconciliationPolicy)
    (requested : Option Text) (s : Store) (w : IsWithin policy s.queries) where
  abbrev Q : ReconcileEnd × Store → Type 0
  Q = Progress policy s

  resend-Progress : (bound : ResendBound) → Q (resend_by_bound item_id a now policy s bound)
  unfolding record_outcome
  resend-Progress ResendBound.permitted =
      go (dispatch_once a.capabilities now a.endpoint a.post s) (
        dispatch_once-elim a.capabilities now a.endpoint a.post s
          (λ t. IsWithin policy t.queries × (length s.queries + 0 ≤ length t.queries))
          (w, omega arith) (λ n. (w, omega arith)) (λ n outcome. (w, omega arith)))
    where
      go :
          (r : DispatchEnd × Store)
          → IsWithin policy r.1.queries × (length s.queries + 0 ≤ length r.1.queries)
          → Q (
              after_resend (record (base_report s) { resend_bound = some ResendBound.permitted }) r)
      go (refused why, t) h = h
      go (adapter_raised error, t) h = h
      go (unrecognised_answer, t) h = h
      go (dispatched n outcome is_settled, t) h = h
  resend-Progress ResendBound.window_expired =
      route-Progress item_id now policy s RecoveryReason.resend_window_expired _ s w (omega arith)
  resend-Progress ResendBound.scope_unproven =
      route-Progress item_id now policy s RecoveryReason.resend_scope_unproven _ s w (omega arith)
  resend-Progress ResendBound.not_enforced =
      route-Progress item_id now policy s RecoveryReason.resend_scope_unproven _ s w (omega arith)

  pass-Progress : Q (reconcile_once item_id a now policy requested s)
  unfolding reconcile_once
  pass-Progress = go s.outbox
    where
      able : Q (by_capability item_id a now policy requested s)
      able =
          if-cases Q (queryable_by_operation_id a.capabilities && a.has_query)
            (λ asks. query-Progress item_id now policy s a w)
            (λ mute.
              if-cases Q (suppresses_duplicates a.capabilities) (λ safe. resend-Progress _)
                (λ bare.
                  route-Progress item_id now policy s RecoveryReason.no_suppression_or_query
                    (record (base_report s) { resend_bound = some ResendBound.not_enforced }) s w
                    (omega arith)))

      go : (o : Option Outbox) → Q (reconcile_intent item_id a now policy requested s o)
      go none = (w, omega arith)
      go (some o) =
          if-cases Q (not (is_ambiguous_operation s o)) (λ clear. (w, omega arith))
            (λ torn.
              if-cases Q (any is_open s.recovery) (λ held. (w, omega arith))
                (λ free.
                  if-cases Q (recorded is_partially_applied o.last_outcome)
                    (λ part.
                      route-Progress item_id now policy s RecoveryReason.partially_applied
                        (base_report s) s w (omega arith))
                    (λ whole. able)))

-- However many passes are made over an operation, whenever they are made and whatever the ledger
-- answers, those that report that nothing could be concluded yet are, with the queries made before, no
-- more than the policy's `max_queries`, where the queries were numbered in a row and within it.
pub count_unresolved-bounded :
    (policy : ReconciliationPolicy) (s : Store) (ps : List Pass)
    → IsWithin policy s.queries
    → pos (length s.queries + count_unresolved policy s ps) ≤ℤ policy.max_queries
unfolding count_unresolved
count_unresolved-bounded policy s [] w = ground (arith, w.1)
count_unresolved-bounded policy s (p ∷ ps) w =
    let (v, h) = pass-Progress p.item_id p.adapter p.now policy p.target s w in
    let g = count_unresolved-bounded policy (run_pass policy s p).1 ps v in ground (arith, h, g)
