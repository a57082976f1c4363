-- ===== src/Operations/Reconcile/Conclusions.antt =====
-- operations/reconcile.py: what stands behind each resolution that a pass reports.
use mathlib.Core.Option
use ledger_exception_control.Common.{
  ℕ, none, some, Option, ◌≡◌, true, refl, inl, inr, Bool-cases, arith, ◌+◌, ◌&&◌, any, not,
  if-cases, any-append_last,
}
use ledger_exception_control.Control.{OutcomeCode, QueryAnswer}
use ledger_exception_control.Operations.Rows.{Store, Outbox, RecoveryReason}
use ledger_exception_control.Operations.Dispatch.{
  DispatchEnd, dispatch_once, refused, adapter_raised, unrecognised_answer, dispatched, recorded,
}
use ledger_exception_control.Operations.Retry.{first_sent_at}
use ledger_exception_control.Operations.Recovery.{open_item, is_open, settle_as}
use ledger_exception_control.Operations.Reconcile.{
  Adapter, Resolution, ReconciliationPolicy, ReconciliationReport, ReconcileEnd, QueryResponse,
  told, not_an_outcome, query_failed, route_to_recovery, is_partially_applied,
  consecutive_not_found, last_sent_at, max_query_no, original_endpoint, reported, dispatch_failed,
  visibility_bound_of, negative_answer_is_trustworthy,
}
use ledger_exception_control.Operations.Reconcile.Pass.{
  conclude, reconcile_by_query, reconcile_once, resend_by_bound, unresolved_pass, after_resend,
  after_query, trustworthy_since, by_capability, reconcile_intent, with_answer, query_report,
  base_report, is_ambiguous_operation, target_of, conclude_confirmed, conclude_rejected, new_query,
}
use ledger_exception_control.Operations.Reconcile.Runs.{
  IsNumbered, run_after, consecutive_not_found-run, IsNumbered-snoc, numbered-max,
}
use ledger_exception_control.Operations.Resend.{ResendBound, resend_is_within_bounds}
use ledger_exception_control.Ledger.Port.{
  QueryOutcome, queryable_by_operation_id, suppresses_duplicates,
}
use ledger_exception_control.Common.Int.{ℤ, pos, leb_ℤ, ◌≤ℤ◌, ◌-ℤ◌}
use ledger_exception_control.Common.Text.{Text}

-- Neither the intent nor the reference nor the attempts have changed.
abbrev pub IsUntouched : Store → Store → Type 0
IsUntouched s t =
    (t.outbox ≡ s.outbox) × (t.posting_ref ≡ s.posting_ref) × (t.attempts ≡ s.attempts)

-- And an operator holds the operation.
abbrev pub IsHeld : Store → Store → Type 0
IsHeld s t = IsUntouched s t × (any is_open t.recovery ≡ true)

abbrev pub IsSettledAs : OutcomeCode → Store → Store → Type 0
IsSettledAs code s t = (t.outbox ≡ Option.map (settle_as code) s.outbox) × (t.attempts ≡ s.attempts)

-- What stands behind a resolution: a hit; a run of `NotFound` answers as long as the policy asks for,
-- the last one later than both windows after the last send; or a re-send that is within its bounds.
abbrev pub IsJustified :
    Adapter → ℤ → ReconciliationPolicy → Option Text → Store → Resolution → Store → Type 0
IsJustified a now policy requested s Resolution.confirmed t =
    (ref : Text) × (a.query ≡ told (QueryOutcome.found ref))
    × (t.posting_ref ≡ some ref)
    × IsSettledAs OutcomeCode.confirmed s t
IsJustified a now policy requested s Resolution.rejected t =
    (a.query ≡ told QueryOutcome.not_found)
    × (policy.consecutive_not_found ≤ℤ pos (run_after 0 t.queries))
    × ((sent : ℤ) × (last_sent_at s.attempts ≡ some sent)
        × (visibility_bound_of a.capabilities ≤ℤ now -ℤ sent)
        × (a.capabilities.max_inflight_window ≤ℤ now -ℤ sent))
    × (t.posting_ref ≡ s.posting_ref)
    × IsSettledAs OutcomeCode.rejected s t
IsJustified a now policy requested s Resolution.resent t =
    (suppresses_duplicates a.capabilities ≡ true)
    × (resend_is_within_bounds a.capabilities (first_sent_at s.attempts) now
          (original_endpoint s.attempts) (target_of requested a)
        ≡ ResendBound.permitted)
    × (t ≡ (dispatch_once a.capabilities now a.endpoint a.post s).1)
IsJustified a now policy requested s Resolution.routed_to_recovery t = IsHeld s t
IsJustified a now policy requested s Resolution.already_in_recovery t = IsHeld s t
IsJustified a now policy requested s _ t = IsUntouched s t

abbrev pub EndsJustified :
    Adapter → ℤ → ReconciliationPolicy → Option Text → Store → ReconcileEnd × Store → Type 0
EndsJustified a now policy requested s (reported r, t) =
    IsJustified a now policy requested s r.resolution t
EndsJustified a now policy requested s (dispatch_failed d, t) =
    suppresses_duplicates a.capabilities ≡ true
EndsJustified a now policy requested s (_, t) = IsUntouched s t

module _ (item_id : ℕ) (a : Adapter) (now : ℤ) (policy : ReconciliationPolicy)
    (requested : Option Text) (s : Store) where
  route-justified :
      (reason : RecoveryReason) (report : ReconciliationReport) (t : Store)
      → IsUntouched s t
      → EndsJustified a now policy requested s
          (route_to_recovery item_id reason now policy report t)
  unfolding route_to_recovery open_item
  route-justified reason report t h = elim (Bool-cases (any is_open t.recovery)) [
    | inl held ↦ rw held (h, held)
    | inr free ↦ rw free (h, any-append_last is_open t.recovery _ refl)
  ]

  unresolved-justified :
      (report : ReconciliationReport) (t : Store)
      → report.resolution ≡ Resolution.unresolved
      → IsUntouched s t
      → EndsJustified a now policy requested s (unresolved_pass item_id now policy report t)
  unfolding unresolved_pass
  unresolved-justified report t e h =
      if-cases (EndsJustified a now policy requested s)
        (leb_ℤ policy.max_queries (pos report.queries_made))
        (λ full. route-justified RecoveryReason.reconciliation_exhausted report t h)
        (λ free. rw e h)

  trusted :
      (o : Option ℤ)
      → trustworthy_since a.capabilities o now ≡ true
      → (sent : ℤ) × (o ≡ some sent)
        × (visibility_bound_of a.capabilities ≤ℤ now -ℤ sent)
        × (a.capabilities.max_inflight_window ≤ℤ now -ℤ sent)
  unfolding negative_answer_is_trustworthy
  trusted none h = absurd (cc (h))
  trusted (some sent) h = (sent, refl, ground (arith, h), ground (arith, h))

  -- The answers on record are counted with the new one.
  counted :
      (answer : QueryOutcome)
      → IsNumbered 0 s.queries
      → let t = with_answer a.capabilities now answer s in
        consecutive_not_found t.queries ≡ run_after 0 t.queries
  unfolding with_answer
  counted answer n =
      let m = numbered-max 0 s.queries n in
      consecutive_not_found-run (with_answer a.capabilities now answer s).queries (
        IsNumbered-snoc 0 s.queries
          (new_query a.capabilities now (max_query_no s.queries + 1) answer) n (omega (arith, m)))

  conclude-justified :
      (made : ℕ) (answer : QueryOutcome)
      → IsNumbered 0 s.queries
      → a.query ≡ told answer
      → EndsJustified a now policy requested s (
          conclude item_id a.capabilities now policy made answer
            (with_answer a.capabilities now answer s))
  unfolding conclude with_answer conclude_confirmed conclude_rejected
  conclude-justified made (QueryOutcome.found ref) n e = (ref, e, refl, (refl, refl))
  conclude-justified made QueryOutcome.not_found n e =
      let t = with_answer a.capabilities now QueryOutcome.not_found s in
      let count = counted QueryOutcome.not_found n in
      if-cases (EndsJustified a now policy requested s)
        (leb_ℤ policy.consecutive_not_found (pos (consecutive_not_found t.queries))
          && trustworthy_since a.capabilities (last_sent_at s.attempts) now)
        (λ sure. (
          e,
          ground (arith, sure, count),
          trusted (last_sent_at s.attempts) (ground (arith, sure)),
          refl,
          (refl, refl),
        ))
        (λ unsure.
          unresolved-justified (query_report QueryAnswer.not_found made t) t refl
            (refl, refl, refl))
  conclude-justified made (QueryOutcome.indeterminate detail) n e =
      let t = with_answer a.capabilities now (QueryOutcome.indeterminate detail) s in
      unresolved-justified (query_report QueryAnswer.indeterminate made t) t refl (refl, refl, refl)

  by_query-justified :
      IsNumbered 0 s.queries
      → EndsJustified a now policy requested s (reconcile_by_query item_id a now policy s)
  unfolding reconcile_by_query
  by_query-justified n =
      if-cases (EndsJustified a now policy requested s)
        (leb_ℤ policy.max_queries (pos (max_query_no s.queries)))
        (λ full.
          route-justified RecoveryReason.reconciliation_exhausted (base_report s) s
            (refl, refl, refl))
        (λ free. go a.query refl)
    where
      go :
          (r : QueryResponse)
          → a.query ≡ r
          → EndsJustified a now policy requested s
              (after_query item_id a.capabilities now policy s r)
      go (told answer) e = conclude-justified (max_query_no s.queries + 1) answer n e
      go not_an_outcome e = (refl, refl, refl)
      go query_failed e = (refl, refl, refl)

  resend-justified :
      (bound : ResendBound)
      → suppresses_duplicates a.capabilities ≡ true
      → resend_is_within_bounds a.capabilities
          (first_sent_at s.attempts)
          now
          (original_endpoint s.attempts)
          (target_of requested a)
        ≡ bound
      → EndsJustified a now policy requested s (resend_by_bound item_id a now policy s bound)
  resend-justified ResendBound.permitted c e =
      go (dispatch_once a.capabilities now a.endpoint a.post s) refl
    where
      go :
          (r : DispatchEnd × Store)
          → dispatch_once a.capabilities now a.endpoint a.post s ≡ r
          → EndsJustified a now policy requested s (
              after_resend (record (base_report s) { resend_bound = some ResendBound.permitted }) r)
      go (refused why, t) f = c
      go (adapter_raised error, t) f = c
      go (unrecognised_answer, t) f = c
      go (dispatched n outcome is_settled, t) f = (c, e, cc (f))
  resend-justified ResendBound.window_expired c e =
      route-justified RecoveryReason.resend_window_expired _ s (refl, refl, refl)
  resend-justified ResendBound.scope_unproven c e =
      route-justified RecoveryReason.resend_scope_unproven _ s (refl, refl, refl)
  resend-justified ResendBound.not_enforced c e =
      route-justified RecoveryReason.resend_scope_unproven _ s (refl, refl, refl)

  -- What a pass of `reconcile_once` reports is justified, where the queries are numbered in a row from
  -- one. It reports `confirmed` only where the ledger answered with a posting, whose reference the
  -- adjustment then holds; `rejected` only where the ledger answered `NotFound`, at least as many such
  -- answers stand at the end of the record as the policy asks for, and both the visibility bound and
  -- the window in flight have gone by since the last send; and `resent` only where the adapter
  -- suppresses duplicates within bounds. With another report the intent, the reference and the
  -- attempts are what they were, and an operator holds an operation that is reported as routed to
  -- recovery or as being there.
  pub reconcile_once-justified :
      IsNumbered 0 s.queries
      → EndsJustified a now policy requested s (reconcile_once item_id a now policy requested s)
  unfolding reconcile_once
  reconcile_once-justified n = go s.outbox
    where
      able : EndsJustified a now policy requested s (by_capability item_id a now policy requested s)
      able =
          if-cases (EndsJustified a now policy requested s)
            (queryable_by_operation_id a.capabilities && a.has_query) (λ asks. by_query-justified n)
            (λ mute.
              if-cases (EndsJustified a now policy requested s)
                (suppresses_duplicates a.capabilities) (λ safe. resend-justified _ safe refl)
                (λ bare.
                  route-justified RecoveryReason.no_suppression_or_query
                    (record (base_report s) { resend_bound = some ResendBound.not_enforced }) s
                    (refl, refl, refl)))

      go :
          (o : Option Outbox)
          → EndsJustified a now policy requested s
              (reconcile_intent item_id a now policy requested s o)
      go none = (refl, refl, refl)
      go (some o) =
          if-cases (EndsJustified a now policy requested s) (not (is_ambiguous_operation s o))
            (λ clear. (refl, refl, refl))
            (λ torn.
              if-cases (EndsJustified a now policy requested s) (any is_open s.recovery)
                (λ held. ((refl, refl, refl), held))
                (λ free.
                  if-cases (EndsJustified a now policy requested s)
                    (recorded is_partially_applied o.last_outcome)
                    (λ part.
                      route-justified RecoveryReason.partially_applied (base_report s) s
                        (refl, refl, refl))
                    (λ whole. able)))
