-- ===== src/Operations/Steps/Along.antt =====
-- What every write preserves, the replay, the reconciliation and the judgement preserve, and it holds
-- wherever the operations lead.
use ledger_exception_control.Common.{
  ℕ, none, some, Option, ◌≡◌, true, false, refl, ◌&&◌, any, not, Bool, if◌then◌else◌,
}
use ledger_exception_control.Operations.Rows.{Store, Outbox, DeadLetter, RecoveryReason}
use ledger_exception_control.Operations.Dispatch.{
  DispatchEnd, dispatch_once, AdapterAnswer, refused, adapter_raised, unrecognised_answer,
  dispatched, recorded,
}
use ledger_exception_control.Operations.Retry.{resolve_not_sent}
use ledger_exception_control.Operations.Replay.{
  replay_dead_letter, replay_letter, replay_entry, replay_dispatched, replay_answered,
  replay_raised, is_replay_pending, is_rejected, resolved_or_same,
}
use ledger_exception_control.Operations.Recovery.{open_item, is_open}
use ledger_exception_control.Operations.Reconcile.{
  Adapter, ReconciliationPolicy, ReconciliationReport, QueryResponse, told, not_an_outcome,
  query_failed, route_to_recovery, after_opening, is_partially_applied, consecutive_not_found,
  last_sent_at, max_query_no,
}
use ledger_exception_control.Operations.Resend.{ResendBound}
use ledger_exception_control.Operations.Steps.{
  Step, Reachable, Kept, turn, replay, reconcile, resolve, start, after,
}
use ledger_exception_control.Operations.Steps.ByTurns.{take_turn-kept}
use ledger_exception_control.Ledger.Port.{
  LedgerAdapterCapabilities, QueryOutcome, PostingOutcome, queryable_by_operation_id,
  suppresses_duplicates,
}
use ledger_exception_control.Ledger.Transport.{
  TransportVerdict, retryable, classify_transport_failure,
}
use ledger_exception_control.Common.Int.{ℤ, pos, leb_ℤ}
use ledger_exception_control.Common.Text.{Text}
use ledger_exception_control.Operations.Reconcile.Pass.{
  conclude, reconcile_by_query, reconcile_once, resend_by_bound, unresolved_pass, after_resend,
  after_query, trustworthy_since, by_capability, reconcile_intent, with_answer, query_report,
  base_report, is_ambiguous_operation,
}

module _ {P : Store → Type 0} (k : Kept P) where
  if-kept : {R : Type 0} (x y : R × Store) (b : Bool) → P x.1 → P y.1 → P (if b then x else y).1
  if-kept x y true h g = h
  if-kept x y false h g = g

  answered-kept :
      (now : ℤ) (principal : Text) (outcome : PostingOutcome) (s : Store)
      → P s
      → P (replay_answered now principal outcome s).1
  answered-kept now principal (PostingOutcome.confirmed ref) s h = k.by_closing now principal s h
  answered-kept now principal (PostingOutcome.rejected why) s h = k.by_closing now principal s h
  answered-kept now principal (PostingOutcome.throttled wait) s h = h
  answered-kept now principal (PostingOutcome.unknown detail) s h = h
  answered-kept now principal (PostingOutcome.partially_applied legs refs) s h = h

  replay_raised-kept :
      (verdict : TransportVerdict) (s : Store)
      → P s
      → ((m : ℕ) (u : Store) → resolve_not_sent s ≡ some (m, u) → P u)
      → P (replay_raised verdict s).1
  replay_raised-kept verdict s h w = if-kept _ _ (retryable verdict) (go (resolve_not_sent s) w) h
    where
      go :
          (o : Option (ℕ × Store))
          → ((m : ℕ) (u : Store) → o ≡ some (m, u) → P u)
          → P (resolved_or_same s o)
      go none w = h
      go (some (m, u)) w = w m u refl

  pub replay_dead_letter-kept :
      (c : LedgerAdapterCapabilities) (now : ℤ) (target : Option Text) (answer : AdapterAnswer)
      (principal : Text) (s : Store)
      → P s
      → P (replay_dead_letter c now target answer principal s).1
  unfolding replay_dead_letter
  replay_dead_letter-kept c now target answer principal s h = letter s.dead_letter
    where
      sent :
          (d : DispatchEnd) (t : Store)
          → dispatch_once c now target answer s ≡ (d, t)
          → P t
          → P (replay_dispatched now principal (d, t)).1
      sent (refused why) t e p = p
      sent (adapter_raised error) t e p =
          replay_raised-kept (classify_transport_failure error) t p
            (λ m u f. k.by_failed_send c now target answer s t u error m h e f)
      sent unrecognised_answer t e p = p
      sent (dispatched m outcome is_settled) t e p = answered-kept now principal outcome t p

      entry :
          (ref : Option Text) (o : Option Outbox)
          → P (replay_entry c now target answer principal s ref o).1
      entry ref none = h
      entry (some already) (some o) = k.by_closing now principal s h
      entry none (some o) =
          if-kept _ _ (recorded is_rejected o.last_outcome) (k.by_closing now principal s h) (
            sent (dispatch_once c now target answer s).0 (dispatch_once c now target answer s).1
              refl (k.by_dispatch c now target answer s h))

      letter : (d : Option DeadLetter) → P (replay_letter c now target answer principal s d).1
      letter none = h
      letter (some d) =
          if-kept _ _ (not (is_replay_pending d.replay_state)) h (entry s.posting_ref s.outbox)

  route-kept :
      (item_id : ℕ) (reason : RecoveryReason) (now : ℤ) (policy : ReconciliationPolicy)
      (report : ReconciliationReport) (s : Store)
      → P s
      → P (route_to_recovery item_id reason now policy report s).1
  unfolding route_to_recovery
  route-kept item_id reason now policy report s h =
      go (open_item item_id reason now policy.sla s) refl
    where
      go :
          (o : Option Store)
          → open_item item_id reason now policy.sla s ≡ o
          → P (after_opening reason report s o).1
      go none e = h
      go (some t) e = k.by_opening item_id reason now policy.sla s t h e

  unresolved-kept :
      (item_id : ℕ) (now : ℤ) (policy : ReconciliationPolicy) (report : ReconciliationReport)
      (s : Store)
      → P s
      → P (unresolved_pass item_id now policy report s).1
  unfolding unresolved_pass
  unresolved-kept item_id now policy report s h =
      if-kept _ _ (leb_ℤ policy.max_queries (pos report.queries_made))
        (route-kept item_id RecoveryReason.reconciliation_exhausted now policy report s h) h

  conclude-kept :
      (item_id : ℕ) (c : LedgerAdapterCapabilities) (now : ℤ) (policy : ReconciliationPolicy)
      (made : ℕ) (answer : QueryOutcome) (s : Store)
      → P s
      → P (conclude item_id c now policy made answer s).1
  unfolding conclude
  conclude-kept item_id c now policy made (QueryOutcome.found ref) s h = k.by_confirming now ref s h
  conclude-kept item_id c now policy made QueryOutcome.not_found s h =
      if-kept _ _
        (leb_ℤ policy.consecutive_not_found (pos (consecutive_not_found s.queries))
          && trustworthy_since c (last_sent_at s.attempts) now)
        (k.by_rejecting now s h) (unresolved-kept item_id now policy (query_report _ made s) s h)
  conclude-kept item_id c now policy made (QueryOutcome.indeterminate detail) s h =
      unresolved-kept item_id now policy (query_report _ made s) s h

  by_query-kept :
      (item_id : ℕ) (a : Adapter) (now : ℤ) (policy : ReconciliationPolicy) (s : Store)
      → P s
      → P (reconcile_by_query item_id a now policy s).1
  unfolding reconcile_by_query
  by_query-kept item_id a now policy s h =
      if-kept _ _ (leb_ℤ policy.max_queries (pos (max_query_no s.queries)))
        (route-kept item_id RecoveryReason.reconciliation_exhausted now policy (base_report s) s h)
        (go a.query)
    where
      go : (r : QueryResponse) → P (after_query item_id a.capabilities now policy s r).1
      go (told answer) =
          conclude-kept item_id a.capabilities now policy _ answer
            (with_answer a.capabilities now answer s) (k.by_answer a.capabilities now answer s h)
      go not_an_outcome = h
      go query_failed = h

  resend-kept :
      (item_id : ℕ) (a : Adapter) (now : ℤ) (policy : ReconciliationPolicy) (s : Store)
      (bound : ResendBound)
      → P s
      → P (resend_by_bound item_id a now policy s bound).1
  resend-kept item_id a now policy s ResendBound.permitted h =
      go (dispatch_once a.capabilities now a.endpoint a.post s)
        (k.by_dispatch a.capabilities now a.endpoint a.post s h)
    where
      go :
          (r : DispatchEnd × Store)
          → P r.1
          → P
              (after_resend
                (record (base_report s) { resend_bound = some ResendBound.permitted })
                r).1
      go (refused why, t) p = p
      go (adapter_raised error, t) p = p
      go (unrecognised_answer, t) p = p
      go (dispatched n outcome is_settled, t) p = p
  resend-kept item_id a now policy s ResendBound.window_expired h =
      route-kept item_id RecoveryReason.resend_window_expired now policy _ s h
  resend-kept item_id a now policy s ResendBound.scope_unproven h =
      route-kept item_id RecoveryReason.resend_scope_unproven now policy _ s h
  resend-kept item_id a now policy s ResendBound.not_enforced h =
      route-kept item_id RecoveryReason.resend_scope_unproven now policy _ s h

  pub reconcile_once-kept :
      (item_id : ℕ) (a : Adapter) (now : ℤ) (policy : ReconciliationPolicy)
      (requested : Option Text) (s : Store)
      → P s
      → P (reconcile_once item_id a now policy requested s).1
  unfolding reconcile_once
  reconcile_once-kept item_id a now policy requested s h = go s.outbox
    where
      able : P (by_capability item_id a now policy requested s).1
      able =
          if-kept _ _ (queryable_by_operation_id a.capabilities && a.has_query)
            (by_query-kept item_id a now policy s h)
            (if-kept _ _ (suppresses_duplicates a.capabilities)
              (resend-kept item_id a now policy s _ h)
              (route-kept item_id RecoveryReason.no_suppression_or_query now policy
                (record (base_report s) { resend_bound = some ResendBound.not_enforced }) s h))

      go : (o : Option Outbox) → P (reconcile_intent item_id a now policy requested s o).1
      go none = h
      go (some o) = if-kept _ _ (not (is_ambiguous_operation s o)) h (
          if-kept _ _ (any is_open s.recovery) h (
            if-kept _ _ (recorded is_partially_applied o.last_outcome)
              (route-kept item_id RecoveryReason.partially_applied now policy (base_report s) s h)
              able))

  Step-kept : {s t : Store} → Step s t → P s → P t
  Step-kept (turn policy s t) h = take_turn-kept k policy s t h
  Step-kept (replay c now target answer principal s) h =
      replay_dead_letter-kept c now target answer principal s h
  Step-kept (reconcile item_id a now policy requested s) h =
      reconcile_once-kept item_id a now policy requested s h
  Step-kept (resolve item_id p resolution now ref s) h =
      k.by_judgement item_id p resolution now ref s h

  pub Reachable-kept : {s t : Store} → Reachable s t → P s → P t
  Reachable-kept start h = h
  Reachable-kept (after r st) h = Step-kept st (Reachable-kept r h)
