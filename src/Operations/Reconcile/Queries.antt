-- ===== src/Operations/Reconcile/Queries.antt =====
-- operations/reconcile.py: that the passes of the reconciliation come to an end.
use ledger_exception_control.Common.{
  ℕ, Option, ◌≡◌, false, refl, arith, ◌+◌, ◌≤◌, ◌&&◌, any, List, [], ◌∷◌, length, length-append,
  if-cases, Bool-cases, inl, inr,
}
use ledger_exception_control.Control.{QueryAnswer}
use ledger_exception_control.Operations.Rows.{Store, ReconciliationQuery, RecoveryReason}
use ledger_exception_control.Operations.Recovery.{open_item, is_open}
use ledger_exception_control.Operations.Reconcile.{
  Adapter, Resolution, ReconciliationPolicy, ReconciliationReport, ReconcileEnd, QueryResponse,
  told, not_an_outcome, query_failed, route_to_recovery, consecutive_not_found, last_sent_at,
  max_query_no, reported,
}
use ledger_exception_control.Operations.Reconcile.Pass.{
  conclude, reconcile_by_query, reconcile_once, unresolved_pass, after_query, trustworthy_since,
  with_answer, query_report, base_report, conclude_confirmed, conclude_rejected, new_query,
}
use ledger_exception_control.Operations.Reconcile.Runs.{IsNumbered, IsNumbered-snoc, numbered-max}
use ledger_exception_control.Ledger.Port.{QueryOutcome, LedgerAdapterCapabilities}
use ledger_exception_control.Common.Int.{ℤ, pos, leb_ℤ, ◌≤ℤ◌}
use ledger_exception_control.Common.Text.{Text}

-- A pass of `reconcile_once`, under a policy.
pub record Pass : Type 0 where
  pub item_id : ℕ
  pub adapter : Adapter
  pub now : ℤ
  pub target : Option Text

abbrev pub run_pass : ReconciliationPolicy → Store → Pass → ReconcileEnd × Store
run_pass policy s p = reconcile_once p.item_id p.adapter p.now policy p.target s

abbrev pub unresolved_one : Resolution → ℕ
unresolved_one Resolution.unresolved = 1
unresolved_one _ = 0

abbrev pub unresolved_end : ReconcileEnd → ℕ
unresolved_end (reported r) = unresolved_one r.resolution
unresolved_end _ = 0

-- How many of the passes, one after another, report that nothing could be concluded yet.
unfoldable pub count_unresolved : ReconciliationPolicy → Store → List Pass → ℕ
count_unresolved policy s [] = 0
count_unresolved policy s (p ∷ ps) =
    let r = run_pass policy s p in unresolved_end r.0 + count_unresolved policy r.1 ps

-- The queries are numbered in a row and within the policy.
abbrev pub IsWithin : ReconciliationPolicy → List ReconciliationQuery → Type 0
IsWithin policy l = IsNumbered 0 l × (pos (length l) ≤ℤ policy.max_queries)

-- The queries stay within the policy, and an unresolved pass adds one.
abbrev pub Progress : ReconciliationPolicy → Store → ReconcileEnd × Store → Type 0
Progress policy s (e, t) =
    IsWithin policy t.queries × (length s.queries + unresolved_end e ≤ length t.queries)

module _ (item_id : ℕ) (now : ℤ) (policy : ReconciliationPolicy) (s : Store) where
  abbrev Q : ReconcileEnd × Store → Type 0
  Q = Progress policy s

  -- What neither concludes nothing nor changes the queries.
  pub route-Progress :
      (reason : RecoveryReason) (report : ReconciliationReport) (t : Store)
      → IsWithin policy t.queries
      → length s.queries ≤ length t.queries
      → Q (route_to_recovery item_id reason now policy report t)
  unfolding route_to_recovery open_item
  route-Progress reason report t w h = elim (Bool-cases (any is_open t.recovery)) [
    | inl held ↦ rw held (w, omega (arith, h))
    | inr free ↦ rw free (w, omega (arith, h))
  ]

  unresolved-Progress :
      (report : ReconciliationReport) (t : Store)
      → IsWithin policy t.queries
      → report.resolution ≡ Resolution.unresolved
      → length s.queries + 1 ≡ length t.queries
      → Q (unresolved_pass item_id now policy report t)
  unfolding unresolved_pass
  unresolved-Progress report t w e h =
      if-cases Q (leb_ℤ policy.max_queries (pos report.queries_made))
        (λ full.
          route-Progress RecoveryReason.reconciliation_exhausted report t w (omega (arith, h)))
        (λ free. (w, rw e (omega (arith, h))))

  answered-Within :
      (c : LedgerAdapterCapabilities) (answer : QueryOutcome)
      → IsWithin policy s.queries
      → leb_ℤ policy.max_queries (pos (max_query_no s.queries)) ≡ false
      → let t = with_answer c now answer s in
        IsWithin policy t.queries × (length s.queries + 1 ≡ length t.queries)
  unfolding with_answer
  answered-Within c answer w free =
      let m = numbered-max 0 s.queries w.0 in
      let q = new_query c now (max_query_no s.queries + 1) answer in
      let l = length-append s.queries (q ∷ []) in
      (
        (IsNumbered-snoc 0 s.queries q w.0 (omega (arith, m)), ground (arith, m, l, free)),
        omega (arith, l),
      )

  conclude-Progress :
      (c : LedgerAdapterCapabilities) (made : ℕ) (answer : QueryOutcome) (t : Store)
      → IsWithin policy t.queries
      → length s.queries + 1 ≡ length t.queries
      → Q (conclude item_id c now policy made answer t)
  unfolding conclude conclude_confirmed conclude_rejected
  conclude-Progress c made (QueryOutcome.found ref) t w h = (w, omega (arith, h))
  conclude-Progress c made QueryOutcome.not_found t w h =
      if-cases Q
        (leb_ℤ policy.consecutive_not_found (pos (consecutive_not_found t.queries))
          && trustworthy_since c (last_sent_at t.attempts) now)
        (λ sure. (w, omega (arith, h)))
        (λ unsure. unresolved-Progress (query_report QueryAnswer.not_found made t) t w refl h)
  conclude-Progress c made (QueryOutcome.indeterminate detail) t w h =
      unresolved-Progress (query_report QueryAnswer.indeterminate made t) t w refl h

  pub query-Progress :
      (a : Adapter) → IsWithin policy s.queries → Q (reconcile_by_query item_id a now policy s)
  unfolding reconcile_by_query
  query-Progress a w =
      if-cases Q (leb_ℤ policy.max_queries (pos (max_query_no s.queries)))
        (λ full.
          route-Progress RecoveryReason.reconciliation_exhausted (base_report s) s w (omega arith))
        (λ free. go free a.query)
    where
      go :
          leb_ℤ policy.max_queries (pos (max_query_no s.queries)) ≡ false
          → (r : QueryResponse) → Q (after_query item_id a.capabilities now policy s r)
      go free (told answer) =
          let (v, h) = answered-Within a.capabilities answer w free in
          conclude-Progress a.capabilities (max_query_no s.queries + 1) answer
            (with_answer a.capabilities now answer s) v h
      go free not_an_outcome = (w, omega arith)
      go free query_failed = (w, omega arith)
