-- ===== src/Operations/Queue.antt =====
-- operations/retry.py and recovery.py: the selections over several operations, and `run_due_once` as
-- a pass over those that it selects. The rows that another transaction has locked are an argument.
-- Rows that come level stand as in the table, where the database may give them in any order.
pub mod Pass
pub mod Rounds
pub mod First
mod Tests
use ledger_exception_control.Common.{
  ℕ, none, some, Option, Bool, List, [], ◌∷◌, ◌==◌, ◌&&◌, contains, map, not, if◌then◌else◌, true,
  false,
}
use ledger_exception_control.Common.Int.{ℤ, leb_ℤ, ltb_ℤ, eq_ℤ}
use ledger_exception_control.Common.Select.{select_first}
use ledger_exception_control.Operations.Rows.{Store, Outbox, RecoveryItem}
use ledger_exception_control.Operations.Retry.{
  RetryPolicy, RetryReport, RetryEnd, is_due, attempt_one,
}
use ledger_exception_control.Operations.Retry.Passes.{Turn}
use ledger_exception_control.Operations.Recovery.{is_open, view, RecoveryView}

-- An operation in the table: its adjustment, when its intent was enqueued, and its rows.
pub record Operation : Type 0 where
  pub adjustment_id : ℕ
  pub created_at : ℤ
  pub rows : Store

abbrev pub schedule_of : Option Outbox → Option ℤ
schedule_of none = none
schedule_of (some o) = o.next_attempt_at

-- `next_attempt_at NULLS FIRST, created_at`
abbrev pub schedule_le : Option ℤ → Option ℤ → ℤ → ℤ → Bool
schedule_le none none a b = leb_ℤ a b
schedule_le none (some t) a b = true
schedule_le (some s) none a b = false
schedule_le (some s) (some t) a b = if eq_ℤ s t then leb_ℤ a b else ltb_ℤ s t

unfoldable pub queue_le : Operation → Operation → Bool
queue_le x y =
    schedule_le (schedule_of x.rows.outbox) (schedule_of y.rows.outbox) x.created_at y.created_at

-- Due, and locked by no other transaction.
abbrev pub is_eligible : List ℕ → ℤ → Operation → Bool
is_eligible locked now o = is_due now o.rows && not (contains o.adjustment_id locked)

abbrev pub adjustment : Operation → ℕ
adjustment o = o.adjustment_id

-- `due_adjustments`
unfoldable pub due_adjustments : List ℕ → ℤ → ℕ → List Operation → List ℕ
unfolding select_first queue_le is_due
due_adjustments locked now limit table =
    map adjustment (select_first queue_le (is_eligible locked now) limit table)

-- `_view` of the open items by their deadline; `stale_items` of those that are past it.
abbrev pub deadline_le : RecoveryItem → RecoveryItem → Bool
deadline_le a b = leb_ℤ a.sla_due_at b.sla_due_at

abbrev pub viewed : ℤ → RecoveryItem → RecoveryView
viewed now i = view i now

unfoldable pub open_items : ℤ → ℕ → List RecoveryItem → List RecoveryView
unfolding select_first
open_items now limit table = map (viewed now) (select_first deadline_le is_open limit table)

unfoldable pub stale_items : ℤ → ℕ → List RecoveryItem → List RecoveryView
unfolding select_first
stale_items now limit table =
    map (viewed now)
      (select_first deadline_le (λ i. is_open i && leb_ℤ i.sla_due_at now) limit table)

-- What the adapter answers and the delays that are drawn, for each adjustment, whenever it is sent.
abbrev pub Environment : Type 0
Environment = ℕ → Turn

abbrev pub turn_of : Environment → ℤ → ℕ → Turn
turn_of env now i = record (env i) { now = now }

abbrev pub attempt_of : RetryPolicy → Turn → Store → RetryEnd × Store
attempt_of policy k s = attempt_one k.capabilities policy k.now k.target k.backoff k.answer s

-- What `attempt_one` at one adjustment makes of a row of the table, and how it ends.
abbrev pub attempt_row : RetryPolicy → Turn → ℕ → Operation → Operation
attempt_row policy k i o =
    if o.adjustment_id == i then (record o { rows = (attempt_of policy k o.rows).1 }) else o

abbrev pub end_among : RetryPolicy → Turn → ℕ → List Operation → RetryEnd
end_among policy k i [] = RetryEnd.missing_intent
end_among policy k i (o ∷ more) =
    let rest = end_among policy k i more in
    if o.adjustment_id == i then (attempt_of policy k o.rows).0 else rest

abbrev pub Pass : Type 0
Pass = Option (List RetryReport) × List Operation

abbrev pub with_report : RetryReport → Option (List RetryReport) → Option (List RetryReport)
with_report r none = none
with_report r (some rs) = some (r ∷ rs)

abbrev pub then_attempt : RetryEnd → List Operation → Pass → Pass
then_attempt (RetryEnd.reported r) table rest = (with_report r rest.0, rest.1)
then_attempt _ table rest = (none, table)

-- The attempts at the adjustments that were selected; `none` where one of them raises, after which
-- none of the others is made.
unfoldable pub attempt_all : RetryPolicy → Environment → ℤ → List ℕ → List Operation → Pass
attempt_all policy env now [] table = (some [], table)
attempt_all policy env now (i ∷ is) table =
    let k = turn_of env now i in
    let after = map (attempt_row policy k i) table in
    then_attempt (end_among policy k i table) after (attempt_all policy env now is after)

-- `run_due_once`
unfoldable pub run_due_once : RetryPolicy → Environment → List ℕ → ℤ → ℕ → List Operation → Pass
unfolding due_adjustments attempt_all
run_due_once policy env locked now limit table =
    attempt_all policy env now (due_adjustments locked now limit table) table
