-- ===== src/Operations/Recovery/Duties.antt =====
-- operations/recovery.py: who resolves what, whatever the operations on an adjustment are.
use ledger_exception_control.Common.{
  ℕ, none, some, Option, ◌≡◌, true, false, refl, inl, inr, Bool-cases, arith, ◌≤◌, ◌++◌, ◌∷◌, [],
  List, any, keep, length, All, ◌==◌,
}
use ledger_exception_control.Control.{RecoveryState, RecoveryResolution}
use ledger_exception_control.Operations.Rows.{Store, RecoveryItem, RecoveryReason}
use ledger_exception_control.Operations.Recovery.{find_item, rewrite_item, judge, is_open, new_item}
use ledger_exception_control.Operations.Steps.Apart.{items-Kept}
use ledger_exception_control.Operations.Steps.Along.{Reachable-kept}
use ledger_exception_control.Operations.Steps.{Reachable}
use ledger_exception_control.Common.Int.{ℤ}
use ledger_exception_control.Common.Text.{Text, text_eq}

-- An open item holds no judgement, and a resolved one is judged by another than the approver.
abbrev pub IsJudged :
    Text → RecoveryState → Option RecoveryResolution → Option Text → Option ℤ → Type 0
IsJudged approver RecoveryState.open_item none none none = Unit
IsJudged approver RecoveryState.resolved (some resolution) (some principal) (some at) =
    text_eq principal approver ≡ false
IsJudged approver _ _ _ _ = ⊥

abbrev pub IsSeparate : Text → RecoveryItem → Type 0
IsSeparate approver i =
    (i.approving_principal ≡ approver)
    × IsJudged approver i.state i.resolution i.resolved_by i.resolved_at

abbrev pub open_count : List RecoveryItem → ℕ
open_count l = length (keep is_open l)

-- The recovery items of an adjustment: each as it should be, and at most one open.
abbrev pub IsQueue : Text → List RecoveryItem → Type 0
IsQueue approver l = All (IsSeparate approver) l × (open_count l ≤ 1)

opened-Separate :
    (approver : Text) (item_id : ℕ) (reason : RecoveryReason) (now sla : ℤ) (l : List RecoveryItem)
    → All (IsSeparate approver) l
    → All (IsSeparate approver) (l ++ new_item item_id reason now sla approver ∷ [])
opened-Separate approver item_id reason now sla [] h = ((refl, tt), tt)
opened-Separate approver item_id reason now sla (i ∷ l) h =
    (h.0, opened-Separate approver item_id reason now sla l h.1)

opened-count :
    (l : List RecoveryItem) (i : RecoveryItem)
    → any is_open l ≡ false
    → open_count (l ++ i ∷ []) ≤ 1
opened-count [] i h = ground arith
opened-count (j ∷ l) i h = ground (arith, h, opened-count l i)

-- The search finds the first item or goes on.
pub find-head :
    (item_id : ℕ) (j i : RecoveryItem) (l : List RecoveryItem)
    → (j.id == item_id) ≡ true
    → find_item item_id (j ∷ l) ≡ some i
    → j ≡ i
find-head item_id j i l e f = cc (f, e)

pub find-tail :
    (item_id : ℕ) (j i : RecoveryItem) (l : List RecoveryItem)
    → (j.id == item_id) ≡ false
    → find_item item_id (j ∷ l) ≡ some i
    → find_item item_id l ≡ some i
find-tail item_id j i l e f = cc (f, e)

judged-Separate :
    (approver principal : Text) (item_id : ℕ) (resolution : RecoveryResolution) (now : ℤ)
    (l : List RecoveryItem) (i : RecoveryItem)
    → find_item item_id l ≡ some i
    → text_eq principal i.approving_principal ≡ false
    → All (IsSeparate approver) l
    → All (IsSeparate approver) (rewrite_item item_id (judge principal resolution now) l)
judged-Separate approver principal item_id resolution now [] i f d h = absurd (cc (f))
judged-Separate approver principal item_id resolution now (j ∷ l) i f d h =
    elim (Bool-cases (j.id == item_id)) [
      | inl e ↦ rw e ((h.0.0, (let m = find-head item_id j i l e f in cc (d, m, h.0.0))), h.1)
      | inr e ↦ rw e (
        h.0,
        judged-Separate approver principal item_id resolution now l i (find-tail item_id j i l e f)
            d h.1,
      )
    ]

judged-count :
    (principal : Text) (item_id : ℕ) (resolution : RecoveryResolution) (now : ℤ)
    (l : List RecoveryItem)
    → open_count (rewrite_item item_id (judge principal resolution now) l) ≤ open_count l
judged-count principal item_id resolution now [] = omega arith
judged-count principal item_id resolution now (j ∷ l) =
    ground (arith, judged-count principal item_id resolution now l)

-- Wherever the turns of the retry path, the replays, the passes of the reconciliation and the
-- judgements of operators lead, in any order: at most one recovery item of an adjustment is open, an
-- open item holds no judgement, and a resolved one has been judged by a principal other than the one
-- who approved the adjustment, given that this held at the start.
pub Reachable-IsQueue :
    (s t : Store)
    → Reachable s t
    → IsQueue s.approving_principal s.recovery
    → IsQueue t.approving_principal t.recovery
Reachable-IsQueue s t r =
    Reachable-kept
      (items-Kept IsQueue
        (λ item_id reason now sla s h free. (
          opened-Separate s.approving_principal item_id reason now sla s.recovery h.0,
          opened-count s.recovery _ free,
        ))
        (λ item_id p resolution now ref s h i f o d. (
          judged-Separate s.approving_principal p.id item_id resolution now s.recovery i f d h.0,
          (let c = judged-count p.id item_id resolution now s.recovery in
              let l = h.1 in omega (arith, c, l)),
        )))
      r
