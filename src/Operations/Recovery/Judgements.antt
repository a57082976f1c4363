-- ===== src/Operations/Recovery/Judgements.antt =====
-- operations/recovery.py: that a judgement stands.
use ledger_exception_control.Common.{
  ℕ, some, ◌≡◌, true, false, inl, inr, Bool-cases, ◌∷◌, [], List, In, In-append_left, ◌==◌,
}
use ledger_exception_control.Control.{RecoveryResolution}
use ledger_exception_control.Operations.Rows.{Store, RecoveryItem}
use ledger_exception_control.Operations.Recovery.{find_item, rewrite_item, judge, is_open}
use ledger_exception_control.Operations.Steps.Apart.{items-Kept}
use ledger_exception_control.Operations.Recovery.Duties.{find-head, find-tail}
use ledger_exception_control.Operations.Steps.Along.{Reachable-kept}
use ledger_exception_control.Operations.Steps.{Reachable}
use ledger_exception_control.Common.Int.{ℤ}
use ledger_exception_control.Common.Text.{Text}

-- Only the item that is found is rewritten, and it is open.
rewrite_item-In :
    (principal : Text) (item_id : ℕ) (resolution : RecoveryResolution) (now : ℤ)
    (l : List RecoveryItem) (i j : RecoveryItem)
    → find_item item_id l ≡ some j
    → is_open j ≡ true
    → is_open i ≡ false
    → In i l
    → In i (rewrite_item item_id (judge principal resolution now) l)
rewrite_item-In principal item_id resolution now [] i j f o c m = m
rewrite_item-In principal item_id resolution now (k ∷ l) i j f o c m =
    elim (Bool-cases (k.id == item_id)) [
      | inl e ↦
          rw e
            (elim m [ inl p ↦ absurd (cc (p, o, c, find-head item_id k j l e f)) | inr q ↦ inr q ])
      | inr e ↦ rw e (elim m [
        | inl p ↦ inl p
        | inr q ↦ inr (
            rewrite_item-In principal item_id resolution now l i j (find-tail item_id k j l e f) o c
              q)
      ])
    ]

-- A recovery item that has been resolved stands as it is, with its judgement, its principal and its
-- time, wherever the operations on the adjustment lead.
pub Reachable-judgement :
    (s t : Store) (i : RecoveryItem)
    → Reachable s t
    → is_open i ≡ false
    → In i s.recovery
    → In i t.recovery
Reachable-judgement s t i r c =
    Reachable-kept
      (items-Kept (λ approver l. In i l)
        (λ item_id reason now sla u h free. In-append_left i u.recovery _ h)
        (λ item_id p resolution now ref u h j f o d.
          rewrite_item-In p.id item_id resolution now u.recovery i j f o c h))
      r
