-- ===== src/Ingest/Verdicts.antt =====
-- ingest/service.py: the verdict on a payload, which no table enters into.
use ledger_exception_control.Common.{
  Option, none, List, some, ℕ, map, [], ◌≡◌, ◌∷◌, refl, false, all, true,
}
use ledger_exception_control.Ingest.Parser.{FileReader}
use ledger_exception_control.Common.Text.{Text}
use ledger_exception_control.Ingest.Service.{BatchStatus, SettlementLine, persisted, is_received}
use ledger_exception_control.Ingest.Payload.{Interpretation, interpret}
use ledger_exception_control.Ingest.Normalise.{NormalisedLine}
use ledger_exception_control.Ingest.Defect.{Defect, render_reason}
use ledger_exception_control.Ingest.Reason.{is_renderable, render_reason-bounded}
use ledger_exception_control.Ingest.Interpretation.{interpret_total}

-- The abstract view of a delivery: what becomes of a payload, whenever and however often it comes.
pub record Verdict : Type 0 where
  pub status : BatchStatus
  pub reason : Option Text
  pub lines : List SettlementLine

abbrev reasoned : Option Text → Option Verdict
reasoned none = none
reasoned (some r) = some (record { status = BatchStatus.quarantined; reason = some r; lines = [] })

abbrev verdict_on : Interpretation → Option Verdict
verdict_on (lines, []) =
    some (record { status = BatchStatus.parsed; reason = none; lines = map persisted lines })
verdict_on (lines, d ∷ ds) = reasoned (render_reason (d ∷ ds))

abbrev verdict_given : Option Interpretation → Option Verdict
verdict_given none = none
verdict_given (some r) = verdict_on r

unfoldable pub verdict : FileReader → List ℕ → Option Verdict
unfolding interpret
verdict reader payload = verdict_given (interpret reader payload)

pub verdict_total :
    (reader : FileReader) (payload : List ℕ)
    → (v : Verdict) × (verdict reader payload ≡ some v) × (is_received v.status ≡ false)
unfolding verdict
verdict_total reader payload =
    let (lines, defects, e, kind, storable, rising, clean) = interpret_total reader payload in
    rw e (go lines defects clean)
  where
    go :
        (lines : List NormalisedLine) (defects : List Defect)
        → all is_renderable defects ≡ true
        → (v : Verdict) × (verdict_on (lines, defects) ≡ some v) × (is_received v.status ≡ false)
    go lines [] clean = (_, refl, refl)
    go lines (d ∷ ds) clean =
        let (reason, e, bound, allowed) = render_reason-bounded (d ∷ ds) (cc) clean in
        (
          record { status = BatchStatus.quarantined; reason = some reason; lines = [] },
          rw e refl,
          refl,
        )

pub verdict-parsed :
    (reader : FileReader) (payload : List ℕ) (lines : List NormalisedLine)
    → interpret reader payload ≡ some (lines, [])
    → verdict reader payload
      ≡ some (record { status = BatchStatus.parsed; reason = none; lines = map persisted lines })
unfolding verdict
verdict-parsed reader payload lines h = rw h refl

pub verdict-quarantined :
    (reader : FileReader) (payload : List ℕ) (lines : List NormalisedLine) (d : Defect)
    (ds : List Defect) (reason : Text)
    → interpret reader payload ≡ some (lines, d ∷ ds)
    → render_reason (d ∷ ds) ≡ some reason
    → verdict reader payload
      ≡ some (record { status = BatchStatus.quarantined; reason = some reason; lines = [] })
unfolding verdict
verdict-quarantined reader payload lines d ds reason h k = rw (h, k) refl
