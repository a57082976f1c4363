-- ===== src/Ingest/Payload.antt =====
-- ingest/service.py: `interpret`, the lines or the defects of a payload. `none` is a failed assertion.
use ledger_exception_control.Common.{Option, none, some, List, ◌∷◌, [], ◌++◌, ℕ}
use ledger_exception_control.Ingest.Parser.{parse, ParsedRow, FileReader}
use ledger_exception_control.Ingest.Row.{Normalised, normalise}
use ledger_exception_control.Ingest.Normalise.{NormalisedLine}
use ledger_exception_control.Ingest.Defect.{Defect}

abbrev pub Interpretation : Type 0
Interpretation = List NormalisedLine × List Defect

abbrev pub with_row : Normalised → Option Interpretation → Option Interpretation
with_row r none = none
with_row (Normalised.line l) (some (lines, defects)) = some (l ∷ lines, defects)
with_row (Normalised.refused ds) (some (lines, defects)) = some (lines, ds ++ defects)
with_row Normalised.assertion_failed (some (lines, defects)) = none

-- The loop over the rows.
unfoldable pub normalise_rows : List ParsedRow → Option Interpretation
normalise_rows [] = some ([], [])
normalise_rows (row ∷ more) = with_row (normalise row) (normalise_rows more)

-- One defect condemns the batch.
abbrev pub condemned : Interpretation → Interpretation
condemned (lines, []) = (lines, [])
condemned (lines, d ∷ ds) = ([], d ∷ ds)

abbrev pub condemn : Option Interpretation → Option Interpretation
condemn none = none
condemn (some r) = some (condemned r)

abbrev pub interpret_rows : List ParsedRow → List Defect → Option Interpretation
interpret_rows rows [] = condemn (normalise_rows rows)
interpret_rows rows (d ∷ ds) = some ([], d ∷ ds)

-- `interpret`
unfoldable pub interpret : FileReader → List ℕ → Option Interpretation
unfolding parse normalise_rows
interpret reader payload =
    let parsed = parse reader payload in interpret_rows parsed.rows parsed.defects
