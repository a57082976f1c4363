-- ===== src/Ingest/Tests.antt =====
-- A settlement file of two rows, of which the second is bad in two columns, and deliveries of it.
use ledger_exception_control.Common.{
  ℕ, some, List, [], ◌∷◌, ◌++◌, ◌==◌, ◌≡◌, refl, if◌then◌else◌, none, length, All, ◌≤◌, false, all,
  true, arith,
}
use ledger_exception_control.Common.Text.{Text, codes}
use ledger_exception_control.Ingest.Parser.{FileReader, ParsedRow, Fields, parse}
use ledger_exception_control.Ingest.Runs.{
  IsFaithful, Move, Intake, receive, run_moves, run_moves-refines, complete,
}
use ledger_exception_control.Ingest.Normalise.{NormalisedLine, defect_at}
use ledger_exception_control.Ingest.Defect.{
  Defect, render_reason, amount_precision_exceeded, invalid_date, is_reason_allowed,
}
use ledger_exception_control.Ingest.Service.{
  SettlementBatch, IngestOutcome, ingest, find_hash, is_received, outcome_of, find_batch,
}
use ledger_exception_control.Ingest.Payload.{interpret}
use ledger_exception_control.Ingest.Storable.{IsStorable, Carries, normalise-IsStorable}
use ledger_exception_control.Ingest.Row.{normalise, Normalised}
use ledger_exception_control.Ingest.Interpretation.{OneKind, IsRising, interpret_total}
use ledger_exception_control.Money.Decimal.{
  within_money_scale, below_magnitude_bound, is_zero, finite,
}
use ledger_exception_control.Common.Order.{insert_by}
use ledger_exception_control.Common.Int.{pos, negsuc}
use ledger_exception_control.Ingest.Deliveries.{AreIntact, Agrees}
use ledger_exception_control.Ingest.Reason.{is_renderable, render_reason-bounded}
use ledger_exception_control.Ingest.Redelivery.{ingest_total}

-- A reader of what has no quotation marks, and of which every byte is a character.
abbrev push_first : ℕ → List Text → List Text
push_first x [] = (x ∷ []) ∷ []
push_first x (t ∷ ts) = (x ∷ t) ∷ ts

abbrev split_on : ℕ → Text → List Text
split_on separator [] = [] ∷ []
split_on separator (x ∷ xs) =
    if x == separator then [] ∷ split_on separator xs else push_first x (split_on separator xs)

abbrev rows_of : List Text → List (List Text)
rows_of [] = []
rows_of ([] ∷ ts) = [] ∷ rows_of ts
rows_of ((c ∷ cs) ∷ ts) = split_on b',' (c ∷ cs) ∷ rows_of ts

abbrev plain_reader : FileReader
plain_reader = record {
  decode = λ bytes. some bytes;
  read_csv = λ text. some (rows_of (split_on 10 text));
}

abbrev header : Text
header =
    codes
      "psp_reference,merchant_reference,transaction_type,amount,currency,value_date,presentment_amount,presentment_currency,fx_rate,memo"

abbrev good_file : List ℕ
good_file = header ++ 10 ∷ codes "P1,,capture,120.450000,EUR,2028-02-29,130.00,USD,1.0793,"

abbrev bad_file : List ℕ
bad_file = good_file ++ 10 ∷ codes "P2,,capture,1.00001,EUR,2026-02-29,,,,"

abbrev good_fields : Fields
good_fields = record {
  psp_reference = codes "P1";
  merchant_reference = [];
  transaction_type = codes "capture";
  amount = codes "120.450000";
  currency = codes "EUR";
  value_date = codes "2028-02-29";
  presentment_amount = codes "130.00";
  presentment_currency = codes "USD";
  fx_rate = codes "1.0793";
  memo = [];
}

abbrev good_row : ParsedRow
good_row = record { line = 1; fields = good_fields }

good_file-parsed : parse plain_reader good_file ≡ record { rows = good_row ∷ []; defects = [] }
unfolding parse
good_file-parsed = refl

abbrev good_line : NormalisedLine
good_line = record {
  line_number = 1;
  psp_reference = codes "P1";
  merchant_reference = none;
  amount = finite false (1 ∷ 2 ∷ 0 ∷ 4 ∷ 5 ∷ 0 ∷ 0 ∷ 0 ∷ 0 ∷ []) (negsuc 5);
  currency = codes "EUR";
  value_date = record { year = 2028; month = 2; day = 29 };
  transaction_type = some (codes "capture");
  presentment_amount = some (finite false (1 ∷ 3 ∷ 0 ∷ 0 ∷ 0 ∷ []) (negsuc 1));
  presentment_currency = some (codes "USD");
  fx_rate = some (finite false (1 ∷ 0 ∷ 7 ∷ 9 ∷ 3 ∷ []) (negsuc 3));
  memo = none;
}

good_row-line : normalise good_row ≡ Normalised.line good_line
unfolding normalise within_money_scale below_magnitude_bound is_zero
good_row-line = refl

normalise-IsStorable_example : IsStorable good_line × Carries good_row good_line
normalise-IsStorable_example = normalise-IsStorable good_row good_line (omega arith) good_row-line

abbrev bad_defects : List Defect
bad_defects =
    defect_at 2 (codes "value_date") invalid_date
    ∷ defect_at 2 (codes "amount") amount_precision_exceeded
    ∷ []

bad_file-refused :
    interpret plain_reader bad_file
    ≡ some (
      [],
      defect_at 2 (codes "amount") amount_precision_exceeded
          ∷ defect_at 2 (codes "value_date") invalid_date
          ∷ [],
    )
unfolding interpret normalise within_money_scale below_magnitude_bound is_zero
bad_file-refused = refl

bad_reason :
    render_reason bad_defects
    ≡ some (
        codes
          "amount_precision_exceeded: line 2, column amount; invalid_date: line 2, column value_date")
unfolding render_reason insert_by
bad_reason = refl

render_reason-bounded_example :
    (reason : Text) × (render_reason bad_defects ≡ some reason)
    × (length reason ≤ 512)
    × (all is_reason_allowed reason ≡ true)
render_reason-bounded_example = render_reason-bounded bad_defects (cc) refl

interpret_total_example :
    (lines : List NormalisedLine) × (defects : List Defect) × (interpret plain_reader bad_file
      ≡ some (lines, defects))
    × OneKind (lines, defects)
    × All IsStorable lines
    × IsRising 1 lines
    × (all is_renderable defects ≡ true)
interpret_total_example = interpret_total plain_reader bad_file

-- In place of the digest, which has no two payloads collide, the payload itself.
abbrev whole : List ℕ → Text
whole payload = payload

whole-injective : (p q : List ℕ) → whole p ≡ whole q → p ≡ q
whole-injective p q h = h

ingest_total_example :
    (bs : List SettlementBatch) × (o : IngestOutcome) × (ingest plain_reader whole 7 bad_file
        (codes "psp")
        (pos 3)
        []
      ≡ some (bs, o))
    × AreIntact plain_reader whole bs
    × Agrees plain_reader whole bad_file o
    × ((b : SettlementBatch)
        → find_hash (whole bad_file) [] ≡ some b
        → is_received b.status ≡ false
        → (bs ≡ []) × (o ≡ outcome_of b true))
ingest_total_example =
    ingest_total plain_reader whole whole-injective 7 bad_file (codes "psp") (pos 3) []
      (record { intact = tt; apart = tt }) (unfold find_batch in refl)

-- Two deliveries of one file, of which the second is settled first.
abbrev moves : List Move
moves =
    receive good_file 7 (codes "psp") (pos 3)
    ∷ receive good_file 8 (codes "psp") (pos 4)
    ∷ complete 1
    ∷ complete 0
    ∷ []

abbrev no_intake : Intake
no_intake = record { batches = []; under_way = []; reports = [] }

run_moves-refines_example :
    IsFaithful plain_reader whole (run_moves plain_reader whole no_intake moves)
run_moves-refines_example =
    run_moves-refines plain_reader whole whole-injective no_intake moves
      (record { table = record { intact = tt; apart = tt }; held = tt; agreed = tt })
