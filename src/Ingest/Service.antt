-- ===== src/Ingest/Service.antt =====
-- ingest/service.py: the two transactions of a delivery, on the rows of settlement_batch and settlement_line. The digest of the payload and the fresh identifiers
-- are arguments; `none` is an exception, after which the transaction has written nothing.
use ledger_exception_control.Common.{
  ℕ, none, some, Option, Bool, List, [], ◌∷◌, ◌++◌, ◌==◌, length, map, if◌then◌else◌, false, true,
  not,
}
use ledger_exception_control.Common.Int.{ℤ}
use ledger_exception_control.Common.Text.{Text, text_eq}
use ledger_exception_control.Common.Date.{Date}
use ledger_exception_control.Money.Decimal.{Decimal}
use ledger_exception_control.Ingest.Defect.{render_reason}
use ledger_exception_control.Ingest.Parser.{FileReader}
use ledger_exception_control.Ingest.Normalise.{NormalisedLine}
use ledger_exception_control.Ingest.Payload.{interpret, Interpretation}

pub data BatchStatus : Type 0 where
  received parsed quarantined : BatchStatus

abbrev pub is_received : BatchStatus → Bool
is_received BatchStatus.received = true
is_received _ = false

-- A row of settlement_line, but for its identifiers and its match state.
pub record SettlementLine : Type 0 where
  pub line_number : ℕ
  pub psp_reference : Text
  pub merchant_reference : Option Text
  pub transaction_type : Option Text
  pub amount : Decimal
  pub currency : Text
  pub value_date : Date

abbrev pub persisted : NormalisedLine → SettlementLine
persisted l = record {
  line_number = l.line_number;
  psp_reference = l.psp_reference;
  merchant_reference = l.merchant_reference;
  transaction_type = l.transaction_type;
  amount = l.amount;
  currency = l.currency;
  value_date = l.value_date;
}

-- A row of settlement_batch, with the lines that refer to it.
pub record SettlementBatch : Type 0 where
  pub id : ℕ
  pub content_hash : Text
  pub source : Text
  pub raw_payload : List ℕ
  pub received_at : ℤ
  pub status : BatchStatus
  pub quarantine_reason : Option Text
  pub lines : List SettlementLine

pub record IngestOutcome : Type 0 where
  pub batch_id : ℕ
  pub status : BatchStatus
  pub line_count : ℕ
  pub quarantine_reason : Option Text
  pub duplicate : Bool

unfoldable pub find_hash : Text → List SettlementBatch → Option SettlementBatch
find_hash h [] = none
find_hash h (b ∷ bs) = if text_eq b.content_hash h then some b else find_hash h bs

unfoldable pub find_batch : ℕ → List SettlementBatch → Option SettlementBatch
find_batch i [] = none
find_batch i (b ∷ bs) = if b.id == i then some b else find_batch i bs

abbrev pub new_batch : ℕ → Text → List ℕ → Text → ℤ → SettlementBatch
new_batch batch_id digest payload source received_at = record {
  id = batch_id;
  content_hash = digest;
  source = source;
  raw_payload = payload;
  received_at = received_at;
  status = BatchStatus.received;
  quarantine_reason = none;
  lines = [];
}

abbrev pub receipt :
    SettlementBatch
    → List SettlementBatch
    → Option SettlementBatch
    → Option SettlementBatch
    → Option (List SettlementBatch × ℕ × Bool)
receipt b bs (some existing) clash = some (bs, existing.id, false)
receipt b bs none none = some (bs ++ b ∷ [], b.id, true)
receipt b bs none (some other) = none

-- `_record_receipt`, given the identifier that is drawn for a new batch: the batches, the batch of
-- this content, and whether it is new. It raises where the identifier is in use.
unfoldable pub record_receipt :
    SettlementBatch → List SettlementBatch → Option (List SettlementBatch × ℕ × Bool)
unfolding find_hash find_batch
record_receipt b bs = receipt b bs (find_hash b.content_hash bs) (find_batch b.id bs)

-- `UPDATE settlement_batch ... WHERE id = ...`, with the lines that are inserted.
abbrev pub finish :
    ℕ → BatchStatus → Option Text → List SettlementLine → SettlementBatch → SettlementBatch
finish batch_id status reason lines b =
    if b.id == batch_id
    then (record b { status = status; quarantine_reason = reason; lines = b.lines ++ lines })
    else b

abbrev pub outcome_of : SettlementBatch → Bool → IngestOutcome
outcome_of b duplicate = record {
  batch_id = b.id;
  status = b.status;
  line_count = length b.lines;
  quarantine_reason = b.quarantine_reason;
  duplicate = duplicate;
}

abbrev pub finished :
    ℕ
    → List SettlementBatch
    → BatchStatus
    → Option Text
    → List SettlementLine
    → Bool
    → List SettlementBatch × IngestOutcome
finished batch_id bs status reason lines duplicate = (
  map (finish batch_id status reason lines) bs,
  record {
    batch_id = batch_id;
    status = status;
    line_count = length lines;
    quarantine_reason = reason;
    duplicate = duplicate;
  },
)

abbrev pub quarantine :
    ℕ → List SettlementBatch → Bool → Option Text → Option (List SettlementBatch × IngestOutcome)
quarantine batch_id bs duplicate none = none
quarantine batch_id bs duplicate (some reason) =
    some (finished batch_id bs BatchStatus.quarantined (some reason) [] duplicate)

-- The one outcome of a batch that has none yet.
abbrev pub commit_outcome :
    ℕ → List SettlementBatch → Bool → Interpretation → Option (List SettlementBatch × IngestOutcome)
commit_outcome batch_id bs duplicate (lines, []) =
    some (finished batch_id bs BatchStatus.parsed none (map persisted lines) duplicate)
commit_outcome batch_id bs duplicate (lines, d ∷ ds) =
    quarantine batch_id bs duplicate (render_reason (d ∷ ds))

abbrev pub settle_found :
    ℕ
    → List SettlementBatch
    → Bool
    → Interpretation
    → Option SettlementBatch
    → Option (List SettlementBatch × IngestOutcome)
settle_found batch_id bs duplicate r none = none
settle_found batch_id bs duplicate r (some b) =
    if is_received b.status
    then commit_outcome batch_id bs duplicate r
    else some (bs, outcome_of b true)

abbrev pub settle_interpreted :
    ℕ
    → List SettlementBatch
    → Bool
    → Option Interpretation
    → Option (List SettlementBatch × IngestOutcome)
settle_interpreted batch_id bs duplicate none = none
settle_interpreted batch_id bs duplicate (some r) =
    settle_found batch_id bs duplicate r (find_batch batch_id bs)

-- `_settle`
unfoldable pub settle :
    FileReader
    → ℕ
    → List ℕ
    → Bool
    → List SettlementBatch
    → Option (List SettlementBatch × IngestOutcome)
unfolding interpret find_batch
settle reader batch_id payload duplicate bs =
    settle_interpreted batch_id bs duplicate (interpret reader payload)

abbrev pub settle_received :
    FileReader
    → List ℕ
    → Option (List SettlementBatch × ℕ × Bool)
    → Option (List SettlementBatch × IngestOutcome)
settle_received reader payload none = none
settle_received reader payload (some (bs, batch_id, was_new)) =
    settle reader batch_id payload (not was_new) bs

-- `ingest`, where nothing comes between the two transactions.
unfoldable pub ingest :
    FileReader
    → (List ℕ → Text)
    → ℕ
    → List ℕ
    → Text
    → ℤ
    → List SettlementBatch
    → Option (List SettlementBatch × IngestOutcome)
unfolding record_receipt settle
ingest reader digest batch_id payload source received_at bs =
    settle_received reader payload
      (record_receipt (new_batch batch_id (digest payload) payload source received_at) bs)
