-- ===== src/Ingest/Parser.antt =====
-- ingest/parser.py: the rows of a file, as text. The two functions of Python's standard library that
-- read bytes as UTF-8 and text as CSV are arguments; `none` is the exception that they raise.
use ledger_exception_control.Common.{
  ℕ, suc, none, some, Option, Bool, List, [], ◌∷◌, ◌==◌, ◌&&◌, not, if◌then◌else◌, false, true,
}
use ledger_exception_control.Common.Text.{Text, codes, text_eq}
use ledger_exception_control.Ingest.Defect.{
  Defect, QuarantineCode, empty_payload, undecodable_payload, malformed_csv, header_mismatch,
  row_field_count_mismatch,
}

pub record FileReader : Type 0 where
  -- `payload.decode("utf-8")`
  pub decode : List ℕ → Option Text
  -- `list(csv.reader(io.StringIO(text, newline=""), strict=True))`
  pub read_csv : Text → Option (List (List Text))

abbrev pub settlement_columns : List Text
settlement_columns =
    codes "psp_reference"
    ∷ codes "merchant_reference"
    ∷ codes "transaction_type"
    ∷ codes "amount"
    ∷ codes "currency"
    ∷ codes "value_date"
    ∷ codes "presentment_amount"
    ∷ codes "presentment_currency"
    ∷ codes "fx_rate"
    ∷ codes "memo"
    ∷ []

-- The values of a `ParsedRow.fields`, whose keys are the columns.
pub record Fields : Type 0 where
  pub psp_reference : Text
  pub merchant_reference : Text
  pub transaction_type : Text
  pub amount : Text
  pub currency : Text
  pub value_date : Text
  pub presentment_amount : Text
  pub presentment_currency : Text
  pub fx_rate : Text
  pub memo : Text

pub record ParsedRow : Type 0 where
  pub line : ℕ
  pub fields : Fields

pub record ParseResult : Type 0 where
  pub rows : List ParsedRow
  pub defects : List Defect

abbrev pub same_header : List Text → List Text → Bool
same_header [] [] = true
same_header [] (c ∷ cs) = false
same_header (h ∷ hs) [] = false
same_header (h ∷ hs) (c ∷ cs) = text_eq h c && same_header hs cs

-- `dict(zip(SETTLEMENT_COLUMNS, row))` of a row of ten values, or `none` of one of another length.
unfoldable pub fields_of : List Text → Option Fields
fields_of (a ∷ b ∷ c ∷ d ∷ e ∷ f ∷ g ∷ h ∷ i ∷ j ∷ []) = some (record {
  psp_reference = a;
  merchant_reference = b;
  transaction_type = c;
  amount = d;
  currency = e;
  value_date = f;
  presentment_amount = g;
  presentment_currency = h;
  fx_rate = i;
  memo = j;
})
fields_of _ = none

abbrev pub file_defect : QuarantineCode → ParseResult
file_defect code = record {
  rows = [];
  defects = (record { line = none; column = none; code = code }) ∷ [];
}

abbrev pub with_fields : ℕ → Option Fields → ParseResult → ParseResult
with_fields offset none r = record r {
  defects =
      (record { line = some offset; column = none; code = row_field_count_mismatch }) ∷ r.defects;
}
with_fields offset (some fields) r = record r {
  rows = (record { line = offset; fields = fields }) ∷ r.rows;
}

-- The loop over the data rows, from the number of the first; an empty row counts, and is skipped.
unfoldable pub parse_rows : ℕ → List (List Text) → ParseResult
unfolding fields_of
parse_rows offset [] = record { rows = []; defects = [] }
parse_rows offset ([] ∷ more) = parse_rows (suc offset) more
parse_rows offset ((v ∷ vs) ∷ more) =
    with_fields offset (fields_of (v ∷ vs)) (parse_rows (suc offset) more)

-- From the rows of the whole file on.
unfoldable pub parse_table : Option (List (List Text)) → ParseResult
unfolding parse_rows
parse_table none = file_defect malformed_csv
parse_table (some []) = file_defect empty_payload
parse_table (some (header ∷ rows)) =
    if not (same_header header settlement_columns)
    then record {
      rows = [];
      defects = (record { line = some 0; column = none; code = header_mismatch }) ∷ [];
    }
    else parse_rows 1 rows

-- `text.removeprefix("\ufeff")`
abbrev pub without_mark : Text → Text
without_mark [] = []
without_mark (c ∷ cs) = if c == 65279 then cs else c ∷ cs

unfoldable pub parse_text : FileReader → Option Text → ParseResult
unfolding parse_table
parse_text reader none = file_defect undecodable_payload
parse_text reader (some text) = parse_table (reader.read_csv (without_mark text))

-- `parse`
unfoldable pub parse : FileReader → List ℕ → ParseResult
unfolding parse_text
parse reader [] = file_defect empty_payload
parse reader (b ∷ bs) = parse_text reader (reader.decode (b ∷ bs))
