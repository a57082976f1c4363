-- ===== src/Ingest/Defect.antt =====
-- ingest/errors.py: the quarantine vocabulary, and the reason that is rendered from the defects of a
-- batch.
use ledger_exception_control.Common.{
  ℕ, none, some, Option, Bool, List, [], ◌∷◌, ◌++◌, ◌+◌, ◌-◌, ◌==◌, ◌||◌, ◌&&◌, leb, ltb, length,
  take, all, not, if◌then◌else◌, compare, Ordering, false, true,
}
use ledger_exception_control.Common.Text.{Text, codes, text_compare, then_compare, decimal_digits}
use ledger_exception_control.Common.Order.{sort_by}

pub data QuarantineCode : Type 0 where
  empty_payload undecodable_payload malformed_csv header_mismatch : QuarantineCode
  row_field_count_mismatch missing_required_field field_too_long : QuarantineCode
  unstorable_character invalid_amount amount_precision_exceeded : QuarantineCode
  amount_out_of_range invalid_currency invalid_date invalid_fx_rate : QuarantineCode
  incoherent_presentment_fields : QuarantineCode

-- The member's value.
abbrev pub code_value : QuarantineCode → Text
code_value empty_payload = codes "empty_payload"
code_value undecodable_payload = codes "undecodable_payload"
code_value malformed_csv = codes "malformed_csv"
code_value header_mismatch = codes "header_mismatch"
code_value row_field_count_mismatch = codes "row_field_count_mismatch"
code_value missing_required_field = codes "missing_required_field"
code_value field_too_long = codes "field_too_long"
code_value unstorable_character = codes "unstorable_character"
code_value invalid_amount = codes "invalid_amount"
code_value amount_precision_exceeded = codes "amount_precision_exceeded"
code_value amount_out_of_range = codes "amount_out_of_range"
code_value invalid_currency = codes "invalid_currency"
code_value invalid_date = codes "invalid_date"
code_value invalid_fx_rate = codes "invalid_fx_rate"
code_value incoherent_presentment_fields = codes "incoherent_presentment_fields"

pub record Defect : Type 0 where
  pub line : Option ℕ
  pub column : Option Text
  pub code : QuarantineCode

abbrev pub max_reason_length : ℕ
max_reason_length = 512

abbrev pub max_reported_defects : ℕ
max_reported_defects = 5

abbrev pub truncated_marker : Text
truncated_marker = codes " (truncated)"

-- A character of `REASON_ALLOWED`.
abbrev pub is_reason_allowed : ℕ → Bool
is_reason_allowed c =
    (leb b'A' c && leb c b'Z')
    || ((leb b'a' c && leb c b'z')
        || ((leb b'0' c && leb c b'9')
            || (c == b'_'
                || (c == 32
                    || (c == b','
                        || (c == b';'
                            || (c == b':'
                                || (c == b'+' || (c == b'(' || (c == b')' || c == b'-'))))))))))

-- `Defect.render`, for each way in which the parts are there.
abbrev pub render_parts : Text → Option ℕ → Option Text → Text
render_parts code none none = code
render_parts code (some n) none = code ++ codes ": line " ++ decimal_digits n
render_parts code none (some c) = code ++ codes ": column " ++ c
render_parts code (some n) (some c) =
    code ++ codes ": line " ++ decimal_digits n ++ codes ", column " ++ c

unfoldable pub render : Defect → Text
unfolding decimal_digits
render d = render_parts (code_value d.code) d.line d.column

-- The first component of `_sort_key`, one more than in the source: 0 for the file as a whole.
abbrev pub line_rank : Option ℕ → ℕ
line_rank none = 0
line_rank (some n) = n + 1

abbrev pub column_or_empty : Option Text → Text
column_or_empty none = []
column_or_empty (some c) = c

abbrev pub sort_key_compare : Defect → Defect → Ordering
sort_key_compare a b = then_compare (compare (line_rank a.line) (line_rank b.line)) (
    then_compare (text_compare (column_or_empty a.column) (column_or_empty b.column))
      (text_compare (code_value a.code) (code_value b.code)))

-- `_sort_key(a) <= _sort_key(b)`
abbrev pub defect_le : Defect → Defect → Bool
defect_le a b = elim (sort_key_compare a b) [ Ordering.gt ↦ false | _ ↦ true ]

-- `"; ".join(...)` of the rendered defects
unfoldable pub join_rendered : List Defect → Text
unfolding render
join_rendered [] = []
join_rendered (d ∷ []) = render d
join_rendered (d ∷ e ∷ ds) = render d ++ codes "; " ++ join_rendered (e ∷ ds)

-- The reason before the last two checks, of the defects in order.
unfoldable pub counted_reason : List Defect → Text
unfolding join_rendered decimal_digits
counted_reason ordered =
    let shown = take max_reported_defects ordered in
    let remaining = length ordered - length shown in
    if remaining == 0
    then join_rendered shown
    else join_rendered shown ++ codes "; (+" ++ decimal_digits remaining ++ codes " more)"

abbrev pub bounded_reason : Text → Text
bounded_reason reason =
    if ltb max_reason_length (length reason)
    then take (max_reason_length - length truncated_marker) reason ++ truncated_marker
    else reason

abbrev pub checked_reason : Text → Option Text
checked_reason reason = if not (all is_reason_allowed reason) then none else some reason

-- `render_reason`, or `none` where it raises `ValueError`.
unfoldable pub render_reason : List Defect → Option Text
unfolding counted_reason sort_by
render_reason [] = none
render_reason (d ∷ ds) =
    checked_reason (bounded_reason (counted_reason (sort_by defect_le (d ∷ ds))))
