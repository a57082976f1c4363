-- ===== src/Ingest/Interpretation.antt =====
-- ingest/service.py: that every payload is interpreted, as lines that can be stored or as defects that
-- can be rendered.
use ledger_exception_control.Common.{
  ℕ, suc, none, some, Option, List, [], ◌∷◌, ◌++◌, ◌≡◌, ◌≢◌, ◌≤◌, true, arith, refl, all, All,
  all-append, all-In, any-In-witness, Bool-cases, inl, inr, ◌⊎◌, ◌<◌,
}
use ledger_exception_control.Common.Text.{Text, text_eq, text_eq→eq}
use ledger_exception_control.Ingest.Defect.{Defect, is_reason_allowed}
use ledger_exception_control.Ingest.Reason.{is_renderable}
use ledger_exception_control.Ingest.Parser.{
  FileReader, ParsedRow, Fields, settlement_columns, fields_of, parse, parse_rows, parse_table,
  parse_text, with_fields, same_header, ParseResult, without_mark,
}
use ledger_exception_control.Ingest.Normalise.{NormalisedLine}
use ledger_exception_control.Ingest.Row.{Normalised, normalise}
use ledger_exception_control.Ingest.Storable.{IsStorable, normalise-IsStorable}
use ledger_exception_control.Ingest.Refusals.{IsLocated, normalise_total}
use ledger_exception_control.Ingest.Payload.{
  Interpretation, with_row, normalise_rows, interpret_rows, interpret,
}

-- Line numbers that rise, from a least one.
abbrev pub IsRising : ℕ → List NormalisedLine → Type 0
IsRising n [] = Unit
IsRising n (l ∷ ls) = (n ≤ l.line_number) × IsRising (suc l.line_number) ls

abbrev RowsRising : ℕ → List ParsedRow → Type 0
RowsRising n [] = Unit
RowsRising n (r ∷ rs) = (n ≤ r.line) × RowsRising (suc r.line) rs

RowsRising-weaken : (m n : ℕ) (rs : List ParsedRow) → m ≤ n → RowsRising n rs → RowsRising m rs
RowsRising-weaken m n [] h k = tt
RowsRising-weaken m n (r ∷ rs) h k = (omega (arith, k.0), k.1)

IsRising-weaken : (m n : ℕ) (ls : List NormalisedLine) → m ≤ n → IsRising n ls → IsRising m ls
IsRising-weaken m n [] h k = tt
IsRising-weaken m n (l ∷ ls) h k = (omega (arith, k.0), k.1)

row-RowsRising :
    (f : Option Fields) (n : ℕ) (r : ParseResult)
    → RowsRising (suc n) r.rows
    → RowsRising n (with_fields n f r).rows
row-RowsRising none n r h = RowsRising-weaken n (suc n) r.rows (omega arith) h
row-RowsRising (some f) n r h = (omega arith, h)

row_renderable :
    (f : Option Fields) (n : ℕ) (r : ParseResult)
    → all is_renderable r.defects ≡ true
    → all is_renderable (with_fields n f r).defects ≡ true
row_renderable none n r h = h
row_renderable (some f) n r h = h

parse_rows-RowsRising : (n : ℕ) (table : List (List Text)) → RowsRising n (parse_rows n table).rows
unfolding parse_rows
parse_rows-RowsRising n [] = tt
parse_rows-RowsRising n ([] ∷ more) =
    RowsRising-weaken n (suc n) (parse_rows (suc n) more).rows (omega arith)
      (parse_rows-RowsRising (suc n) more)
parse_rows-RowsRising n ((v ∷ vs) ∷ more) =
    row-RowsRising (fields_of (v ∷ vs)) n (parse_rows (suc n) more)
      (parse_rows-RowsRising (suc n) more)

parse_rows-renderable :
    (n : ℕ) (table : List (List Text)) → all is_renderable (parse_rows n table).defects ≡ true
unfolding parse_rows
parse_rows-renderable n [] = refl
parse_rows-renderable n ([] ∷ more) = parse_rows-renderable (suc n) more
parse_rows-renderable n ((v ∷ vs) ∷ more) =
    row_renderable (fields_of (v ∷ vs)) n (parse_rows (suc n) more)
      (parse_rows-renderable (suc n) more)

-- What `parse` gives: rows whose numbers rise, and defects that can be rendered.
abbrev ParsedWell : ParseResult → Type 0
ParsedWell r = RowsRising 1 r.rows × (all is_renderable r.defects ≡ true)

parse-ParsedWell : (reader : FileReader) (payload : List ℕ) → ParsedWell (parse reader payload)
unfolding parse
parse-ParsedWell reader [] = (tt, refl)
parse-ParsedWell reader (b ∷ bs) = text (reader.decode (b ∷ bs))
  where
    table : (o : Option (List (List Text))) → ParsedWell (parse_table o)
    table none = (tt, refl)
    table (some []) = (tt, refl)
    table (some (header ∷ rows)) = elim (Bool-cases (same_header header settlement_columns)) [
      | inl same ↦ rw same (parse_rows-RowsRising 1 rows, parse_rows-renderable 1 rows)
      | inr other ↦ rw other (tt, refl)
    ]

    text : (o : Option Text) → ParsedWell (parse_text reader o)
    text none = (tt, refl)
    text (some t) = table (reader.read_csv (without_mark t))

IsLocated-renderable :
    (n : ℕ) (ds : List Defect) → All (IsLocated n) ds → all is_renderable ds ≡ true
IsLocated-renderable n [] h = refl
IsLocated-renderable n (d ∷ ds) ((c, declared, line, column), more) =
    let (k, m, e) = any-In-witness (text_eq c) settlement_columns declared in
    let ok = all-In (all is_reason_allowed) k settlement_columns refl m in
    rw (column, text_eq→eq c k e, ok) (IsLocated-renderable n ds more)

-- What is made of the rows: lines that can be stored, with rising numbers, and defects that can be
-- rendered.
abbrev IsSound : ℕ → Interpretation → Type 0
IsSound n (lines, defects) =
    All IsStorable lines × IsRising n lines × (all is_renderable defects ≡ true)

normalise_rows-IsSound :
    (n : ℕ) (rows : List ParsedRow)
    → 0 < n
    → RowsRising n rows
    → (r : Interpretation) × (normalise_rows rows ≡ some r) × IsSound n r
unfolding normalise_rows
normalise_rows-IsSound n [] z h = (([], []), refl, (tt, tt, refl))
normalise_rows-IsSound n (row ∷ more) z (low, h) =
    with (normalise_rows-IsSound (suc row.line) more (omega arith) h) (normalise_total row)
  where
    with :
        (r : Interpretation) × (normalise_rows more ≡ some r) × IsSound (suc row.line) r
        → ((l : NormalisedLine) × (normalise row ≡ Normalised.line l))
          ⊎ ((ds : List Defect) × (normalise row ≡ Normalised.refused ds)
              × (ds ≢ [])
              × All (IsLocated row.line) ds)
        → (r : Interpretation) × (with_row (normalise row) (normalise_rows more) ≡ some r)
          × IsSound n r
    with ((lines, defects), e, (ok, rising, clean)) (inl (l, k)) =
        let (storable, carried) = normalise-IsStorable row l (omega (arith, z, low)) k in
        let number = carried.number in
        (
          (l ∷ lines, defects),
          rw (e, k) refl,
          ((storable, ok), (omega (arith, number, low), rw number rising), clean),
        )
    with ((lines, defects), e, (ok, rising, clean)) (inr (ds, k, some_defect, located)) = (
      (lines, ds ++ defects),
      rw (e, k) refl,
      (
        ok,
        IsRising-weaken n (suc row.line) lines (omega (arith, low)) rising,
        all-append is_renderable ds defects (IsLocated-renderable row.line ds located) clean,
      ),
    )

-- Lines or defects, never both.
abbrev pub OneKind : Interpretation → Type 0
OneKind (lines, []) = Unit
OneKind (lines, d ∷ ds) = lines ≡ []

-- Every payload is interpreted, whatever the reader makes of it: as lines that can all be stored and
-- whose numbers rise from one on, so that no two are equal, or as defects, all in columns whose names can be
-- rendered; and never as both.
pub interpret_total :
    (reader : FileReader) (payload : List ℕ)
    → (lines : List NormalisedLine) × (defects : List Defect) × (interpret reader payload
        ≡ some (lines, defects))
      × OneKind (lines, defects)
      × All IsStorable lines
      × IsRising 1 lines
      × (all is_renderable defects ≡ true)
unfolding interpret
interpret_total reader payload =
    let (rising, clean) = parse-ParsedWell reader payload in
    go (parse reader payload).defects clean
      (normalise_rows-IsSound 1 (parse reader payload).rows (omega arith) rising)
  where
    Total : Option Interpretation → Type 0
    Total o =
        (lines : List NormalisedLine) × (defects : List Defect) × (o ≡ some (lines, defects))
        × OneKind (lines, defects)
        × All IsStorable lines
        × IsRising 1 lines
        × (all is_renderable defects ≡ true)

    go :
        (ds : List Defect)
        → all is_renderable ds ≡ true
        → (r : Interpretation) × (normalise_rows (parse reader payload).rows ≡ some r) × IsSound 1 r
        → Total (interpret_rows (parse reader payload).rows ds)
    go (d ∷ ds) clean r = ([], d ∷ ds, refl, refl, tt, tt, clean)
    go [] clean ((lines, []), e, (ok, rising, k)) = (lines, [], rw e refl, tt, ok, rising, refl)
    go [] clean ((lines, d ∷ ds), e, (ok, rising, k)) = ([], d ∷ ds, rw e refl, refl, tt, tt, k)
