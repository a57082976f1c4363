-- ===== src/Common/Date.antt =====
-- `datetime.date` of Python's standard library: year, month and day in the proleptic Gregorian
-- calendar, and the ordinal that the difference of two dates counts by.
use Prim.Native.Nat.{ℕ, ◌+◌, ◌-◌, ◌*◌, ◌/◌, ◌%◌}
use mathlib.Core.Bool.{Bool, not, ◌&&◌, ◌||◌}
use ledger_exception_control.Common.Tests.{ltb, leb, ◌==◌, if◌then◌else◌}
use ledger_exception_control.Common.Int.{magnitude, sub_ℕ}

pub record Date : Type 0 where
  pub year : ℕ
  pub month : ℕ
  pub day : ℕ

abbrev pub is_leap : ℕ → Bool
is_leap y = y % 4 == 0 && (not (y % 100 == 0) || y % 400 == 0)

-- The days of a common year before the month.
abbrev pub days_before_month : ℕ → ℕ
days_before_month m =
    if leb m 1
    then 0
    else if m == 2
    then 31
    else if m == 3
    then 59
    else if m == 4
    then 90
    else if m == 5
    then 120
    else if m == 6
    then 151
    else if m == 7
    then 181
    else if m == 8
    then 212
    else if m == 9
    then 243
    else if m == 10
    then 273
    else if m == 11
    then 304
    else 334

-- `d.toordinal()`
unfoldable pub to_ordinal : Date → ℕ
to_ordinal d =
    let y = d.year - 1 in
    y * 365
    + y / 4
    - y / 100
    + y / 400
    + days_before_month d.month
    + (if ltb 2 d.month && is_leap d.year then 1 else 0)
    + d.day

-- `abs((a - b).days)`
unfoldable pub days_apart : Date → Date → ℕ
days_apart a b = magnitude (sub_ℕ (to_ordinal a) (to_ordinal b))
