-- ===== src/Operations/Identity/Spelling.antt =====
-- operations/identity.py: that the canonical text of an amount spells its value.
use ledger_exception_control.Common.{
  ℕ, none, some, Bool, true, false, List, [], ◌∷◌, leb, if◌then◌else◌, ◌≡◌, Option,
}
use ledger_exception_control.Money.Decimal.{Decimal, finite}
use ledger_exception_control.Operations.Identity.Amount.{read_amount}
use ledger_exception_control.Common.Int.{ℤ, pos, negate}
use ledger_exception_control.Common.Text.{Text}
use ledger_exception_control.Money.Scale.{AreDigits, Represents}

abbrev starts_digit : Text → Bool
starts_digit [] = false
starts_digit (c ∷ cs) = leb 48 c

abbrev pub signed : Bool → ℕ → ℤ
signed sign n = if sign then negate (pos n) else pos n

-- Of a finite amount, a text that reads as its value: the number of ten-thousandths that it
-- represents, with its sign.
abbrev pub Spells : Decimal → Text → Type 0
Spells (finite sign ds exponent) t =
    (n : ℕ) × Represents ds exponent n × (read_amount t ≡ signed sign n)
Spells a t = ⊥

-- The digits of a finite amount are digits.
abbrev pub IsProper : Decimal → Type 0
IsProper (finite sign ds exponent) = AreDigits ds
IsProper a = Unit

-- A text is given exactly where the amount is admitted, and spells its value.
abbrev pub IsSpelled : Decimal → Bool → Option Text → Type 0
IsSpelled a true none = ⊥
IsSpelled a true (some t) = Spells a t
IsSpelled a false none = Unit
IsSpelled a false (some t) = ⊥
