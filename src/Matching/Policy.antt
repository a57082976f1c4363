-- ===== src/Matching/Policy.antt =====
-- matching/policy.py: the rules, the tolerance bands and the value-date window.
use ledger_exception_control.Common.{Bool, Option, none, some, List, [], ◌∷◌, if◌then◌else◌, any}
use ledger_exception_control.Common.Int.{ℤ, pos, ltb_ℤ, leb_ℤ}
use ledger_exception_control.Common.Text.{Text, codes, text_eq}
use ledger_exception_control.Common.Date.{Date, days_apart}

pub data MatchRule : Type 0 where
  exact_amount amount_within_tolerance : MatchRule

-- A mapping from currency codes to bands: the first pair of a code counts, as a dictionary has one.
pub record TolerancePolicy : Type 0 where
  pub amount : List (Text × ℤ)
  pub value_date_window_days : ℤ

pub data PolicyError : Type 0 where
  window_negative : PolicyError
  band_negative : PolicyError

abbrev negative_band : Text × ℤ → Bool
negative_band (currency, band) = ltb_ℤ band (pos 0)

-- `TolerancePolicy.__post_init__`: the error that construction raises, if any.
unfoldable pub post_init : TolerancePolicy → Option PolicyError
post_init p =
    if ltb_ℤ p.value_date_window_days (pos 0)
    then some window_negative
    else if any negative_band p.amount
    then some band_negative
    else none

unfoldable pub band_of : List (Text × ℤ) → Text → Option ℤ
band_of [] currency = none
band_of ((c, b) ∷ bands) currency = if text_eq c currency then some b else band_of bands currency

unfoldable pub band : TolerancePolicy → Text → Option ℤ
unfolding band_of
band p currency = band_of p.amount currency

unfoldable pub within_window : TolerancePolicy → Date → Date → Bool
within_window p value_date booked_on =
    leb_ℤ (pos (days_apart value_date booked_on)) p.value_date_window_days

-- One minor unit of each currency: 0.01, 0.01, 0.01, 1 and 0.001.
abbrev pub default_policy : TolerancePolicy
default_policy = record {
  amount =
      (codes "EUR", pos 100)
      ∷ (codes "USD", pos 100)
      ∷ (codes "GBP", pos 100)
      ∷ (codes "JPY", pos 10000)
      ∷ (codes "BHD", pos 10)
      ∷ [];
  value_date_window_days = pos 1;
}

abbrev pub exact_only_policy : TolerancePolicy
exact_only_policy = record { amount = []; value_date_window_days = pos 1 }
