-- ===== src/Matching/Outcome.antt =====
-- What `match` promises of its outcome, for lines and entries of distinct identifiers.
use ledger_exception_control.Common.{ℕ, ◌≡◌, refl, sym, ap, Option, none, some, List, In, arith}
use ledger_exception_control.Matching.Engine.{
  eligible, absorbed_exactly, absorbed_in_band, CandidateLine, CandidateEntry, ProposedMatch,
  propose, absorbed,
}
use ledger_exception_control.Matching.Policy.{
  TolerancePolicy, within_window, MatchRule, band, exact_amount, amount_within_tolerance,
}
use ledger_exception_control.Common.Int.{ℤ, pos, ◌≤ℤ◌, magnitude, ◌-ℤ◌, magnitude-sub_zero}
use ledger_exception_control.Common.Date.{days_apart}
use ledger_exception_control.Matching.Tier.{found}
use ledger_exception_control.Matching.Rounds.{Sound}
use ledger_exception_control.Matching.Unique.{line_id-propose}
use mathlib.Core.Path.{subst}
use ledger_exception_control.Common.Text.{text_eq→eq}

-- A pair that may be matched under a rule, in terms of the lines and entries themselves.
abbrev pub AdmittedBy :
    TolerancePolicy → CandidateLine → CandidateEntry → ProposedMatch → MatchRule → Type 0
AdmittedBy policy line entry m exact_amount =
    (line.amount ≡ entry.amount) × (m.tolerance_applied ≡ none) × (m.tolerance_currency ≡ none)
AdmittedBy policy line entry m amount_within_tolerance =
    (b : ℤ) × (band policy line.currency ≡ some b)
    × (pos (magnitude (line.amount -ℤ entry.amount)) ≤ℤ b)
    × (m.tolerance_applied ≡ some (magnitude (line.amount -ℤ entry.amount)))
    × (m.tolerance_currency ≡ some line.currency)

abbrev pub Admitted :
    TolerancePolicy → List CandidateLine → List CandidateEntry → ProposedMatch → Type 0
Admitted policy lines entries m =
    (line : CandidateLine) × (entry : CandidateEntry) × In line lines
    × In entry entries
    × (m.line_id ≡ line.id)
    × (m.entry_id ≡ entry.id)
    × (line.currency ≡ entry.currency)
    × (pos (days_apart line.value_date entry.booked_on) ≤ℤ policy.value_date_window_days)
    × AdmittedBy policy line entry m m.rule

eligible-filters :
    (policy : TolerancePolicy) (rule : MatchRule) (line : CandidateLine) (entry : CandidateEntry)
    (a : ℕ)
    → eligible line entry rule policy ≡ some a
    → (line.currency ≡ entry.currency)
      × (pos (days_apart line.value_date entry.booked_on) ≤ℤ policy.value_date_window_days)
      × (absorbed rule (magnitude (line.amount -ℤ entry.amount)) (band policy line.currency)
          ≡ some a)
unfolding eligible within_window
eligible-filters policy rule line entry a h =
    ground (arith, text_eq→eq line.currency entry.currency)

absorbed-exact : (d a : ℕ) → absorbed_exactly d ≡ some a → (d ≡ 0) × (a ≡ 0)
absorbed-exact d a h = ground arith

absorbed-band :
    (d a : ℕ) (o : Option ℤ)
    → absorbed_in_band d o ≡ some a
    → (b : ℤ) × (o ≡ some b) × (pos d ≤ℤ b) × (a ≡ d)
absorbed-band d a none h = absurd (cc)
absorbed-band d a (some b) h = (b, refl, ground arith, ground arith)

eligible-AdmittedBy :
    (policy : TolerancePolicy) (rule : MatchRule) (line : CandidateLine) (entry : CandidateEntry)
    (a : ℕ)
    → eligible line entry rule policy ≡ some a
    → AdmittedBy policy line entry (propose rule line (found line entry a)) rule
eligible-AdmittedBy policy exact_amount line entry a h =
    let (c, w, e) = eligible-filters policy exact_amount line entry a h in
    let (z, n) = absorbed-exact (magnitude (line.amount -ℤ entry.amount)) a e in
    ((magnitude-sub_zero line.amount entry.amount).0 z, refl, refl)
eligible-AdmittedBy policy amount_within_tolerance line entry a h =
    let (c, w, e) = eligible-filters policy amount_within_tolerance line entry a h in
    let (b, k, l, n) =
      absorbed-band (magnitude (line.amount -ℤ entry.amount)) a (band policy line.currency) e in
    (b, k, l, ap some n, refl)

pub Sound-Admitted :
    (policy : TolerancePolicy) (lines : List CandidateLine) (entries : List CandidateEntry)
    (m : ProposedMatch)
    → Sound policy lines entries m
    → Admitted policy lines entries m
Sound-Admitted policy lines entries m (l, e, a, i, j, h, q) =
    let (x, y, r) = line_id-propose m.rule l e a m q in
    let (c, w, b) = eligible-filters policy m.rule l e a h in
    (
      l,
      e,
      i,
      j,
      x,
      y,
      c,
      w,
      subst (λ n. AdmittedBy policy l e n m.rule) (sym q)
          (eligible-AdmittedBy policy m.rule l e a h),
    )
