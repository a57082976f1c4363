-- ===== src/Matching/Engine.antt =====
-- matching/engine.py: the matching decision. An identifier is the number that its sixteen bytes
-- spell, so that comparing identifiers is comparing numbers. A dictionary of lists that is filled
-- by one double loop is read off the list of what the loop appends, in its order.
use ledger_exception_control.Common.{
  ℕ, not, Option, none, some, List, [], ◌∷◌, ◌++◌, map, length, keep, contains, ◌==◌, if◌then◌else◌,
  ◌&&◌,
}
use ledger_exception_control.Common.Int.{ℤ, pos, ◌-ℤ◌, magnitude, leb_ℤ}
use ledger_exception_control.Common.Text.{Text, text_eq}
use ledger_exception_control.Common.Date.{Date}
use ledger_exception_control.Common.Sort.{Key, sorted}
use ledger_exception_control.Common.Gather.{gather}
use ledger_exception_control.Matching.Policy.{
  MatchRule, exact_amount, amount_within_tolerance, TolerancePolicy, band, within_window,
}

pub record CandidateLine : Type 0 where
  pub id : ℕ
  pub line_number : ℕ
  pub amount : ℤ
  pub currency : Text
  pub value_date : Date

pub record CandidateEntry : Type 0 where
  pub id : ℕ
  pub external_ref : Text
  pub amount : ℤ
  pub currency : Text
  pub booked_on : Date

pub record ProposedMatch : Type 0 where
  pub line_id : ℕ
  pub entry_id : ℕ
  pub rule : MatchRule
  pub tolerance_applied : Option ℕ
  pub tolerance_currency : Option Text

pub record MatchOutcome : Type 0 where
  pub matches : List ProposedMatch
  pub ambiguous_line_ids : List ℕ
  pub unmatched_line_ids : List ℕ

abbrev pub rule_precedence : List MatchRule
rule_precedence = exact_amount ∷ amount_within_tolerance ∷ []

-- The two ends of `_eligible`, once the hard filters have passed.
abbrev pub absorbed_exactly : ℕ → Option ℕ
absorbed_exactly difference = if difference == 0 then some 0 else none

abbrev pub absorbed_in_band : ℕ → Option ℤ → Option ℕ
absorbed_in_band difference none = none
absorbed_in_band difference (some b) = if leb_ℤ (pos difference) b then some difference else none

abbrev pub absorbed : MatchRule → ℕ → Option ℤ → Option ℕ
absorbed exact_amount difference b = absorbed_exactly difference
absorbed amount_within_tolerance difference b = absorbed_in_band difference b

-- `_eligible`
unfoldable pub eligible : CandidateLine → CandidateEntry → MatchRule → TolerancePolicy → Option ℕ
eligible line entry rule policy =
    if not (text_eq line.currency entry.currency)
    then none
    else if not (within_window policy line.value_date entry.booked_on)
    then none
    else absorbed rule (magnitude (line.amount -ℤ entry.amount)) (band policy line.currency)

-- One turn of the double loop of `_accept_mutually_unique`: what is appended, if anything, to
-- `candidates[line.id]`, and by its entry to `claimants[entry.id]`.
pub record Candidate : Type 0 where
  pub line_id : ℕ
  pub entry : CandidateEntry
  pub absorbed_amount : ℕ

abbrev pub to_candidate : CandidateLine → CandidateEntry → Option ℕ → Option Candidate
to_candidate line entry none = none
to_candidate line entry (some a) =
    some (record { line_id = line.id; entry = entry; absorbed_amount = a })

unfoldable pub candidate :
    MatchRule → TolerancePolicy → CandidateLine → CandidateEntry → Option Candidate
candidate rule policy line entry = to_candidate line entry (eligible line entry rule policy)

unfoldable pub candidates :
    List CandidateLine → List CandidateEntry → MatchRule → TolerancePolicy → List Candidate
candidates [] entries rule policy = []
candidates (line ∷ lines) entries rule policy =
    gather (candidate rule policy line) entries ++ candidates lines entries rule policy

-- `candidates.get(line.id, [])` and `claimants[entry.id]`
unfoldable pub options : List Candidate → ℕ → List Candidate
options cs line_id = keep (λ c. line_id == c.line_id) cs

unfoldable pub claimants : List Candidate → ℕ → List Candidate
claimants cs entry_id = keep (λ c. entry_id == c.entry.id) cs

-- What `_accept_mutually_unique` returns.
pub record TierResult : Type 0 where
  pub accepted : List ProposedMatch
  pub ambiguous : List ℕ
  pub contested : List ℕ

abbrev pub propose : MatchRule → CandidateLine → Candidate → ProposedMatch
propose exact_amount line c = record {
  line_id = line.id;
  entry_id = c.entry.id;
  rule = exact_amount;
  tolerance_applied = none;
  tolerance_currency = none;
}
propose amount_within_tolerance line c = record {
  line_id = line.id;
  entry_id = c.entry.id;
  rule = amount_within_tolerance;
  tolerance_applied = some c.absorbed_amount;
  tolerance_currency = some line.currency;
}

-- The body of the second loop, on the options of the line.
unfoldable pub decide_line :
    MatchRule → List Candidate → CandidateLine → List Candidate → TierResult → TierResult
decide_line rule cs line [] r = r
decide_line rule cs line (c ∷ []) r =
    if length (claimants cs c.entry.id) == 1
    then (record r { accepted = r.accepted ++ propose rule line c ∷ [] })
    else (record r { ambiguous = line.id ∷ r.ambiguous; contested = c.entry.id ∷ r.contested })
decide_line rule cs line (c ∷ d ∷ more) r = record r {
  ambiguous = line.id ∷ r.ambiguous;
  contested = map (λ o. o.entry.id) (c ∷ d ∷ more) ++ r.contested;
}

unfoldable pub decide_lines :
    MatchRule → List Candidate → List CandidateLine → TierResult → TierResult
unfolding decide_line
decide_lines rule cs [] r = r
decide_lines rule cs (line ∷ lines) r =
    decide_lines rule cs lines (decide_line rule cs line (options cs line.id) r)

-- `_accept_mutually_unique`
unfoldable pub accept_mutually_unique :
    List CandidateLine → List CandidateEntry → MatchRule → TolerancePolicy → TierResult
unfolding decide_lines candidates candidate eligible
accept_mutually_unique lines entries rule policy =
    decide_lines rule (candidates lines entries rule policy) lines
      (record { accepted = []; ambiguous = []; contested = [] })

-- The variables of the loop over the rules in `match`.
pub record Progress : Type 0 where
  pub matches : List ProposedMatch
  pub ambiguous : List ℕ
  pub remaining_lines : List CandidateLine
  pub remaining_entries : List CandidateEntry

unfoldable pub run_rule : TolerancePolicy → Progress → MatchRule → Progress
unfolding accept_mutually_unique
run_rule policy p rule =
    let t = accept_mutually_unique p.remaining_lines p.remaining_entries rule policy in
    let settled_lines = map (λ m. m.line_id) t.accepted ++ t.ambiguous in
    let settled_entries = map (λ m. m.entry_id) t.accepted ++ t.contested in
    record {
      matches = p.matches ++ t.accepted;
      ambiguous = t.ambiguous ++ p.ambiguous;
      remaining_lines = keep (λ l. not (contains l.id settled_lines)) p.remaining_lines;
      remaining_entries = keep (λ e. not (contains e.id settled_entries)) p.remaining_entries;
    }

unfoldable pub run_rules : TolerancePolicy → List MatchRule → Progress → Progress
unfolding run_rule
run_rules policy [] p = p
run_rules policy (rule ∷ rules) p = run_rules policy rules (run_rule policy p rule)

abbrev pub line_key : CandidateLine → Key
line_key line = (line.line_number ∷ [], line.id)

abbrev pub entry_key : CandidateEntry → Key
entry_key entry = (entry.external_ref, entry.id)

-- The last lines of `match`: the three parts of the outcome.
unfoldable pub conclude : List CandidateLine → Progress → MatchOutcome
conclude lines p =
    let settled = map (λ m. m.line_id) p.matches in
    let ambiguous = keep (λ i. not (contains i settled)) p.ambiguous in
    record {
      matches = p.matches;
      ambiguous_line_ids = ambiguous;
      unmatched_line_ids =
          keep (λ i. not (contains i settled) && not (contains i ambiguous))
            (map (λ l. l.id) lines);
    }

-- `match`
unfoldable pub match_lines :
    List CandidateLine → List CandidateEntry → TolerancePolicy → MatchOutcome
unfolding run_rules conclude sorted
match_lines lines entries policy =
    let remaining_lines = sorted line_key lines in
    let remaining_entries = sorted entry_key entries in
    conclude remaining_lines (
      run_rules policy rule_precedence (record {
        matches = [];
        ambiguous = [];
        remaining_lines = remaining_lines;
        remaining_entries = remaining_entries;
      }))
