-- ===== src/Matching/Match.antt =====
-- `match` as a whole.
use ledger_exception_control.Common.{
  ℕ, ◌≡◌, ap, ◌⊎◌, inl, inr, List, [], ◌∷◌, map, In, Distinct, arith, In-map, not,
  Distinct-determines, contains, keep, ◌&&◌, Bool-cases, contains-In, keep-In, In-keep,
}
use ledger_exception_control.Matching.Engine.{
  run_rules, CandidateLine, CandidateEntry, match_lines, Progress, run_rule, ProposedMatch,
  rule_precedence, line_key, entry_key, conclude,
}
use ledger_exception_control.Matching.Policy.{TolerancePolicy, MatchRule}
use ledger_exception_control.Matching.Rounds.{Inv, line_ids, entry_ids}
use ledger_exception_control.Matching.Kept.{run_rule-Inv}
use ledger_exception_control.Common.Sort.{sorted, sorted-In, sorted-Distinct, sorted-perm}
use ledger_exception_control.Matching.Outcome.{Admitted, Sound-Admitted}
use mathlib.Core.List.{Permᴰ}
use ledger_exception_control.Common.Gather.{not-In}

abbrev pub begin : List CandidateLine → List CandidateEntry → Progress
begin lines entries = record {
  matches = [];
  ambiguous = [];
  remaining_lines = sorted line_key lines;
  remaining_entries = sorted entry_key entries;
}

-- The identifier is in the first set alone, in the second alone or in the third alone.
abbrev pub InExactlyOne : ℕ → List ℕ → List ℕ → List ℕ → Type 0
InExactlyOne i xs ys zs =
    (In i xs × (In i ys → ⊥) × (In i zs → ⊥))
    ⊎ ((In i xs → ⊥) × In i ys × (In i zs → ⊥))
    ⊎ ((In i xs → ⊥) × (In i ys → ⊥) × In i zs)

-- The three parts of an outcome exclude one another, and cover the lines.
conclude_parts :
    (lines : List CandidateLine) (p : Progress) (i : ℕ)
    → In i (map (λ l. l.id) lines)
    → let o = conclude lines p in
      InExactlyOne i (line_ids o.matches) o.ambiguous_line_ids o.unmatched_line_ids
unfolding conclude
conclude_parts lines p i h =
    let settled = line_ids p.matches in
    let unsettled = λ (k : ℕ). not (contains k settled) in
    let amb = keep unsettled p.ambiguous in
    let neither = λ (k : ℕ). not (contains k settled) && not (contains k amb) in
    elim (Bool-cases (contains i settled)) [
      | inl s ↦ inl (
        contains-In i settled s,
        λ k. cc (s, (keep-In unsettled i p.ambiguous k).1),
        λ k. ground (arith, (keep-In neither i (map (λ l. l.id) lines) k).1),
      )
      | inr s ↦ elim (Bool-cases (contains i amb)) [
        | inl a ↦ inr (
            inl (
              not-In i settled s,
              contains-In i amb a,
              λ k. ground (arith, (keep-In neither i (map (λ l. l.id) lines) k).1),
            ))
        | inr a ↦ inr (
            inr (
              not-In i settled s,
              not-In i amb a,
              In-keep neither i (map (λ l. l.id) lines) h (rw (s, a)),
            ))
      ]
    ]

run_rules-Inv :
    (policy : TolerancePolicy) (lines : List CandidateLine) (entries : List CandidateEntry)
    (rules : List MatchRule) (p : Progress)
    → Inv policy lines entries p
    → Inv policy lines entries (run_rules policy rules p)
unfolding run_rules
run_rules-Inv policy lines entries [] p v = v
run_rules-Inv policy lines entries (r ∷ rules) p v =
    run_rules-Inv policy lines entries rules (run_rule policy p r)
      (run_rule-Inv policy lines entries p r v)

module _ (policy : TolerancePolicy) (lines : List CandidateLine) (entries : List CandidateEntry)
    (lines_distinct : Distinct (map (λ l. l.id) lines))
    (entries_distinct : Distinct (map (λ e. e.id) entries)) where
  pub begin-Inv : Inv policy lines entries (begin lines entries)
  begin-Inv = record {
    lines_in = λ l. (sorted-In line_key l lines).0;
    entries_in = λ e. (sorted-In entry_key e entries).0;
    lines_distinct = sorted-Distinct line_key (λ l. l.id) lines lines_distinct;
    entries_distinct = sorted-Distinct entry_key (λ e. e.id) entries entries_distinct;
    sound = λ m h. elim h [ ];
    lines_once = tt;
    entries_once = tt;
    lines_left = λ l h k. elim k [ inl n ↦ n | inr n ↦ n ];
    entries_left = λ e h k. k;
    apart = λ i h k. k;
    covered = λ l h. inl ((sorted-In line_key l lines).1 h);
  }

  last : Inv policy lines entries (run_rules policy rule_precedence (begin lines entries))
  last = run_rules-Inv policy lines entries rule_precedence (begin lines entries) begin-Inv

  -- For lines and entries of distinct identifiers, every match pairs a line with an entry of the
  -- same currency whose dates lie within the window; under the exact rule the amounts are equal
  -- and nothing is absorbed, and under the tolerance rule the recorded amount is their difference,
  -- which does not exceed the declared band of the currency.
  pub match_lines-Admitted :
      (m : ProposedMatch)
      → In m (match_lines lines entries policy).matches
      → Admitted policy lines entries m
  unfolding match_lines
  match_lines-Admitted m h = Sound-Admitted policy lines entries m (last.sound m h)

  -- For lines and entries of distinct identifiers, no line and no entry is matched twice.
  pub match_lines-one_to_one :
      Distinct (line_ids (match_lines lines entries policy).matches)
      × Distinct (entry_ids (match_lines lines entries policy).matches)
  unfolding match_lines
  match_lines-one_to_one = (last.lines_once, last.entries_once)

  -- For lines and entries of distinct identifiers, every line given is exactly one of matched,
  -- ambiguous and unmatched.
  pub match_lines-partition :
      (line : CandidateLine)
      → In line lines
      → let o = match_lines lines entries policy in
        InExactlyOne line.id (line_ids o.matches) o.ambiguous_line_ids o.unmatched_line_ids
  unfolding match_lines
  match_lines-partition line h =
      conclude_parts (sorted line_key lines)
        (run_rules policy rule_precedence (begin lines entries)) line.id
        (In-map (λ l. l.id) line (sorted line_key lines) ((sorted-In line_key line lines).1 h))

  -- For lines and entries of distinct identifiers, the order in which the lines and the entries
  -- arrive does not change the outcome, its order included.
  pub match_lines-perm :
      {lines' : List CandidateLine} {entries' : List CandidateEntry}
      → Permᴰ lines lines'
      → Permᴰ entries entries'
      → match_lines lines entries policy ≡ match_lines lines' entries' policy
  unfolding match_lines
  match_lines-perm p q = cc (
    sorted-perm line_key p (λ a b m n e.
        Distinct-determines (λ l. l.id) a b lines lines_distinct m n (ap (λ k. k.1) e)),
    sorted-perm entry_key q (λ a b m n e.
        Distinct-determines (λ x. x.id) a b entries entries_distinct m n (ap (λ k. k.1) e)),
  )
