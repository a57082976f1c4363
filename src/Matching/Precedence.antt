-- ===== src/Matching/Precedence.antt =====
-- The exact rule against the tolerance rule.
use ledger_exception_control.Common.{
  ℕ, ◌≡◌, sym, ◌∙◌, inl, inr, some, List, [], map, In, Distinct, In-append_left, map-In,
  In-append_right, Distinct-determines,
}
use ledger_exception_control.Matching.Policy.{
  TolerancePolicy, exact_amount, amount_within_tolerance,
}
use ledger_exception_control.Matching.Engine.{
  CandidateLine, CandidateEntry, run_rule, eligible, match_lines, entry_key, accept_mutually_unique,
  propose, line_key,
}
use ledger_exception_control.Matching.Contest.{Contested, Contested-ambiguous}
use ledger_exception_control.Common.Sort.{sorted-In, sorted}
use ledger_exception_control.Matching.Rounds.{
  Inv, entry_ids, line_ids, taken_cases, accepted_pair, accepted_entry, settled_entry,
}
use ledger_exception_control.Matching.Kept.{run_rule-Inv}
use ledger_exception_control.Matching.Tier.{MutuallyUnique, found}
use ledger_exception_control.Matching.Match.{begin, begin-Inv}
use ledger_exception_control.Matching.Unique.{accept_mutually_unique_complete, line_id-propose}

module _ (policy : TolerancePolicy) (lines : List CandidateLine) (entries : List CandidateEntry)
    (lines_distinct : Distinct (map (λ l. l.id) lines))
    (entries_distinct : Distinct (map (λ e. e.id) entries)) where
  abbrev start_inv : Inv policy lines entries (begin lines entries)
  start_inv = begin-Inv policy lines entries lines_distinct entries_distinct

  abbrev exact_inv : Inv policy lines entries (run_rule policy (begin lines entries) exact_amount)
  exact_inv = run_rule-Inv policy lines entries (begin lines entries) exact_amount start_inv

  abbrev both_inv :
      Inv policy lines entries (
        run_rule policy
          (run_rule policy (begin lines entries) exact_amount)
          amount_within_tolerance)
  both_inv =
      run_rule-Inv policy lines entries (run_rule policy (begin lines entries) exact_amount)
        amount_within_tolerance exact_inv

  sorted_unique :
      (line : CandidateLine) (entry : CandidateEntry) (a : ℕ)
      → MutuallyUnique exact_amount policy lines entries line entry a
      → MutuallyUnique exact_amount policy
          (sorted line_key lines)
          (sorted entry_key entries)
          line
          entry
          a
  sorted_unique line entry a u = record {
    line_in = (sorted-In line_key line lines).1 u.line_in;
    entry_in = (sorted-In entry_key entry entries).1 u.entry_in;
    admits = u.admits;
    only_entry = λ e h. u.only_entry e ((sorted-In entry_key e entries).0 h);
    only_line = λ l h. u.only_line l ((sorted-In line_key l lines).0 h);
  }

  -- For lines and entries of distinct identifiers, a line and an entry that are each other's only
  -- exact candidate are matched, by the exact rule, whatever near misses the tolerance rule admits.
  pub match_lines-exact_first :
      (line : CandidateLine) (entry : CandidateEntry) (a : ℕ)
      → MutuallyUnique exact_amount policy lines entries line entry a
      → In
          (propose exact_amount line (found line entry a))
          (match_lines lines entries policy).matches
  unfolding match_lines
  match_lines-exact_first line entry a u =
      let m = propose exact_amount line (found line entry a) in
      let t0 =
        accept_mutually_unique (sorted line_key lines) (sorted entry_key entries) exact_amount
          policy in
      let p1 = run_rule policy (begin lines entries) exact_amount in
      In-append_left m t0.accepted
        (accept_mutually_unique p1.remaining_lines p1.remaining_entries amount_within_tolerance
          policy).accepted
        (accept_mutually_unique_complete exact_amount policy (sorted line_key lines)
          (sorted entry_key entries) start_inv.lines_distinct start_inv.entries_distinct line entry
          a (sorted_unique line entry a u))

  abbrev Undecided : CandidateLine → Type 0
  Undecided line =
      Contested exact_amount policy (sorted line_key lines) (sorted entry_key entries)
        start_inv.lines_distinct start_inv.entries_distinct line

  -- The line has an exact candidate in the input, and is with no entry the only choice.
  abbrev pub ContestedExactly : CandidateLine → Type 0
  ContestedExactly line =
      ((entry : CandidateEntry) × (a : ℕ) × In entry entries
        × (eligible line entry exact_amount policy ≡ some a))
      × ((entry : CandidateEntry) (a : ℕ)
          → MutuallyUnique exact_amount policy lines entries line entry a
          → ⊥)

  unsorted_unique :
      (line : CandidateLine) (entry : CandidateEntry) (a : ℕ)
      → MutuallyUnique exact_amount policy
          (sorted line_key lines)
          (sorted entry_key entries)
          line
          entry
          a
      → MutuallyUnique exact_amount policy lines entries line entry a
  unsorted_unique line entry a u = record {
    line_in = (sorted-In line_key line lines).0 u.line_in;
    entry_in = (sorted-In entry_key entry entries).0 u.entry_in;
    admits = u.admits;
    only_entry = λ e h. u.only_entry e ((sorted-In entry_key e entries).1 h);
    only_line = λ l h. u.only_line l ((sorted-In line_key l lines).1 h);
  }

  Undecided-of : (line : CandidateLine) → ContestedExactly line → Undecided line
  Undecided-of line ((x, a, n, h), none_unique) = record {
    wanted = (x, a, (sorted-In entry_key x entries).1 n, h);
    undecided = λ y b u. none_unique y b (unsorted_unique line y b u);
  }

  withdrawn :
      (line : CandidateLine)
      → In line lines
      → Undecided line
      → In line.id (run_rule policy (begin lines entries) exact_amount).ambiguous
        × ((entry : CandidateEntry) (a : ℕ)
            → In entry entries
            → eligible line entry exact_amount policy ≡ some a
            → In entry.id
                (accept_mutually_unique
                  (sorted line_key lines)
                  (sorted entry_key entries)
                  exact_amount
                  policy).contested)
  unfolding run_rule
  withdrawn line l c =
      let (i, k) =
        Contested-ambiguous exact_amount policy (sorted line_key lines) (sorted entry_key entries)
          start_inv.lines_distinct start_inv.entries_distinct line
          ((sorted-In line_key line lines).1 l) c in
      (
        In-append_left line.id
            (accept_mutually_unique (sorted line_key lines) (sorted entry_key entries) exact_amount
              policy).ambiguous
            [] i,
        λ entry a n h. k entry a ((sorted-In entry_key entry entries).1 n) h,
      )

  -- The exact run gives a contested entry to nobody.
  not_exactly :
      (line : CandidateLine) (entry : CandidateEntry) (a : ℕ)
      → In line lines
      → In entry entries
      → Undecided line
      → eligible line entry exact_amount policy ≡ some a
      → In entry.id (
          entry_ids
            (accept_mutually_unique
              (sorted line_key lines)
              (sorted entry_key entries)
              exact_amount
              policy).accepted)
      → ⊥
  not_exactly line entry a l n c h k =
      let accepted =
        (accept_mutually_unique (sorted line_key lines) (sorted entry_key entries) exact_amount
          policy).accepted in
      let (m, i, e) = map-In (λ x. x.entry_id) entry.id accepted k in
      let (l', x, b, u, g) =
        accepted_pair policy lines entries (begin lines entries) exact_amount start_inv m i in
      let same =
        Distinct-determines (λ y. y.id) entry x (sorted entry_key entries)
          start_inv.entries_distinct ((sorted-In entry_key entry entries).1 n) u.entry_in
          (e ∙ (line_id-propose exact_amount l' x b m g).1) in
      elim (u.only_line line ((sorted-In line_key line lines).1 l)) [
        | inl never ↦ absurd (cc (h, same))
        | inr d ↦ c.undecided x b (
            rw
              (Distinct-determines (λ y. y.id) line l' (sorted line_key lines)
                start_inv.lines_distinct ((sorted-In line_key line lines).1 l) u.line_in d)
              u)
      ]

  -- Nor does a later run.
  not_taken :
      (line : CandidateLine) (entry : CandidateEntry) (a : ℕ)
      → In line lines
      → In entry entries
      → Undecided line
      → eligible line entry exact_amount policy ≡ some a
      → In entry.id (
          entry_ids
            (run_rule policy
              (run_rule policy (begin lines entries) exact_amount)
              amount_within_tolerance).matches)
      → ⊥
  not_taken line entry a l n c h k =
      let p1 = run_rule policy (begin lines entries) exact_amount in
      elim (taken_cases policy lines entries p1 amount_within_tolerance exact_inv entry.id k) [
        | inl before ↦
            elim (taken_cases policy lines entries (begin lines entries) exact_amount start_inv
              entry.id before) [
                | inl nothing ↦ nothing
                | inr now ↦ not_exactly line entry a l n c h now
              ]
        | inr later ↦
            let (x, i, e) =
              accepted_entry policy lines entries p1 amount_within_tolerance exact_inv entry.id
                later in
            (settled_entry policy lines entries (begin lines entries) exact_amount start_inv x
                i).1.1
              (rw (sym e) ((withdrawn line l c).1 entry a n h))
      ]

  -- For lines and entries of distinct identifiers, a line with exact candidates of which none is
  -- its only choice from both sides is not matched by any rule, and neither is any entry that it
  -- is exactly eligible for.
  pub match_lines-contest_withdrawn :
      (line : CandidateLine)
      → In line lines
      → ContestedExactly line
      → (In line.id (line_ids (match_lines lines entries policy).matches) → ⊥)
        × ((entry : CandidateEntry) (a : ℕ)
            → In entry entries
            → eligible line entry exact_amount policy ≡ some a
            → In entry.id (entry_ids (match_lines lines entries policy).matches)
            → ⊥)
  unfolding match_lines
  match_lines-contest_withdrawn line l c =
      let u = Undecided-of line c in
      let p1 = run_rule policy (begin lines entries) exact_amount in
      (
        both_inv.apart line.id (
            In-append_right line.id
              (accept_mutually_unique p1.remaining_lines p1.remaining_entries
                amount_within_tolerance policy).ambiguous
              p1.ambiguous (withdrawn line l u).0),
        λ entry a n h. not_taken line entry a l n u h,
      )
