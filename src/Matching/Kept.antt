-- ===== src/Matching/Kept.antt =====
-- A run of a rule keeps the invariant of the rounds.
use ledger_exception_control.Common.{
  ℕ, List, In, In-append_cases, not, ◌⊎◌, inl, inr, contains, ◌++◌, Bool-cases, sym, contains-In,
  In-append_right, In-append_left, In-keep,
}
use ledger_exception_control.Matching.Rounds.{
  Inv, Sound, propose-Sound, line_ids, entry_ids, accepted_pair, accepted_line, accepted_entry,
  ambiguous_line, tier-apart, ids_cases, settled_line, settled_entry, once,
}
use ledger_exception_control.Matching.Policy.{TolerancePolicy, MatchRule}
use ledger_exception_control.Matching.Engine.{
  CandidateLine, CandidateEntry, Progress, TierResult, run_rule, ProposedMatch,
  accept_mutually_unique,
}
use ledger_exception_control.Common.Gather.{keep-Distinct}
use mathlib.Core.Path.{subst}
use ledger_exception_control.Matching.Unique.{accepted-lines_Distinct, accepted-entries_Distinct}
use mathlib.Core.List.{map-append}

module _ (policy : TolerancePolicy) (lines : List CandidateLine) (entries : List CandidateEntry)
    (p : Progress) (rule : MatchRule) (v : Inv policy lines entries p) where
  abbrev t : TierResult
  t = accept_mutually_unique p.remaining_lines p.remaining_entries rule policy

  abbrev q : Progress
  q = run_rule policy p rule

  sound' : (m : ProposedMatch) → In m q.matches → Sound policy lines entries m
  unfolding run_rule
  sound' m h = elim (In-append_cases m p.matches t.accepted h) [
    | inl old ↦ v.sound m old
    | inr new ↦
        let (l, x, a, u, e) = accepted_pair policy lines entries p rule v m new in
        subst (Sound policy lines entries) (sym e) (
          propose-Sound policy lines entries rule l x a (v.lines_in l u.line_in)
            (v.entries_in x u.entry_in) u.admits)
  ]

  lines_left' :
      (l : CandidateLine)
      → In l q.remaining_lines
      → In l.id (line_ids q.matches) ⊎ In l.id q.ambiguous
      → ⊥
  unfolding run_rule
  lines_left' l h (inl k) =
      let (m, s) = settled_line policy lines entries p rule v l h in
      elim (ids_cases policy lines entries p rule v (λ x. x.line_id) l.id k) [
        | inl old ↦ v.lines_left l m (inl old)
        | inr new ↦ s.0 new
      ]
  lines_left' l h (inr k) =
      let (m, s) = settled_line policy lines entries p rule v l h in
      elim (In-append_cases l.id t.ambiguous p.ambiguous k) [
        | inl new ↦ s.1 new
        | inr old ↦ v.lines_left l m (inr old)
      ]

  entries_left' :
      (e : CandidateEntry) → In e q.remaining_entries → In e.id (entry_ids q.matches) → ⊥
  unfolding run_rule
  entries_left' e h k =
      let (m, s) = settled_entry policy lines entries p rule v e h in
      elim (ids_cases policy lines entries p rule v (λ x. x.entry_id) e.id k) [
        | inl old ↦ v.entries_left e m old
        | inr new ↦ s.0 new
      ]

  apart' : (i : ℕ) → In i q.ambiguous → In i (line_ids q.matches) → ⊥
  unfolding run_rule
  apart' i h k = elim (In-append_cases i t.ambiguous p.ambiguous h) [
    | inl new ↦
        let (l, m, e, c) = ambiguous_line policy lines entries p rule v i new in
        elim (ids_cases policy lines entries p rule v (λ x. x.line_id) i k) [
          | inl old ↦ v.lines_left l m (inl (rw e at old))
          | inr accepted ↦ tier-apart policy lines entries p rule v i new accepted
        ]
    | inr old ↦ elim (ids_cases policy lines entries p rule v (λ x. x.line_id) i k) [
      | inl matched ↦ v.apart i old matched
      | inr accepted ↦
          let (l, m, e, n) = accepted_line policy lines entries p rule v i accepted in
          v.lines_left l m (inr (rw e at old))
    ]
  ]

  covered' :
      (l : CandidateLine)
      → In l lines
      → In l q.remaining_lines ⊎ In l.id (line_ids q.matches) ⊎ In l.id q.ambiguous
  unfolding run_rule
  covered' l h =
      let ids = line_ids t.accepted ++ t.ambiguous in
      elim (v.covered l h) [
        | inl left ↦ elim (Bool-cases (contains l.id ids)) [
          | inl c ↦
              elim (In-append_cases l.id (line_ids t.accepted) t.ambiguous
                (contains-In l.id ids c)) [
                  | inl new ↦ inr (
                      inl (
                        rw map-append
                          (In-append_right l.id (line_ids p.matches) (line_ids t.accepted) new)))
                  | inr new ↦ inr (inr (In-append_left l.id t.ambiguous p.ambiguous new))
                ]
          | inr n ↦ inl (In-keep (λ x. not (contains x.id ids)) l p.remaining_lines left (rw n))
        ]
        | inr (inl old) ↦ inr (
            inl
              (rw map-append (In-append_left l.id (line_ids p.matches) (line_ids t.accepted) old)))
        | inr (inr old) ↦ inr (inr (In-append_right l.id t.ambiguous p.ambiguous old))
      ]

  -- A run of a rule keeps the invariant.
  pub run_rule-Inv : Inv policy lines entries q
  unfolding run_rule
  run_rule-Inv = record {
    lines_in = λ l h. v.lines_in l (settled_line policy lines entries p rule v l h).0;
    entries_in = λ e h. v.entries_in e (settled_entry policy lines entries p rule v e h).0;
    lines_distinct =
        keep-Distinct (λ l. l.id) (λ l. not (contains l.id (line_ids t.accepted ++ t.ambiguous)))
          p.remaining_lines v.lines_distinct;
    entries_distinct =
        keep-Distinct (λ e. e.id) (λ e. not (contains e.id (entry_ids t.accepted ++ t.contested)))
          p.remaining_entries v.entries_distinct;
    sound = sound';
    lines_once =
        once policy lines entries p rule v (λ m. m.line_id) v.lines_once
          (accepted-lines_Distinct rule policy p.remaining_lines p.remaining_entries
            v.lines_distinct v.entries_distinct)
          (λ i h k.
            let (l, m, e, n) = accepted_line policy lines entries p rule v i k in
            v.lines_left l m (inl (rw e at h)));
    entries_once =
        once policy lines entries p rule v (λ m. m.entry_id) v.entries_once
          (accepted-entries_Distinct rule policy p.remaining_lines p.remaining_entries
            v.lines_distinct v.entries_distinct)
          (λ i h k.
            let (x, m, e) = accepted_entry policy lines entries p rule v i k in
            v.entries_left x m (rw e at h));
    lines_left = lines_left';
    entries_left = entries_left';
    apart = apart';
    covered = covered';
  }
