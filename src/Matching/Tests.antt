-- ===== src/Matching/Tests.antt =====
-- A run of the matching: three lines and three entries, of which one pair is exact, although a near
-- miss is there, and two lines want the same entry.
use mathlib.Core.List.Permᴰ
use ledger_exception_control.Common.{
  ℕ, Distinct, In, List, map, ◌∷◌, [], ◌≡◌, inl, refl, some, inr, arith, ap,
}
use ledger_exception_control.Matching.Engine.{
  match_lines, CandidateLine, ProposedMatch, eligible, CandidateEntry, candidates, propose,
  candidate, options, claimants,
}
use ledger_exception_control.Matching.Outcome.{Admitted}
use ledger_exception_control.Common.Date.{Date, days_apart, to_ordinal}
use ledger_exception_control.Matching.Policy.{within_window, default_policy, exact_amount, band}
use ledger_exception_control.Matching.Tier.{MutuallyUnique, found}
use ledger_exception_control.Common.Text.{codes}
use ledger_exception_control.Common.Int.{pos, ◌-ℤ◌}
use ledger_exception_control.Matching.Rounds.{line_ids, entry_ids}
use ledger_exception_control.Matching.Precedence.{
  match_lines-exact_first, ContestedExactly, match_lines-contest_withdrawn,
}
use ledger_exception_control.Matching.Match.{
  InExactlyOne, match_lines-Admitted, match_lines-one_to_one, match_lines-partition,
  match_lines-perm,
}
use ledger_exception_control.Common.Sort.{insert, key_le}

abbrev a_day : Date
a_day = record { year = 2026; month = 3; day = 2 }

abbrev line_a : CandidateLine
line_a = record {
  id = 1;
  line_number = 1;
  amount = pos 1000000;
  currency = codes "EUR";
  value_date = a_day;
}

abbrev line_b : CandidateLine
line_b = record {
  id = 2;
  line_number = 2;
  amount = pos 500000;
  currency = codes "EUR";
  value_date = a_day;
}

abbrev line_c : CandidateLine
line_c = record {
  id = 3;
  line_number = 3;
  amount = pos 500000;
  currency = codes "EUR";
  value_date = a_day;
}

abbrev entry_x : CandidateEntry
entry_x = record {
  id = 11;
  external_ref = codes "A1";
  amount = pos 1000000;
  currency = codes "EUR";
  booked_on = a_day;
}

abbrev entry_near : CandidateEntry
entry_near = record {
  id = 12;
  external_ref = codes "A2";
  amount = pos 1000050;
  currency = codes "EUR";
  booked_on = a_day;
}

abbrev entry_y : CandidateEntry
entry_y = record {
  id = 13;
  external_ref = codes "B1";
  amount = pos 500000;
  currency = codes "EUR";
  booked_on = a_day;
}

abbrev some_lines : List CandidateLine
some_lines = line_a ∷ line_b ∷ line_c ∷ []

abbrev some_entries : List CandidateEntry
some_entries = entry_x ∷ entry_near ∷ entry_y ∷ []

lines_apart : Distinct (map (λ l. l.id) some_lines)
lines_apart = (refl, (refl, (refl, tt)))

entries_apart : Distinct (map (λ e. e.id) some_entries)
entries_apart = (refl, (refl, (refl, tt)))

abbrev match_a : ProposedMatch
match_a = propose exact_amount line_a (found line_a entry_x 0)

some_outcome :
    match_lines some_lines some_entries default_policy
    ≡ record { matches = match_a ∷ []; ambiguous_line_ids = 3 ∷ 2 ∷ []; unmatched_line_ids = [] }
unfolding match_lines candidates candidate eligible options claimants within_window band days_apart
    to_ordinal ◌-ℤ◌ insert key_le
some_outcome = refl

match_a-In : In match_a (match_lines some_lines some_entries default_policy).matches
match_a-In = rw some_outcome (inl refl)

match_lines-Admitted_example : Admitted default_policy some_lines some_entries match_a
match_lines-Admitted_example =
    match_lines-Admitted default_policy some_lines some_entries lines_apart entries_apart match_a
      match_a-In

match_lines-one_to_one_example :
    Distinct (line_ids (match_lines some_lines some_entries default_policy).matches)
    × Distinct (entry_ids (match_lines some_lines some_entries default_policy).matches)
match_lines-one_to_one_example =
    match_lines-one_to_one default_policy some_lines some_entries lines_apart entries_apart

match_lines-partition_example :
    let o = match_lines some_lines some_entries default_policy in
    InExactlyOne 2 (line_ids o.matches) o.ambiguous_line_ids o.unmatched_line_ids
match_lines-partition_example =
    match_lines-partition default_policy some_lines some_entries lines_apart entries_apart line_b
      (inr (inl refl))

match_lines-perm_example :
    match_lines some_lines some_entries default_policy
    ≡ match_lines (line_b ∷ line_a ∷ line_c ∷ []) some_entries default_policy
match_lines-perm_example =
    match_lines-perm default_policy some_lines some_entries lines_apart entries_apart
      (Permᴰ.swap refl refl) (Permᴰ.refl some_entries)

line_a-MutuallyUnique :
    MutuallyUnique exact_amount default_policy some_lines some_entries line_a entry_x 0
unfolding eligible within_window band days_apart to_ordinal ◌-ℤ◌
line_a-MutuallyUnique = record {
  line_in = inl refl;
  entry_in = inl refl;
  admits = refl;
  only_entry = λ e h. elim h [
    | inl q ↦ inr (ap (λ x. x.id) q)
    | inr h ↦ elim h [
      | inl q ↦ inl (rw q refl)
      | inr h ↦ elim h [ inl q ↦ inl (rw q refl) | inr h ↦ absurd h ]
    ]
  ];
  only_line = λ l h. elim h [
    | inl q ↦ inr (ap (λ x. x.id) q)
    | inr h ↦ elim h [
      | inl q ↦ inl (rw q refl)
      | inr h ↦ elim h [ inl q ↦ inl (rw q refl) | inr h ↦ absurd h ]
    ]
  ];
}

match_lines-exact_first_example :
    In match_a (match_lines some_lines some_entries default_policy).matches
match_lines-exact_first_example =
    match_lines-exact_first default_policy some_lines some_entries lines_apart entries_apart line_a
      entry_x 0 line_a-MutuallyUnique

-- The lines `line_b` and `line_c` are eligible for the same entries.
same_eligible :
    (e : CandidateEntry)
    → eligible line_c e exact_amount default_policy ≡ eligible line_b e exact_amount default_policy
unfolding eligible
same_eligible e = refl

-- A pair that is unique for `line_b` would exclude `line_c`.
line_b-contested :
    ContestedExactly default_policy some_lines some_entries lines_apart entries_apart line_b
unfolding eligible within_window band days_apart to_ordinal ◌-ℤ◌
line_b-contested = (
  (entry_y, 0, inr (inr (inl refl)), refl),
  λ e a u. elim (u.only_line line_c (inr (inr (inl refl)))) [
    | inl n ↦ absurd (cc (n, same_eligible e, u.admits))
    | inr q ↦ omega (arith, q)
  ],
)

match_lines-contest_withdrawn_example :
    (In 2 (line_ids (match_lines some_lines some_entries default_policy).matches) → ⊥)
    × ((entry : CandidateEntry) (a : ℕ)
        → In entry some_entries
        → eligible line_b entry exact_amount default_policy ≡ some a
        → In entry.id (entry_ids (match_lines some_lines some_entries default_policy).matches)
        → ⊥)
match_lines-contest_withdrawn_example =
    match_lines-contest_withdrawn default_policy some_lines some_entries lines_apart entries_apart
      line_b (inr (inl refl)) line_b-contested
