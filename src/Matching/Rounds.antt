-- ===== src/Matching/Rounds.antt =====
-- The loop over the rules in `match`: its invariant, kept by every run of a rule.
use ledger_exception_control.Common.{
  ℕ, ◌≡◌, sym, ◌∙◌, ◌⊎◌, some, List, map, In, Distinct, map-In, Distinct-determines, ◌++◌, keep-In,
  In-append_cases, not, contains, In-contains, In-append_left, In-append_right, refl,
}
use ledger_exception_control.Matching.Engine.{
  ProposedMatch, CandidateLine, CandidateEntry, Progress, eligible, propose, TierResult,
  accept_mutually_unique, run_rule,
}
use ledger_exception_control.Matching.Policy.{
  TolerancePolicy, MatchRule, exact_amount, amount_within_tolerance,
}
use ledger_exception_control.Matching.Contest.{Contested, ambiguous-Contested}
use ledger_exception_control.Matching.Tier.{MutuallyUnique, found}
use ledger_exception_control.Matching.Unique.{line_id-propose, accept_mutually_unique_sound}
use mathlib.Core.List.{map-append}
use ledger_exception_control.Common.Gather.{append-Distinct}

-- A match of a line and an entry that its rule admits, with what the rule absorbs.
abbrev pub Sound :
    TolerancePolicy → List CandidateLine → List CandidateEntry → ProposedMatch → Type 0
Sound policy lines entries m =
    (line : CandidateLine) × (entry : CandidateEntry) × (a : ℕ) × In line lines
    × In entry entries
    × (eligible line entry m.rule policy ≡ some a)
    × (m ≡ propose m.rule line (found line entry a))

pub propose-Sound :
    (policy : TolerancePolicy) (lines : List CandidateLine) (entries : List CandidateEntry)
    (rule : MatchRule) (line : CandidateLine) (entry : CandidateEntry) (a : ℕ)
    → In line lines
    → In entry entries
    → eligible line entry rule policy ≡ some a
    → Sound policy lines entries (propose rule line (found line entry a))
propose-Sound policy lines entries exact_amount l e a m n h = (l, e, a, m, n, h, refl)
propose-Sound policy lines entries amount_within_tolerance l e a m n h = (l, e, a, m, n, h, refl)

abbrev pub line_ids : List ProposedMatch → List ℕ
line_ids = map (λ m. m.line_id)

abbrev pub entry_ids : List ProposedMatch → List ℕ
entry_ids = map (λ m. m.entry_id)

-- What holds between two runs, of the lines and entries that `match` was given.
pub record Inv (policy : TolerancePolicy) (lines : List CandidateLine)
    (entries : List CandidateEntry) (p : Progress) : Type 0 where
  pub lines_in : (l : CandidateLine) → In l p.remaining_lines → In l lines
  pub entries_in : (e : CandidateEntry) → In e p.remaining_entries → In e entries
  pub lines_distinct : Distinct (map (λ l. l.id) p.remaining_lines)
  pub entries_distinct : Distinct (map (λ e. e.id) p.remaining_entries)
  pub sound : (m : ProposedMatch) → In m p.matches → Sound policy lines entries m
  pub lines_once : Distinct (line_ids p.matches)
  pub entries_once : Distinct (entry_ids p.matches)
  pub lines_left :
      (l : CandidateLine)
      → In l p.remaining_lines
      → In l.id (line_ids p.matches) ⊎ In l.id p.ambiguous
      → ⊥
  pub entries_left :
      (e : CandidateEntry) → In e p.remaining_entries → In e.id (entry_ids p.matches) → ⊥
  pub apart : (i : ℕ) → In i p.ambiguous → In i (line_ids p.matches) → ⊥
  pub covered :
      (l : CandidateLine)
      → In l lines
      → In l p.remaining_lines ⊎ In l.id (line_ids p.matches) ⊎ In l.id p.ambiguous

module _ (policy : TolerancePolicy) (lines : List CandidateLine) (entries : List CandidateEntry)
    (p : Progress) (rule : MatchRule) (v : Inv policy lines entries p) where
  abbrev pub t : TierResult
  t = accept_mutually_unique p.remaining_lines p.remaining_entries rule policy

  pub accepted_pair :
      (m : ProposedMatch)
      → In m t.accepted
      → (line : CandidateLine) × (entry : CandidateEntry) × (a : ℕ) × MutuallyUnique rule policy
          p.remaining_lines p.remaining_entries line entry a
        × (m ≡ propose rule line (found line entry a))
  accepted_pair =
      accept_mutually_unique_sound rule policy p.remaining_lines p.remaining_entries
        v.lines_distinct v.entries_distinct

  pub accepted_line :
      (i : ℕ)
      → In i (line_ids t.accepted)
      → (l : CandidateLine) × In l p.remaining_lines
        × (i ≡ l.id)
        × ((c : Contested rule policy p.remaining_lines p.remaining_entries v.lines_distinct
              v.entries_distinct l)
            → ⊥)
  accepted_line i h =
      let (m, n, e) = map-In (λ x. x.line_id) i t.accepted h in
      let (l, x, a, u, q) = accepted_pair m n in
      (l, u.line_in, e ∙ (line_id-propose rule l x a m q).0, λ c. c.undecided x a u)

  pub accepted_entry :
      (i : ℕ)
      → In i (entry_ids t.accepted)
      → (x : CandidateEntry) × In x p.remaining_entries × (i ≡ x.id)
  accepted_entry i h =
      let (m, n, e) = map-In (λ x. x.entry_id) i t.accepted h in
      let (l, x, a, u, q) = accepted_pair m n in
      (x, u.entry_in, e ∙ (line_id-propose rule l x a m q).1)

  pub ambiguous_line :
      (i : ℕ)
      → In i t.ambiguous
      → (l : CandidateLine) × In l p.remaining_lines
        × (i ≡ l.id)
        × Contested rule policy p.remaining_lines p.remaining_entries v.lines_distinct
            v.entries_distinct l
  ambiguous_line =
      ambiguous-Contested rule policy p.remaining_lines p.remaining_entries v.lines_distinct
        v.entries_distinct

  pub tier-apart : (i : ℕ) → In i t.ambiguous → In i (line_ids t.accepted) → ⊥
  tier-apart i h k =
      let (l, m, e, c) = ambiguous_line i h in
      let (l', m', e', no_contest) = accepted_line i k in
      no_contest (
        rw
          (Distinct-determines (λ x. x.id) l' l p.remaining_lines v.lines_distinct m' m
            (sym e' ∙ e))
          c)

  abbrev pub q : Progress
  q = run_rule policy p rule

  pub ids_cases :
      (f : ProposedMatch → ℕ) (i : ℕ)
      → In i (map f (p.matches ++ t.accepted))
      → In i (map f p.matches) ⊎ In i (map f t.accepted)
  ids_cases f i h = In-append_cases i (map f p.matches) (map f t.accepted) (rw map-append at h)

  pub taken_cases :
      (i : ℕ)
      → In i (entry_ids q.matches)
      → In i (entry_ids p.matches) ⊎ In i (entry_ids t.accepted)
  unfolding run_rule
  taken_cases = ids_cases (λ m. m.entry_id)

  pub once :
      (f : ProposedMatch → ℕ)
      → Distinct (map f p.matches)
      → Distinct (map f t.accepted)
      → ((i : ℕ) → In i (map f p.matches) → In i (map f t.accepted) → ⊥)
      → Distinct (map f (p.matches ++ t.accepted))
  once f d e h = rw map-append (append-Distinct (map f p.matches) (map f t.accepted) d e h)

  pub settled_line :
      (l : CandidateLine)
      → In l q.remaining_lines
      → In l p.remaining_lines × ((In l.id (line_ids t.accepted) → ⊥) × (In l.id t.ambiguous → ⊥))
  unfolding run_rule
  settled_line l h =
      let ids = line_ids t.accepted ++ t.ambiguous in
      let (m, n) = keep-In (λ x. not (contains x.id ids)) l p.remaining_lines h in
      (
        m,
        (
          λ k.
              cc
                (n, In-contains l.id ids (In-append_left l.id (line_ids t.accepted) t.ambiguous k)),
          λ k.
              cc (
                n,
                In-contains l.id ids (In-append_right l.id (line_ids t.accepted) t.ambiguous k),
              ),
        ),
      )

  pub settled_entry :
      (e : CandidateEntry)
      → In e q.remaining_entries
      → In e p.remaining_entries
        × ((In e.id (entry_ids t.accepted) → ⊥) × (In e.id t.contested → ⊥))
  unfolding run_rule
  settled_entry e h =
      let ids = entry_ids t.accepted ++ t.contested in
      let (m, n) = keep-In (λ x. not (contains x.id ids)) e p.remaining_entries h in
      (
        m,
        (
          λ k.
              cc (
                n,
                In-contains e.id ids (In-append_left e.id (entry_ids t.accepted) t.contested k),
              ),
          λ k.
              cc (
                n,
                In-contains e.id ids (In-append_right e.id (entry_ids t.accepted) t.contested k),
              ),
        ),
      )
