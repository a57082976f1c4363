-- ===== src/Matching/Contest.antt =====
-- What it means that one run of a rule leaves a line ambiguous.
use ledger_exception_control.Common.{
  ℕ, ◌≡◌, refl, inl, inr, Option, none, some, List, [], ◌∷◌, map, In, Distinct, ◌≢◌,
}
use ledger_exception_control.Matching.Policy.{MatchRule, TolerancePolicy}
use ledger_exception_control.Matching.Engine.{
  CandidateLine, CandidateEntry, Candidate, TierResult, eligible, accept_mutually_unique,
  candidates, options, ProposedMatch,
}
use ledger_exception_control.Matching.Ambiguous.{decide_lines-ambiguous, ambiguous-decide_lines}
use ledger_exception_control.Matching.Tier.{
  MutuallyUnique, found, claim_of_eligible, accept_line-MutuallyUnique, accept_line,
}
use ledger_exception_control.Matching.Unique.{start, accept_line_unique}
use ledger_exception_control.Matching.Candidates.{options-candidates, claim, claim-line_id}
use ledger_exception_control.Common.Gather.{gather-In, In-gather}

not-nil : {A : Type 0} (a : A) (xs : List A) → In a xs → xs ≢ []
not-nil a [] m = λ h. elim m [ ]
not-nil a (x ∷ xs) m = λ h. cc

head-In : {A : Type 0} (xs : List A) → xs ≢ [] → (a : A) × In a xs
head-In [] h = absurd (h refl)
head-In (x ∷ xs) h = (x, inl refl)

module _ (rule : MatchRule) (policy : TolerancePolicy) (lines : List CandidateLine)
    (entries : List CandidateEntry) (lines_distinct : Distinct (map (λ l. l.id) lines))
    (entries_distinct : Distinct (map (λ e. e.id) entries)) where
  abbrev graph : List Candidate
  graph = candidates lines entries rule policy

  abbrev pub tier : TierResult
  tier = accept_mutually_unique lines entries rule policy

  -- The line has some eligible entry, and is with none of them the only choice from both sides.
  pub record Contested (line : CandidateLine) : Type 0 where
    pub wanted :
        (entry : CandidateEntry) × (a : ℕ) × In entry entries
        × (eligible line entry rule policy ≡ some a)
    pub undecided :
        (entry : CandidateEntry) (a : ℕ) → ¬ MutuallyUnique rule policy lines entries line entry a

  -- For lines and entries of distinct identifiers, one run of a rule leaves an identifier ambiguous
  -- only for a line that is eligible for some entry and for which no entry is the only choice from
  -- both sides.
  pub ambiguous-Contested :
      (i : ℕ)
      → In i tier.ambiguous
      → (line : CandidateLine) × In line lines × (i ≡ line.id) × Contested line
  unfolding accept_mutually_unique
  ambiguous-Contested i h = elim (decide_lines-ambiguous rule policy graph lines start i h) [
    | inl f ↦ elim f [ ]
    | inr (line, l, e, rejected, nonempty) ↦
        let (c, m) = head-In (options graph line.id) nonempty in
        let (entry, n, g) =
          gather-In (claim rule policy line) c entries
            (rw (options-candidates rule policy line lines entries lines_distinct l) at m) in
        let (p, q, k) = claim-line_id rule policy line entry c g in
        (
          line,
          l,
          e,
          record {
            wanted = (entry, c.absorbed_amount, n, k);
            undecided = λ x a u. cc (
              rejected,
              accept_line-MutuallyUnique rule policy lines entries lines_distinct entries_distinct
                  line x a u,
            );
          },
        )
  ]

  -- For lines and entries of distinct identifiers, one run of a rule leaves every line ambiguous that
  -- is eligible for some entry and for which no entry is the only choice from both sides, and holds
  -- every entry that the line is eligible for contested.
  pub Contested-ambiguous :
      (line : CandidateLine)
      → In line lines
      → Contested line
      → In line.id tier.ambiguous
        × ((entry : CandidateEntry) (a : ℕ)
            → In entry entries
            → eligible line entry rule policy ≡ some a
            → In entry.id tier.contested)
  unfolding accept_mutually_unique
  Contested-ambiguous line l c =
      let (wanted, a, n, h) = c.wanted in
      let (i, k) =
        ambiguous-decide_lines rule policy graph lines start line l
          (rejected (accept_line rule policy graph line) refl)
          (not-nil (found line wanted a) (options graph line.id) (in_options wanted a n h)) in
      (i, λ entry b n' h'. k (found line entry b) (in_options entry b n' h'))
    where
      in_options :
          (entry : CandidateEntry) (a : ℕ)
          → In entry entries
          → eligible line entry rule policy ≡ some a
          → In (found line entry a) (options graph line.id)
      in_options entry a n h =
          rw (options-candidates rule policy line lines entries lines_distinct l) (
            In-gather (claim rule policy line) entry (found line entry a) entries n
              (claim_of_eligible rule policy lines entries line entry a h))

      rejected :
          (o : Option ProposedMatch)
          → accept_line rule policy graph line ≡ o
          → accept_line rule policy graph line ≡ none
      rejected none e = e
      rejected (some m) e =
          let (entry, a, u, q) =
            accept_line_unique rule policy lines entries lines_distinct entries_distinct line m l
              e in
          absurd (c.undecided entry a u)
