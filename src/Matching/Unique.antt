-- ===== src/Matching/Unique.antt =====
-- `_accept_mutually_unique` accepts exactly the pairs that are the only choice from both sides.
use ledger_exception_control.Common.{
  ℕ, ◌≡◌, refl, sym, ap, ◌∙◌, ◌⊎◌, inl, inr, none, some, List, [], ◌∷◌, map, length, In, Distinct,
  arith, Option-cases, singleton-In, Distinct-determines,
}
use ledger_exception_control.Matching.Policy.{
  MatchRule, TolerancePolicy, exact_amount, amount_within_tolerance,
}
use ledger_exception_control.Matching.Engine.{
  CandidateLine, CandidateEntry, Candidate, ProposedMatch, eligible, claimants, options, candidates,
  propose, TierResult, accept_mutually_unique,
}
use ledger_exception_control.Matching.Tier.{
  accept_line, found, MutuallyUnique, accept_line-some, claim_of_eligible, decide_lines-accepted,
  accept_line-MutuallyUnique,
}
use ledger_exception_control.Matching.Candidates.{
  options-candidates, claimants-candidates, claim, claim-line_id,
}
use ledger_exception_control.Common.Gather.{In-gather, gather, gather-In, gather-Distinct}

abbrev pub start : TierResult
start = record { accepted = []; ambiguous = []; contested = [] }

pub line_id-propose :
    (rule : MatchRule) (line : CandidateLine) (entry : CandidateEntry) (a : ℕ) (m : ProposedMatch)
    → m ≡ propose rule line (found line entry a)
    → (m.line_id ≡ line.id) × (m.entry_id ≡ entry.id) × (m.rule ≡ rule)
line_id-propose exact_amount line entry a m h = ground arith
line_id-propose amount_within_tolerance line entry a m h = ground arith

module _ (rule : MatchRule) (policy : TolerancePolicy) (lines : List CandidateLine)
    (entries : List CandidateEntry) (lines_distinct : Distinct (map (λ l. l.id) lines))
    (entries_distinct : Distinct (map (λ e. e.id) entries)) where
  abbrev graph : List Candidate
  graph = candidates lines entries rule policy

  -- A line whose only option is `c` can be matched with no other entry.
  only_option :
      (line : CandidateLine) (entry : CandidateEntry) (c : Candidate)
      → In line lines
      → options graph line.id ≡ c ∷ []
      → c.entry ≡ entry
      → (e : CandidateEntry) → In e entries
      → (eligible line e rule policy ≡ none) ⊎ (e.id ≡ entry.id)
  only_option line entry c m one same e n = elim (Option-cases (eligible line e rule policy)) [
    | inl never ↦ inl never
    | inr (a, h) ↦ inr (
        cc (
          singleton-In (found line e a) c (options graph line.id) (ap length one)
            (rw (options-candidates rule policy line lines entries lines_distinct m) (
              In-gather (claim rule policy line) e (found line e a) entries n
                (claim_of_eligible rule policy lines entries line e a h)))
            (rw one (inl refl))))
  ]

  -- An entry with one claimant can be matched with no other line.
  only_claimant :
      (line : CandidateLine) (entry : CandidateEntry) (a : ℕ)
      → In line lines
      → In entry entries
      → eligible line entry rule policy ≡ some a
      → length (claimants graph entry.id) ≡ 1
      → (l : CandidateLine) → In l lines
      → (eligible l entry rule policy ≡ none) ⊎ (l.id ≡ line.id)
  only_claimant line entry a m n h one l k = elim (Option-cases (eligible l entry rule policy)) [
    | inl never ↦ inl never
    | inr (b, g) ↦ inr (
        cc (
          singleton-In (found l entry b) (found line entry a) (claimants graph entry.id) one
            (claims l b k g) (claims line a m h)))
  ]
    where
      claims :
          (x : CandidateLine) (b : ℕ)
          → In x lines
          → eligible x entry rule policy ≡ some b
          → In (found x entry b) (claimants graph entry.id)
      claims x b k g =
          rw (claimants-candidates rule policy entry lines entries entries_distinct n) (
            In-gather (λ y. claim rule policy y entry) x (found x entry b) lines k
              (claim_of_eligible rule policy lines entries x entry b g))

  pub accept_line_unique :
      (line : CandidateLine) (m : ProposedMatch)
      → In line lines
      → accept_line rule policy graph line ≡ some m
      → (entry : CandidateEntry) × (a : ℕ) × MutuallyUnique rule policy lines entries line entry a
        × (m ≡ propose rule line (found line entry a))
  accept_line_unique line m l h =
      let (c, one, single, e) =
        accept_line-some rule policy graph line (options graph line.id) m h in
      let in_options : In c (gather (claim rule policy line) entries) =
        rw (sym (options-candidates rule policy line lines entries lines_distinct l) ∙ one)
          (inl refl) in
      let (entry, n, g) = gather-In (claim rule policy line) c entries in_options in
      let (i, j, k) = claim-line_id rule policy line entry c g in
      (
        entry,
        c.absorbed_amount,
        record {
          line_in = l;
          entry_in = n;
          admits = k;
          only_entry = only_option line entry c l one j;
          only_line =
              only_claimant line entry c.absorbed_amount l n k (rw (sym (ap (λ x. x.id) j)) single);
        },
        e
            ∙ ap (propose rule line)
                (λ t. record { line_id = i t; entry = j t; absorbed_amount = c.absorbed_amount }),
      )

  -- For lines and entries of distinct identifiers, what one run of a rule accepts is a pair of them
  -- that the rule admits, each the only choice of the other.
  pub accept_mutually_unique_sound :
      (m : ProposedMatch)
      → In m (accept_mutually_unique lines entries rule policy).accepted
      → (line : CandidateLine) × (entry : CandidateEntry) × (a : ℕ) × MutuallyUnique rule policy
          lines entries line entry a
        × (m ≡ propose rule line (found line entry a))
  unfolding accept_mutually_unique
  accept_mutually_unique_sound m h =
      let (line, l, e) =
        gather-In (accept_line rule policy graph) m lines
          (rw (decide_lines-accepted rule policy graph lines start) at h) in
      let (entry, a, u, q) = accept_line_unique line m l e in (line, entry, a, u, q)

  -- For lines and entries of distinct identifiers, one run of a rule accepts every pair that the
  -- rule admits in which each is the only choice of the other.
  pub accept_mutually_unique_complete :
      (line : CandidateLine) (entry : CandidateEntry) (a : ℕ)
      → MutuallyUnique rule policy lines entries line entry a
      → In
          (propose rule line (found line entry a))
          (accept_mutually_unique lines entries rule policy).accepted
  unfolding accept_mutually_unique
  accept_mutually_unique_complete line entry a u =
      rw (decide_lines-accepted rule policy graph lines start) (
        In-gather (accept_line rule policy graph) line (propose rule line (found line entry a))
          lines u.line_in
          (accept_line-MutuallyUnique rule policy lines entries lines_distinct entries_distinct line
            entry a u))

  -- Two lines that are the only choice of one entry are the same line.
  one_line :
      (l l' : CandidateLine) (x x' : CandidateEntry) (a a' : ℕ)
      → MutuallyUnique rule policy lines entries l x a
      → MutuallyUnique rule policy lines entries l' x' a'
      → x.id ≡ x'.id
      → l.id ≡ l'.id
  one_line l l' x x' a a' u u' e =
      let same =
        Distinct-determines (λ y. y.id) x x' entries entries_distinct u.entry_in u'.entry_in e in
      elim (u'.only_line l u.line_in) [ inl never ↦ absurd (cc (u.admits, same)) | inr q ↦ q ]

  -- No line and no entry is accepted twice in one run.
  pub accepted-lines_Distinct :
      Distinct (map (λ m. m.line_id) (accept_mutually_unique lines entries rule policy).accepted)
  unfolding accept_mutually_unique
  accepted-lines_Distinct = rw (decide_lines-accepted rule policy graph lines start) (
      gather-Distinct (λ l. l.id) (λ m. m.line_id) (accept_line rule policy graph) lines
        lines_distinct
        λ l l' m m' i i' g g' e.
          let (x, a, u, p) = accept_line_unique l m i g in
          let (x', a', u', p') = accept_line_unique l' m' i' g' in
          sym (line_id-propose rule l x a m p).0 ∙ e ∙ (line_id-propose rule l' x' a' m' p').0)

  pub accepted-entries_Distinct :
      Distinct (map (λ m. m.entry_id) (accept_mutually_unique lines entries rule policy).accepted)
  unfolding accept_mutually_unique
  accepted-entries_Distinct = rw (decide_lines-accepted rule policy graph lines start) (
      gather-Distinct (λ l. l.id) (λ m. m.entry_id) (accept_line rule policy graph) lines
        lines_distinct
        λ l l' m m' i i' g g' e.
          let (x, a, u, p) = accept_line_unique l m i g in
          let (x', a', u', p') = accept_line_unique l' m' i' g' in
          one_line l l' x x' a a' u u'
            (sym (line_id-propose rule l x a m p).1 ∙ e ∙ (line_id-propose rule l' x' a' m' p').1))
