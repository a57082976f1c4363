-- ===== src/Ingest/Batches.antt =====
-- ingest/service.py: the batches of a table by identifier and by content, and what finishing one of
-- them, or adding one, changes.
use ledger_exception_control.Common.{
  ℕ, none, some, Option, Bool, List, [], ◌∷◌, ◌++◌, ◌≡◌, ◌==◌, true, false, arith, refl, All, map,
  contains, Distinct, inl, inr, ◌⊎◌, if◌then◌else◌, ==_refl, ap, sym, ◌∙◌, Bool-cases, ==_iff,
}
use ledger_exception_control.Common.Text.{Text, text_eq, text_eq→eq}
use ledger_exception_control.Ingest.Service.{
  BatchStatus, SettlementLine, SettlementBatch, find_hash, find_batch, finish,
}
use mathlib.Core.Path.{subst}

abbrev pub batch_id : SettlementBatch → ℕ
batch_id b = b.id

-- There is a batch of that identifier, and it has that digest.
abbrev pub Holds : ℕ → Text → List SettlementBatch → Type 0
Holds i h bs = (b : SettlementBatch) × (find_batch i bs ≡ some b) × (b.content_hash ≡ h)

-- The first batch is the one that is sought, or it is among the others.
pub find_batch-cons :
    (i : ℕ) (c : SettlementBatch) (bs : List SettlementBatch) (b : SettlementBatch)
    → find_batch i (c ∷ bs) ≡ some b
    → (((c.id == i) ≡ true) × (c ≡ b)) ⊎ (((c.id == i) ≡ false) × (find_batch i bs ≡ some b))
unfolding find_batch
find_batch-cons i c bs b e = go (c.id == i) e
  where
    go :
        (t : Bool)
        → (if t then some c else find_batch i bs) ≡ some b
        → ((t ≡ true) × (c ≡ b)) ⊎ ((t ≡ false) × (find_batch i bs ≡ some b))
    go true k = inl (refl, cc (k))
    go false k = inr (refl, k)

found-first :
    (i : ℕ) (c : SettlementBatch) (bs : List SettlementBatch)
    → (c.id == i) ≡ true
    → find_batch i (c ∷ bs) ≡ some c
unfolding find_batch
found-first i c bs h = rw h refl

found-later :
    (i : ℕ) (c : SettlementBatch) (bs : List SettlementBatch)
    → (c.id == i) ≡ false
    → find_batch i (c ∷ bs) ≡ find_batch i bs
unfolding find_batch
found-later i c bs h = rw h refl

pub find_batch-All :
    (P : SettlementBatch → Type 0) (i : ℕ) (bs : List SettlementBatch) (b : SettlementBatch)
    → All P bs
    → find_batch i bs ≡ some b
    → P b
unfolding find_batch
find_batch-All P i [] b h e = absurd (cc (e))
find_batch-All P i (c ∷ bs) b (h, hs) e = elim (find_batch-cons i c bs b e) [
  | inl (same, eq) ↦ subst P eq h
  | inr (other, k) ↦ find_batch-All P i bs b hs k
]

module _ (i : ℕ) (status : BatchStatus) (reason : Option Text) (lines : List SettlementLine) where
  finish-id : (c : SettlementBatch) → (finish i status reason lines c).id ≡ c.id
  finish-id c = ground arith

  finish-hash :
      (c : SettlementBatch) → (finish i status reason lines c).content_hash ≡ c.content_hash
  finish-hash c = ground arith

  pub finish-ids :
      (bs : List SettlementBatch)
      → map batch_id (map (finish i status reason lines) bs) ≡ map batch_id bs
  finish-ids [] = refl
  finish-ids (c ∷ bs) = rw (finish-id c, finish-ids bs) refl

  pub finish-Holds :
      (j : ℕ) (h : Text) (bs : List SettlementBatch)
      → Holds j h bs
      → Holds j h (map (finish i status reason lines) bs)
  finish-Holds j h [] (b, e, k) = absurd (unfold find_batch in cc (e))
  finish-Holds j h (c ∷ bs) (b, e, k) = elim (find_batch-cons j c bs b e) [
    | inl (same, eq) ↦ (
      finish i status reason lines c,
      found-first j (finish i status reason lines c) _ (rw (finish-id c) same),
      finish-hash c ∙ ap (λ (x : SettlementBatch). x.content_hash) eq ∙ k,
    )
    | inr (other, e') ↦
        let (d, f, l) = finish-Holds j h bs (b, e', k) in
        (d, found-later j (finish i status reason lines c) _ (rw (finish-id c) other) ∙ f, l)
  ]

  finish-others :
      (P : SettlementBatch → Type 0) (bs : List SettlementBatch)
      → contains i (map batch_id bs) ≡ false
      → All P bs
      → All P (map (finish i status reason lines) bs)
  finish-others P [] d h = tt
  finish-others P (c ∷ bs) d (h, hs) =
      let apart : (c.id == i) ≡ false = ground (arith, d) in
      (rw apart h, finish-others P bs (ground (arith, d)) hs)

  -- What is done to the batch of an identifier is done to no other.
  pub finish-All :
      (P : SettlementBatch → Type 0) (b : SettlementBatch) (bs : List SettlementBatch)
      → Distinct (map batch_id bs)
      → All P bs
      → find_batch i bs ≡ some b
      → P (record b { status = status; quarantine_reason = reason; lines = b.lines ++ lines })
      → All P (map (finish i status reason lines) bs)
  finish-All P b [] d h e k = tt
  finish-All P b (c ∷ bs) (apart, d) (h, hs) e k = elim (find_batch-cons i c bs b e) [
    | inl (same, eq) ↦ (
      rw same (
          subst
            (λ (x : SettlementBatch).
              P (record x {
                status = status;
                quarantine_reason = reason;
                lines = x.lines ++ lines;
              }))
            (sym eq) k),
      finish-others P bs (ground (arith, apart, same)) hs,
    )
    | inr (other, e') ↦ (rw other h, finish-All P b bs d hs e' k)
  ]

-- A batch that is added changes none, and is found where its identifier is new.
pub Holds-append :
    (j : ℕ) (h : Text) (bs : List SettlementBatch) (b : SettlementBatch)
    → Holds j h bs
    → Holds j h (bs ++ b ∷ [])
Holds-append j h [] b (x, e, k) = absurd (unfold find_batch in cc (e))
Holds-append j h (c ∷ bs) b (x, e, k) = elim (find_batch-cons j c bs x e) [
  | inl (same, eq) ↦
      (c, found-first j c _ same, ap (λ (x : SettlementBatch). x.content_hash) eq ∙ k)
  | inr (other, e') ↦
      let (d, f, l) = Holds-append j h bs b (x, e', k) in (d, found-later j c _ other ∙ f, l)
]

pub append-found :
    (bs : List SettlementBatch) (b : SettlementBatch)
    → find_batch b.id bs ≡ none
    → find_batch b.id (bs ++ b ∷ []) ≡ some b
unfolding find_batch
append-found [] b h = rw (==_refl b.id) refl
append-found (c ∷ bs) b h = ground (arith, append-found bs b)

absent-contains :
    (i : ℕ) (bs : List SettlementBatch)
    → find_batch i bs ≡ none
    → contains i (map batch_id bs) ≡ false
unfolding find_batch
absent-contains i [] h = refl
absent-contains i (c ∷ bs) h = ground (arith, absent-contains i bs)

contains-append_other :
    (i : ℕ) (bs : List SettlementBatch) (b : SettlementBatch)
    → contains i (map batch_id bs) ≡ false
    → (i == b.id) ≡ false
    → contains i (map batch_id (bs ++ b ∷ [])) ≡ false
contains-append_other i [] b h k = ground (arith, k)
contains-append_other i (c ∷ bs) b h k = ground (arith, contains-append_other i bs b)

pub append-Distinct_ids :
    (bs : List SettlementBatch) (b : SettlementBatch)
    → find_batch b.id bs ≡ none
    → Distinct (map batch_id bs)
    → Distinct (map batch_id (bs ++ b ∷ []))
append-Distinct_ids [] b h d = (refl, tt)
append-Distinct_ids (c ∷ bs) b h (apart, d) =
    let fresh = absent-contains b.id (c ∷ bs) h in
    (
      contains-append_other c.id bs b apart (ground (arith, fresh)),
      append-Distinct_ids bs b (unfold find_batch in ground (arith, h, fresh)) d,
    )

find_hash-cons :
    (h : Text) (c : SettlementBatch) (bs : List SettlementBatch) (b : SettlementBatch)
    → find_hash h (c ∷ bs) ≡ some b
    → ((text_eq c.content_hash h ≡ true) × (c ≡ b)) ⊎ (find_hash h bs ≡ some b)
unfolding find_hash
find_hash-cons h c bs b e = go (text_eq c.content_hash h) refl e
  where
    go :
        (t : Bool)
        → text_eq c.content_hash h ≡ t
        → (if t then some c else find_hash h bs) ≡ some b
        → ((text_eq c.content_hash h ≡ true) × (c ≡ b)) ⊎ (find_hash h bs ≡ some b)
    go true q k = inl (q, cc (k))
    go false q k = inr k

hash-contains :
    (h : Text) (bs : List SettlementBatch) (b : SettlementBatch)
    → find_hash h bs ≡ some b
    → contains b.id (map batch_id bs) ≡ true
hash-contains h [] b e = absurd (unfold find_hash in cc (e))
hash-contains h (c ∷ bs) b e = elim (find_hash-cons h c bs b e) [
  | inl (q, eq) ↦ let same : c.id ≡ b.id = ap batch_id eq in ground (arith, same)
  | inr k ↦ let later = hash-contains h bs b k in ground (arith, later)
]

apart_ids :
    (i j : ℕ) (ids : List ℕ) → contains i ids ≡ false → contains j ids ≡ true → (i == j) ≡ false
apart_ids i j ids h k = elim (Bool-cases (i == j)) [
  | inl same ↦ let eq : i ≡ j = (==_iff i j).0 same in absurd (cc (eq, h, k))
  | inr other ↦ other
]

hash-equal :
    (h : Text) (bs : List SettlementBatch) (b : SettlementBatch)
    → find_hash h bs ≡ some b
    → b.content_hash ≡ h
hash-equal h [] b e = absurd (unfold find_hash in cc (e))
hash-equal h (c ∷ bs) b e = elim (find_hash-cons h c bs b e) [
  | inl (q, eq) ↦
      sym (ap (λ (x : SettlementBatch). x.content_hash) eq) ∙ text_eq→eq c.content_hash h q
  | inr k ↦ hash-equal h bs b k
]

-- The batch of a content is the one that its identifier finds.
pub find_hash-found :
    (h : Text) (bs : List SettlementBatch) (b : SettlementBatch)
    → Distinct (map batch_id bs)
    → find_hash h bs ≡ some b
    → find_batch b.id bs ≡ some b
find_hash-found h [] b d e = absurd (unfold find_hash in cc (e))
find_hash-found h (c ∷ bs) b (apart, d) e = elim (find_hash-cons h c bs b e) [
  | inl (q, eq) ↦
      subst (λ (x : SettlementBatch). find_batch x.id (c ∷ bs) ≡ some x) eq
        (found-first c.id c bs (==_refl c.id))
  | inr k ↦
      let other : (c.id == b.id) ≡ false =
        apart_ids c.id b.id (map batch_id bs) apart (hash-contains h bs b k) in
      found-later b.id c bs other ∙ find_hash-found h bs b d k
]

pub find_hash-Holds :
    (h : Text) (bs : List SettlementBatch) (b : SettlementBatch)
    → Distinct (map batch_id bs)
    → find_hash h bs ≡ some b
    → Holds b.id h bs
find_hash-Holds h bs b d e = (b, find_hash-found h bs b d e, hash-equal h bs b e)
