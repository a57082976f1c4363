-- ===== src/Ingest/Runs.antt =====
-- ingest/service.py: deliveries whose transactions interleave, each with its receipt and its
-- settlement, which a crash may leave out.
use ledger_exception_control.Common.{
  ℕ, suc, zero, none, some, Option, Bool, List, [], ◌∷◌, ◌++◌, ◌≡◌, refl, All, All-append, not,
}
use ledger_exception_control.Common.Int.{ℤ}
use ledger_exception_control.Common.Text.{Text}
use ledger_exception_control.Ingest.Parser.{FileReader}
use ledger_exception_control.Ingest.Service.{
  SettlementBatch, IngestOutcome, find_hash, find_batch, new_batch, receipt, record_receipt, settle,
}
use ledger_exception_control.Ingest.Batches.{Holds, find_hash-Holds, Holds-append, append-found}
use ledger_exception_control.Ingest.Deliveries.{Agrees, AreIntact, append-AreIntact, settle-Settles}
use mathlib.Core.Path.{subst}

-- A delivery whose receipt is recorded, and which is still to be settled.
pub record Delivery : Type 0 where
  pub payload : List ℕ
  pub batch_id : ℕ
  pub duplicate : Bool

-- The table, the deliveries under way, and what was reported of which payload, the last one first.
pub record Intake : Type 0 where
  pub batches : List SettlementBatch
  pub under_way : List Delivery
  pub reports : List (List ℕ × IngestOutcome)

-- The first transaction of a delivery, with the identifier that is drawn for a new batch; or the
-- second one, of the delivery in that place of those under way.
pub data Move : Type 0 where
  receive : List ℕ → ℕ → Text → ℤ → Move
  complete : ℕ → Move

abbrev pub get_elem? : List Delivery → ℕ → Option Delivery
get_elem? [] n = none
get_elem? (d ∷ ds) zero = some d
get_elem? (d ∷ ds) (suc n) = get_elem? ds n

abbrev pub without : List Delivery → ℕ → List Delivery
without [] n = []
without (d ∷ ds) zero = ds
without (d ∷ ds) (suc n) = d ∷ without ds n

abbrev received_as : List ℕ → Intake → Option (List SettlementBatch × ℕ × Bool) → Intake
received_as payload s none = s
received_as payload s (some (bs, i, was_new)) = record s {
  batches = bs;
  under_way =
      s.under_way ++ (record { payload = payload; batch_id = i; duplicate = not was_new }) ∷ [];
}

abbrev settled_as : Delivery → ℕ → Intake → Option (List SettlementBatch × IngestOutcome) → Intake
settled_as d n s none = record s { under_way = without s.under_way n }
settled_as d n s (some (bs, o)) = record {
  batches = bs;
  under_way = without s.under_way n;
  reports = (d.payload, o) ∷ s.reports;
}

abbrev completed : FileReader → ℕ → Intake → Option Delivery → Intake
completed reader n s none = s
completed reader n s (some d) =
    settled_as d n s (settle reader d.batch_id d.payload d.duplicate s.batches)

unfoldable pub make : FileReader → (List ℕ → Text) → Intake → Move → Intake
unfolding record_receipt settle
make reader digest s (receive payload i source at) =
    received_as payload s
      (record_receipt (new_batch i (digest payload) payload source at) s.batches)
make reader digest s (complete n) = completed reader n s (get_elem? s.under_way n)

unfoldable pub run_moves : FileReader → (List ℕ → Text) → Intake → List Move → Intake
unfolding make
run_moves reader digest s [] = s
run_moves reader digest s (m ∷ ms) = run_moves reader digest (make reader digest s m) ms

module _ (reader : FileReader) (digest : List ℕ → Text) where
  -- The table is intact, whoever is under way has its batch, and all reports restate the verdicts.
  pub record IsFaithful (s : Intake) : Type 0 where
    pub table : AreIntact reader digest s.batches
    pub held : All (λ (d : Delivery). Holds d.batch_id (digest d.payload) s.batches) s.under_way
    pub agreed : All (λ (r : List ℕ × IngestOutcome). Agrees reader digest r.0 r.1) s.reports

  held-without :
      (P : Delivery → Type 0) (ds : List Delivery) (n : ℕ) → All P ds → All P (without ds n)
  held-without P [] n h = tt
  held-without P (d ∷ ds) zero h = h.1
  held-without P (d ∷ ds) (suc n) h = (h.0, held-without P ds n h.1)

  held-at :
      (P : Delivery → Type 0) (ds : List Delivery) (n : ℕ) (d : Delivery)
      → All P ds
      → get_elem? ds n ≡ some d
      → P d
  held-at P [] n d h e = absurd (cc (e))
  held-at P (c ∷ ds) zero d h e = let eq : c ≡ d = cc (e) in subst P eq h.0
  held-at P (c ∷ ds) (suc n) d h e = held-at P ds n d h.1 e

  held-kept :
      (bs bs' : List SettlementBatch) (ds : List Delivery)
      → ((j : ℕ) (h : Text) → Holds j h bs → Holds j h bs')
      → All (λ (d : Delivery). Holds d.batch_id (digest d.payload) bs) ds
      → All (λ (d : Delivery). Holds d.batch_id (digest d.payload) bs') ds
  held-kept bs bs' [] k h = tt
  held-kept bs bs' (d ∷ ds) k h = (k d.batch_id (digest d.payload) h.0, held-kept bs bs' ds k h.1)

  module _ (injective : (p q : List ℕ) → digest p ≡ digest q → p ≡ q) where
    receive-IsFaithful :
        (payload : List ℕ) (i : ℕ) (source : Text) (at : ℤ) (s : Intake)
        → IsFaithful s
        → IsFaithful (make reader digest s (receive payload i source at))
    unfolding make
    receive-IsFaithful payload i source at s v =
        go (find_hash (digest payload) s.batches) (find_batch i s.batches) refl refl
      where
        b : SettlementBatch
        b = new_batch i (digest payload) payload source at

        go :
            (existing clash : Option SettlementBatch)
            → find_hash (digest payload) s.batches ≡ existing
            → find_batch i s.batches ≡ clash
            → IsFaithful (received_as payload s (receipt b s.batches existing clash))
        go (some x) clash e k = record {
          table = v.table;
          held =
              All-append _ s.under_way _ v.held
                (find_hash-Holds (digest payload) s.batches x v.table.apart e, tt);
          agreed = v.agreed;
        }
        go none (some y) e k = v
        go none none e k = record {
          table = append-AreIntact reader digest i payload source at s.batches v.table k;
          held =
              All-append _ s.under_way _
                (held-kept s.batches (s.batches ++ b ∷ []) s.under_way
                  (λ j h x. Holds-append j h s.batches b x) v.held)
                ((b, append-found s.batches b k, refl), tt);
          agreed = v.agreed;
        }

    complete-IsFaithful :
        (n : ℕ) (s : Intake) → IsFaithful s → IsFaithful (make reader digest s (complete n))
    unfolding make
    complete-IsFaithful n s v = go (get_elem? s.under_way n) refl
      where
        go :
            (o : Option Delivery)
            → get_elem? s.under_way n ≡ o
            → IsFaithful (completed reader n s o)
        go none e = v
        go (some d) e =
            let holds =
              held-at (λ (d : Delivery). Holds d.batch_id (digest d.payload) s.batches) s.under_way
                n d v.held e in
            let (bs, o, eq, table, keeps, agrees) =
              settle-Settles reader digest injective d.batch_id d.payload d.duplicate s.batches
                v.table holds in
            rw eq (record {
              table = table;
              held =
                  held-kept s.batches bs (without s.under_way n) keeps
                    (held-without _ s.under_way n v.held);
              agreed = (agrees, v.agreed);
            })

    -- Whatever deliveries of whatever payloads are received and settled, in any interleaving, the
    -- table stays intact, and every delivery that is settled is reported with the verdict of its
    -- payload: what becomes of a payload depends on nothing else, given that this held at the start
    -- and that no two payloads have one digest.
    pub run_moves-refines :
        (s : Intake) (ms : List Move) → IsFaithful s → IsFaithful (run_moves reader digest s ms)
    unfolding run_moves
    run_moves-refines s [] v = v
    run_moves-refines s (receive payload i source at ∷ ms) v =
        run_moves-refines (make reader digest s (receive payload i source at)) ms
          (receive-IsFaithful payload i source at s v)
    run_moves-refines s (complete n ∷ ms) v =
        run_moves-refines (make reader digest s (complete n)) ms (complete-IsFaithful n s v)
