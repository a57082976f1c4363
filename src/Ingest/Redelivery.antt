-- ===== src/Ingest/Redelivery.antt =====
-- ingest/service.py: a whole delivery, of a payload that is new or that has come before.
use ledger_exception_control.Common.{
  none, some, List, ℕ, ◌≡◌, Bool, false, true, refl, Option, ◌++◌, ◌∷◌, [], sym, ◌∙◌, ap,
}
use ledger_exception_control.Ingest.Parser.{FileReader}
use ledger_exception_control.Common.Text.{Text}
use ledger_exception_control.Ingest.Service.{
  settle, ingest, SettlementBatch, find_batch, is_received, IngestOutcome, find_hash, outcome_of,
  new_batch, settle_received, receipt,
}
use ledger_exception_control.Common.Int.{ℤ}
use ledger_exception_control.Ingest.Deliveries.{AreIntact, Agrees, settle-Settles, append-AreIntact}
use ledger_exception_control.Ingest.Interpretation.{interpret_total}
use ledger_exception_control.Ingest.Batches.{append-found, find_hash-Holds, find_hash-found}
use mathlib.Core.Path.{subst}

module _ (reader : FileReader) (digest : List ℕ → Text) where
  -- A batch that has its outcome keeps it.
  settle-stands :
      (i : ℕ) (payload : List ℕ) (duplicate : Bool) (bs : List SettlementBatch)
      (b : SettlementBatch)
      → find_batch i bs ≡ some b
      → is_received b.status ≡ false
      → settle reader i payload duplicate bs ≡ some (bs, outcome_of b true)
  unfolding settle
  settle-stands i payload duplicate bs b e closed =
      let (lines, defects, r, kind, storable, rising, clean) = interpret_total reader payload in
      rw (r, e, closed) refl

  module _ (injective : (p q : List ℕ) → digest p ≡ digest q → p ≡ q) where
    -- `ingest` always comes to an end where the identifier that it draws is new, keeps the table
    -- intact and reports the verdict of the payload. Where a batch of the content has been settled
    -- already, nothing is written, and the report is of that batch, as a duplicate.
    pub ingest_total :
        (i : ℕ) (payload : List ℕ) (source : Text) (at : ℤ) (bs : List SettlementBatch)
        → AreIntact reader digest bs
        → find_batch i bs ≡ none
        → (bs' : List SettlementBatch) × (o : IngestOutcome) × (ingest reader digest i payload
              source at bs
            ≡ some (bs', o))
          × AreIntact reader digest bs'
          × Agrees reader digest payload o
          × ((b : SettlementBatch)
              → find_hash (digest payload) bs ≡ some b
              → is_received b.status ≡ false
              → (bs' ≡ bs) × (o ≡ outcome_of b true))
    unfolding ingest
    ingest_total i payload source at bs v fresh = rw fresh (go (find_hash (digest payload) bs) refl)
      where
        new : SettlementBatch
        new = new_batch i (digest payload) payload source at

        Ends : Option SettlementBatch → Option (List SettlementBatch × IngestOutcome) → Type 0
        Ends existing r =
            (bs' : List SettlementBatch) × (o : IngestOutcome) × (r ≡ some (bs', o))
            × AreIntact reader digest bs'
            × Agrees reader digest payload o
            × ((b : SettlementBatch)
                → existing ≡ some b
                → is_received b.status ≡ false
                → (bs' ≡ bs) × (o ≡ outcome_of b true))

        go :
            (existing : Option SettlementBatch)
            → find_hash (digest payload) bs ≡ existing
            → Ends existing (settle_received reader payload (receipt new bs existing none))
        go none e =
            let (bs', o, eq, table, keeps, agrees) =
              settle-Settles reader digest injective i payload false (bs ++ new ∷ [])
                (append-AreIntact reader digest i payload source at bs v fresh)
                (new, append-found bs new fresh, refl) in
            (bs', o, eq, table, agrees, λ b k c. absurd (cc (k)))
        go (some x) e =
            let (bs', o, eq, table, keeps, agrees) =
              settle-Settles reader digest injective x.id payload true bs v
                (find_hash-Holds (digest payload) bs x v.apart e) in
            (
              bs',
              o,
              eq,
              table,
              agrees,
              λ b k c.
                  let same : x ≡ b = cc (k) in
                  let closed : is_received x.status ≡ false =
                    subst (λ (y : SettlementBatch). is_received y.status ≡ false) (sym same) c in
                  let again =
                    settle-stands x.id payload true bs x
                      (find_hash-found (digest payload) bs x v.apart e) closed in
                  let left : bs' ≡ bs = cc (eq, again) in
                  let told : o ≡ outcome_of x true = cc (eq, again) in
                  (left, told ∙ ap (λ (y : SettlementBatch). outcome_of y true) same),
            )
