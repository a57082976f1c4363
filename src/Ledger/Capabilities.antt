-- ===== src/Ledger/Capabilities.antt =====
-- The capabilities in effect are the declared ones that a conformance run has proved.
use ledger_exception_control.Common.{none, Option, ◌≡◌, true, arith, ◌↔◌, false}
use ledger_exception_control.Ledger.Port.{
  effective_capabilities, LedgerAdapterCapabilities, permits_effectively_once_claim,
  suppresses_duplicates, VerifiedCapabilities, queryable_by_operation_id, suppression_ok, query_ok,
}

-- The capabilities in effect suppress duplicates exactly where the declaration says so and a record
-- proves it; they can be queried by operation identifier exactly where the declaration says so and
-- the record proves that; and without a record no claim of effectively-once is permitted.
pub effective_capabilities-proven :
    (declared : LedgerAdapterCapabilities) (verified : Option VerifiedCapabilities)
    → ((suppresses_duplicates (effective_capabilities declared verified) ≡ true)
        ↔ ((suppresses_duplicates declared ≡ true) × (suppression_ok verified ≡ true)))
      × ((queryable_by_operation_id (effective_capabilities declared verified) ≡ true)
          ↔ ((queryable_by_operation_id declared ≡ true) × (query_ok verified ≡ true)))
      × (permits_effectively_once_claim (effective_capabilities declared none) ≡ false)
unfolding effective_capabilities permits_effectively_once_claim suppresses_duplicates
    queryable_by_operation_id
effective_capabilities-proven declared verified =
    ((λ h. ground arith, λ h. ground arith), (λ h. ground arith, λ h. ground arith), ground arith)

-- A record takes nothing away a second time.
pub effective_capabilities_idem :
    (declared : LedgerAdapterCapabilities) (verified : Option VerifiedCapabilities)
    → effective_capabilities (effective_capabilities declared verified) verified
      ≡ effective_capabilities declared verified
unfolding effective_capabilities
effective_capabilities_idem declared verified = ground arith
