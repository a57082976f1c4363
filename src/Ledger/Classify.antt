-- ===== src/Ledger/Classify.antt =====
-- Which exceptions are classified as not sent.
use ledger_exception_control.Common.{none, some, ◌≡◌, true, arith, ◌↔◌, ◌≢◌, ◌⊎◌}
use ledger_exception_control.Ledger.Transport.{
  post_init, classify_transport_failure, RaisedError, retryable, RetryableCause,
}

-- An exception may be retried after exactly where the adapter declared a cause, or where it is a
-- failed name resolution or a refused connection.
pub classify_transport_failure-retryable :
    (error : RaisedError)
    → (retryable (classify_transport_failure error) ≡ true) ↔ (
        (error.declared ≢ none)
        ⊎ ((error.is_gaierror ≡ true) ⊎ (error.is_connection_refused_error ≡ true)))
unfolding classify_transport_failure retryable
classify_transport_failure-retryable error = (λ h. ground arith, λ h. ground arith)

-- The verdict on an exception is one that can be constructed, a cause that the adapter declared is
-- the cause of the verdict, and the detail is the name of the class alone.
pub classify_transport_failure-well_formed :
    (error : RaisedError)
    → (post_init (classify_transport_failure error) ≡ none)
      × ((cause : RetryableCause)
          → error.declared ≡ some cause
          → (classify_transport_failure error).cause ≡ some cause)
      × ((classify_transport_failure error).detail ≡ error.class_name)
unfolding classify_transport_failure post_init
classify_transport_failure-well_formed error = (ground arith, λ cause h. ground arith, ground arith)
