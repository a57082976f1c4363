-- ===== src/Control.antt =====
-- src/ledger_exception_control_plane/db/control.py: the closed vocabularies that the database
-- holds and that the components exchange.

pub data ExceptionClassification : Type 0 where
  partial_capture fee_split chargeback_reversal fx_rounding : ExceptionClassification
  cross_period_refund unclassified : ExceptionClassification

pub data TreatmentCode : Type 0 where
  rebook accrue write_off escalate : TreatmentCode

-- `PostingOutcome`, the persisted outcome vocabulary.
pub data OutcomeCode : Type 0 where
  confirmed rejected throttled unknown partially_applied not_sent : OutcomeCode

pub data AttemptState : Type 0 where
  in_flight resolved : AttemptState

pub data DispatchState : Type 0 where
  pending settled dead_lettered : DispatchState

pub data ReplayState : Type 0 where
  pending replayed abandoned : ReplayState

pub data QueryAnswer : Type 0 where
  found not_found indeterminate : QueryAnswer

pub data RecoveryState : Type 0 where
  open_item resolved : RecoveryState

pub data RecoveryResolution : Type 0 where
  confirmed_by_evidence rejected_by_evidence resolved_unverified : RecoveryResolution

-- The tools of the audit trail.
pub data AuditTool : Type 0 where
  matching propose_treatment approve compute_amount post retry dlq replay reconcile recover :
      AuditTool

pub data AuditOutcome : Type 0 where
  success failure abstained quarantined : AuditOutcome
