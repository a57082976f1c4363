-- ===== src/Ingest.antt =====
-- ingest/: a settlement file from its bytes to the lines of a batch. Defect is errors.py, Parser is
-- parser.py, Normalise is normalise.py, and Service the transactions of service.py.
pub mod Defect
pub mod Reason
pub mod Parser
pub mod Normalise
pub mod Row
pub mod Readings
pub mod Storable
pub mod Refusals
pub mod Payload
pub mod Service
pub mod Interpretation
pub mod Batches
pub mod Verdicts
pub mod Deliveries
pub mod Redelivery
pub mod Runs
mod Tests
