-- ===== src/Ledger.antt =====
-- src/ledger_exception_control_plane/ledger: what a ledger adapter declares and answers, how a
-- failed call is classified, and the simulated ledgers.
pub mod Vocabulary
pub mod Port
pub mod Transport
pub mod Simulated
pub mod Capabilities
pub mod Classify
pub mod Suppression
pub mod Weak
pub mod Tests
