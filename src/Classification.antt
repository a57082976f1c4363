-- ===== src/Classification.antt =====
-- src/ledger_exception_control_plane/classification: what a residual settlement line is.
pub mod Taxonomy
pub mod Engine
pub mod Rules
pub mod Order
pub mod Tests
