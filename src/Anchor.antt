-- ===== src/Anchor.antt =====
-- apps/api/src/modules/anchor: the payout of a claim's advance by the anchor, its conversion, its
-- receipt, the journal of its operations and the orchestration of its attempts.
pub mod Conversion
pub mod Payout
pub mod Receipt
pub mod Journal
pub mod Orchestrator
mod Tests
