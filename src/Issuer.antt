-- ===== src/Issuer.antt =====
-- apps/api/src/modules/issuer: the transaction that the issuer is asked to approve, and the guards
-- of its answer; the orchestration of the request, and its journal in memory.
pub mod Transaction
pub mod Receipt
pub mod Ports
pub mod Journal
pub mod Orchestrator
mod Tests
