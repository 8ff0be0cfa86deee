-- ===== src/Facility.antt =====
-- apps/api/src/modules/facility: the saga that funds a claim.
pub mod Types
pub mod Ports
pub mod Receipt
pub mod Repository
pub mod Request
pub mod Action
pub mod Saga
pub mod Compensation
pub mod Sandbox
pub mod Context
pub mod Run
mod Tests
