-- ===== src/Claims.antt =====
-- apps/api/src/modules/claims/domain: the lifecycle of a claim before funding, and its offers.
pub mod Lifecycle
pub mod Offers
mod Tests
