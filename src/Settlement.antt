-- ===== src/Settlement.antt =====
-- apps/api/src/modules/settlement: settlement events and the waterfall that pays them out.
pub mod Events
pub mod Waterfall
mod Tests
