-- ===== src/Risk.antt =====
-- apps/api/src/modules/risk: the evaluation of a claim by the risk service, and what of it is
-- trusted.
pub mod Evaluation
pub mod Features
mod Tests
