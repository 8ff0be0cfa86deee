-- ===== src/Resolution.antt =====
-- apps/api/src/modules/resolution: the loss of a claim that fell short, and the commands on its
-- resolution and its closing.
pub mod Loss
pub mod Transition
pub mod Service
pub mod Finalization
mod Tests
