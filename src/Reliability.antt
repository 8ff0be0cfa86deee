-- ===== src/Reliability.antt =====
-- apps/api/src/reliability: what is kept of a command that changes state.
pub mod Redaction
pub mod Coordinator
mod Tests
