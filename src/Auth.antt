-- ===== src/Auth.antt =====
-- apps/api/src/auth: whether an actor may run an operation.
pub mod Authorization
mod Tests
