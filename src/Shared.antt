-- ===== src/Shared.antt =====
-- The code that the modules share.
pub mod Errors
pub mod Action
pub mod Number
pub mod Hash
pub mod Json
pub mod Sample
mod Tests
pub mod Money
