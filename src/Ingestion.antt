-- ===== src/Ingestion.antt =====
-- apps/api/src/modules/ingestion: the canonical CSV of marketplace events and its quality report.
pub mod Csv
pub mod Types
pub mod Cells
pub mod Rows
pub mod Report
pub mod Reading
pub mod Service
mod Tests
