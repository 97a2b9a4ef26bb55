-- ===== src/Ingestion.antt =====
-- packages/ingestion/src
pub mod Tests
pub mod Chunking
pub mod Policy
