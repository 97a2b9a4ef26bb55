-- ===== src/Retrieval.antt =====
-- packages/retrieval/src
pub mod Tests
pub mod Context
pub mod Graph
