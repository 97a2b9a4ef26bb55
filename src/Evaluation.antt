-- ===== src/Evaluation.antt =====
-- packages/evaluation.
pub mod Tests
pub mod Budget
