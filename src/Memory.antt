-- ===== src/Memory.antt =====
-- packages/memory/src
pub mod Claim
pub mod Temporal
pub mod Entities
pub mod Tests
