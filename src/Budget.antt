-- ===== src/Budget.antt =====
-- packages/config/src/installation-budget.ts
pub mod Lock
pub mod Entry
pub mod Guards
pub mod Operations
pub mod Import
pub mod Sums
pub mod Within
pub mod Reserve
pub mod History
pub mod Charges
pub mod Settlement
pub mod Storage
pub mod Tests
