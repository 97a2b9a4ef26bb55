-- ===== src/Jobs.antt =====
-- The job queue of packages/database/src/index.ts: the statements of its methods on the tables `jobs` and
-- `job_attempts`. Times are milliseconds, which the ISO texts of the source order alike.
pub mod Tests
pub mod Tables
pub mod Queue
pub mod Attempts
pub mod LeaseKeeps
pub mod MethodKeeps
pub mod History
pub mod Leases
pub mod Fencing
pub mod Retried
