-- ===== src/Transcript.antt =====
-- The transcript of packages/database/src/index.ts: events, revisions, runs and their streams.
pub mod Tables
pub mod Events
pub mod Runs
pub mod Streams
pub mod Revisions
pub mod History
mod Changes
mod Touched
mod Effects
pub mod Order
mod Keys
mod Answers
mod Made
pub mod Once
pub mod Current
pub mod Pages
pub mod Recovery
pub mod Sent
pub mod Rebuilt
pub mod Retired
mod Tests
