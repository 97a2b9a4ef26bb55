-- ===== src/Lib.antt =====
-- Continuum (dhruvaron/infinite-context): the local memory service's own logic, as definitions that
-- compute, with what is proved of them.
--
-- The program keeps conversations in a vault, compiles claims from them, retrieves evidence for a model
-- call and pays for that call from a budget. These parts are modelled:
-- - Budget: packages/config/src/installation-budget.ts, the ledger of all API spending on a machine.
--   Entry has the data and the sums, Guards the refusals, Operations the methods of
--   `InstallationBudgetGuard`, Import `reconcileLegacyEntries`, Storage what `#write` stores and `#read`
--   accepts. A method takes the ledger that `#read` gave and answers with its result or error and the
--   ledger that it writes, if any. History has calls in any order, each with its own clock. The other
--   files hold proofs: Reserve, Sums, Within, Charges, Settlement, Storage/RoundTrip, Storage/Keeps,
--   Storage/Methods, Storage/Import, Storage/Late, Storage/History. Lock is the lock file of `#withLock`, one function per
--   system call; Lock/Steps has the interleavings of processes, Lock/Owner, Lock/Guarded and
--   Lock/Exclusion hold proofs.
-- - Evaluation/Budget: packages/evaluation/src/budget.ts, the guard of the benchmarks, in memory; Sums
--   and Allocated hold proofs.
-- - Memory/Claim and Memory/Temporal: packages/memory/src/temporal.ts with the types of
--   packages/memory/src/types.ts and packages/contracts/src/index.ts: reconciliation of a claim
--   (`reconcileClaim`), freshness, selection by intent and removal of sources.
-- - Memory/Entities: `mergeEntities` and `reverseEntityMerge` of
--   packages/memory/src/entity-resolution.ts.
-- - Retrieval/Context: packages/retrieval/src/context.ts, the packet for a model call. Groups, Bounds,
--   Selection and WholeTurns hold proofs.
-- - Retrieval/Graph: packages/retrieval/src/graph.ts, the candidates that edges lead to, with `tokenize` of
--   packages/retrieval/src/candidates.ts; Found, Expansion and Ranked hold proofs.
-- - Admission: apps/api/src/mutation-admission.ts, the gate between mutations and maintenance; its steps
--   and their reachable states are in Admission/Exclusion.
-- - Jobs: the job queue of packages/database/src/index.ts on the tables of
--   packages/database/src/migrations.ts. Tables has the rows and keys, Queue the methods; Attempts,
--   LeaseKeeps, MethodKeeps, History, Leases, Fencing and Retried hold proofs over the reachable states.
-- - Transcript: events, revisions of answers, runs and their streams, of packages/database/src/index.ts
--   (`appendEvent` to `listRunStreamEvents`), on the tables of packages/database/src/migrations.ts. Tables
--   has the rows, Events, Runs, Streams and Revisions the methods, History the calls in any order. Changes,
--   Touched and Effects say what each method does to events and runs, Keys and the files named Untouched which
--   tables a method leaves alone; Order, Answers, Made, Once, Revisions/Single, Current, Pages, Recovery, Sent,
--   Rebuilt and Retired hold proofs.
-- - Ingestion/Chunking: `chunkLines` of packages/ingestion/src/chunking.ts, with proofs in Restore and
--   Sizes. Ingestion/Policy: the checks on attachments of packages/ingestion/src/policy.ts;
--   Marks, Names and Accepted hold proofs.
-- Prelude has the shared helpers, Json the values of `JSON.parse`. The Tests modules run the definitions
-- on concrete data.
--
-- How the code is read:
-- - USD amounts are natural numbers of millionths, added exactly, where the source adds floating-point
--   numbers; a number that is negative or not finite is kept apart, since the guards refuse it. The rounding of
--   doubles is far below a millionth, so a comparison of the model differs from the source's only where a
--   total meets the limit exactly: there the source's answer depends on the order of its additions, which
--   `reserve` and `#read` do not share.
-- - What the code takes from the platform is a parameter: the clock (`now k` is its k-th reading in a
--   call), `Date.parse`, Unicode normalization and case folding, the processes alive, SHA-256, the
--   identifiers that `uuidv7` makes. `Date.parse` gives milliseconds, and none for NaN, of which each
--   comparison is false; `newest` is a stable search for the latest, which is the source's sort when no
--   date is NaN.
-- - In the budget the source checks some arguments before it takes the lock and reads; here all checks are
--   made on the ledger that is read, in the order of the source.
-- - Ratios are exact: a quarter of the context is `/ 4`, and 45 percent are `* 45 / 100`. Scores of
--   evidence are only compared. Token counts are natural numbers.
-- - A transaction of the database is one step, rolled back when a key is taken or a reference is to no row. Times are milliseconds,
--   and the priority of a job is a natural number.
--   Rows that the order of `leaseJob` leaves equal come in the order of the table.
-- - An event has its one row of `event_content`, and the rows of `idempotency_keys` are kept apart by their
--   operation. A stream event whose JSON the transcript does not read is `other`. Histories of the
--   transcript do not include the erasure of sources.
-- - A waiting call of `beginExclusive` is split at its `await`; its timer or signal and a release are
--   steps of their own, and a call of `endExclusive` comes after the wait, as in apps/api/src/app.ts.
-- - The identity of a lock stands for its device, inode and token, which the model never uses twice. The
--   inspection of a lock that may be abandoned is one step, its confirmation and its removal are others. A failed write,
--   with its unlink, stands for the failures of fsync and fstat after it as well.
-- - The loop over the queue of the graph runs on fuel, one more than the seeds and candidates that can be
--   queued, which is proved to be enough. Scores and similarities are exact ratios.
-- - Texts to be chunked are lists of UTF-16 code units. The loop over a long line runs on fuel, the length
--   of the line, which is enough when the maximum is positive.
--
-- Not modelled: fsync and renames of the ledger, the text of JSON, the rest of the database,
-- the worker, the API's routes, the web application, the providers, tools, extractors and benchmarks,
-- which are I/O, SQL over other tables, floating-point scoring or calls of third-party code.
pub mod Prelude
pub mod Json
pub mod Budget
pub mod Memory
pub mod Retrieval
pub mod Evaluation
pub mod Admission
pub mod Jobs
pub mod Transcript
pub mod Ingestion
