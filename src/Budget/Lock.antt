-- ===== src/Budget/Lock.antt =====
-- The lock file of packages/config/src/installation-budget.ts, between processes whose system calls
-- interleave. The identity of a lock stands for its device, inode and token together.
pub mod Steps
pub mod Owner
mod Guarded
pub mod Exclusion
mod Tests
use infinite_context.Prelude.{
  ℕ, ◌+◌, Option, none, some, Bool, true, false, ◌&&◌, ◌==◌, leb, if◌then◌else◌, not,
}

-- The lock at the path; `owner` is none until the process has written itself into it.
pub record File : Type 0 where
  pub id : ℕ
  pub owner : Option ℕ

-- Where a process is in `#withLock` or, for `suspecting` and `confirmed`, in `#removeAbandonedLock`.
pub data Local : Type 0 where
  idle : Local
  creating holding unlinking suspecting confirmed : ℕ → Local
  gone : Local

pub record Disk : Type 0 where
  pub at_path : Option File
  pub next_id : ℕ
  pub local : ℕ → Local

abbrev pub set : (ℕ → Local) → ℕ → Local → ℕ → Local
set local p l q = if q == p then l else local q

abbrev pub move : ℕ → Local → Disk → Disk
move p l d = record d { local = set d.local p l }

abbrev pub is_gone : Local → Bool
is_gone gone = true
is_gone _ = false

-- `processIsAlive`
unfoldable pub is_alive : ℕ → Disk → Bool
is_alive p d = not (is_gone (d.local p))

abbrev pub created : ℕ → Disk → Disk
created p d = record {
  at_path = some (record { id = d.next_id; owner = none });
  next_id = d.next_id + 1;
  local = set d.local p (creating d.next_id);
}

-- `openSync(this.lockPath, "wx")`, which fails while the path is taken.
unfoldable pub open_lock : ℕ → Disk → Disk
open_lock p d = elim (d.at_path) [ some f ↦ d | none ↦ created p d ]

abbrev pub owned_by : ℕ → ℕ → Option File → Option File
owned_by p id none = none
owned_by p id (some f) = if f.id == id then some (record { id = f.id; owner = some p }) else some f

-- The write through the descriptor, after which the lock is active.
unfoldable pub write_lock : ℕ → ℕ → Disk → Disk
write_lock p id d = move p (holding id) (record d { at_path = owned_by p id d.at_path })

-- `unlinkSync(this.lockPath)`, after the lock could not be written and at the end of `#withLock`.
unfoldable pub unlink : ℕ → Disk → Disk
unlink p d = move p idle (record d { at_path = none })

abbrev pub has_id : ℕ → Option File → Bool
has_id id none = false
has_id id (some f) = f.id == id

-- `#lockAtPathMatches`
unfoldable pub lock_at_path_matches : ℕ → Disk → Bool
lock_at_path_matches id d = has_id id d.at_path

-- `#assertOwnsLock` passes.
abbrev pub owns : Local → Option File → Bool
owns (holding id) f = has_id id f
owns _ f = false

unfoldable pub owns_lock : ℕ → Disk → Bool
owns_lock p d = owns (d.local p) d.at_path

-- The check before the lock is unlinked.
unfoldable pub begin_release : ℕ → ℕ → Disk → Disk
begin_release p id d = move p (if lock_at_path_matches id d then unlinking id else idle) d

abbrev pub is_dead_owner : Option ℕ → Disk → Bool
is_dead_owner none d = false
is_dead_owner (some o) d = not (is_alive o d)

-- The lock that is read through its own descriptor is a second old and of a process that is not alive.
unfoldable pub inspect : ℕ → ℕ → Disk → Disk
inspect p age d = elim d.at_path [
  | none ↦ d
  | some f ↦ if leb 1_000 age && is_dead_owner f.owner d then move p (suspecting f.id) d else d
]

-- `lstatSync` finds the inspected lock at the path.
unfoldable pub confirm : ℕ → ℕ → Disk → Disk
confirm p id d = move p (if has_id id d.at_path then confirmed id else idle) d

-- `renameSync` takes away whatever is at the path.
unfoldable pub quarantine : ℕ → Disk → Disk
quarantine p d = move p idle (record d { at_path = none })

unfoldable pub die : ℕ → Disk → Disk
die p d = move p gone d
