-- ===== src/Budget/Lock/Steps.antt =====
-- Interleavings of the system calls on the lock file of packages/config/src/installation-budget.ts.
use infinite_context.Prelude.{ℕ, Bool, true, none, ◌≡◌}
use infinite_context.Budget.Lock.{
  Disk, idle, creating, holding, unlinking, suspecting, confirmed, open_lock, write_lock, unlink,
  begin_release, inspect, confirm, quarantine, die, lock_at_path_matches,
}

-- No lock, and every process outside.
abbrev pub new_disk : Disk
new_disk = record { at_path = none; next_id = 0; local = λ p. idle }

-- What calls may lead to; in a careful history each rename takes away the lock that was confirmed.
pub data Reachable (careful : Bool) : Disk → Type 0 where
  start : Reachable careful new_disk
  opens :
      (p : ℕ) (d : Disk)
      → Reachable careful d
      → d.local p ≡ idle
      → Reachable careful (open_lock p d)
  writes :
      (p id : ℕ) (d : Disk)
      → Reachable careful d
      → d.local p ≡ creating id
      → Reachable careful (write_lock p id d)
  gives_up :
      (p id : ℕ) (d : Disk)
      → Reachable careful d
      → d.local p ≡ creating id
      → Reachable careful (unlink p d)
  checks :
      (p id : ℕ) (d : Disk)
      → Reachable careful d
      → d.local p ≡ holding id
      → Reachable careful (begin_release p id d)
  unlinks :
      (p id : ℕ) (d : Disk)
      → Reachable careful d
      → d.local p ≡ unlinking id
      → Reachable careful (unlink p d)
  inspects :
      (p age : ℕ) (d : Disk)
      → Reachable careful d
      → d.local p ≡ idle
      → Reachable careful (inspect p age d)
  confirms :
      (p id : ℕ) (d : Disk)
      → Reachable careful d
      → d.local p ≡ suspecting id
      → Reachable careful (confirm p id d)
  removes :
      (p id : ℕ) (d : Disk)
      → Reachable careful d
      → d.local p ≡ confirmed id
      → (careful ≡ true → lock_at_path_matches id d ≡ true)
      → Reachable careful (quarantine p d)
  dies : (p : ℕ) (d : Disk) → Reachable careful d → Reachable careful (die p d)
