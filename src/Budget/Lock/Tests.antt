-- ===== src/Budget/Lock/Tests.antt =====
-- The lock file of packages/config/src/installation-budget.ts in concrete interleavings.
use infinite_context.Prelude.{ℕ, Bool, true, false, ◌≡◌, refl, arith}
use infinite_context.Budget.Lock.{
  Disk, holding, open_lock, write_lock, inspect, confirm, quarantine, die, is_alive,
  lock_at_path_matches, owns_lock,
}
use infinite_context.Budget.Lock.Steps.{
  Reachable, start, opens, writes, inspects, confirms, removes, dies, new_disk,
}
use infinite_context.Budget.Lock.Exclusion.{careful_exclusion}

-- The first process locks and dies.
abbrev abandoned : Disk
abandoned = die 0 (write_lock 0 0 (open_lock 0 new_disk))

abandoned-Reachable : (careful : Bool) → Reachable careful abandoned
unfolding open_lock write_lock
abandoned-Reachable careful =
    dies 0 _ (writes 0 0 (open_lock 0 new_disk) (opens 0 new_disk start refl) refl)

-- Two others find its lock abandoned.
abbrev confirmed_twice : Disk
confirmed_twice = confirm 2 0 (inspect 2 2_000 (confirm 1 0 (inspect 1 2_000 abandoned)))

-- One of them removes it and takes the lock.
abbrev taken_over : Disk
taken_over = write_lock 2 1 (open_lock 2 (quarantine 2 confirmed_twice))

-- The other one removes that lock, and takes the lock as well.
abbrev raced : Disk
raced = write_lock 1 2 (open_lock 1 (quarantine 1 taken_over))

confirmed_twice-Reachable : (careful : Bool) → Reachable careful confirmed_twice
unfolding open_lock write_lock die inspect confirm is_alive
confirmed_twice-Reachable careful =
    confirms 2 0 _
      (inspects 2 2_000 _
        (confirms 1 0 _ (inspects 1 2_000 abandoned (abandoned-Reachable careful) refl) refl) refl)
      refl

taken_over-Reachable : (careful : Bool) → Reachable careful taken_over
unfolding open_lock write_lock die inspect confirm is_alive quarantine lock_at_path_matches
taken_over-Reachable careful =
    writes 2 1 _
      (opens 2 _ (removes 2 0 confirmed_twice (confirmed_twice-Reachable careful) refl (λ h. refl))
        refl)
      refl

raced-Reachable : Reachable false raced
unfolding open_lock write_lock die inspect confirm is_alive quarantine
raced-Reachable =
    writes 1 2 _
      (opens 1 _
        (removes 1 0 taken_over (taken_over-Reachable false) refl (λ h. absurd (ground arith)))
        refl)
      refl

-- Both hold a lock, and only the second passes the check.
both_hold : (raced.local 2 ≡ holding 1) × (raced.local 1 ≡ holding 2)
unfolding open_lock write_lock die inspect confirm is_alive quarantine
both_hold = (refl, refl)

one_refused : (owns_lock 2 raced ≡ false) × (owns_lock 1 raced ≡ true)
unfolding open_lock write_lock die inspect confirm is_alive quarantine owns_lock
one_refused = (refl, refl)

abbrev rescuer : ℕ
rescuer = 2

careful_exclusion_example : (rescuer ≡ rescuer) × (lock_at_path_matches 1 taken_over ≡ true)
unfolding open_lock write_lock die inspect confirm is_alive quarantine
careful_exclusion_example =
    careful_exclusion taken_over rescuer rescuer 1 1 (taken_over-Reachable true) refl refl
