-- ===== src/Admission/Tests.antt =====
-- The gate of apps/api/src/mutation-admission.ts while maintenance waits for a mutation.
use infinite_context.Admission.{Gate, new_gate, admit, begin_exclusive, release}
use infinite_context.Admission.Exclusion.{
  Reachable, start, next, admits, begins, releases, IsSound, Reachable-IsSound,
}

abbrev admitted : Gate
admitted = (admit 2 (admit 1 new_gate).1).1

abbrev drained : Gate
drained = (release 2 (begin_exclusive 1 admitted).1).0

drained-Reachable : Reachable drained
drained-Reachable =
    next
      (next (next (next start (admits 1 new_gate)) (admits 2 (admit 1 new_gate).1))
        (begins 1 admitted))
      (releases 2 (begin_exclusive 1 admitted).1)

Reachable-IsSound_example : IsSound drained
Reachable-IsSound_example = Reachable-IsSound drained drained-Reachable
