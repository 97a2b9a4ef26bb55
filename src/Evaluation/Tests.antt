-- ===== src/Evaluation/Tests.antt =====
-- The guard of packages/evaluation/src/budget.ts after concrete calls.
use infinite_context.Prelude.{◌+◌, ◌*◌, ◌≤◌, none, true, List, [], ◌∷◌, sum_by}
use infinite_context.Json.{millionths}
use infinite_context.Evaluation.Budget.{development, committed_part, reserved_part, hard_cap, usd}
use infinite_context.Evaluation.Budget.Allocated.{
  Call, reserves, commits, releases, run, IsAllocated, run-IsAllocated,
}

abbrev calls : List Call
calls =
    reserves "2026-01-01" (record {
      call_id = "one";
      category = development;
      estimated_cost = millionths (20 * usd);
      essential = true;
      created_at = none;
    })
    ∷ (commits "one" (millionths (24 * usd)) ∷ (releases "one" ∷ []))

run-IsAllocated_example :
    IsAllocated (run calls [])
    × (sum_by committed_part (run calls []) + sum_by reserved_part (run calls []) ≤ hard_cap)
run-IsAllocated_example = run-IsAllocated calls
