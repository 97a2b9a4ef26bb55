-- ===== src/Jobs/Tests.antt =====
-- The queue of packages/database/src/index.ts after concrete calls.
use infinite_context.Prelude.{
  ℕ, ◌+◌, none, some, true, false, [], ok, err, ◌≡◌, refl, arith, ◌⊎◌, inl,
}
use infinite_context.Jobs.Tables.{Job, Queue, queued, failed, attempt_taken}
use infinite_context.Jobs.Queue.{
  enqueue, lease, lease_row, heartbeat, complete_job, fail_job, retry, next_job, is_available,
  leased, new_job,
}
use infinite_context.Jobs.Attempts.{IsIn, IsSound}
use infinite_context.Jobs.History.{
  Reachable, start, next, enqueues, leases, fails, new_queue, queue-Reachable-IsSound,
}
use infinite_context.Jobs.Leases.{lease_answers}
use infinite_context.Jobs.Fencing.{stale_worker_refused, exhausted_left_alone}
use infinite_context.Jobs.Retried.{retried_job_blocks}

abbrev queued_job : Job
queued_job = new_job "job" "memory.lint" "key" "{}" 0 1 5

abbrev one_job : Queue
one_job = (enqueue "job" "memory.lint" "key" "{}" 0 1 5 new_queue).1

one_job-Reachable : Reachable one_job
one_job-Reachable = next start (enqueues "job" "memory.lint" "key" "{}" 0 1 5 new_queue refl)

-- The job after its n-th lease, which has expired when the next one begins.
abbrev run_down : ℕ → Queue → Queue
run_down now q = (lease "first" 10 [] now q).1

abbrev leased_once : Queue
leased_once = run_down 100 one_job

leased_once-Reachable : Reachable leased_once
leased_once-Reachable = next one_job-Reachable (leases "first" 10 [] 100 one_job)

abbrev used_up : Queue
used_up = run_down 500 (run_down 400 (run_down 300 (run_down 200 leased_once)))

used_up-Reachable : Reachable used_up
used_up-Reachable =
    next
      (next
        (next (next leased_once-Reachable (leases "first" 10 [] 200 leased_once))
          (leases "first" 10 [] 300 _))
        (leases "first" 10 [] 400 _))
      (leases "first" 10 [] 500 _)

queue-Reachable-IsSound_example : IsSound used_up
queue-Reachable-IsSound_example = queue-Reachable-IsSound used_up used_up-Reachable

lease_answers_example :
    ((leased_once.maintenance_locked ≡ true) × ((lease "second" 10 [] 200 leased_once).0 ≡ ok none))
    ⊎ ((leased_once.maintenance_locked ≡ false)
        × (next_job 200 [] leased_once.jobs ≡ none)
        × ((lease "second" 10 [] 200 leased_once).0 ≡ ok none))
    ⊎ ((row : Job) × (leased_once.maintenance_locked ≡ false)
        × (next_job 200 [] leased_once.jobs ≡ some row)
        × (is_available 200 [] row ≡ true)
        × ((lease "second" 10 [] 200 leased_once).0
            ≡ ok (some (leased "second" 210 200 (row.attempts + 1) row))))
lease_answers_example = lease_answers "second" 10 [] 200 leased_once leased_once-Reachable

abbrev held : Job
held = leased "first" 110 100 1 queued_job

stale_worker_refused_example :
    (complete_job "job" "second" "{}" 105 leased_once ≡ (false, leased_once))
    × (fail_job "job" "second" "TIMEOUT" 105 leased_once ≡ (false, leased_once))
    × (heartbeat "job" "second" 10 105 leased_once ≡ (false, leased_once))
unfolding enqueue lease lease_row next_job
stale_worker_refused_example =
    stale_worker_refused held "second" "{}" "TIMEOUT" 10 105 leased_once leased_once-Reachable
      (inl refl) refl

abbrev last_held : Job
last_held = leased "first" 510 500 5 queued_job

exhausted_left_alone_example : IsIn last_held (lease "second" 10 [] 9_000 used_up).1.jobs
unfolding enqueue lease lease_row next_job
exhausted_left_alone_example =
    exhausted_left_alone "second" 10 [] 9_000 used_up last_held used_up-Reachable (inl refl)
      (omega arith)

-- The last attempt fails, and the job is retried.
abbrev given_up : Queue
given_up = (fail_job "job" "first" "TIMEOUT" 505 used_up).1

given_up-Reachable : Reachable given_up
given_up-Reachable = next used_up-Reachable (fails "job" "first" "TIMEOUT" 505 used_up)

abbrev failed_job : Job
failed_job = record last_held {
  status = failed;
  available_at = 16_505;
  last_error_code = some "TIMEOUT";
  lease_owner = none;
  lease_expires_at = none;
  updated_at = 505;
}

abbrev retried_job : Job
retried_job = record failed_job {
  status = queued;
  attempts = 0;
  available_at = 600;
  last_error_code = none;
  updated_at = 600;
}

retried_job_blocks_example :
    lease "second" 10 [] 9_000 (retry "job" 600 given_up).1
    ≡ (err attempt_taken, (retry "job" 600 given_up).1)
unfolding enqueue lease lease_row next_job fail_job retry
retried_job_blocks_example =
    retried_job_blocks "second" 10 [] 9_000 600 given_up failed_job retried_job given_up-Reachable
      (inl refl) refl (omega arith) refl refl refl
