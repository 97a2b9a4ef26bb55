-- ===== src/Jobs/History.antt =====
-- Histories of the methods of the job queue in packages/database/src/index.ts.
use infinite_context.Prelude.{ℕ, String, Bool, false, List, [], ◌≡◌, str_eq, any}
use infinite_context.Jobs.Tables.{Queue}
use infinite_context.Jobs.Queue.{enqueue, lease, heartbeat, complete_job, fail_job}
use infinite_context.Jobs.Attempts.{IsSound}
use infinite_context.Jobs.LeaseKeeps.{lease-IsSound}
use infinite_context.Jobs.MethodKeeps.{
  heartbeat-IsSound, complete_job-IsSound, fail_job-IsSound, enqueue-IsSound,
}

-- A call of a method of the queue, other than `retryJob`, or of the settings that lock it. The identifiers
-- that `uuidv7` makes name no earlier job.
pub data Step : Queue → Queue → Type 0 where
  enqueues :
      (id job_type key payload : String) (available_at priority now : ℕ) (q : Queue)
      → any (λ a. str_eq a.job_id id) q.attempts ≡ false
      → Step q (enqueue id job_type key payload available_at priority now q).1
  leases :
      (worker : String) (lease_ms : ℕ) (types : List String) (now : ℕ) (q : Queue)
      → Step q (lease worker lease_ms types now q).1
  beats :
      (id worker : String) (lease_ms now : ℕ) (q : Queue)
      → Step q (heartbeat id worker lease_ms now q).1
  completes :
      (id worker outcome : String) (now : ℕ) (q : Queue)
      → Step q (complete_job id worker outcome now q).1
  fails : (id worker code : String) (now : ℕ) (q : Queue) → Step q (fail_job id worker code now q).1
  locks : (locked : Bool) (q : Queue) → Step q (record q { maintenance_locked = locked })

abbrev pub new_queue : Queue
new_queue = record { jobs = []; attempts = []; maintenance_locked = false }

pub data Reachable : Queue → Type 0 where
  start : Reachable new_queue
  next : {q r : Queue} → Reachable q → Step q r → Reachable r

Step-IsSound : (q r : Queue) → Step q r → IsSound q → IsSound r
Step-IsSound _ _ (enqueues id job_type key payload at priority now q f) s =
    enqueue-IsSound id job_type key payload at priority now q f s
Step-IsSound _ _ (leases worker lease_ms types now q) s =
    lease-IsSound worker lease_ms types now q s
Step-IsSound _ _ (beats id worker lease_ms now q) s = heartbeat-IsSound id worker lease_ms now q s
Step-IsSound _ _ (completes id worker outcome now q) s =
    complete_job-IsSound id worker outcome now q s
Step-IsSound _ _ (fails id worker code now q) s = fail_job-IsSound id worker code now q s
Step-IsSound _ _ (locks locked q) s = record {
  keyed = s.keyed;
  bounded = s.bounded;
  recorded = s.recorded;
}

-- After any calls but `retryJob`, job identifiers are a key, no job has more attempts than its maximum, and
-- the recorded attempts of a job have numbers up to its own.
pub queue-Reachable-IsSound : (q : Queue) → Reachable q → IsSound q
queue-Reachable-IsSound _ start = record { keyed = tt; bounded = tt; recorded = tt }
queue-Reachable-IsSound r (next {q} h s) = Step-IsSound q r s (queue-Reachable-IsSound q h)
