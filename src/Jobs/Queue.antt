-- ===== src/Jobs/Queue.antt =====
-- The methods of the job queue in packages/database/src/index.ts. Each runs in one transaction, which a
-- refused statement rolls back.
use infinite_context.Prelude.{
  find_by, update, ℕ, ◌+◌, ◌-◌, ◌*◌, ◌^◌, String, Option, none, some, Bool, true, false, List, [],
  ◌∷◌, ◌++◌, ◌&&◌, ◌||◌, min, Result, ok, err, ltb, leb, ◌==◌, if◌then◌else◌, str_eq, any, keep,
  sort, count,
}
use infinite_context.Jobs.Tables.{
  Job, queued, running, complete, failed, Attempt, ongoing, succeeded, broken, Queue, Error,
  id_taken, attempt_taken, is_queued, is_running, is_failed, has_id, is_owned_by, is_attempt,
}

abbrev pub new_job : (id job_type key payload : String) (available_at priority now : ℕ) → Job
new_job id job_type key payload available_at priority now = record {
  id = id;
  job_type = job_type;
  idempotency_key = key;
  payload = payload;
  status = queued;
  priority = priority;
  attempts = 0;
  maximum_attempts = 5;
  available_at = available_at;
  lease_owner = none;
  lease_expires_at = none;
  heartbeat_at = none;
  result = none;
  last_error_code = none;
  created_at = now;
  updated_at = now;
}

-- `enqueueJobAt`; `id` is the identifier that `uuidv7` made.
unfoldable pub enqueue :
    (id job_type key payload : String) (available_at priority now : ℕ)
    → Queue
    → Result Error Job × Queue
enqueue id job_type key payload available_at priority now q =
    elim (find_by (λ (j : Job). str_eq j.idempotency_key key) q.jobs) [
      | some existing ↦ (ok existing, q)
      | none ↦
          let job = new_job id job_type key payload available_at priority now in
          if any (has_id id) q.jobs
          then (err id_taken, q)
          else (ok job, record q { jobs = q.jobs ++ job ∷ [] })
    ]

-- `lease_expires_at < ?`, which `NULL` does not satisfy.
abbrev pub is_expired : ℕ → Job → Bool
is_expired now j = elim j.lease_expires_at [ none ↦ false | some t ↦ ltb t now ]

-- No filter for no types.
abbrev pub is_accepted : List String → Job → Bool
is_accepted [] j = true
is_accepted (t ∷ ts) j = any (λ u. str_eq u j.job_type) (t ∷ ts)

abbrev pub is_available : ℕ → List String → Job → Bool
is_available now types j =
    ltb j.attempts j.maximum_attempts
    && leb j.available_at now
    && (is_queued j.status || (is_running j.status && is_expired now j))
    && is_accepted types j

-- `ORDER BY priority DESC, created_at ASC`.
abbrev pub comes_first : Job → Job → Bool
comes_first a b =
    ltb b.priority a.priority || ((a.priority == b.priority) && leb a.created_at b.created_at)

abbrev pub first {ℓ} : {A : Type ℓ} → List A → Option A
first [] = none
first (x ∷ xs) = some x

unfoldable pub next_job : ℕ → List String → List Job → Option Job
next_job now types jobs = first (sort comes_first (keep (is_available now types) jobs))

abbrev pub leased : String → ℕ → ℕ → ℕ → Job → Job
leased worker expiration now number j = record j {
  status = running;
  attempts = number;
  lease_owner = some worker;
  lease_expires_at = some expiration;
  heartbeat_at = some now;
  updated_at = now;
}

abbrev pub new_attempt : String → ℕ → ℕ → Job → Attempt
new_attempt worker now number row = record {
  job_id = row.id;
  attempt_number = number;
  worker_id = worker;
  started_at = now;
  completed_at = none;
  status = ongoing;
  error_code = none;
}

-- The test of the update that takes the selected row.
abbrev pub is_taken : ℕ → Job → Job → Bool
is_taken now row j = str_eq j.id row.id && (is_queued j.status || is_expired now j)

unfoldable pub lease_row : String → ℕ → ℕ → Job → Queue → Result Error (Option Job) × Queue
lease_row worker expiration now row q =
    let number = row.attempts + 1 in
    let jobs = update (is_taken now row) (leased worker expiration now number) q.jobs in
    if count (is_taken now row) q.jobs == 0
    then (ok none, q)
    else if any (is_attempt row.id number) q.attempts
    then (err attempt_taken, q)
    else (
      ok (find_by (has_id row.id) jobs),
      record q { jobs = jobs; attempts = q.attempts ++ new_attempt worker now number row ∷ [] },
    )

abbrev pub lease_selected : String → ℕ → ℕ → Queue → Option Job → Result Error (Option Job) × Queue
lease_selected worker expiration now q none = (ok none, q)
lease_selected worker expiration now q (some row) = lease_row worker expiration now row q

unfoldable pub lease : String → ℕ → List String → ℕ → Queue → Result Error (Option Job) × Queue
lease worker lease_ms types now q =
    if q.maintenance_locked
    then (ok none, q)
    else lease_selected worker (now + lease_ms) now q (next_job now types q.jobs)

abbrev pub is_held : String → String → Job → Bool
is_held id worker j = has_id id j && is_owned_by worker j && is_running j.status

abbrev pub extended : ℕ → ℕ → Job → Job
extended lease_ms now j = record j {
  heartbeat_at = some now;
  lease_expires_at = some (now + lease_ms);
  updated_at = now;
}

unfoldable pub heartbeat : String → String → ℕ → ℕ → Queue → Bool × Queue
heartbeat id worker lease_ms now q = (
  any (is_held id worker) q.jobs,
  record q { jobs = update (is_held id worker) (extended lease_ms now) q.jobs },
)

abbrev pub find_owned : String → String → Queue → Option Job
find_owned id worker q = find_by (λ (j : Job). has_id id j && is_owned_by worker j) q.jobs

unfoldable pub complete_job : String → String → String → ℕ → Queue → Bool × Queue
complete_job id worker outcome now q = elim (find_owned id worker q) [
  | none ↦ (false, q)
  | some job ↦ (
    true,
    record q {
      jobs =
          update (has_id id)
            (λ (j : Job). record j {
              status = complete;
              result = some outcome;
              lease_owner = none;
              lease_expires_at = none;
              updated_at = now;
            })
            q.jobs;
      attempts =
          update (is_attempt id job.attempts)
            (λ (a : Attempt). record a { status = succeeded; completed_at = some now }) q.attempts;
    },
  )
]

abbrev pub backoff_ms : ℕ → ℕ
backoff_ms attempts = min 60_000 (1_000 * 2 ^ (attempts - 1))

unfoldable pub fail_job : String → String → String → ℕ → Queue → Bool × Queue
fail_job id worker code now q = elim (find_owned id worker q) [
  | none ↦ (false, q)
  | some job ↦ (
    true,
    record q {
      jobs =
          update (has_id id)
            (λ (j : Job). record j {
              status = if leb job.maximum_attempts job.attempts then failed else queued;
              available_at = now + backoff_ms job.attempts;
              last_error_code = some code;
              lease_owner = none;
              lease_expires_at = none;
              updated_at = now;
            })
            q.jobs;
      attempts =
          update (is_attempt id job.attempts)
            (λ (a : Attempt). record a {
              status = broken;
              error_code = some code;
              completed_at = some now;
            })
            q.attempts;
    },
  )
]

unfoldable pub retry : String → ℕ → Queue → Bool × Queue
retry id now q =
    let test = λ (j : Job). has_id id j && is_failed j.status in
    (
      any test q.jobs,
      record q {
        jobs =
            update test
              (λ (j : Job). record j {
                status = queued;
                attempts = 0;
                available_at = now;
                last_error_code = none;
                updated_at = now;
              })
              q.jobs;
      },
    )
