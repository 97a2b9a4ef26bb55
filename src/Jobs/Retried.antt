-- ===== src/Jobs/Retried.antt =====
-- A job after `retryJob` of packages/database/src/index.ts.
use infinite_context.Prelude.{
  All-update, All-append, All-both, any-append_left, any-update, find_by, update, ℕ, ◌+◌, ◌<◌,
  String, Option, none, some, Bool, true, false, List, [], ◌∷◌, ◌++◌, ◌≡◌, refl, arith, Bool-cases,
  Option-cases, inl, inr, ◌⊎◌, ◌==◌, str_eq, eq_iff, any, count, All, ok, err, if◌then◌else◌, ap,
  ◌∙◌,
}
use infinite_context.Jobs.Tables.{Job, Attempt, Queue, attempt_taken, has_id, is_attempt, is_failed}
use infinite_context.Jobs.Queue.{
  next_job, leased, new_attempt, is_taken, lease_row, lease_selected, lease, enqueue, new_job,
  heartbeat, find_owned, complete_job, fail_job, retry,
}
use infinite_context.Jobs.Attempts.{IsIn, All-IsIn, same_row, IsSound, next_job-IsIn}
use infinite_context.Jobs.Leases.{count-IsIn}
use infinite_context.Jobs.History.{
  Step, Reachable, start, next, enqueues, leases, beats, completes, fails, locks,
  queue-Reachable-IsSound,
}

-- A job that was ever leased has a record of its first attempt.
abbrev IsBegun : List Attempt → Job → Type 0
IsBegun as' j = (j.attempts ≡ 0) ⊎ (any (is_attempt j.id 1) as' ≡ true)

abbrev AreBegun : Queue → Type 0
AreBegun q = All (IsBegun q.attempts) q.jobs

any-last :
    (test : Attempt → Bool) (xs : List Attempt) (y : Attempt)
    → test y ≡ true
    → any test (xs ++ y ∷ []) ≡ true
any-last test [] y h = ground (arith, h)
any-last test (x ∷ xs) y h = ground (arith, any-last test xs y h)

-- Updates that leave the identifiers and numbers of jobs and attempts alone.
update-AreBegun :
    (q : Queue) (test : Job → Bool) (change : Job → Job) (which : Attempt → Bool)
    (mark : Attempt → Attempt)
    → ((j : Job) → (change j).id ≡ j.id)
    → ((j : Job) → (change j).attempts ≡ j.attempts)
    → ((a : Attempt) (id : String) (n : ℕ) → is_attempt id n (mark a) ≡ is_attempt id n a)
    → AreBegun q
    → AreBegun
        (record q { jobs = update test change q.jobs; attempts = update which mark q.attempts })
update-AreBegun q test change which mark ids numbers marks v =
    All-update _ _ test change q.jobs
      (λ j t b. elim b [
        | inl z ↦ inl (numbers j ∙ z)
        | inr r ↦ inr (
            ap (λ i. any (is_attempt i 1) (update which mark q.attempts)) (ids j)
            ∙ any-update (is_attempt j.id 1) which mark q.attempts (λ a. marks a j.id 1)
            ∙ r)
      ])
      (λ j t b. elim b [
        | inl z ↦ inl z
        | inr r ↦
            inr (any-update (is_attempt j.id 1) which mark q.attempts (λ a. marks a j.id 1) ∙ r)
      ])
      v

heartbeat-AreBegun :
    (id worker : String) (lease_ms now : ℕ) (q : Queue)
    → AreBegun q
    → AreBegun (heartbeat id worker lease_ms now q).1
unfolding heartbeat
heartbeat-AreBegun id worker lease_ms now q v =
    All-update _ _ _ _ q.jobs (λ j t b. b) (λ j t b. b) v

complete_job-AreBegun :
    (id worker outcome : String) (now : ℕ) (q : Queue)
    → AreBegun q
    → AreBegun (complete_job id worker outcome now q).1
unfolding complete_job
complete_job-AreBegun id worker outcome now q v = elim (Option-cases (find_owned id worker q)) [
  | inl n ↦ rw (n, complete_job) v
  | inr (job, n) ↦
      rw (n, complete_job) (update-AreBegun q _ _ _ _ (λ j. refl) (λ j. refl) (λ a i k. refl) v)
]

fail_job-AreBegun :
    (id worker code : String) (now : ℕ) (q : Queue)
    → AreBegun q
    → AreBegun (fail_job id worker code now q).1
unfolding fail_job
fail_job-AreBegun id worker code now q v = elim (Option-cases (find_owned id worker q)) [
  | inl n ↦ rw (n, fail_job) v
  | inr (job, n) ↦
      rw (n, fail_job) (update-AreBegun q _ _ _ _ (λ j. refl) (λ j. refl) (λ a i k. refl) v)
]

enqueue-AreBegun :
    (id job_type key payload : String) (available_at priority now : ℕ) (q : Queue)
    → AreBegun q
    → AreBegun (enqueue id job_type key payload available_at priority now q).1
unfolding enqueue
enqueue-AreBegun id job_type key payload available_at priority now q v =
    elim (Option-cases (find_by (λ (j : Job). str_eq j.idempotency_key key) q.jobs)) [
      | inr (job, n) ↦ rw (n, enqueue) v
      | inl n ↦ elim (Bool-cases (any (has_id id) q.jobs)) [
        | inl t ↦ rw (n, t, enqueue) v
        | inr t ↦
            rw (n, t, enqueue)
              (All-append _ q.jobs (new_job id job_type key payload available_at priority now ∷ [])
                v (inl refl, tt))
      ]
    ]

lease_row-AreBegun :
    (worker : String) (expiration now : ℕ) (row : Job) (q : Queue)
    → IsSound q
    → IsIn row q.jobs
    → AreBegun q
    → AreBegun (lease_row worker expiration now row q).1
unfolding lease_row
lease_row-AreBegun worker expiration now row q s held v =
    elim (Bool-cases (count (is_taken now row) q.jobs == 0)) [
      | inl z ↦ rw z v
      | inr z ↦ elim (Bool-cases (any (is_attempt row.id (row.attempts + 1)) q.attempts)) [
        | inl t ↦ rw (z, t) v
        | inr t ↦
            let added = new_attempt worker now (row.attempts + 1) row in
            rw (z, t)
              (All-update (λ j. (str_eq j.id row.id ≡ true → j ≡ row) × IsBegun q.attempts j) _
                (is_taken now row) (leased worker expiration now (row.attempts + 1)) q.jobs
                (λ j u b. elim b.1 [
                  | inl e ↦
                      let k = ap (λ i. i.attempts) (b.0 (ground arith)) in
                      inr (
                        any-last (is_attempt j.id 1) q.attempts added
                          (ground (arith, eq_iff row.id j.id, eq_iff j.id row.id)))
                  | inr r ↦ inr (any-append_left (is_attempt j.id 1) q.attempts (added ∷ []) r)
                ])
                (λ j u b. elim b.1 [
                  | inl e ↦ inl e
                  | inr r ↦ inr (any-append_left (is_attempt j.id 1) q.attempts (added ∷ []) r)
                ])
                (All-both _ _ _ q.jobs (λ j x y. (x, y)) (same_row q.jobs row s.keyed held) v))
      ]
    ]

selected-AreBegun :
    (worker : String) (expiration : ℕ) (types : List String) (now : ℕ) (q : Queue) (o : Option Job)
    → next_job now types q.jobs ≡ o
    → IsSound q
    → AreBegun q
    → AreBegun (lease_selected worker expiration now q o).1
selected-AreBegun worker expiration types now q none n s v = v
selected-AreBegun worker expiration types now q (some row) n s v =
    lease_row-AreBegun worker expiration now row q s (next_job-IsIn now types q.jobs row n).0 v

if-AreBegun :
    {A : Type 0} (b : Bool) (x y : A × Queue)
    → AreBegun x.1
    → AreBegun y.1
    → AreBegun (if b then x else y).1
if-AreBegun true x y u v = u
if-AreBegun false x y u v = v

Step-AreBegun : (q r : Queue) → Step q r → IsSound q → AreBegun q → AreBegun r
unfolding lease
Step-AreBegun _ _ (enqueues id job_type key payload at priority now q f) s v =
    enqueue-AreBegun id job_type key payload at priority now q v
Step-AreBegun _ _ (leases worker lease_ms types now q) s v =
    if-AreBegun q.maintenance_locked (ok none, q) _ v
      (selected-AreBegun worker (now + lease_ms) types now q (next_job now types q.jobs) refl s v)
Step-AreBegun _ _ (beats id worker lease_ms now q) s v =
    heartbeat-AreBegun id worker lease_ms now q v
Step-AreBegun _ _ (completes id worker outcome now q) s v =
    complete_job-AreBegun id worker outcome now q v
Step-AreBegun _ _ (fails id worker code now q) s v = fail_job-AreBegun id worker code now q v
Step-AreBegun _ _ (locks locked q) s v = v

Reachable-AreBegun : (q : Queue) → Reachable q → AreBegun q
Reachable-AreBegun _ start = tt
Reachable-AreBegun r (next {q} h s) =
    Step-AreBegun q r s (queue-Reachable-IsSound q h) (Reachable-AreBegun q h)

-- The row of a failed job has no attempts after the retry.
retry-reset :
    (at : ℕ) (q : Queue) (job : Job)
    → IsSound q
    → IsIn job q.jobs
    → is_failed job.status ≡ true
    → All (λ j. str_eq j.id job.id ≡ true → j.attempts ≡ 0) (retry job.id at q).1.jobs
unfolding retry
retry-reset at q job s i f =
    All-update (λ j. str_eq j.id job.id ≡ true → j ≡ job) _ _ _ q.jobs (λ j t own h. refl)
      (λ j t own h. absurd (ground (arith, ap (λ k. is_failed k.status) (own h))))
      (same_row q.jobs job s.keyed i)

attempt_blocks :
    (worker : String) (lease_ms : ℕ) (types : List String) (now : ℕ) (q : Queue) (row : Job)
    → q.maintenance_locked ≡ false
    → next_job now types q.jobs ≡ some row
    → any (is_attempt row.id (row.attempts + 1)) q.attempts ≡ true
    → lease worker lease_ms types now q ≡ (err attempt_taken, q)
unfolding lease lease_row
attempt_blocks worker lease_ms types now q row m n h =
    let (held, able) = next_job-IsIn now types q.jobs row n in
    let taken =
      count-IsIn (is_taken now row) row q.jobs held (ground (arith, eq_iff row.id row.id)) in
    ground (arith, m, n, taken, h)

-- After any calls but `retryJob`, let a failed job that was leased before be retried. While maintenance does not lock
-- the vault, a call of `leaseJob` for which this job comes first throws and changes nothing.
pub retried_job_blocks :
    (worker : String) (lease_ms : ℕ) (types : List String) (now at : ℕ) (q : Queue) (job row : Job)
    → Reachable q
    → IsIn job q.jobs
    → is_failed job.status ≡ true
    → 0 < job.attempts
    → q.maintenance_locked ≡ false
    → next_job now types (retry job.id at q).1.jobs ≡ some row
    → row.id ≡ job.id
    → lease worker lease_ms types now (retry job.id at q).1
      ≡ (err attempt_taken, (retry job.id at q).1)
unfolding retry
retried_job_blocks worker lease_ms types now at q job row r i f used m n same =
    let held = (next_job-IsIn now types (retry job.id at q).1.jobs row n).0 in
    let reset =
      All-IsIn (λ j. str_eq j.id job.id ≡ true → j.attempts ≡ 0) row (retry job.id at q).1.jobs held
        (retry-reset at q job (queue-Reachable-IsSound q r) i f)
        (ground (arith, eq_iff row.id job.id)) in
    let first =
      elim (All-IsIn (IsBegun q.attempts) job q.jobs i (Reachable-AreBegun q r))
        as (λ x. any (is_attempt job.id 1) q.attempts ≡ true) [
          | inl z ↦ absurd (omega (arith, z))
          | inr a ↦ a
        ] in
    attempt_blocks worker lease_ms types now (retry job.id at q).1 row m n (
      ap (λ i. any (is_attempt i (row.attempts + 1)) q.attempts) same
      ∙ ap (λ k. any (is_attempt job.id (k + 1)) q.attempts) reset
      ∙ first)
