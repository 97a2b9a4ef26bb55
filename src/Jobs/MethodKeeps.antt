-- ===== src/Jobs/MethodKeeps.antt =====
-- The other methods of the queue in packages/database/src/index.ts and the recorded attempts.
use infinite_context.Prelude.{
  All-update, find_by, update, ℕ, ◌≤◌, String, Bool, false, List, [], ◌∷◌, ◌++◌, ◌≡◌, refl, arith,
  Bool-cases, inl, inr, str_eq, eq_iff, any, All-append, Option-cases,
}
use infinite_context.Jobs.Tables.{Job, Attempt, Queue, has_id}
use infinite_context.Jobs.Queue.{enqueue, new_job, heartbeat, complete_job, find_owned, fail_job}
use infinite_context.Jobs.Attempts.{IsKeyed, IsRecorded, IsSound, update-IsKeyed}

marked-IsRecorded :
    (which : Attempt → Bool) (mark : Attempt → Attempt) (as' : List Attempt) (j k : Job)
    → ((a : Attempt) → (mark a).job_id ≡ a.job_id)
    → ((a : Attempt) → (mark a).attempt_number ≡ a.attempt_number)
    → k.id ≡ j.id
    → k.attempts ≡ j.attempts
    → IsRecorded as' j
    → IsRecorded (update which mark as') k
marked-IsRecorded which mark as' j k owners own_numbers ids numbers v =
    All-update _ _ which mark as'
      (λ a t h e. ground (arith, h, owners a, own_numbers a, ids, numbers))
      (λ a t h e. ground (arith, h, ids, numbers)) v

-- A method that changes the table by updates which leave identifiers and numbers alone.
update-IsSound :
    (q : Queue) (test : Job → Bool) (change : Job → Job) (which : Attempt → Bool)
    (mark : Attempt → Attempt)
    → ((j : Job) → (change j).id ≡ j.id)
    → ((j : Job) → (change j).attempts ≡ j.attempts)
    → ((j : Job) → (change j).maximum_attempts ≡ j.maximum_attempts)
    → ((a : Attempt) → (mark a).job_id ≡ a.job_id)
    → ((a : Attempt) → (mark a).attempt_number ≡ a.attempt_number)
    → IsSound q
    → IsSound
        (record q { jobs = update test change q.jobs; attempts = update which mark q.attempts })
update-IsSound q test change which mark ids numbers maxima owners own_numbers s = record {
  keyed = update-IsKeyed test change q.jobs ids s.keyed;
  bounded =
      All-update _ _ test change q.jobs (λ j t v. omega (arith, numbers j, maxima j)) (λ j t v. v)
        s.bounded;
  recorded =
      All-update _ _ test change q.jobs
        (λ j t v.
          marked-IsRecorded which mark q.attempts j (change j) owners own_numbers (ids j)
            (numbers j) v)
        (λ j t v. marked-IsRecorded which mark q.attempts j j owners own_numbers refl refl v)
        s.recorded;
}

pub heartbeat-IsSound :
    (id worker : String) (lease_ms now : ℕ) (q : Queue)
    → IsSound q
    → IsSound (heartbeat id worker lease_ms now q).1
unfolding heartbeat
heartbeat-IsSound id worker lease_ms now q s = record {
  keyed = update-IsKeyed _ _ q.jobs (λ j. refl) s.keyed;
  bounded = All-update _ _ _ _ q.jobs (λ j t v. v) (λ j t v. v) s.bounded;
  recorded = All-update _ _ _ _ q.jobs (λ j t v. v) (λ j t v. v) s.recorded;
}

pub complete_job-IsSound :
    (id worker outcome : String) (now : ℕ) (q : Queue)
    → IsSound q
    → IsSound (complete_job id worker outcome now q).1
unfolding complete_job
complete_job-IsSound id worker outcome now q s = elim (Option-cases (find_owned id worker q)) [
  | inl n ↦ rw (n, complete_job) s
  | inr (job, n) ↦
      rw (n, complete_job)
        (update-IsSound q _ _ _ _ (λ j. refl) (λ j. refl) (λ j. refl) (λ a. refl) (λ a. refl) s)
]

pub fail_job-IsSound :
    (id worker code : String) (now : ℕ) (q : Queue)
    → IsSound q
    → IsSound (fail_job id worker code now q).1
unfolding fail_job
fail_job-IsSound id worker code now q s = elim (Option-cases (find_owned id worker q)) [
  | inl n ↦ rw (n, fail_job) s
  | inr (job, n) ↦
      rw (n, fail_job)
        (update-IsSound q _ _ _ _ (λ j. refl) (λ j. refl) (λ j. refl) (λ a. refl) (λ a. refl) s)
]

push-IsKeyed :
    (j : Job) (js : List Job) → any (has_id j.id) js ≡ false → IsKeyed js → IsKeyed (js ++ j ∷ [])
push-IsKeyed j [] h k = (tt, tt)
push-IsKeyed j (x ∷ js) h k = (
  All-append _ js (j ∷ []) k.0 (ground (arith, eq_iff j.id x.id, eq_iff x.id j.id), tt),
  push-IsKeyed j js (ground arith) k.1,
)

unused-IsRecorded :
    (j : Job) (as' : List Attempt) → any (λ a. str_eq a.job_id j.id) as' ≡ false → IsRecorded as' j
unused-IsRecorded j [] h = tt
unused-IsRecorded j (a ∷ as') h =
    (λ e. absurd (ground arith), unused-IsRecorded j as' (ground arith))

push-IsSound :
    (q : Queue) (j : Job)
    → any (has_id j.id) q.jobs ≡ false
    → any (λ a. str_eq a.job_id j.id) q.attempts ≡ false
    → j.attempts ≤ j.maximum_attempts
    → IsSound q
    → IsSound (record q { jobs = q.jobs ++ j ∷ [] })
push-IsSound q j t f le s = record {
  keyed = push-IsKeyed j q.jobs t s.keyed;
  bounded = All-append _ q.jobs (j ∷ []) s.bounded (le, tt);
  recorded = All-append _ q.jobs (j ∷ []) s.recorded (unused-IsRecorded j q.attempts f, tt);
}

pub enqueue-IsSound :
    (id job_type key payload : String) (available_at priority now : ℕ) (q : Queue)
    → any (λ a. str_eq a.job_id id) q.attempts ≡ false
    → IsSound q
    → IsSound (enqueue id job_type key payload available_at priority now q).1
unfolding enqueue
enqueue-IsSound id job_type key payload available_at priority now q f s =
    elim (Option-cases (find_by (λ (j : Job). str_eq j.idempotency_key key) q.jobs)) [
      | inr (job, n) ↦ rw (n, enqueue) s
      | inl n ↦ elim (Bool-cases (any (has_id id) q.jobs)) [
        | inl t ↦ rw (n, t, enqueue) s
        | inr t ↦
            rw (n, t, enqueue)
              (push-IsSound q (new_job id job_type key payload available_at priority now) t f
                (omega arith) s)
      ]
    ]
