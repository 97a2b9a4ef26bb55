-- ===== src/Jobs/Fencing.antt =====
-- Which calls leave a job of packages/database/src/index.ts alone.
use infinite_context.Prelude.{
  find_by, update, ℕ, ◌+◌, ◌≤◌, String, Option, none, some, Bool, true, false, List, [], ◌∷◌, ◌≡◌,
  refl, arith, Bool-cases, inl, inr, if◌then◌else◌, str_eq, any, count, All, ok, err, ◌&&◌, ◌==◌,
  sym, ap, ◌∙◌,
}
use infinite_context.Jobs.Tables.{Job, Queue, attempt_taken, has_id, is_owned_by, is_attempt}
use infinite_context.Jobs.Queue.{
  next_job, leased, is_taken, is_held, extended, lease_row, lease_selected, lease, heartbeat,
  complete_job, fail_job,
}
use infinite_context.Jobs.Attempts.{IsIn, All-IsIn, same_row, IsSound, next_job-IsIn}
use infinite_context.Jobs.History.{Reachable, queue-Reachable-IsSound}

not_owned :
    (worker : String) (j : Job) (js : List Job)
    → is_owned_by worker j ≡ false
    → All (λ k. str_eq k.id j.id ≡ true → k ≡ j) js
    → find_by (λ k. has_id j.id k && is_owned_by worker k) js ≡ none
not_owned worker j [] h own = refl
not_owned worker j (k ∷ js) h own = elim (Bool-cases (str_eq k.id j.id)) [
  | inr e ↦ ground (arith, not_owned worker j js h own.1, e)
  | inl e ↦
      let other : is_owned_by worker k ≡ false = ap (is_owned_by worker) (own.0 e) ∙ h in
      rw (e, other) (not_owned worker j js h own.1)
]

update_none :
    (test : Job → Bool) (change : Job → Job) (js : List Job)
    → any test js ≡ false
    → update test change js ≡ js
update_none test change [] h = refl
update_none test change (j ∷ js) h = ground (arith, update_none test change js)

not_beaten :
    (worker : String) (j : Job) (js : List Job)
    → is_owned_by worker j ≡ false
    → All (λ k. str_eq k.id j.id ≡ true → k ≡ j) js
    → any (is_held j.id worker) js ≡ false
not_beaten worker j [] h own = refl
not_beaten worker j (k ∷ js) h own = elim (Bool-cases (str_eq k.id j.id)) [
  | inr e ↦ rw e (not_beaten worker j js h own.1)
  | inl e ↦
      let other : is_owned_by worker k ≡ false = ap (is_owned_by worker) (own.0 e) ∙ h in
      rw (e, other) (not_beaten worker j js h own.1)
]

-- After any calls but `retryJob`, a worker that does not hold the lease of a job, say since another took it
-- over, can neither complete, fail nor extend it: each call answers `false` and changes nothing.
pub stale_worker_refused :
    (j : Job) (worker outcome code : String) (lease_ms now : ℕ) (q : Queue)
    → Reachable q
    → IsIn j q.jobs
    → is_owned_by worker j ≡ false
    → (complete_job j.id worker outcome now q ≡ (false, q))
      × (fail_job j.id worker code now q ≡ (false, q))
      × (heartbeat j.id worker lease_ms now q ≡ (false, q))
unfolding complete_job fail_job heartbeat
stale_worker_refused j worker outcome code lease_ms now q r i h =
    let s = queue-Reachable-IsSound q r in
    let own = same_row q.jobs j s.keyed i in
    let none_owned = not_owned worker j q.jobs h own in
    let none_beats = not_beaten worker j q.jobs h own in
    (
      ground (arith, none_owned),
      ground (arith, none_owned),
      ap (λ b. (b, record q { jobs = update (is_held j.id worker) (extended lease_ms now) q.jobs }))
            none_beats
          ∙ ap (λ js. (false, record q { jobs = js }))
              (update_none (is_held j.id worker) (extended lease_ms now) q.jobs none_beats),
    )

IsIn-update :
    (test : Job → Bool) (change : Job → Job) (j : Job) (js : List Job)
    → test j ≡ false
    → IsIn j js
    → IsIn j (update test change js)
IsIn-update test change j [] h i = absurd i
IsIn-update test change j (k ∷ js) h (inl e) =
    let t : test k ≡ false = ap test (sym e) ∙ h in rw t (inl e)
IsIn-update test change j (k ∷ js) h (inr i) = elim (Bool-cases (test k)) [
  | inl t ↦ rw t (inr (IsIn-update test change j js h i))
  | inr t ↦ rw t (inr (IsIn-update test change j js h i))
]

if-IsIn :
    {A : Type 0} (j : Job) (b : Bool) (x y : A × Queue)
    → IsIn j x.1.jobs
    → IsIn j y.1.jobs
    → IsIn j (if b then x else y).1.jobs
if-IsIn j true x y u v = u
if-IsIn j false x y u v = v

selected-IsIn :
    (worker : String) (expiration : ℕ) (types : List String) (now : ℕ) (q : Queue) (j : Job)
    (o : Option Job)
    → IsSound q
    → IsIn j q.jobs
    → j.maximum_attempts ≤ j.attempts
    → next_job now types q.jobs ≡ o
    → IsIn j (lease_selected worker expiration now q o).1.jobs
unfolding lease_row
selected-IsIn worker expiration types now q j none s i le n = i
selected-IsIn worker expiration types now q j (some row) s i le n =
    let (held, able) = next_job-IsIn now types q.jobs row n in
    let own =
      All-IsIn (λ k. str_eq k.id row.id ≡ true → k ≡ row) j q.jobs i
        (same_row q.jobs row s.keyed held) in
    let other : is_taken now row j ≡ false = elim (Bool-cases (str_eq j.id row.id)) [
      | inr e ↦ ground (arith, e)
      | inl e ↦
          absurd
            (ground (arith, ap (λ k. k.attempts) (own e), ap (λ k. k.maximum_attempts) (own e)))
    ] in
    if-IsIn j (count (is_taken now row) q.jobs == 0) (ok none, q) _ i
      (if-IsIn j (any (is_attempt row.id (row.attempts + 1)) q.attempts) (err attempt_taken, q) _ i
        (IsIn-update (is_taken now row) (leased worker expiration now (row.attempts + 1)) j q.jobs
          other i))

-- After any calls but `retryJob`, a job that has used all its attempts is left as it is by `leaseJob`, also
-- when it is still running with a lease that has expired: no call of it ever returns or fails that job.
pub exhausted_left_alone :
    (worker : String) (lease_ms : ℕ) (types : List String) (now : ℕ) (q : Queue) (j : Job)
    → Reachable q
    → IsIn j q.jobs
    → j.maximum_attempts ≤ j.attempts
    → IsIn j (lease worker lease_ms types now q).1.jobs
unfolding lease
exhausted_left_alone worker lease_ms types now q j r i le =
    if-IsIn j q.maintenance_locked (ok none, q) _ i
      (selected-IsIn worker (now + lease_ms) types now q j (next_job now types q.jobs)
        (queue-Reachable-IsSound q r) i le refl)
