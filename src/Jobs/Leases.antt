-- ===== src/Jobs/Leases.antt =====
-- What `leaseJob` of packages/database/src/index.ts answers.
use infinite_context.Prelude.{
  find_by, update, ℕ, ◌+◌, String, none, some, Bool, true, false, List, [], ◌∷◌, ◌≡◌, refl, arith,
  Bool-cases, inl, inr, ◌⊎◌, str_eq, eq_iff, count, All, ok, Option-cases, ◌==◌, sym, ap, ◌∙◌,
}
use infinite_context.Jobs.Tables.{Job, Queue, has_id}
use infinite_context.Jobs.Queue.{is_available, next_job, leased, is_taken, lease_row, lease}
use infinite_context.Jobs.Attempts.{IsIn, same_row, next_job-IsIn}
use infinite_context.Jobs.History.{Reachable, queue-Reachable-IsSound}
use infinite_context.Jobs.LeaseKeeps.{lease_row-fresh}

pub count-IsIn :
    (test : Job → Bool) (row : Job) (js : List Job)
    → IsIn row js
    → test row ≡ true
    → (count test js == 0) ≡ false
count-IsIn test row [] i h = absurd i
count-IsIn test row (j ∷ js) (inl e) h =
    let t : test j ≡ true = ap test (sym e) ∙ h in ground (arith, t)
count-IsIn test row (j ∷ js) (inr i) h = ground (arith, count-IsIn test row js i h)

find-update :
    (test : Job → Bool) (change : Job → Job) (row : Job) (js : List Job)
    → ((j : Job) → (change j).id ≡ j.id)
    → All (λ j. str_eq j.id row.id ≡ true → j ≡ row) js
    → IsIn row js
    → test row ≡ true
    → find_by (has_id row.id) (update test change js) ≡ some (change row)
find-update test change row [] ids own i h = absurd i
find-update test change row (j ∷ js) ids own i h = elim (Bool-cases (str_eq j.id row.id)) [
  | inl e ↦
      let same : j ≡ row = own.0 e in
      let t : test j ≡ true = ap test same ∙ h in
      let hit : str_eq (change j).id row.id ≡ true = ap (λ k. str_eq k row.id) (ids j) ∙ e in
      rw t (rw hit (ap (λ k. some (change k)) same))
  | inr e ↦
      let rest : IsIn row js = elim i [
        | inl s ↦ absurd (ground (arith, eq_iff j.id row.id, ap (λ k. k.id) s))
        | inr r ↦ r
      ] in
      let miss : str_eq (change j).id row.id ≡ false = ap (λ k. str_eq k row.id) (ids j) ∙ e in
      ground (arith, find-update test change row js ids own.1 rest h, miss, e)
]

-- After any calls but `retryJob`, `leaseJob` never throws. While maintenance locks the vault, and when no job is
-- available, it answers with none; otherwise it answers with the available job that comes first, running for
-- the worker until the lease ends, on its next attempt.
pub lease_answers :
    (worker : String) (lease_ms : ℕ) (types : List String) (now : ℕ) (q : Queue)
    → Reachable q
    → ((q.maintenance_locked ≡ true) × ((lease worker lease_ms types now q).0 ≡ ok none))
      ⊎ ((q.maintenance_locked ≡ false)
          × (next_job now types q.jobs ≡ none)
          × ((lease worker lease_ms types now q).0 ≡ ok none))
      ⊎ ((row : Job) × (q.maintenance_locked ≡ false)
          × (next_job now types q.jobs ≡ some row)
          × (is_available now types row ≡ true)
          × ((lease worker lease_ms types now q).0
              ≡ ok (some (leased worker (now + lease_ms) now (row.attempts + 1) row))))
unfolding lease lease_row
lease_answers worker lease_ms types now q r = elim (Bool-cases q.maintenance_locked) [
  | inl m ↦ inl (m, ground arith)
  | inr m ↦ elim (Option-cases (next_job now types q.jobs)) [
    | inl n ↦ inr (inl (m, n, ground arith))
    | inr (row, n) ↦
        let (held, able) = next_job-IsIn now types q.jobs row n in
        let s = queue-Reachable-IsSound q r in
        let taken : is_taken now row row ≡ true = ground (arith, eq_iff row.id row.id) in
        let counted = count-IsIn (is_taken now row) row q.jobs held taken in
        let fresh = lease_row-fresh worker (now + lease_ms) now row q s held (ground arith) in
        let found =
          find-update (is_taken now row) (leased worker (now + lease_ms) now (row.attempts + 1)) row
            q.jobs (λ j. refl) (same_row q.jobs row s.keyed held) held taken in
        inr (inr (row, m, n, able, ground (arith, m, n, counted, fresh, found)))
  ]
]
