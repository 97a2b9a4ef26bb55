-- ===== src/Jobs/LeaseKeeps.antt =====
-- A lease in packages/database/src/index.ts and the recorded attempts.
use infinite_context.Prelude.{
  All-update, ℕ, ◌+◌, ◌≤◌, ◌<◌, String, Option, none, some, Bool, true, false, List, [], ◌∷◌, ◌≡◌,
  refl, arith, Bool-cases, inl, inr, if◌then◌else◌, str_eq, eq_iff, any, count, All, All-append, ok,
  ◌==◌, ap, ◌∙◌,
}
use infinite_context.Jobs.Tables.{Job, Attempt, Queue, is_attempt}
use infinite_context.Jobs.Queue.{
  next_job, leased, new_attempt, is_taken, lease_row, lease_selected, lease,
}
use infinite_context.Jobs.Attempts.{
  IsIn, All-IsIn, same_row, IsRecorded, IsSound, update-IsKeyed, not_recorded, next_job-IsIn,
}

All-both : (P Q : Job → Type 0) (js : List Job) → All P js → All Q js → All (λ j. P j × Q j) js
All-both P Q [] v w = tt
All-both P Q (j ∷ js) v w = ((v.0, w.0), All-both P Q js v.1 w.1)

All-later :
    (as' : List Attempt) (j : Job) (n : ℕ)
    → j.attempts ≤ n
    → IsRecorded as' j
    → All (λ a. str_eq a.job_id j.id ≡ true → a.attempt_number ≤ n) as'
All-later [] j n le v = tt
All-later (a ∷ as') j n le v = (λ h. omega (arith, v.0 h), All-later as' j n le v.1)

module _ (worker : String) (expiration now : ℕ) (row : Job) (q : Queue) (s : IsSound q)
    (held : IsIn row q.jobs) where
  pub lease_row-fresh :
      row.attempts < row.maximum_attempts
      → any (is_attempt row.id (row.attempts + 1)) q.attempts ≡ false
  lease_row-fresh lt =
      not_recorded row.id (row.attempts + 1) row q.attempts (ground (arith, eq_iff row.id row.id))
        (omega arith) (All-IsIn (IsRecorded q.attempts) row q.jobs held s.recorded)

  taken_id : (j : Job) → is_taken now row j ≡ true → str_eq j.id row.id ≡ true
  taken_id j t = ground arith

  left_out :
      (j : Job)
      → is_taken now row j ≡ false
      → (str_eq j.id row.id ≡ true → j ≡ row)
      → is_taken now row row ≡ true
      → str_eq j.id row.id ≡ true
      → ⊥
  left_out j t own able h =
      let w : is_taken now row j ≡ true = ap (is_taken now row) (own h) ∙ able in cc

  lease_row-IsSound :
      row.attempts < row.maximum_attempts
      → is_taken now row row ≡ true
      → IsSound (lease_row worker expiration now row q).1
  unfolding lease_row
  lease_row-IsSound lt able = elim (Bool-cases (count (is_taken now row) q.jobs == 0)) [
    | inl z ↦ rw z s
    | inr z ↦
        let own = same_row q.jobs row s.keyed held in
        let change = leased worker expiration now (row.attempts + 1) in
        rw (z, lease_row-fresh lt)
          (record {
            keyed = update-IsKeyed (is_taken now row) change q.jobs (λ j. refl) s.keyed;
            bounded =
                All-update
                  (λ j. (str_eq j.id row.id ≡ true → j ≡ row) × (j.attempts ≤ j.maximum_attempts)) _
                  (is_taken now row) change q.jobs
                  (λ j t v. ground (arith, ap (λ k. k.maximum_attempts) (v.0 (taken_id j t))))
                  (λ j t v. v.1) (All-both _ _ q.jobs own s.bounded);
            recorded =
                All-update (λ j. (str_eq j.id row.id ≡ true → j ≡ row) × IsRecorded q.attempts j) _
                  (is_taken now row) change q.jobs
                  (λ j t v.
                    All-append _ q.attempts (new_attempt worker now (row.attempts + 1) row ∷ [])
                      (All-later q.attempts j (row.attempts + 1)
                        (ground (arith, ap (λ k. k.attempts) (v.0 (taken_id j t)))) v.1)
                      (λ h. omega arith, tt))
                  (λ j t v.
                    All-append _ q.attempts (new_attempt worker now (row.attempts + 1) row ∷ []) v.1
                      (
                        λ h. absurd (
                            left_out j t v.0 able
                              (ground (arith, eq_iff row.id j.id, eq_iff j.id row.id))),
                        tt,
                      ))
                  (All-both _ _ q.jobs own s.recorded);
          })
  ]

if-IsSound :
    {A : Type 0} (b : Bool) (x y : A × Queue)
    → IsSound x.1
    → IsSound y.1
    → IsSound (if b then x else y).1
if-IsSound true x y u v = u
if-IsSound false x y u v = v

selected-IsSound :
    (worker : String) (expiration : ℕ) (types : List String) (now : ℕ) (q : Queue) (o : Option Job)
    → next_job now types q.jobs ≡ o
    → IsSound q
    → IsSound (lease_selected worker expiration now q o).1
selected-IsSound worker expiration types now q none n s = s
selected-IsSound worker expiration types now q (some row) n s =
    let (held, able) = next_job-IsIn now types q.jobs row n in
    lease_row-IsSound worker expiration now row q s held (ground arith)
      (ground (arith, eq_iff row.id row.id))

pub lease-IsSound :
    (worker : String) (lease_ms : ℕ) (types : List String) (now : ℕ) (q : Queue)
    → IsSound q
    → IsSound (lease worker lease_ms types now q).1
unfolding lease
lease-IsSound worker lease_ms types now q s =
    if-IsSound q.maintenance_locked (ok none, q) _ s
      (selected-IsSound worker (now + lease_ms) types now q (next_job now types q.jobs) refl s)
