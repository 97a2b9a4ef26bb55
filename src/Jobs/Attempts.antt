-- ===== src/Jobs/Attempts.antt =====
-- The attempts of a job in packages/database/src/index.ts, over any history of the queue's methods.
use infinite_context.Prelude.{
  All-weaken, update, ℕ, ◌≤◌, ◌<◌, String, some, Bool, true, false, List, [], ◌∷◌, ◌≡◌, refl, arith,
  Bool-cases, inl, inr, ◌⊎◌, str_eq, eq_iff, any, keep, sort, All, All-sort, All-keep,
  All-keep_kept, sym, subst,
}
use infinite_context.Jobs.Tables.{Job, Attempt, Queue, is_attempt}
use infinite_context.Jobs.Queue.{is_available, comes_first, next_job, first}

-- A row of a table.
abbrev pub IsIn : Job → List Job → Type 0
IsIn x [] = ⊥
IsIn x (y ∷ ys) = (x ≡ y) ⊎ IsIn x ys

All-IsIn_self : (js : List Job) → All (λ j. IsIn j js) js
All-IsIn_self [] = tt
All-IsIn_self (j ∷ js) = (
  inl refl,
  All-weaken (λ k. IsIn k js) (λ k. IsIn k (j ∷ js)) js (λ k h. inr h) (All-IsIn_self js),
)

pub All-IsIn : (P : Job → Type 0) (j : Job) (js : List Job) → IsIn j js → All P js → P j
All-IsIn P j [] i v = absurd i
All-IsIn P j (k ∷ js) (inl e) v = subst P (sym e) v.0
All-IsIn P j (k ∷ js) (inr i) v = All-IsIn P j js i v.1

-- The identifiers are a key.
abbrev pub IsKeyed : List Job → Type 0
IsKeyed [] = Unit
IsKeyed (j ∷ js) = All (λ k. str_eq k.id j.id ≡ false) js × IsKeyed js

first_in : (P : Job → Type 0) (js : List Job) (row : Job) → first js ≡ some row → All P js → P row
first_in P [] row h v = absurd (ground arith)
first_in P (j ∷ js) row h v = subst P (ground arith) v.0

-- The selected row is in the table and may be leased.
pub next_job-IsIn :
    (now : ℕ) (types : List String) (js : List Job) (row : Job)
    → next_job now types js ≡ some row
    → IsIn row js × (is_available now types row ≡ true)
unfolding next_job
next_job-IsIn now types js row h =
    let able = keep (is_available now types) js in
    (
      first_in (λ j. IsIn j js) (sort comes_first able) row h
          (All-sort comes_first _ able
            (All-keep_kept _ (is_available now types) js (All-IsIn_self js))),
      first_in (λ j. is_available now types j ≡ true) (sort comes_first able) row h
          (All-sort comes_first _ able (All-keep (is_available now types) js)),
    )

-- A row of a key is the only one with its identifier.
pub same_row :
    (js : List Job) (row : Job)
    → IsKeyed js
    → IsIn row js
    → All (λ j. str_eq j.id row.id ≡ true → j ≡ row) js
same_row [] row k i = tt
same_row (j ∷ js) row k (inl e) =
    (λ h. sym e, All-weaken _ _ js (λ x d h. absurd (ground (arith, e))) k.0)
same_row (j ∷ js) row k (inr i) = (
  λ h. absurd (
      ground (
        arith,
        eq_iff j.id row.id,
        eq_iff row.id j.id,
        All-IsIn (λ x. str_eq x.id j.id ≡ false) row js i k.0,
      )),
  same_row js row k.1 i,
)

-- The attempts of one job that are recorded have numbers up to that of the job.
abbrev pub IsRecorded : List Attempt → Job → Type 0
IsRecorded as' j = All (λ a. str_eq a.job_id j.id ≡ true → a.attempt_number ≤ j.attempts) as'

pub record IsSound (q : Queue) : Type 0 where
  pub keyed : IsKeyed q.jobs
  pub bounded : All (λ j. j.attempts ≤ j.maximum_attempts) q.jobs
  pub recorded : All (IsRecorded q.attempts) q.jobs

-- Updates that keep the identifiers keep the key.
All-id-update :
    (id : String) (test : Job → Bool) (change : Job → Job) (js : List Job)
    → ((j : Job) → (change j).id ≡ j.id)
    → All (λ k. str_eq k.id id ≡ false) js
    → All (λ k. str_eq k.id id ≡ false) (update test change js)
All-id-update id test change [] same v = tt
All-id-update id test change (j ∷ js) same v = elim (Bool-cases (test j)) [
  | inl e ↦ rw e (ground (arith, same j), All-id-update id test change js same v.1)
  | inr e ↦ rw e (v.0, All-id-update id test change js same v.1)
]

pub update-IsKeyed :
    (test : Job → Bool) (change : Job → Job) (js : List Job)
    → ((j : Job) → (change j).id ≡ j.id)
    → IsKeyed js
    → IsKeyed (update test change js)
update-IsKeyed test change [] same k = tt
update-IsKeyed test change (j ∷ js) same k = elim (Bool-cases (test j)) [
  | inl e ↦ rw e (
    subst (λ i. All (λ x. str_eq x.id i ≡ false) (update test change js)) (sym (same j))
        (All-id-update j.id test change js same k.0),
    update-IsKeyed test change js same k.1,
  )
  | inr e ↦
      rw e (All-id-update j.id test change js same k.0, update-IsKeyed test change js same k.1)
]

pub not_recorded :
    (id : String) (n : ℕ) (j : Job) (as' : List Attempt)
    → str_eq id j.id ≡ true
    → j.attempts < n
    → IsRecorded as' j
    → any (is_attempt id n) as' ≡ false
not_recorded id n j [] h lt v = refl
not_recorded id n j (a ∷ as') h lt v = ground (
  arith,
  eq_iff id j.id,
  eq_iff a.job_id id,
  eq_iff a.job_id j.id,
  v.0,
  not_recorded id n j as' h lt v.1,
)
