-- ===== src/Transcript/Recovery.antt =====
-- The recovery of interrupted runs in packages/database/src/index.ts: what becomes of the runs.
use infinite_context.Prelude.{
  ℕ, String, some, Bool, false, List, [], ◌∷◌, ◌||◌, ◌≡◌, refl, arith, Bool-cases, Option-cases,
  inl, inr, ap, sym, ◌∙◌, subst, any, keep, map, str_eq, eq_iff, update, All, HasKeys,
}
use infinite_context.Transcript.Tables.{Run, failed, Vault, is_interrupted, is_run}
use infinite_context.Transcript.Streams.{
  recover_answer, recover_assistant, fail_run, recover_runs, recover_interrupted_runs,
}
use infinite_context.Transcript.Changes.{run_id}
use infinite_context.Transcript.History.{Later, new_vault}
use infinite_context.Transcript.Order.{vault-IsOrdered}

-- The run as a restart leaves it when it interrupted it.
abbrev pub restart_failed : ℕ → Run → Run
restart_failed now r = record r {
  status = failed;
  error_code = some "API_RESTARTED";
  completed_at = some now;
}

abbrev is_running : Run → Bool
is_running r = is_interrupted r.status

-- A run with the identifier of the run.
abbrev is_matched : List Run → Run → Bool
is_matched rs r = any (λ (s : Run). str_eq s.id r.id) rs

update_twice :
    (now : ℕ) (id : String) (test : Run → Bool) (rs : List Run)
    → ((r : Run) → test (restart_failed now r) ≡ test r)
    → update test (restart_failed now) (update (is_run id) (restart_failed now) rs)
      ≡ update (λ r. is_run id r || test r) (restart_failed now) rs
update_twice now id test [] same = refl
update_twice now id test (r ∷ rs) same = ground (arith, same r, update_twice now id test rs same)

update_agree :
    (test other : Run → Bool) (change : Run → Run) (rs : List Run)
    → All (λ r. test r ≡ other r) rs
    → update test change rs ≡ update other change rs
update_agree test other change [] v = refl
update_agree test other change (r ∷ rs) v =
    ground (arith, v.0, update_agree test other change rs v.1)

All-agree :
    (test other : Run → Bool) (rs : List Run)
    → ((r : Run) → test r ≡ other r)
    → All (λ r. test r ≡ other r) rs
All-agree test other [] f = tt
All-agree test other (r ∷ rs) f = (f r, All-agree test other rs f)

update_none : (change : Run → Run) (rs : List Run) → update (λ r. false) change rs ≡ rs
update_none change [] = refl
update_none change (r ∷ rs) = ap (λ t. r ∷ t) (update_none change rs)

recover_assistant-runs :
    (run : Run) (now : ℕ) (v : Vault) → (recover_assistant run now v).runs ≡ v.runs
unfolding recover_answer
recover_assistant-runs run now v = elim (Option-cases run.assistant_event_id) [
  | inl n ↦ rw n refl
  | inr (event_id, n) ↦ rw n refl
]

-- The loop over the interrupted runs is one update.
recover_runs-update :
    (pending : List Run) (now : ℕ) (v : Vault)
    → (recover_runs pending now v).runs ≡ update (is_matched pending) (restart_failed now) v.runs
unfolding fail_run
recover_runs-update [] now v = sym (update_none (restart_failed now) v.runs)
recover_runs-update (run ∷ pending) now v =
    let w = recover_assistant run now v in
    recover_runs-update pending now (fail_run run.id now w)
    ∙ update_twice now run.id (is_matched pending) w.runs (λ r. refl)
    ∙ update_agree _ (is_matched (run ∷ pending)) (restart_failed now) w.runs
        (All-agree _ _ w.runs (λ r. ground (arith, eq_iff r.id run.id, eq_iff run.id r.id)))
    ∙ ap (update (is_matched (run ∷ pending)) (restart_failed now))
        (recover_assistant-runs run now v)

not_listed :
    (r : Run) (rs : List Run)
    → All (λ s. str_eq s.id r.id ≡ false) rs
    → is_matched (keep is_running rs) r ≡ false
not_listed r [] v = refl
not_listed r (s ∷ rs) v = ground (arith, v.0, not_listed r rs v.1)

listed_running :
    (rs : List Run)
    → HasKeys run_id rs
    → All (λ r. is_matched (keep is_running rs) r ≡ is_running r) rs
listed_running [] k = tt
listed_running (r ∷ rs) k = (
  ground (arith, eq_iff r.id r.id, not_listed r rs k.0),
  rest_agree rs k.0 (listed_running rs k.1),
)
  where
    rest_agree :
        (ss : List Run)
        → All (λ s. str_eq s.id r.id ≡ false) ss
        → All (λ s. is_matched (keep is_running rs) s ≡ is_running s) ss
        → All (λ s. is_matched (keep is_running (r ∷ rs)) s ≡ is_running s) ss
    rest_agree [] d a = tt
    rest_agree (s ∷ ss) d a =
        (ground (arith, d.0, a.0, eq_iff s.id r.id, eq_iff r.id s.id), rest_agree ss d.1 a.1)

no_longer :
    (now : ℕ) (rs : List Run)
    → All (λ r. is_running r ≡ false) (update is_running (restart_failed now) rs)
no_longer now [] = tt
no_longer now (r ∷ rs) = elim (Bool-cases (is_interrupted r.status)) [
  | inl t ↦ rw t (refl, no_longer now rs)
  | inr t ↦ rw t (t, no_longer now rs)
]

-- After any calls, the recovery lists the runs that were retrieving or streaming, ends each of them as failed by the
-- restart and leaves the other runs, so that no run is retrieving or streaming afterwards.
pub recovered :
    (now : ℕ) (v : Vault)
    → Later new_vault v
    → ((recover_interrupted_runs now v).0
        ≡ map (λ (r : Run). r.id) (keep (λ (r : Run). is_interrupted r.status) v.runs))
      × ((recover_interrupted_runs now v).1.runs
          ≡ update (λ (r : Run). is_interrupted r.status) (restart_failed now) v.runs)
      × All (λ (r : Run). is_interrupted r.status ≡ false) (recover_interrupted_runs now v).1.runs
unfolding recover_interrupted_runs
recovered now v h =
    let same =
      recover_runs-update (keep is_running v.runs) now v
      ∙ update_agree _ is_running (restart_failed now) v.runs
          (listed_running v.runs (vault-IsOrdered v h).2) in
    (
      refl,
      same,
      subst (All (λ (r : Run). is_interrupted r.status ≡ false)) (sym same) (no_longer now v.runs),
    )
