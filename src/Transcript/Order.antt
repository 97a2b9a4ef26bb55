-- ===== src/Transcript/Order.antt =====
-- Events and runs over histories of the methods of packages/database/src/index.ts.
use infinite_context.Prelude.{
  count, ◌==◌, String, true, false, List, [], ◌∷◌, ◌≡◌, refl, arith, any, update, HasKeys, ◌∙◌,
  any-update,
}
use infinite_context.Transcript.Tables.{Run, retrieving, Vault, is_run}
use infinite_context.Transcript.Runs.{claim_run_for_execution, is_claimable}
use infinite_context.Transcript.History.{
  Step, Later, here, next, new_vault, appends, streams, finalizes, excludes, creates_run,
  creates_message, regenerates, registers, activates, claims, sets, cancels, sends, recovers,
  stores, embeds,
}
use infinite_context.Transcript.Changes.{
  kept, followed, event_id, run_id, IsNumbered, EventChange-HasKeys, EventChange-IsNumbered,
  RunChange-HasKeys, RunChange-claimed,
}
use infinite_context.Transcript.Touched.{
  Effect, no_effect, append_event-Effect, create_run-Effect, update_streaming_event-Effect,
  finalize_event-Effect, exclude_event-Effect, claim_run-Effect, set_run_status-Effect,
  request_run_cancellation-Effect, append_run_stream_event-Effect,
}
use infinite_context.Transcript.Effects.{
  create_message_and_run-Effect, create_regeneration_run-Effect, register_assistant_revision-Effect,
  activate_assistant_revision-Effect, recover_interrupted_runs-Effect,
}

pub Step-Effect : (v w : Vault) → Step v w → Effect v w
Step-Effect _ _ (appends input id at v) = append_event-Effect input id at v
Step-Effect _ _ (streams id text v) = update_streaming_event-Effect id text v
Step-Effect _ _ (finalizes id status content at v) = finalize_event-Effect id status content at v
Step-Effect _ _ (excludes id v) = exclude_event-Effect id v
Step-Effect _ _ (creates_run id user quality at v) = create_run-Effect id user quality at v
Step-Effect _ _ (creates_message input at v) = create_message_and_run-Effect input at v
Step-Effect _ _ (regenerates key id user quality at v) =
    create_regeneration_run-Effect key id user quality at v
Step-Effect _ _ (registers id user answer at v) =
    register_assistant_revision-Effect id user answer at v
Step-Effect _ _ (activates answer v) = activate_assistant_revision-Effect answer v
Step-Effect _ _ (claims id v) = claim_run-Effect id v
Step-Effect _ _ (sets id status answer code at v h) =
    set_run_status-Effect id status answer code at v h
Step-Effect _ _ (cancels id at v) = request_run_cancellation-Effect id at v
Step-Effect _ _ (sends id event at v) = append_run_stream_event-Effect id event at v
Step-Effect _ _ (recovers at v) = recover_interrupted_runs-Effect at v
Step-Effect _ _ (stores id v) = (kept, kept)
Step-Effect _ _ (embeds id v) = (kept, kept)

Later-Effect : (v w : Vault) → Later v w → Effect v w
Later-Effect v _ here = no_effect v
Later-Effect _ _ (next {u} {v} {w} h s) =
    let e = Later-Effect u v h in let f = Step-Effect v w s in (followed e.0 f.0, followed e.1 f.1)

-- After any calls, the identifiers of events and of runs are keys, and each event has a larger sequence
-- number than the events before it.
pub vault-IsOrdered :
    (v : Vault)
    → Later new_vault v
    → HasKeys event_id v.events × IsNumbered v.events × HasKeys run_id v.runs
vault-IsOrdered v h =
    let e = Later-Effect new_vault v h in
    (EventChange-HasKeys e.0 tt, EventChange-IsNumbered e.0 tt, RunChange-HasKeys e.1 tt)

claimed :
    (id : String) (rs : List Run)
    → any
        (is_claimable id)
        (update (is_claimable id) (λ (r : Run). record r { status = retrieving }) rs)
      ≡ false
claimed id [] = refl
claimed id (r ∷ rs) = ground (arith, claimed id rs)

claimable-run :
    (id : String) (rs : List Run) → any (is_claimable id) rs ≡ true → any (is_run id) rs ≡ true
claimable-run id [] h = absurd (ground arith)
claimable-run id (r ∷ rs) h = ground (arith, claimable-run id rs)

count-claimable :
    (id : String) (rs : List Run)
    → (count (is_claimable id) rs == 1) ≡ true
    → any (is_claimable id) rs ≡ true
count-claimable id [] h = absurd (ground arith)
count-claimable id (r ∷ rs) h = ground (arith, count-claimable id rs)

count-none :
    (id : String) (rs : List Run)
    → any (is_claimable id) rs ≡ false
    → count (is_claimable id) rs ≡ 0
count-none id [] h = refl
count-none id (r ∷ rs) h = ground (arith, count-none id rs)

-- A run that was claimed for execution is claimed in no later vault: one worker at most executes it.
pub claimed_once :
    (id : String) (v w : Vault)
    → (claim_run_for_execution id v).0 ≡ true
    → Later (claim_run_for_execution id v).1 w
    → (claim_run_for_execution id w).0 ≡ false
unfolding claim_run_for_execution
claimed_once id v w h later =
    let e = Later-Effect _ w later in
    let there =
      any-update (is_run id) (is_claimable id) (λ (r : Run). record r { status = retrieving })
        v.runs (λ r. refl)
      ∙ claimable-run id v.runs (count-claimable id v.runs h) in
    let gone = count-none id w.runs (RunChange-claimed id e.1 there (claimed id v.runs)) in
    ground arith
