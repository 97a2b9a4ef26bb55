-- ===== src/Transcript/Revisions/Untouched.antt =====
-- The methods of packages/database/src/index.ts that leave the revisions of answers alone.
use infinite_context.Prelude.{
  ℕ, String, Option, List, [], ◌∷◌, ◌≡◌, refl, arith, Bool-cases, Option-cases, Result-cases, inl,
  inr, any, find_by, keep, ◌∙◌,
}
use infinite_context.Transcript.Tables.{
  Event, Run, RunStatus, StreamEvent, Vault, is_run, is_interrupted,
}
use infinite_context.Transcript.Events.{EventInput, append_event}
use infinite_context.Transcript.Runs.{
  MessageInput, message_event, create_run, create_message_run, create_message_fresh, prior_message,
  create_message_and_run, is_message_key, create_regeneration_run, regenerate_fresh, set_run_status,
  is_regeneration_key,
}
use infinite_context.Transcript.Streams.{
  append_run_stream_event, recover_interrupted_runs, recover_answer, recover_assistant, fail_run,
  recover_runs,
}

pub append_event-revisions :
    (input : EventInput) (id : String) (now : ℕ) (v : Vault)
    → (append_event input id now v).1.revisions ≡ v.revisions
unfolding append_event
append_event-revisions input id now v = ground arith

pub create_run-revisions :
    (id user_event_id quality : String) (now : ℕ) (v : Vault)
    → (create_run id user_event_id quality now v).1.revisions ≡ v.revisions
unfolding create_run
create_run-revisions id user_event_id quality now v = ground arith

pub set_run_status-revisions :
    (id : String) (status : RunStatus) (assistant_event_id error_code : Option String) (now : ℕ)
    (v : Vault)
    → (set_run_status id status assistant_event_id error_code now v).1.revisions ≡ v.revisions
unfolding set_run_status
set_run_status-revisions id status assistant_event_id error_code now v = ground arith

pub append_run_stream_event-revisions :
    (run_id : String) (event : StreamEvent) (now : ℕ) (v : Vault)
    → (append_run_stream_event run_id event now v).1.revisions ≡ v.revisions
unfolding append_run_stream_event
append_run_stream_event-revisions run_id event now v = ground arith

regenerate_fresh-revisions :
    (key id user_event_id quality : String) (now : ℕ) (old v : Vault)
    → v.revisions ≡ old.revisions
    → (regenerate_fresh key id user_event_id quality now old v).1.revisions ≡ old.revisions
regenerate_fresh-revisions key id user_event_id quality now old v h =
    elim (Result-cases (create_run id user_event_id quality now v).0) [
      | inl (run, t) ↦
          rw (t, regenerate_fresh) (create_run-revisions id user_event_id quality now v ∙ h)
      | inr (refused, t) ↦ rw (t, regenerate_fresh) refl
    ]

pub create_regeneration_run-revisions :
    (key id user_event_id quality : String) (now : ℕ) (v : Vault)
    → (create_regeneration_run key id user_event_id quality now v).1.revisions ≡ v.revisions
unfolding create_regeneration_run
create_regeneration_run-revisions key id user_event_id quality now v =
    elim (Option-cases (find_by (is_regeneration_key key) v.regeneration_keys)) [
      | inl n ↦
          rw (n, create_regeneration_run)
            (regenerate_fresh-revisions key id user_event_id quality now v v refl)
      | inr (k, n) ↦ elim (Bool-cases (any (is_run k.run_id) v.runs)) [
        | inl t ↦ rw (n, t, create_regeneration_run) refl
        | inr t ↦
            rw (n, t, create_regeneration_run)
              (regenerate_fresh-revisions key id user_event_id quality now v _ refl)
      ]
    ]

recover_assistant-revisions :
    (run : Run) (now : ℕ) (v : Vault) → (recover_assistant run now v).revisions ≡ v.revisions
unfolding recover_answer
recover_assistant-revisions run now v = elim (Option-cases run.assistant_event_id) [
  | inl n ↦ rw n refl
  | inr (event_id, n) ↦ rw n refl
]

recover_runs-revisions :
    (runs : List Run) (now : ℕ) (v : Vault) → (recover_runs runs now v).revisions ≡ v.revisions
unfolding fail_run
recover_runs-revisions [] now v = refl
recover_runs-revisions (run ∷ runs) now v =
    recover_runs-revisions runs now (fail_run run.id now (recover_assistant run now v))
    ∙ recover_assistant-revisions run now v

pub recover_interrupted_runs-revisions :
    (now : ℕ) (v : Vault) → (recover_interrupted_runs now v).1.revisions ≡ v.revisions
unfolding recover_interrupted_runs
recover_interrupted_runs-revisions now v =
    recover_runs-revisions (keep (λ (r : Run). is_interrupted r.status) v.runs) now v

run-revisions :
    (input : MessageInput) (now : ℕ) (old : Vault) (event : Event) (v : Vault)
    → v.revisions ≡ old.revisions
    → (create_message_run input now old event v).1.revisions ≡ old.revisions
run-revisions input now old event v h =
    elim (Result-cases (create_run input.new_run_id event.id input.quality now v).0) [
      | inl (run, t) ↦
          rw (t, create_message_run)
            (create_run-revisions input.new_run_id event.id input.quality now v ∙ h)
      | inr (refused, t) ↦ rw (t, create_message_run) refl
    ]

fresh-revisions :
    (input : MessageInput) (now : ℕ → ℕ) (old v : Vault)
    → v.revisions ≡ old.revisions
    → (create_message_fresh input now old v).1.revisions ≡ old.revisions
unfolding create_message_fresh
fresh-revisions input now old v h =
    let kept = append_event-revisions (message_event input) input.new_event_id (now 0) v in
    elim (Result-cases (append_event (message_event input) input.new_event_id (now 0) v).0) [
      | inl (event, t) ↦
          rw (t, create_message_fresh) (run-revisions input (now 1) old event _ (kept ∙ h))
      | inr (refused, t) ↦ rw (t, create_message_fresh) refl
    ]

pub create_message_and_run-revisions :
    (input : MessageInput) (now : ℕ → ℕ) (v : Vault)
    → (create_message_and_run input now v).1.revisions ≡ v.revisions
unfolding create_message_and_run
create_message_and_run-revisions input now v =
    elim (Option-cases (find_by (is_message_key input.idempotency_key) v.message_keys)) [
      | inl n ↦ rw (n, create_message_and_run) (fresh-revisions input now v v refl)
      | inr (k, n) ↦ elim (Option-cases (prior_message k v)) [
        | inl m ↦ rw (n, m, create_message_and_run) (fresh-revisions input now v _ refl)
        | inr (answer, m) ↦ rw (n, m, create_message_and_run) refl
      ]
    ]
