-- ===== src/Transcript/Keys.antt =====
-- The methods of packages/database/src/index.ts that leave the answers kept for `messages.create` alone.
use infinite_context.Prelude.{
  ℕ, String, Option, List, [], ◌∷◌, ◌≡◌, refl, arith, Bool-cases, Option-cases, Result-cases, inl,
  inr, any, find_by, keep, ◌∙◌,
}
use infinite_context.Transcript.Tables.{
  Run, RunStatus, StreamEvent, Vault, is_run, is_answer, is_interrupted,
}
use infinite_context.Transcript.Events.{EventInput, append_event, exclude_event}
use infinite_context.Transcript.Runs.{
  create_run, create_regeneration_run, regenerate_fresh, set_run_status, is_regeneration_key,
}
use infinite_context.Transcript.Streams.{
  append_run_stream_event, recover_interrupted_runs, recover_answer, recover_assistant, fail_run,
  recover_runs,
}
use infinite_context.Transcript.Revisions.{
  add_revision, register_assistant_revision, activate_selected, activate_assistant_revision,
  exclude_events, older_ids, is_selectable,
}

pub append_event-keys :
    (input : EventInput) (id : String) (now : ℕ) (v : Vault)
    → (append_event input id now v).1.message_keys ≡ v.message_keys
unfolding append_event
append_event-keys input id now v = ground arith

pub create_run-keys :
    (id user_event_id quality : String) (now : ℕ) (v : Vault)
    → (create_run id user_event_id quality now v).1.message_keys ≡ v.message_keys
unfolding create_run
create_run-keys id user_event_id quality now v = ground arith

pub set_run_status-keys :
    (id : String) (status : RunStatus) (assistant_event_id error_code : Option String) (now : ℕ)
    (v : Vault)
    → (set_run_status id status assistant_event_id error_code now v).1.message_keys ≡ v.message_keys
unfolding set_run_status
set_run_status-keys id status assistant_event_id error_code now v = ground arith

pub append_run_stream_event-keys :
    (run_id : String) (event : StreamEvent) (now : ℕ) (v : Vault)
    → (append_run_stream_event run_id event now v).1.message_keys ≡ v.message_keys
unfolding append_run_stream_event
append_run_stream_event-keys run_id event now v = ground arith

regenerate_fresh-keys :
    (key id user_event_id quality : String) (now : ℕ) (old v : Vault)
    → v.message_keys ≡ old.message_keys
    → (regenerate_fresh key id user_event_id quality now old v).1.message_keys ≡ old.message_keys
regenerate_fresh-keys key id user_event_id quality now old v h =
    elim (Result-cases (create_run id user_event_id quality now v).0) [
      | inl (run, t) ↦ rw (t, regenerate_fresh) (create_run-keys id user_event_id quality now v ∙ h)
      | inr (refused, t) ↦ rw (t, regenerate_fresh) refl
    ]

pub create_regeneration_run-keys :
    (key id user_event_id quality : String) (now : ℕ) (v : Vault)
    → (create_regeneration_run key id user_event_id quality now v).1.message_keys ≡ v.message_keys
unfolding create_regeneration_run
create_regeneration_run-keys key id user_event_id quality now v =
    elim (Option-cases (find_by (is_regeneration_key key) v.regeneration_keys)) [
      | inl n ↦
          rw (n, create_regeneration_run)
            (regenerate_fresh-keys key id user_event_id quality now v v refl)
      | inr (k, n) ↦ elim (Bool-cases (any (is_run k.run_id) v.runs)) [
        | inl t ↦ rw (n, t, create_regeneration_run) refl
        | inr t ↦
            rw (n, t, create_regeneration_run)
              (regenerate_fresh-keys key id user_event_id quality now v _ refl)
      ]
    ]

exclude_events-keys :
    (ids : List String) (v : Vault) → (exclude_events ids v).message_keys ≡ v.message_keys
unfolding exclude_event
exclude_events-keys [] v = refl
exclude_events-keys (id ∷ ids) v = exclude_events-keys ids (exclude_event id v)

add_revision-keys :
    (id user_event_id assistant_event_id : String) (now : ℕ) (v : Vault)
    → (add_revision id user_event_id assistant_event_id now v).1.message_keys ≡ v.message_keys
unfolding add_revision
add_revision-keys id user_event_id assistant_event_id now v =
    ground (arith, exclude_events-keys (older_ids user_event_id assistant_event_id v.events) v)

pub register_assistant_revision-keys :
    (id user_event_id assistant_event_id : String) (now : ℕ) (v : Vault)
    → (register_assistant_revision id user_event_id assistant_event_id now v).1.message_keys
      ≡ v.message_keys
unfolding register_assistant_revision
register_assistant_revision-keys id user_event_id assistant_event_id now v =
    elim (Option-cases (find_by (is_answer assistant_event_id) v.revisions)) [
      | inl n ↦
          rw (n, register_assistant_revision)
            (add_revision-keys id user_event_id assistant_event_id now v)
      | inr (r, n) ↦ rw (n, register_assistant_revision) refl
    ]

pub activate_assistant_revision-keys :
    (assistant_event_id : String) (v : Vault)
    → (activate_assistant_revision assistant_event_id v).1.message_keys ≡ v.message_keys
unfolding activate_assistant_revision activate_selected
activate_assistant_revision-keys assistant_event_id v =
    elim (Option-cases (find_by (is_answer assistant_event_id) v.revisions)) [
      | inl n ↦ rw (n, activate_assistant_revision) refl
      | inr (r, n) ↦ elim (Bool-cases (is_selectable assistant_event_id v)) [
        | inl t ↦ rw (n, t, activate_assistant_revision) refl
        | inr t ↦ rw (n, t, activate_assistant_revision) refl
      ]
    ]

recover_assistant-keys :
    (run : Run) (now : ℕ) (v : Vault) → (recover_assistant run now v).message_keys ≡ v.message_keys
unfolding recover_answer
recover_assistant-keys run now v = elim (Option-cases run.assistant_event_id) [
  | inl n ↦ rw n refl
  | inr (event_id, n) ↦ rw n refl
]

recover_runs-keys :
    (runs : List Run) (now : ℕ) (v : Vault)
    → (recover_runs runs now v).message_keys ≡ v.message_keys
unfolding fail_run
recover_runs-keys [] now v = refl
recover_runs-keys (run ∷ runs) now v =
    recover_runs-keys runs now (fail_run run.id now (recover_assistant run now v))
    ∙ recover_assistant-keys run now v

pub recover_interrupted_runs-keys :
    (now : ℕ) (v : Vault) → (recover_interrupted_runs now v).1.message_keys ≡ v.message_keys
unfolding recover_interrupted_runs
recover_interrupted_runs-keys now v =
    recover_runs-keys (keep (λ (r : Run). is_interrupted r.status) v.runs) now v
