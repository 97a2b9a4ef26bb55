-- ===== src/Transcript/Streams/Untouched.antt =====
-- The methods of packages/database/src/index.ts that leave the stream events alone.
use infinite_context.Prelude.{
  ℕ, String, Option, List, [], ◌∷◌, ◌≡◌, refl, arith, Bool-cases, Option-cases, Result-cases, inl,
  inr, any, find_by, ◌∙◌,
}
use infinite_context.Transcript.Tables.{Event, RunStatus, StreamRow, Vault, is_run, is_answer}
use infinite_context.Transcript.Events.{EventInput, append_event, exclude_event}
use infinite_context.Transcript.Runs.{
  MessageInput, message_event, create_run, create_message_run, create_message_fresh, prior_message,
  create_message_and_run, is_message_key, create_regeneration_run, regenerate_fresh, set_run_status,
  is_regeneration_key,
}
use infinite_context.Transcript.Revisions.{
  add_revision, register_assistant_revision, activate_selected, activate_assistant_revision,
  exclude_events, older_ids, is_selectable,
}

abbrev pub stream_of : Vault → List StreamRow × ℕ
stream_of v = (v.stream, v.last_stream_id)

pub append_event-stream :
    (input : EventInput) (id : String) (now : ℕ) (v : Vault)
    → stream_of (append_event input id now v).1 ≡ stream_of v
unfolding append_event
append_event-stream input id now v = ground arith

pub create_run-stream :
    (id user_event_id quality : String) (now : ℕ) (v : Vault)
    → stream_of (create_run id user_event_id quality now v).1 ≡ stream_of v
unfolding create_run
create_run-stream id user_event_id quality now v = ground arith

pub set_run_status-stream :
    (id : String) (status : RunStatus) (assistant_event_id error_code : Option String) (now : ℕ)
    (v : Vault)
    → stream_of (set_run_status id status assistant_event_id error_code now v).1 ≡ stream_of v
unfolding set_run_status
set_run_status-stream id status assistant_event_id error_code now v = ground arith

regenerate_fresh-stream :
    (key id user_event_id quality : String) (now : ℕ) (old v : Vault)
    → stream_of v ≡ stream_of old
    → stream_of (regenerate_fresh key id user_event_id quality now old v).1 ≡ stream_of old
regenerate_fresh-stream key id user_event_id quality now old v h =
    elim (Result-cases (create_run id user_event_id quality now v).0) [
      | inl (run, t) ↦
          rw (t, regenerate_fresh) (create_run-stream id user_event_id quality now v ∙ h)
      | inr (refused, t) ↦ rw (t, regenerate_fresh) refl
    ]

pub create_regeneration_run-stream :
    (key id user_event_id quality : String) (now : ℕ) (v : Vault)
    → stream_of (create_regeneration_run key id user_event_id quality now v).1 ≡ stream_of v
unfolding create_regeneration_run
create_regeneration_run-stream key id user_event_id quality now v =
    elim (Option-cases (find_by (is_regeneration_key key) v.regeneration_keys)) [
      | inl n ↦
          rw (n, create_regeneration_run)
            (regenerate_fresh-stream key id user_event_id quality now v v refl)
      | inr (k, n) ↦ elim (Bool-cases (any (is_run k.run_id) v.runs)) [
        | inl t ↦ rw (n, t, create_regeneration_run) refl
        | inr t ↦
            rw (n, t, create_regeneration_run)
              (regenerate_fresh-stream key id user_event_id quality now v _ refl)
      ]
    ]

exclude_events-stream :
    (ids : List String) (v : Vault) → stream_of (exclude_events ids v) ≡ stream_of v
unfolding exclude_event
exclude_events-stream [] v = refl
exclude_events-stream (id ∷ ids) v = exclude_events-stream ids (exclude_event id v)

add_revision-stream :
    (id user_event_id assistant_event_id : String) (now : ℕ) (v : Vault)
    → stream_of (add_revision id user_event_id assistant_event_id now v).1 ≡ stream_of v
unfolding add_revision
add_revision-stream id user_event_id assistant_event_id now v =
    ground (arith, exclude_events-stream (older_ids user_event_id assistant_event_id v.events) v)

pub register_assistant_revision-stream :
    (id user_event_id assistant_event_id : String) (now : ℕ) (v : Vault)
    → stream_of (register_assistant_revision id user_event_id assistant_event_id now v).1
      ≡ stream_of v
unfolding register_assistant_revision
register_assistant_revision-stream id user_event_id assistant_event_id now v =
    elim (Option-cases (find_by (is_answer assistant_event_id) v.revisions)) [
      | inl n ↦
          rw (n, register_assistant_revision)
            (add_revision-stream id user_event_id assistant_event_id now v)
      | inr (r, n) ↦ rw (n, register_assistant_revision) refl
    ]

pub activate_assistant_revision-stream :
    (assistant_event_id : String) (v : Vault)
    → stream_of (activate_assistant_revision assistant_event_id v).1 ≡ stream_of v
unfolding activate_assistant_revision activate_selected
activate_assistant_revision-stream assistant_event_id v =
    elim (Option-cases (find_by (is_answer assistant_event_id) v.revisions)) [
      | inl n ↦ rw (n, activate_assistant_revision) refl
      | inr (r, n) ↦ elim (Bool-cases (is_selectable assistant_event_id v)) [
        | inl t ↦ rw (n, t, activate_assistant_revision) refl
        | inr t ↦ rw (n, t, activate_assistant_revision) refl
      ]
    ]

run-stream :
    (input : MessageInput) (now : ℕ) (old : Vault) (event : Event) (v : Vault)
    → stream_of v ≡ stream_of old
    → stream_of (create_message_run input now old event v).1 ≡ stream_of old
run-stream input now old event v h =
    elim (Result-cases (create_run input.new_run_id event.id input.quality now v).0) [
      | inl (run, t) ↦
          rw (t, create_message_run)
            (create_run-stream input.new_run_id event.id input.quality now v ∙ h)
      | inr (refused, t) ↦ rw (t, create_message_run) refl
    ]

fresh-stream :
    (input : MessageInput) (now : ℕ → ℕ) (old v : Vault)
    → stream_of v ≡ stream_of old
    → stream_of (create_message_fresh input now old v).1 ≡ stream_of old
unfolding create_message_fresh
fresh-stream input now old v h =
    let kept = append_event-stream (message_event input) input.new_event_id (now 0) v in
    elim (Result-cases (append_event (message_event input) input.new_event_id (now 0) v).0) [
      | inl (event, t) ↦
          rw (t, create_message_fresh) (run-stream input (now 1) old event _ (kept ∙ h))
      | inr (refused, t) ↦ rw (t, create_message_fresh) refl
    ]

pub create_message_and_run-stream :
    (input : MessageInput) (now : ℕ → ℕ) (v : Vault)
    → stream_of (create_message_and_run input now v).1 ≡ stream_of v
unfolding create_message_and_run
create_message_and_run-stream input now v =
    elim (Option-cases (find_by (is_message_key input.idempotency_key) v.message_keys)) [
      | inl n ↦ rw (n, create_message_and_run) (fresh-stream input now v v refl)
      | inr (k, n) ↦ elim (Option-cases (prior_message k v)) [
        | inl m ↦ rw (n, m, create_message_and_run) (fresh-stream input now v _ refl)
        | inr (answer, m) ↦ rw (n, m, create_message_and_run) refl
      ]
    ]
