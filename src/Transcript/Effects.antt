-- ===== src/Transcript/Effects.antt =====
-- What each method of the transcript in packages/database/src/index.ts does to events and runs.
use infinite_context.Prelude.{
  ℕ, String, List, [], ◌∷◌, str_eq, refl, Bool-cases, Option-cases, inl, inr, any, find_by, keep,
  ◌&&◌, Result-cases,
}
use infinite_context.Transcript.Tables.{
  Event, Revision, Run, Vault, is_event, is_run, is_interrupted, is_answer,
}
use infinite_context.Transcript.Events.{append_event, exclude_event}
use infinite_context.Transcript.Runs.{
  MessageInput, message_event, create_run, create_message_run, create_message_fresh, prior_message,
  create_message_and_run, create_regeneration_run, regenerate_fresh, is_message_key,
  is_regeneration_key,
}
use infinite_context.Transcript.Streams.{
  recover_interrupted_runs, recover_answer, recover_assistant, fail_run, recover_runs, rebuild_text,
  stored_deltas,
}
use infinite_context.Transcript.Revisions.{
  add_revision, register_assistant_revision, activate_selected, activate_assistant_revision,
  exclude_events, older_ids, is_selectable,
}
use infinite_context.Transcript.Changes.{EventChange, kept, changed, followed}
use infinite_context.Transcript.Touched.{
  Effect, no_effect, after, append_event-Effect, create_run-Effect, write_text-EventChange,
  exclude_event-Effect,
}

-- A creation that ends in a refusal leaves the vault, `old`, that it began with.
create_message_run-Effect :
    (input : MessageInput) (now : ℕ) (old : Vault) (event : Event) (v : Vault)
    → Effect old v
    → Effect old (create_message_run input now old event v).1
create_message_run-Effect input now old event v e =
    let made = create_run-Effect input.new_run_id event.id input.quality now v in
    elim (Result-cases (create_run input.new_run_id event.id input.quality now v).0) [
      | inl (run, t) ↦ rw (t, create_message_run) (after e made)
      | inr (refused, t) ↦ rw (t, create_message_run) (no_effect old)
    ]

create_message_fresh-Effect :
    (input : MessageInput) (now : ℕ → ℕ) (old v : Vault)
    → Effect old v
    → Effect old (create_message_fresh input now old v).1
unfolding create_message_fresh
create_message_fresh-Effect input now old v e =
    let made = append_event-Effect (message_event input) input.new_event_id (now 0) v in
    elim (Result-cases (append_event (message_event input) input.new_event_id (now 0) v).0) [
      | inl (event, t) ↦
          rw (t, create_message_fresh)
            (create_message_run-Effect input (now 1) old event _ (after e made))
      | inr (refused, t) ↦ rw (t, create_message_fresh) (no_effect old)
    ]

pub create_message_and_run-Effect :
    (input : MessageInput) (now : ℕ → ℕ) (v : Vault)
    → Effect v (create_message_and_run input now v).1
unfolding create_message_and_run
create_message_and_run-Effect input now v =
    elim (Option-cases (find_by (is_message_key input.idempotency_key) v.message_keys)) [
      | inl n ↦
          rw (n, create_message_and_run) (create_message_fresh-Effect input now v v (no_effect v))
      | inr (k, n) ↦ elim (Option-cases (prior_message k v)) [
        | inl m ↦
            rw (n, m, create_message_and_run)
              (create_message_fresh-Effect input now v _ (no_effect v))
        | inr (answer, m) ↦ rw (n, m, create_message_and_run) (no_effect v)
      ]
    ]

regenerate_fresh-Effect :
    (key id user_event_id quality : String) (now : ℕ) (old v : Vault)
    → Effect old v
    → Effect old (regenerate_fresh key id user_event_id quality now old v).1
regenerate_fresh-Effect key id user_event_id quality now old v e =
    let made = create_run-Effect id user_event_id quality now v in
    elim (Result-cases (create_run id user_event_id quality now v).0) [
      | inl (run, t) ↦ rw (t, regenerate_fresh) (after e made)
      | inr (refused, t) ↦ rw (t, regenerate_fresh) (no_effect old)
    ]

pub create_regeneration_run-Effect :
    (key id user_event_id quality : String) (now : ℕ) (v : Vault)
    → Effect v (create_regeneration_run key id user_event_id quality now v).1
unfolding create_regeneration_run
create_regeneration_run-Effect key id user_event_id quality now v =
    elim (Option-cases (find_by (is_regeneration_key key) v.regeneration_keys)) [
      | inl n ↦
          rw (n, create_regeneration_run)
            (regenerate_fresh-Effect key id user_event_id quality now v v (no_effect v))
      | inr (k, n) ↦ elim (Bool-cases (any (is_run k.run_id) v.runs)) [
        | inl t ↦ rw (n, t, create_regeneration_run) (no_effect v)
        | inr t ↦
            rw (n, t, create_regeneration_run)
              (regenerate_fresh-Effect key id user_event_id quality now v _ (no_effect v))
      ]
    ]

pub exclude_events-Effect : (ids : List String) (v : Vault) → Effect v (exclude_events ids v)
exclude_events-Effect [] v = no_effect v
exclude_events-Effect (id ∷ ids) v =
    after (exclude_event-Effect id v) (exclude_events-Effect ids (exclude_event id v))

add_revision-Effect :
    (id user_event_id assistant_event_id : String) (now : ℕ) (v : Vault)
    → Effect v (add_revision id user_event_id assistant_event_id now v).1
unfolding add_revision
add_revision-Effect id user_event_id assistant_event_id now v =
    let out = exclude_events-Effect (older_ids user_event_id assistant_event_id v.events) v in
    elim (Bool-cases (any (λ (r : Revision). str_eq r.id id) v.revisions)) [
      | inl t ↦ rw t (no_effect v)
      | inr t ↦
          elim (Bool-cases
            (any (is_event user_event_id) v.events && any (is_event assistant_event_id) v.events)) [
              | inr p ↦ rw (t, p) (no_effect v)
              | inl p ↦
                  rw (t, p)
                    (
                      followed out.0
                          (changed (is_event assistant_event_id) _ (λ e. refl) (λ e. refl)),
                      out.1,
                    )
            ]
    ]

pub register_assistant_revision-Effect :
    (id user_event_id assistant_event_id : String) (now : ℕ) (v : Vault)
    → Effect v (register_assistant_revision id user_event_id assistant_event_id now v).1
unfolding register_assistant_revision
register_assistant_revision-Effect id user_event_id assistant_event_id now v =
    elim (Option-cases (find_by (is_answer assistant_event_id) v.revisions)) [
      | inl n ↦
          rw (n, register_assistant_revision)
            (add_revision-Effect id user_event_id assistant_event_id now v)
      | inr (r, n) ↦ rw (n, register_assistant_revision) (no_effect v)
    ]

activate_selected-Effect :
    (user_event_id assistant_event_id : String) (v : Vault)
    → Effect v (activate_selected user_event_id assistant_event_id v)
unfolding activate_selected
activate_selected-Effect user_event_id assistant_event_id v =
    (changed _ _ (λ e. refl) (λ e. refl), kept)

pub activate_assistant_revision-Effect :
    (assistant_event_id : String) (v : Vault)
    → Effect v (activate_assistant_revision assistant_event_id v).1
unfolding activate_assistant_revision
activate_assistant_revision-Effect assistant_event_id v =
    elim (Option-cases (find_by (is_answer assistant_event_id) v.revisions)) [
      | inl n ↦ rw (n, activate_assistant_revision) (no_effect v)
      | inr (r, n) ↦ elim (Bool-cases (is_selectable assistant_event_id v)) [
        | inl t ↦
            rw (n, t, activate_assistant_revision)
              (activate_selected-Effect r.user_event_id assistant_event_id v)
        | inr t ↦ rw (n, t, activate_assistant_revision) (no_effect v)
      ]
    ]

rebuild_text-EventChange :
    (id : String) (parts : List String) (es : List Event)
    → EventChange es (rebuild_text id parts es)
rebuild_text-EventChange id [] es = kept
rebuild_text-EventChange id (d ∷ ds) es = write_text-EventChange id _ es

recover_answer-Effect :
    (run_id event_id : String) (now : ℕ) (v : Vault)
    → Effect v (recover_answer run_id event_id now v)
unfolding recover_answer
recover_answer-Effect run_id event_id now v = (
  followed (rebuild_text-EventChange event_id (stored_deltas run_id event_id v) v.events)
      (changed (is_event event_id) _ (λ e. refl) (λ e. refl)),
  kept,
)

recover_assistant-Effect :
    (run : Run) (now : ℕ) (v : Vault) → Effect v (recover_assistant run now v)
recover_assistant-Effect run now v = elim (Option-cases run.assistant_event_id) [
  | inl n ↦ rw n (no_effect v)
  | inr (event_id, n) ↦ rw n (recover_answer-Effect run.id event_id now v)
]

fail_run-Effect : (run_id : String) (now : ℕ) (v : Vault) → Effect v (fail_run run_id now v)
unfolding fail_run
fail_run-Effect run_id now v = (kept, changed _ _ (λ r. refl) (λ r h. refl))

recover_runs-Effect : (runs : List Run) (now : ℕ) (v : Vault) → Effect v (recover_runs runs now v)
recover_runs-Effect [] now v = no_effect v
recover_runs-Effect (run ∷ runs) now v =
    let w = recover_assistant run now v in
    after (after (recover_assistant-Effect run now v) (fail_run-Effect run.id now w))
      (recover_runs-Effect runs now (fail_run run.id now w))

pub recover_interrupted_runs-Effect :
    (now : ℕ) (v : Vault) → Effect v (recover_interrupted_runs now v).1
unfolding recover_interrupted_runs
recover_interrupted_runs-Effect now v =
    recover_runs-Effect (keep (λ (r : Run). is_interrupted r.status) v.runs) now v
