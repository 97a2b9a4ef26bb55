-- ===== src/Transcript/Touched.antt =====
-- What each method of packages/database/src/index.ts that is one statement or two does to events and runs.
use infinite_context.Prelude.{
  ℕ, ◌+◌, String, Option, none, some, false, List, [], ◌∷◌, ◌++◌, ◌≡◌, ◌≢◌, refl, arith, Bool-cases,
  inl, inr, any, not, ◌&&◌,
}
use infinite_context.Transcript.Tables.{
  Event, EventStatus, Run, RunStatus, pending, StreamEvent, Vault, is_event, is_run, is_reference,
  is_pending,
}
use infinite_context.Transcript.Events.{
  EventInput, append_event, new_event, max_sequence, all_attachments, update_streaming_event,
  finalize_event, write_text, write_some, exclude_event,
}
use infinite_context.Transcript.Runs.{
  create_run, claim_run_for_execution, set_run_status, request_run_cancellation,
}
use infinite_context.Transcript.Streams.{append_run_stream_event}
use infinite_context.Transcript.Changes.{EventChange, RunChange, kept, changed, added, followed}

abbrev pub Effect : Vault → Vault → Type 0
Effect v w = EventChange v.events w.events × RunChange v.runs w.runs

abbrev pub no_effect : (v : Vault) → Effect v v
no_effect v = (kept, kept)

pub after :
    {es fs gs : List Event} {rs ss ts : List Run}
    → EventChange es fs × RunChange rs ss
    → EventChange fs gs × RunChange ss ts
    → EventChange es gs × RunChange rs ts
after e f = (followed e.0 f.0, followed e.1 f.1)

pub append_event-Effect :
    (input : EventInput) (id : String) (now : ℕ) (v : Vault)
    → Effect v (append_event input id now v).1
unfolding append_event
append_event-Effect input id now v =
    let event = new_event input id (max_sequence v.events + 1) now in
    elim (Bool-cases (any (is_event id) v.events)) [
      | inl t ↦ rw t (no_effect v)
      | inr t ↦ elim (Bool-cases (is_reference (v.events ++ event ∷ []) input.parent_event_id)) [
        | inr p ↦ rw (t, p) (no_effect v)
        | inl p ↦ elim (Bool-cases (all_attachments v.attachments input.attachment_ids)) [
          | inr a ↦ rw (t, p, a) (no_effect v)
          | inl a ↦ rw (t, p, a) (added event t refl, kept)
        ]
      ]
    ]

pub create_run-Effect :
    (id user_event_id quality : String) (now : ℕ) (v : Vault)
    → Effect v (create_run id user_event_id quality now v).1
unfolding create_run
create_run-Effect id user_event_id quality now v = elim (Bool-cases (any (is_run id) v.runs)) [
  | inl t ↦ rw t (no_effect v)
  | inr t ↦ elim (Bool-cases (any (is_event user_event_id) v.events)) [
    | inl p ↦ rw (t, p) (kept, added _ t)
    | inr p ↦ rw (t, p) (no_effect v)
  ]
]

pub write_text-EventChange :
    (id text : String) (es : List Event) → EventChange es (write_text id text es)
write_text-EventChange id text es = changed (is_event id) _ (λ e. refl) (λ e. refl)

pub update_streaming_event-Effect :
    (id text : String) (v : Vault) → Effect v (update_streaming_event id text v)
unfolding update_streaming_event
update_streaming_event-Effect id text v = (write_text-EventChange id text v.events, kept)

write_some-EventChange :
    (id : String) (text : Option String) (es : List Event) → EventChange es (write_some id text es)
write_some-EventChange id none es = kept
write_some-EventChange id (some text) es = write_text-EventChange id text es

pub finalize_event-Effect :
    (id : String) (status : EventStatus) (content : Option String) (now : ℕ) (v : Vault)
    → Effect v (finalize_event id status content now v)
unfolding finalize_event
finalize_event-Effect id status content now v = (
  followed (write_some-EventChange id content v.events)
      (changed (is_event id) _ (λ e. refl) (λ e. refl)),
  kept,
)

pub exclude_event-Effect : (id : String) (v : Vault) → Effect v (exclude_event id v)
unfolding exclude_event
exclude_event-Effect id v = (changed (is_event id) _ (λ e. refl) (λ e. refl), kept)

pub claim_run-Effect : (id : String) (v : Vault) → Effect v (claim_run_for_execution id v).1
unfolding claim_run_for_execution
claim_run-Effect id v = (kept, changed _ _ (λ r. refl) (λ r h. refl))

not_pending : (status : RunStatus) → status ≢ pending → is_pending status ≡ false
not_pending status h = ground arith

pub set_run_status-Effect :
    (id : String) (status : RunStatus) (assistant_event_id error_code : Option String) (now : ℕ)
    (v : Vault)
    → status ≢ pending
    → Effect v (set_run_status id status assistant_event_id error_code now v).1
unfolding set_run_status
set_run_status-Effect id status assistant_event_id error_code now v h =
    elim (Bool-cases (any (is_run id) v.runs && not (is_reference v.events assistant_event_id))) [
      | inl t ↦ rw t (no_effect v)
      | inr t ↦ rw t (kept, changed _ _ (λ r. refl) (λ r p. not_pending status h))
    ]

pub request_run_cancellation-Effect :
    (id : String) (now : ℕ) (v : Vault) → Effect v (request_run_cancellation id now v).1
unfolding request_run_cancellation
request_run_cancellation-Effect id now v =
    (kept, followed (changed _ _ (λ r. refl) (λ r p. p)) (changed _ _ (λ r. refl) (λ r p. refl)))

pub append_run_stream_event-Effect :
    (run_id : String) (event : StreamEvent) (now : ℕ) (v : Vault)
    → Effect v (append_run_stream_event run_id event now v).1
unfolding append_run_stream_event
append_run_stream_event-Effect run_id event now v = elim (Bool-cases (any (is_run run_id) v.runs)) [
  | inl t ↦ rw t (no_effect v)
  | inr t ↦ rw t (no_effect v)
]
