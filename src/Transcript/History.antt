-- ===== src/Transcript/History.antt =====
-- Histories of the methods of the transcript in packages/database/src/index.ts.
use infinite_context.Prelude.{ℕ, String, Option, [], ◌∷◌, ◌++◌, ◌≢◌}
use infinite_context.Transcript.Tables.{EventStatus, RunStatus, pending, StreamEvent, Vault}
use infinite_context.Transcript.Events.{
  EventInput, append_event, update_streaming_event, finalize_event, exclude_event,
}
use infinite_context.Transcript.Runs.{
  MessageInput, create_run, create_message_and_run, create_regeneration_run,
  claim_run_for_execution, set_run_status, request_run_cancellation,
}
use infinite_context.Transcript.Streams.{append_run_stream_event, recover_interrupted_runs}
use infinite_context.Transcript.Revisions.{register_assistant_revision, activate_assistant_revision}

-- A call of a method of the transcript, or the arrival of an attachment or of the vector of an event. A run
-- is not set back to pending, as in apps/api/src/orchestrator.ts.
pub data Step : Vault → Vault → Type 0 where
  appends :
      (input : EventInput) (id : String) (now : ℕ) (v : Vault)
      → Step v (append_event input id now v).1
  streams : (id text : String) (v : Vault) → Step v (update_streaming_event id text v)
  finalizes :
      (id : String) (status : EventStatus) (content : Option String) (now : ℕ) (v : Vault)
      → Step v (finalize_event id status content now v)
  excludes : (id : String) (v : Vault) → Step v (exclude_event id v)
  creates_run :
      (id user_event_id quality : String) (now : ℕ) (v : Vault)
      → Step v (create_run id user_event_id quality now v).1
  creates_message :
      (input : MessageInput) (now : ℕ → ℕ) (v : Vault)
      → Step v (create_message_and_run input now v).1
  regenerates :
      (key id user_event_id quality : String) (now : ℕ) (v : Vault)
      → Step v (create_regeneration_run key id user_event_id quality now v).1
  registers :
      (id user_event_id assistant_event_id : String) (now : ℕ) (v : Vault)
      → Step v (register_assistant_revision id user_event_id assistant_event_id now v).1
  activates :
      (assistant_event_id : String) (v : Vault)
      → Step v (activate_assistant_revision assistant_event_id v).1
  claims : (id : String) (v : Vault) → Step v (claim_run_for_execution id v).1
  sets :
      (id : String) (status : RunStatus) (assistant_event_id error_code : Option String) (now : ℕ)
      (v : Vault)
      → status ≢ pending
      → Step v (set_run_status id status assistant_event_id error_code now v).1
  cancels : (id : String) (now : ℕ) (v : Vault) → Step v (request_run_cancellation id now v).1
  sends :
      (run_id : String) (event : StreamEvent) (now : ℕ) (v : Vault)
      → Step v (append_run_stream_event run_id event now v).1
  recovers : (now : ℕ) (v : Vault) → Step v (recover_interrupted_runs now v).1
  stores : (id : String) (v : Vault) → Step v (record v { attachments = v.attachments ++ id ∷ [] })
  embeds : (id : String) (v : Vault) → Step v (record v { vectors = v.vectors ++ id ∷ [] })

abbrev pub new_vault : Vault
new_vault = record {
  events = [];
  attachments = [];
  attached = [];
  revisions = [];
  runs = [];
  stream = [];
  last_stream_id = 0;
  message_keys = [];
  regeneration_keys = [];
  vectors = [];
}

-- What calls later may make of a vault.
pub data Later : Vault → Vault → Type 0 where
  here : {v : Vault} → Later v v
  next : {u v w : Vault} → Later u v → Step v w → Later u w
