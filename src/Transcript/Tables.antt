-- ===== src/Transcript/Tables.antt =====
-- The tables of the transcript in packages/database/src/migrations.ts: events with their text, revisions of
-- answers, runs, their stream events and the answers kept for idempotency keys.
use infinite_context.Prelude.{ℕ, String, Option, none, some, Bool, true, false, List, str_eq, any}

pub data Role : Type 0 where
  user assistant system tool : Role

pub data EventKind : Type 0 where
  message tool_call tool_result attachment cancellation error revision : EventKind

pub data EventStatus : Type 0 where
  pending streaming complete incomplete failed excluded : EventStatus

-- A row of `events` with its row of `event_content`.
pub record Event : Type 0 where
  pub id : String
  pub sequence : ℕ
  pub role : Role
  pub kind : EventKind
  pub status : EventStatus
  pub content : String
  pub parent_event_id : Option String
  pub run_id : Option String
  pub active : Bool
  pub created_at : ℕ
  pub completed_at : Option ℕ

pub record Revision : Type 0 where
  pub id : String
  pub user_event_id : String
  pub assistant_event_id : String
  pub revision_number : ℕ
  pub active : Bool
  pub created_at : ℕ

pub data RunStatus : Type 0 where
  pending retrieving streaming complete cancelled failed : RunStatus

pub record Run : Type 0 where
  pub id : String
  pub user_event_id : String
  pub assistant_event_id : Option String
  pub quality : String
  pub status : RunStatus
  pub cancellation_requested : Bool
  pub error_code : Option String
  pub created_at : ℕ
  pub completed_at : Option ℕ

-- What a client of a run is told. `other` has the JSON of the types that the transcript does not read.
pub data StreamEvent : Type 0 where
  delta : (event_id text : String) → StreamEvent
  run_failed : (code message : String) → StreamEvent
  other : (json : String) → StreamEvent

pub record StreamRow : Type 0 where
  pub id : ℕ
  pub run_id : String
  pub event : StreamEvent
  pub created_at : ℕ

-- The rows of `idempotency_keys` of the operations `messages.create` and `events.regenerate`.
pub record MessageKey : Type 0 where
  pub key : String
  pub event_id : String
  pub run_id : String

pub record RegenerationKey : Type 0 where
  pub key : String
  pub run_id : String

-- `vectors` has the `source_id` of each vector of an event; `attached` the rows of `event_attachments`.
pub record Vault : Type 0 where
  pub events : List Event
  pub attachments : List String
  pub attached : List (String × String)
  pub revisions : List Revision
  pub runs : List Run
  pub stream : List StreamRow
  pub last_stream_id : ℕ
  pub message_keys : List MessageKey
  pub regeneration_keys : List RegenerationKey
  pub vectors : List String

-- What the tables refuse: a second row of a key, and a reference to no row.
pub data Error : Type 0 where
  id_taken no_such_row : Error

abbrev pub is_assistant : Role → Bool
is_assistant assistant = true
is_assistant _ = false

abbrev pub is_complete : EventStatus → Bool
is_complete complete = true
is_complete _ = false

-- The statuses of an event that has ended.
abbrev pub has_ended : EventStatus → Bool
has_ended complete = true
has_ended failed = true
has_ended incomplete = true
has_ended _ = false

abbrev pub is_pending : RunStatus → Bool
is_pending pending = true
is_pending _ = false

abbrev pub is_interrupted : RunStatus → Bool
is_interrupted retrieving = true
is_interrupted streaming = true
is_interrupted _ = false

-- `["complete", "cancelled", "failed"].includes(status)`
abbrev pub is_terminal : RunStatus → Bool
is_terminal complete = true
is_terminal cancelled = true
is_terminal failed = true
is_terminal _ = false

abbrev pub is_event : String → Event → Bool
is_event id e = str_eq e.id id

abbrev pub is_run : String → Run → Bool
is_run id r = str_eq r.id id

abbrev pub is_answer : String → Revision → Bool
is_answer id r = str_eq r.assistant_event_id id

abbrev pub is_answer_to : String → Revision → Bool
is_answer_to id r = str_eq r.user_event_id id

-- `column = ?`, which `NULL` does not satisfy.
abbrev pub is_text : String → Option String → Bool
is_text s none = false
is_text s (some t) = str_eq t s

-- Whether a column that refers to events may hold the value.
abbrev pub is_reference : List Event → Option String → Bool
is_reference events none = true
is_reference events (some id) = any (is_event id) events
