-- ===== src/Transcript/Streams.antt =====
-- The stream events of runs in packages/database/src/index.ts, and the recovery of the runs that a restart
-- interrupted, which rebuilds their answers from the stream.
pub mod Untouched
use Prim.Native.String.{◌++◌ as ◌+str◌}
use infinite_context.Prelude.{
  ℕ, ◌+◌, String, Option, none, some, Bool, true, false, List, [], ◌∷◌, ◌++◌, ◌&&◌, not, Result, ok,
  err, ltb, if◌then◌else◌, str_eq, any, keep, sort, take, map, update, ascending,
}
use infinite_context.Transcript.Tables.{
  EventStatus, incomplete, Event, Run, RunStatus, failed, StreamEvent, delta, run_failed, other,
  StreamRow, Vault, Error, no_such_row, is_interrupted, is_event, is_run,
}
use infinite_context.Transcript.Events.{write_text}

abbrev pub push_stream : String → StreamEvent → ℕ → Vault → Vault
push_stream run_id event now v =
    let id = v.last_stream_id + 1 in
    record v {
      stream =
          v.stream ++ record { id = id; run_id = run_id; event = event; created_at = now } ∷ [];
      last_stream_id = id;
    }

unfoldable pub append_run_stream_event : String → StreamEvent → ℕ → Vault → Result Error ℕ × Vault
append_run_stream_event run_id event now v =
    if any (is_run run_id) v.runs
    then (ok (v.last_stream_id + 1), push_stream run_id event now v)
    else (err no_such_row, v)

abbrev pub is_of_run : String → StreamRow → Bool
is_of_run run_id row = str_eq row.run_id run_id

abbrev pub stream_id : StreamRow → ℕ
stream_id row = row.id

unfoldable pub list_run_stream_events : String → ℕ → Vault → List StreamRow
list_run_stream_events run_id after v = take 1_000 (
    sort (ascending stream_id)
      (keep (λ (row : StreamRow). is_of_run run_id row && ltb after row.id) v.stream))

-- The text of a delta of the answer.
abbrev pub delta_of : String → StreamEvent → List String
delta_of event_id (delta id text) = if str_eq id event_id then text ∷ [] else []
delta_of event_id (run_failed code text) = []
delta_of event_id (other json) = []

abbrev pub deltas_of : String → List StreamRow → List String
deltas_of event_id [] = []
deltas_of event_id (row ∷ rows) = delta_of event_id row.event ++ deltas_of event_id rows

-- `parts.join("")`
abbrev pub join : List String → String
join [] = ""
join (s ∷ ss) = s +str join ss

-- The deltas of an answer that are stored, in the order in which they were sent.
unfoldable pub stored_deltas : String → String → Vault → List String
stored_deltas run_id event_id v =
    deltas_of event_id (sort (ascending stream_id) (keep (is_of_run run_id) v.stream))

abbrev pub rebuild_text : String → List String → List Event → List Event
rebuild_text event_id [] events = events
rebuild_text event_id (d ∷ ds) events = write_text event_id (join (d ∷ ds)) events

-- The partial answer stays, visibly incomplete.
unfoldable pub recover_answer : String → String → ℕ → Vault → Vault
recover_answer run_id event_id now v = record v {
  events =
      update (is_event event_id)
        (λ (e : Event). record e { status = incomplete; active = true; completed_at = some now })
        (rebuild_text event_id (stored_deltas run_id event_id v) v.events);
  vectors = keep (λ s. not (str_eq s event_id)) v.vectors;
}

abbrev pub recover_assistant : Run → ℕ → Vault → Vault
recover_assistant run now v = elim run.assistant_event_id [
  | none ↦ v
  | some event_id ↦ recover_answer run.id event_id now v
]

abbrev pub restarted : StreamEvent
restarted =
    run_failed "API_RESTARTED"
      "The local service restarted before this response completed. Regenerate it to continue."

unfoldable pub fail_run : String → ℕ → Vault → Vault
fail_run run_id now v = push_stream run_id restarted now (record v {
  runs =
      update (is_run run_id)
        (λ (r : Run). record r {
          status = failed;
          error_code = some "API_RESTARTED";
          completed_at = some now;
        })
        v.runs;
})

abbrev pub recover_runs : List Run → ℕ → Vault → Vault
recover_runs [] now v = v
recover_runs (run ∷ runs) now v =
    recover_runs runs now (fail_run run.id now (recover_assistant run now v))

unfoldable pub recover_interrupted_runs : ℕ → Vault → List String × Vault
recover_interrupted_runs now v =
    let interrupted = keep (λ (r : Run). is_interrupted r.status) v.runs in
    (map (λ (r : Run). r.id) interrupted, recover_runs interrupted now v)
