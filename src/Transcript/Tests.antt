-- ===== src/Transcript/Tests.antt =====
-- The transcript of packages/database/src/index.ts after concrete calls.
use infinite_context.Prelude.{
  ℕ, ◌≤◌, none, some, true, false, [], ◌∷◌, ok, err, ◌≡◌, refl, arith, All, keep, map, update,
  length, find_by,
}
use infinite_context.Transcript.Tables.{
  assistant, message, EventStatus, Event, Run, RunStatus, delta, Vault, is_interrupted, is_event,
  no_such_row, id_taken,
}
use infinite_context.Transcript.Events.{
  EventInput, append_event, get_event, ListOptions, is_listed, list_events, page_limit,
}
use infinite_context.Transcript.Runs.{
  MessageInput, create_message_fresh, create_message_and_run, create_run, claim_run_for_execution,
  set_run_status,
}
use infinite_context.Transcript.Streams.{
  append_run_stream_event, recover_interrupted_runs, deltas_of, is_of_run,
}
use infinite_context.Transcript.Revisions.{
  add_revision, register_assistant_revision, is_older, is_among, older_ids,
}
use infinite_context.Transcript.Revisions.Single.{AreSound}
use infinite_context.Transcript.History.{
  Later, here, next, new_vault, creates_message, appends, claims, sets, sends, registers,
}
use infinite_context.Transcript.Order.{claimed_once}
use infinite_context.Transcript.Once.{created_once}
use infinite_context.Transcript.Current.{revisions-AreSound}
use infinite_context.Transcript.Pages.{page, list_events-page}
use infinite_context.Transcript.Recovery.{restart_failed, recovered}
use infinite_context.Transcript.Rebuilt.{left_incomplete, rebuilt_answer}
use infinite_context.Transcript.Retired.{registered-retires}

abbrev at : ℕ → ℕ
at k = 10

abbrev question : MessageInput
question = record {
  content = "Who?";
  attachment_ids = [];
  quality = "balanced";
  idempotency_key = "key";
  new_event_id = "question";
  new_run_id = "run";
}

abbrev asked : Vault
asked = (create_message_and_run question at new_vault).1

abbrev answer_input : EventInput
answer_input = record {
  role = assistant;
  kind = message;
  status = EventStatus.streaming;
  content = "";
  parent_event_id = some "question";
  run_id = some "run";
  active = true;
  attachment_ids = [];
}

abbrev answered : Vault
answered = (append_event answer_input "answer" 20 asked).1

abbrev claimed : Vault
claimed = (claim_run_for_execution "run" answered).1

abbrev streaming : Vault
streaming = (set_run_status "run" RunStatus.streaming (some "answer") none 30 claimed).1

abbrev cut_off : Vault
cut_off =
    (append_run_stream_event "run" (delta "answer" "me") 40
      (append_run_stream_event "run" (delta "answer" "It is ") 40 streaming).1).1

cut_off-Later : Later new_vault cut_off
cut_off-Later =
    next
      (next
        (next
          (next
            (next (next here (creates_message question at new_vault))
              (appends answer_input "answer" 20 asked))
            (claims "run" answered))
          (sets "run" RunStatus.streaming (some "answer") none 30 claimed (ground arith)))
        (sends "run" (delta "answer" "It is ") 40 streaming))
      (sends "run" (delta "answer" "me") 40 _)

claimed_once_example : (claim_run_for_execution "run" claimed).0 ≡ false
unfolding claim_run_for_execution append_event create_message_and_run create_message_fresh
    create_run
claimed_once_example = claimed_once "run" answered claimed refl here

created_once_example :
    (event : Event) × (create_message_and_run question at answered ≡ (ok (event, "run"), answered))
    × (event.id ≡ "question")
unfolding create_message_and_run create_message_fresh append_event create_run
created_once_example =
    created_once question question at at new_vault answered _ refl
      (next here (appends answer_input "answer" 20 asked)) refl

abbrev first_answer : Vault
first_answer = (register_assistant_revision "revision" "question" "answer" 50 answered).1

revisions-AreSound_example : AreSound first_answer.revisions
revisions-AreSound_example = revisions-AreSound first_answer (
    next
      (next (next here (creates_message question at new_vault))
        (appends answer_input "answer" 20 asked))
      (registers "revision" "question" "answer" 50 answered))

abbrev last_one : ListOptions
last_one = record {
  before_sequence = none;
  after_sequence = none;
  limit = some 1;
  include_inactive = false;
}

list_events-page_example :
    (list_events last_one cut_off
      ≡ page last_one.after_sequence
          (page_limit last_one.limit)
          (keep (is_listed last_one) cut_off.events))
    × (length (list_events last_one cut_off) ≤ 501)
list_events-page_example = list_events-page last_one cut_off cut_off-Later

recovered_example :
    ((recover_interrupted_runs 60 cut_off).0
      ≡ map (λ (r : Run). r.id) (keep (λ (r : Run). is_interrupted r.status) cut_off.runs))
    × ((recover_interrupted_runs 60 cut_off).1.runs
        ≡ update (λ (r : Run). is_interrupted r.status) (restart_failed 60) cut_off.runs)
    × All
        (λ (r : Run). is_interrupted r.status ≡ false)
        (recover_interrupted_runs 60 cut_off).1.runs
recovered_example = recovered 60 cut_off cut_off-Later

abbrev unfinished : Event
unfinished = record {
  id = "answer";
  sequence = 2;
  role = assistant;
  kind = message;
  status = EventStatus.streaming;
  content = "";
  parent_event_id = some "question";
  run_id = some "run";
  active = true;
  created_at = 20;
  completed_at = none;
}

abbrev interrupted : Run
interrupted = record {
  id = "run";
  user_event_id = "question";
  assistant_event_id = some "answer";
  quality = "balanced";
  status = RunStatus.streaming;
  cancellation_requested = false;
  error_code = none;
  created_at = 10;
  completed_at = none;
}

rebuilt_answer_example :
    get_event "answer" (recover_interrupted_runs 60 cut_off).1
    ≡ some
        (left_incomplete 60 (deltas_of "answer" (keep (is_of_run "run") cut_off.stream)) unfinished)
unfolding claim_run_for_execution append_event create_message_and_run create_message_fresh
    create_run set_run_status append_run_stream_event get_event
rebuilt_answer_example =
    rebuilt_answer interrupted "answer" unfinished 60 cut_off cut_off-Later refl refl refl
      (λ h. absurd (ground arith), tt) refl

it_is_me : deltas_of "answer" (keep (is_of_run "run") cut_off.stream) ≡ "It is " ∷ "me" ∷ []
unfolding claim_run_for_execution append_event create_message_and_run create_message_fresh
    create_run set_run_status append_run_stream_event
it_is_me = refl

-- A second answer retires the first.
abbrev second_answer : Vault
second_answer = (append_event answer_input "better" 70 first_answer).1

registered-retires_example :
    ((e : Event) × (find_by
          (is_event "better")
          (register_assistant_revision "other" "question" "better" 80 second_answer).1.events
        ≡ some e)
      × (e.active ≡ true))
    × All
        (λ e. is_older "question" "better" e ≡ false)
        (register_assistant_revision "other" "question" "better" 80 second_answer).1.events
    × All
        (λ s. is_among s (older_ids "question" "better" second_answer.events) ≡ false)
        (register_assistant_revision "other" "question" "better" 80 second_answer).1.vectors
unfolding append_event register_assistant_revision create_message_and_run create_message_fresh
    create_run add_revision
registered-retires_example =
    registered-retires "other" "question" "better" 80 2 second_answer refl refl

-- A taken identifier and a reference to no event are refused.
taken : (append_event answer_input "answer" 90 answered).0 ≡ err id_taken
unfolding append_event create_message_and_run create_message_fresh create_run
taken = refl

orphan : (create_run "other" "nothing" "fast" 90 asked).0 ≡ err no_such_row
unfolding append_event create_message_and_run create_message_fresh create_run
orphan = refl
