-- ===== src/Transcript/Runs.antt =====
-- The methods of packages/database/src/index.ts that create, claim, end and recover runs, with the answers
-- that they keep for idempotency keys.
use infinite_context.Prelude.{
  count, ◌==◌, ℕ, String, Option, none, some, Bool, true, false, List, [], ◌∷◌, ◌++◌, ◌&&◌, not,
  Result, ok, err, if◌then◌else◌, str_eq, any, keep, sort, update, find_by, ascending,
}
use infinite_context.Transcript.Tables.{
  user, message, complete, Event, Run, RunStatus, pending, retrieving, cancelled, MessageKey,
  RegenerationKey, Vault, Error, id_taken, no_such_row, is_pending, is_terminal, is_event, is_run,
  is_reference,
}
use infinite_context.Transcript.Events.{EventInput, append_event, get_event}

abbrev pub new_run : (id user_event_id quality : String) → ℕ → Run
new_run id user_event_id quality now = record {
  id = id;
  user_event_id = user_event_id;
  assistant_event_id = none;
  quality = quality;
  status = pending;
  cancellation_requested = false;
  error_code = none;
  created_at = now;
  completed_at = none;
}

unfoldable pub create_run :
    (id user_event_id quality : String) → ℕ → Vault → Result Error Run × Vault
create_run id user_event_id quality now v =
    let run = new_run id user_event_id quality now in
    if any (is_run id) v.runs
    then (err id_taken, v)
    else if not (any (is_event user_event_id) v.events)
    then (err no_such_row, v)
    else (ok run, record v { runs = v.runs ++ run ∷ [] })

unfoldable pub get_run : String → Vault → Option Run
get_run id v = find_by (is_run id) v.runs

abbrev pub is_message_key : String → MessageKey → Bool
is_message_key key k = str_eq k.key key

abbrev pub is_regeneration_key : String → RegenerationKey → Bool
is_regeneration_key key k = str_eq k.key key

-- `INSERT OR IGNORE`.
abbrev pub insert_message_key : MessageKey → List MessageKey → List MessageKey
insert_message_key k rows = if any (is_message_key k.key) rows then rows else rows ++ k ∷ []

abbrev pub insert_regeneration_key : RegenerationKey → List RegenerationKey → List RegenerationKey
insert_regeneration_key k rows =
    if any (is_regeneration_key k.key) rows then rows else rows ++ k ∷ []

-- What is asked of `createMessageAndRun`, and the identifiers that `uuidv7` makes in it.
pub record MessageInput : Type 0 where
  pub content : String
  pub attachment_ids : List String
  pub quality : String
  pub idempotency_key : String
  pub new_event_id : String
  pub new_run_id : String

abbrev pub message_event : MessageInput → EventInput
message_event input = record {
  role = user;
  kind = message;
  status = complete;
  content = input.content;
  parent_event_id = none;
  run_id = none;
  active = true;
  attachment_ids = input.attachment_ids;
}

abbrev pub remember_message : MessageInput → Event → Run → Vault → Vault
remember_message input event run v = record v {
  message_keys =
      insert_message_key
        (record { key = input.idempotency_key; event_id = event.id; run_id = run.id })
        v.message_keys;
}

-- The run of the event that was appended; `old` is the vault that a refusal leaves.
abbrev pub create_message_run :
    MessageInput → ℕ → Vault → Event → Vault → Result Error (Event × String) × Vault
create_message_run input now old event v =
    let (answer, w) = create_run input.new_run_id event.id input.quality now v in
    elim answer [
      | err e ↦ (err e, old)
      | ok run ↦ (ok (event, run.id), remember_message input event run w)
    ]

-- The part of `createMessageAndRun` that follows the look at the key; `now k` is the k-th reading of the clock.
unfoldable pub create_message_fresh :
    MessageInput → (ℕ → ℕ) → Vault → Vault → Result Error (Event × String) × Vault
create_message_fresh input now old v =
    let (answer, w) = append_event (message_event input) input.new_event_id (now 0) v in
    elim answer [ err e ↦ (err e, old) | ok event ↦ create_message_run input (now 1) old event w ]

abbrev pub forget_message_key : String → Vault → Vault
forget_message_key key v = record v {
  message_keys = keep (λ (k : MessageKey). not (is_message_key key k)) v.message_keys;
}

-- The answer that is kept, while its event and run are in the vault.
abbrev pub prior_message : MessageKey → Vault → Option (Event × String)
prior_message k v = elim (get_event k.event_id v) [
  | none ↦ none
  | some event ↦ elim (get_run k.run_id v) [ none ↦ none | some run ↦ some (event, k.run_id) ]
]

unfoldable pub create_message_and_run :
    MessageInput → (ℕ → ℕ) → Vault → Result Error (Event × String) × Vault
create_message_and_run input now v =
    elim (find_by (is_message_key input.idempotency_key) v.message_keys) [
      | none ↦ create_message_fresh input now v v
      | some k ↦ elim (prior_message k v) [
        | some answer ↦ (ok answer, v)
        | none ↦ create_message_fresh input now v (forget_message_key input.idempotency_key v)
      ]
    ]

abbrev pub remember_regeneration : String → Run → Vault → Vault
remember_regeneration key run v = record v {
  regeneration_keys =
      insert_regeneration_key (record { key = key; run_id = run.id }) v.regeneration_keys;
}

abbrev pub regenerate_fresh :
    (key id user_event_id quality : String) → ℕ → Vault → Vault → Result Error String × Vault
regenerate_fresh key id user_event_id quality now old v =
    let (answer, w) = create_run id user_event_id quality now v in
    elim answer [ err e ↦ (err e, old) | ok run ↦ (ok run.id, remember_regeneration key run w) ]

abbrev pub forget_regeneration_key : String → Vault → Vault
forget_regeneration_key key v = record v {
  regeneration_keys =
      keep (λ (k : RegenerationKey). not (is_regeneration_key key k)) v.regeneration_keys;
}

unfoldable pub create_regeneration_run :
    (key id user_event_id quality : String) → ℕ → Vault → Result Error String × Vault
create_regeneration_run key id user_event_id quality now v =
    elim (find_by (is_regeneration_key key) v.regeneration_keys) [
      | none ↦ regenerate_fresh key id user_event_id quality now v v
      | some k ↦
          if any (is_run k.run_id) v.runs
          then (ok k.run_id, v)
          else regenerate_fresh key id user_event_id quality now v (forget_regeneration_key key v)
    ]

unfoldable pub pending_runs : Vault → List Run
pending_runs v =
    sort (ascending (λ (r : Run). r.created_at)) (keep (λ (r : Run). is_pending r.status) v.runs)

abbrev pub is_claimable : String → Run → Bool
is_claimable id r = is_run id r && is_pending r.status

unfoldable pub claim_run_for_execution : String → Vault → Bool × Vault
claim_run_for_execution id v = (
  count (is_claimable id) v.runs == 1,
  record v {
    runs = update (is_claimable id) (λ (r : Run). record r { status = retrieving }) v.runs;
  },
)

abbrev pub or_else : Option String → Option String → Option String
or_else none b = b
or_else (some a) b = some a

abbrev pub with_status : RunStatus → Option String → Option String → ℕ → Run → Run
with_status status assistant_event_id error_code now r = record r {
  status = status;
  assistant_event_id = or_else assistant_event_id r.assistant_event_id;
  error_code = error_code;
  completed_at = if is_terminal status then some now else none;
}

unfoldable pub set_run_status :
    String → RunStatus → Option String → Option String → ℕ → Vault → Result Error (Unit {0}) × Vault
set_run_status id status assistant_event_id error_code now v =
    if any (is_run id) v.runs && not (is_reference v.events assistant_event_id)
    then (err no_such_row, v)
    else (
      ok tt,
      record v {
        runs = update (is_run id) (with_status status assistant_event_id error_code now) v.runs;
      },
    )

abbrev pub is_cancellable : String → Run → Bool
is_cancellable id r = is_run id r && not (is_terminal r.status)

unfoldable pub request_run_cancellation : String → ℕ → Vault → Bool × Vault
request_run_cancellation id now v =
    let flagged =
      update (is_cancellable id) (λ (r : Run). record r { cancellation_requested = true }) v.runs in
    (
      any (is_cancellable id) v.runs,
      record v {
        runs =
            update (is_claimable id)
              (λ (r : Run). record r {
                status = cancelled;
                error_code = some "CANCELLED";
                completed_at = some now;
              })
              flagged;
      },
    )
