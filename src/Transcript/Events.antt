-- ===== src/Transcript/Events.antt =====
-- The methods of packages/database/src/index.ts that write and list events. Each runs in one transaction,
-- which a refused statement rolls back.
use mathlib.Core.List.{reverse}
use infinite_context.Prelude.{
  ℕ, ◌+◌, String, Option, none, some, Bool, true, false, List, [], ◌∷◌, ◌++◌, ◌&&◌, not, min, max,
  Result, ok, err, ltb, if◌then◌else◌, str_eq, any, keep, sort, take, update, find_by, ascending,
  descending,
}
use infinite_context.Transcript.Tables.{
  Role, EventKind, EventStatus, Event, Vault, Error, id_taken, no_such_row, has_ended, is_event,
  is_reference,
}

-- `EventInput`, with its defaults filled in.
pub record EventInput : Type 0 where
  pub role : Role
  pub kind : EventKind
  pub status : EventStatus
  pub content : String
  pub parent_event_id : Option String
  pub run_id : Option String
  pub active : Bool
  pub attachment_ids : List String

-- `COALESCE(MAX(sequence), 0)`
abbrev pub max_sequence : List Event → ℕ
max_sequence [] = 0
max_sequence (e ∷ es) = max e.sequence (max_sequence es)

abbrev pub new_event : EventInput → String → ℕ → ℕ → Event
new_event input id sequence now = record {
  id = id;
  sequence = sequence;
  role = input.role;
  kind = input.kind;
  status = input.status;
  content = input.content;
  parent_event_id = input.parent_event_id;
  run_id = input.run_id;
  active = input.active;
  created_at = now;
  completed_at = if has_ended input.status then some now else none;
}

abbrev pub is_pair : String → String → String × String → Bool
is_pair a b p = str_eq p.0 a && str_eq p.1 b

-- `INSERT OR IGNORE` of each attachment.
abbrev pub attach : String → List String → List (String × String) → List (String × String)
attach id [] rows = rows
attach id (a ∷ as') rows =
    attach id as' (if any (is_pair id a) rows then rows else rows ++ (id, a) ∷ [])

abbrev pub all_attachments : List String → List String → Bool
all_attachments known [] = true
all_attachments known (a ∷ as') =
    let rest = all_attachments known as' in any (λ k. str_eq k a) known && rest

-- `appendEvent`; `id` is the input's or the identifier that `uuidv7` made.
unfoldable pub append_event : EventInput → String → ℕ → Vault → Result Error Event × Vault
append_event input id now v =
    let event = new_event input id (max_sequence v.events + 1) now in
    let events = v.events ++ event ∷ [] in
    if any (is_event id) v.events
    then (err id_taken, v)
    else if not (is_reference events input.parent_event_id)
    then (err no_such_row, v)
    else if not (all_attachments v.attachments input.attachment_ids)
    then (err no_such_row, v)
    else (
      ok event,
      record v { events = events; attached = attach id input.attachment_ids v.attached },
    )

unfoldable pub get_event : String → Vault → Option Event
get_event id v = find_by (is_event id) v.events

abbrev pub write_text : String → String → List Event → List Event
write_text id text = update (is_event id) (λ (e : Event). record e { content = text })

unfoldable pub update_streaming_event : String → String → Vault → Vault
update_streaming_event id text v = record v { events = write_text id text v.events }

abbrev pub write_some : String → Option String → List Event → List Event
write_some id none events = events
write_some id (some text) events = write_text id text events

unfoldable pub finalize_event : String → EventStatus → Option String → ℕ → Vault → Vault
finalize_event id status content now v = record v {
  events =
      update (is_event id) (λ (e : Event). record e { status = status; completed_at = some now })
        (write_some id content v.events);
}

-- `active = 0` and no vector.
unfoldable pub exclude_event : String → Vault → Vault
exclude_event id v = record v {
  events = update (is_event id) (λ (e : Event). record e { active = false }) v.events;
  vectors = keep (λ s. not (str_eq s id)) v.vectors;
}

-- The options of `listEvents`.
pub record ListOptions : Type 0 where
  pub before_sequence : Option ℕ
  pub after_sequence : Option ℕ
  pub limit : Option ℕ
  pub include_inactive : Bool

abbrev pub page_limit : Option ℕ → ℕ
page_limit none = 100
page_limit (some n) = max 1 (min n 501)

abbrev is_before : Option ℕ → Event → Bool
is_before none e = true
is_before (some n) e = ltb e.sequence n

abbrev is_after : Option ℕ → Event → Bool
is_after none e = true
is_after (some n) e = ltb n e.sequence

unfoldable pub is_listed : ListOptions → Event → Bool
is_listed options e =
    (if options.include_inactive then true else e.active)
    && is_before options.before_sequence e
    && is_after options.after_sequence e

abbrev pub sequence_of : Event → ℕ
sequence_of e = e.sequence

-- `ORDER BY e.sequence ... LIMIT ?`, and the reversal of descending rows.
abbrev pub fetch : Option ℕ → ℕ → List Event → List Event
fetch none limit rows = reverse (take limit (sort (descending sequence_of) rows))
fetch (some n) limit rows = take limit (sort (ascending sequence_of) rows)

unfoldable pub list_events : ListOptions → Vault → List Event
list_events options v =
    fetch options.after_sequence (page_limit options.limit) (keep (is_listed options) v.events)
