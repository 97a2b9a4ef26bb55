-- ===== src/Transcript/Revisions.antt =====
-- The revisions of an answer in packages/database/src/index.ts.
pub mod Untouched
pub mod Single
use infinite_context.Prelude.{
  ℕ, ◌+◌, String, Option, none, some, Bool, true, false, List, [], ◌∷◌, ◌++◌, ◌&&◌, ◌||◌, not, max,
  Result, ok, err, if◌then◌else◌, str_eq, any, keep, map, update, find_by,
}
use infinite_context.Transcript.Tables.{
  Event, Revision, Vault, Error, id_taken, no_such_row, is_assistant, is_complete, is_event,
  is_answer, is_answer_to, is_text,
}
use infinite_context.Transcript.Events.{get_event, exclude_event}

-- `COALESCE(MAX(revision_number), 0)` of the answers to an event.
abbrev pub max_revision : String → List Revision → ℕ
max_revision id [] = 0
max_revision id (r ∷ rs) =
    let rest = max_revision id rs in if is_answer_to id r then max r.revision_number rest else rest

-- Another active answer to the event.
abbrev pub is_older : (user_event_id assistant_event_id : String) → Event → Bool
is_older user_event_id assistant_event_id e =
    is_text user_event_id e.parent_event_id
    && is_assistant e.role
    && e.active
    && not (str_eq e.id assistant_event_id)

abbrev pub older_ids : (user_event_id assistant_event_id : String) → List Event → List String
older_ids user_event_id assistant_event_id events =
    map (λ (e : Event). e.id) (keep (is_older user_event_id assistant_event_id) events)

abbrev pub exclude_events : List String → Vault → Vault
exclude_events [] v = v
exclude_events (id ∷ ids) v = exclude_events ids (exclude_event id v)

abbrev pub new_revision : (id user_event_id assistant_event_id : String) → ℕ → ℕ → Revision
new_revision id user_event_id assistant_event_id number now = record {
  id = id;
  user_event_id = user_event_id;
  assistant_event_id = assistant_event_id;
  revision_number = number;
  active = true;
  created_at = now;
}

abbrev pub retired : String → List Revision → List Revision
retired user_event_id =
    update (is_answer_to user_event_id) (λ (r : Revision). record r { active = false })

-- The statements of `registerAssistantRevision` for an answer that has no revision yet.
unfoldable pub add_revision :
    (id user_event_id assistant_event_id : String) → ℕ → Vault → Result Error ℕ × Vault
add_revision id user_event_id assistant_event_id now v =
    let number = max_revision user_event_id v.revisions + 1 in
    let w = exclude_events (older_ids user_event_id assistant_event_id v.events) v in
    if any (λ (r : Revision). str_eq r.id id) v.revisions
    then (err id_taken, v)
    else if not
        (any (is_event user_event_id) v.events && any (is_event assistant_event_id) v.events)
    then (err no_such_row, v)
    else (
      ok number,
      record w {
        revisions =
            retired user_event_id v.revisions
            ++ new_revision id user_event_id assistant_event_id number now ∷ [];
        events =
            update (is_event assistant_event_id) (λ (e : Event). record e { active = true })
              w.events;
      },
    )

unfoldable pub register_assistant_revision :
    (id user_event_id assistant_event_id : String) → ℕ → Vault → Result Error ℕ × Vault
register_assistant_revision id user_event_id assistant_event_id now v =
    elim (find_by (is_answer assistant_event_id) v.revisions) [
      | some existing ↦ (ok existing.revision_number, v)
      | none ↦ add_revision id user_event_id assistant_event_id now v
    ]

-- The join with a complete answer of the transcript.
abbrev pub is_selectable : String → Vault → Bool
is_selectable assistant_event_id v = elim (get_event assistant_event_id v) [
  | none ↦ false
  | some e ↦ is_assistant e.role && is_complete e.status
]

abbrev pub sibling_ids : String → List Revision → List String
sibling_ids user_event_id revisions =
    map (λ (r : Revision). r.assistant_event_id) (keep (is_answer_to user_event_id) revisions)

abbrev pub is_among : String → List String → Bool
is_among id = any (λ s. str_eq s id)

unfoldable pub activate_selected : (user_event_id assistant_event_id : String) → Vault → Vault
activate_selected user_event_id assistant_event_id v =
    let siblings = sibling_ids user_event_id v.revisions in
    record v {
      revisions =
          update (is_answer_to user_event_id)
            (λ (r : Revision). record r { active = str_eq r.assistant_event_id assistant_event_id })
            v.revisions;
      events =
          update (λ (e : Event). is_among e.id siblings)
            (λ (e : Event). record e { active = str_eq e.id assistant_event_id }) v.events;
      vectors =
          keep (λ s. not (is_among s siblings && not (str_eq s assistant_event_id))) v.vectors;
    }

unfoldable pub activate_assistant_revision : String → Vault → Option Event × Vault
activate_assistant_revision assistant_event_id v =
    elim (find_by (is_answer assistant_event_id) v.revisions) [
      | none ↦ (none, v)
      | some r ↦
          let w = activate_selected r.user_event_id assistant_event_id v in
          if is_selectable assistant_event_id v
          then (get_event assistant_event_id w, w)
          else (none, v)
    ]
