-- ===== src/Transcript/Rebuilt.antt =====
-- The answers that a restart interrupted in packages/database/src/index.ts: what becomes of their text.
use infinite_context.Prelude.{
  ℕ, String, some, Bool, true, false, List, [], ◌∷◌, ◌++◌, ◌≡◌, refl, arith, Bool-cases,
  Option-cases, inl, inr, ap, sym, ◌∙◌, subst, keep, str_eq, eq_iff, update, find_by, All, HasKeys,
  find-keep, HasKeys-keep, All-trivial, All-both, All-find_by, find-key-update, sort_sorted,
  keep-IsAscending, All-keep_kept,
}
use infinite_context.Transcript.Tables.{
  Event, incomplete, Run, StreamRow, Vault, is_event, is_interrupted, is_run, is_text,
}
use infinite_context.Transcript.Events.{get_event}
use infinite_context.Transcript.Streams.{
  stream_id, is_of_run, delta_of, deltas_of, join, stored_deltas, rebuild_text, recover_answer,
  recover_assistant, fail_run, recover_runs, recover_interrupted_runs,
}
use infinite_context.Transcript.Streams.Untouched.{stream_of}
use infinite_context.Transcript.Changes.{event_id, run_id}
use infinite_context.Transcript.History.{Later, new_vault}
use infinite_context.Transcript.Order.{vault-IsOrdered}
use infinite_context.Transcript.Sent.{
  IsSent, recover_assistant-stream, fail_run-IsSent, stream-IsSent,
}

-- The answer as a restart leaves it: the text that was sent, visibly incomplete.
abbrev pub with_text : List String → Event → Event
with_text [] e = e
with_text (d ∷ ds) e = record e { content = join (d ∷ ds) }

abbrev pub left_incomplete : ℕ → List String → Event → Event
left_incomplete now deltas e = record (with_text deltas e) {
  status = incomplete;
  active = true;
  completed_at = some now;
}

own_id :
    (id : String) (es : List Event) (e : Event)
    → find_by (is_event id) es ≡ some e
    → str_eq e.id id ≡ true
own_id id es e h = (All-find_by (λ e. Unit) (is_event id) es e h (All-trivial es)).1

-- The event of the identifier after an update of it, and of another.
update-find :
    (id : String) (change : Event → Event) (es : List Event) (e : Event)
    → ((e : Event) → (change e).id ≡ e.id)
    → find_by (is_event id) es ≡ some e
    → find_by (is_event id) (update (is_event id) change es) ≡ some (change e)
update-find id change es e same h =
    find-key-update event_id id (is_event id) change es e same h ∙ rw (own_id id es e h) refl

other-find :
    (id other : String) (change : Event → Event) (es : List Event) (e : Event)
    → ((e : Event) → (change e).id ≡ e.id)
    → str_eq other id ≡ false
    → find_by (is_event id) es ≡ some e
    → find_by (is_event id) (update (is_event other) change es) ≡ some e
other-find id other change es e same ne h =
    let miss : str_eq e.id other ≡ false =
      ground (arith, own_id id es e h, eq_iff e.id id, eq_iff e.id other, eq_iff other id) in
    find-key-update event_id id (is_event other) change es e same h ∙ rw miss refl

rebuilt-find :
    (id : String) (deltas : List String) (es : List Event) (e : Event)
    → find_by (is_event id) es ≡ some e
    → find_by (is_event id) (rebuild_text id deltas es) ≡ some (with_text deltas e)
rebuilt-find id [] es e h = h
rebuilt-find id (d ∷ ds) es e h = update-find id _ es e (λ x. refl) h

rebuilt-other :
    (id other : String) (deltas : List String) (es : List Event) (e : Event)
    → str_eq other id ≡ false
    → find_by (is_event id) es ≡ some e
    → find_by (is_event id) (rebuild_text other deltas es) ≡ some e
rebuilt-other id other [] es e ne h = h
rebuilt-other id other (d ∷ ds) es e ne h = other-find id other _ es e (λ x. refl) ne h

answer-find :
    (run_id id : String) (now : ℕ) (v : Vault) (e : Event)
    → find_by (is_event id) v.events ≡ some e
    → find_by (is_event id) (recover_answer run_id id now v).events
      ≡ some (left_incomplete now (stored_deltas run_id id v) e)
unfolding recover_answer
answer-find run_id id now v e h =
    update-find id _ _ _ (λ x. refl) (rebuilt-find id (stored_deltas run_id id v) v.events e h)

assistant-other :
    (run : Run) (id : String) (now : ℕ) (v : Vault) (e : Event)
    → is_text id run.assistant_event_id ≡ false
    → find_by (is_event id) v.events ≡ some e
    → find_by (is_event id) (recover_assistant run now v).events ≡ some e
unfolding recover_answer
assistant-other run id now v e ne h = elim (Option-cases run.assistant_event_id) [
  | inl n ↦ rw n h
  | inr (other, n) ↦ rw n (
      other-find id other _ _ e (λ x. refl) (ground (arith, n))
        (rebuilt-other id other (stored_deltas run.id other v) v.events e (ground (arith, n)) h))
]

sent-deltas :
    (run_id id : String) (v : Vault)
    → IsSent (stream_of v)
    → stored_deltas run_id id v ≡ deltas_of id (keep (is_of_run run_id) v.stream)
unfolding stored_deltas
sent-deltas run_id id v s =
    ap (deltas_of id)
      (sort_sorted stream_id _ (keep-IsAscending stream_id (is_of_run run_id) v.stream s.0))

silent :
    (id : String) (p : StreamRow → Bool) (rows : List StreamRow) (row : StreamRow)
    → delta_of id row.event ≡ []
    → deltas_of id (keep p (rows ++ row ∷ [])) ≡ deltas_of id (keep p rows)
silent id p [] row h = ground (arith, h)
silent id p (r ∷ rows) row h = elim (Bool-cases (p r)) [
  | inl t ↦ rw t (ap (λ ds. delta_of id r.event ++ ds) (silent id p rows row h))
  | inr t ↦ rw t (silent id p rows row h)
]

-- The failure of one run leaves the deltas that are stored.
failed-deltas :
    (run : Run) (run_id id : String) (now : ℕ) (v : Vault)
    → IsSent (stream_of v)
    → stored_deltas run_id id (fail_run run.id now (recover_assistant run now v))
      ≡ stored_deltas run_id id v
unfolding fail_run
failed-deltas run run_id id now v s =
    let w = recover_assistant run now v in
    sent-deltas run_id id (fail_run run.id now w) (fail_run-IsSent run now v s)
    ∙ silent id (is_of_run run_id) w.stream _ refl
    ∙ ap (λ p. deltas_of id (keep (is_of_run run_id) p.0)) (recover_assistant-stream run now v)
    ∙ sym (sent-deltas run_id id v s)

-- Another run's answer, or the run itself.
abbrev pub HasOwnAnswer : Run → String → List Run → Type 0
HasOwnAnswer run id rs =
    All (λ s. str_eq s.id run.id ≡ false → is_text id s.assistant_event_id ≡ false) rs

others-find :
    (id : String) (pending : List Run) (now : ℕ) (v : Vault) (e : Event)
    → All (λ s. is_text id s.assistant_event_id ≡ false) pending
    → find_by (is_event id) v.events ≡ some e
    → find_by (is_event id) (recover_runs pending now v).events ≡ some e
unfolding fail_run
others-find id [] now v e a h = h
others-find id (s ∷ pending) now v e a h =
    others-find id pending now (fail_run s.id now (recover_assistant s now v)) e a.1
      (assistant-other s id now v e a.0 h)

own-find :
    (run : Run) (id : String) (now : ℕ) (v : Vault) (e : Event)
    → run.assistant_event_id ≡ some id
    → find_by (is_event id) v.events ≡ some e
    → find_by (is_event id) (recover_assistant run now v).events
      ≡ some (left_incomplete now (stored_deltas run.id id v) e)
own-find run id now v e answer h = rw answer (answer-find run.id id now v e h)

loop-find :
    (run : Run) (id : String) (pending : List Run) (now : ℕ) (v : Vault) (e : Event)
    → run.assistant_event_id ≡ some id
    → find_by (is_run run.id) pending ≡ some run
    → HasKeys run_id pending
    → HasOwnAnswer run id pending
    → IsSent (stream_of v)
    → find_by (is_event id) v.events ≡ some e
    → find_by (is_event id) (recover_runs pending now v).events
      ≡ some (left_incomplete now (stored_deltas run.id id v) e)
unfolding fail_run
loop-find run id [] now v e answer f k own s h = absurd (ground arith)
loop-find run id (r ∷ pending) now v e answer f k own s h = elim (Bool-cases (str_eq r.id run.id)) [
  | inl t ↦
      let same : r ≡ run = ground (arith, t) in
      let others =
        All-both (λ x. str_eq x.id r.id ≡ false) _ _ pending
          (λ x d o. o (ground (arith, eq_iff r.id run.id))) k.0 own.1 in
      others-find id pending now (fail_run r.id now (recover_assistant r now v)) _ others (
        subst
          (λ x.
            find_by (is_event id) (recover_assistant x now v).events
            ≡ some (left_incomplete now (stored_deltas run.id id v) e))
          (sym same) (own-find run id now v e answer h))
  | inr t ↦
      let rest =
        loop-find run id pending now (fail_run r.id now (recover_assistant r now v)) e answer
          (ground (arith, t)) k.1 own.1 (fail_run-IsSent r now v s)
          (assistant-other r id now v e (own.0 t) h) in
      rest ∙ ap (λ ds. some (left_incomplete now ds e)) (failed-deltas r run.id id now v s)
]

-- After any calls, the recovery leaves the answer of an interrupted run visibly incomplete, with the deltas that were
-- stored for it joined in order as its text, or with its text if there are none; the answer is of no other
-- run.
pub rebuilt_answer :
    (run : Run) (id : String) (e : Event) (now : ℕ) (v : Vault)
    → Later new_vault v
    → find_by (is_run run.id) v.runs ≡ some run
    → is_interrupted run.status ≡ true
    → run.assistant_event_id ≡ some id
    → HasOwnAnswer run id v.runs
    → get_event id v ≡ some e
    → get_event id (recover_interrupted_runs now v).1
      ≡ some (left_incomplete now (deltas_of id (keep (is_of_run run.id) v.stream)) e)
unfolding recover_interrupted_runs get_event
rebuilt_answer run id e now v later there running answer own h =
    let test = λ (r : Run). is_interrupted r.status in
    let s = stream-IsSent v later in
    loop-find run id (keep test v.runs) now v e answer
      (find-keep (is_run run.id) test v.runs run there running)
      (HasKeys-keep run_id test v.runs (vault-IsOrdered v later).2)
      (All-keep_kept _ test v.runs own) s h
    ∙ ap (λ ds. some (left_incomplete now ds e)) (sent-deltas run.id id v s)
