-- ===== src/Transcript/Sent.antt =====
-- The order of the stream events over histories of the methods of packages/database/src/index.ts.
use infinite_context.Prelude.{
  ℕ, ◌≤◌, String, List, [], ◌∷◌, ◌≡◌, refl, arith, Bool-cases, Option-cases, inl, inr, any, keep,
  subst, sym, All, All-append, All-weaken, IsAscending, IsAscending-append,
}
use infinite_context.Transcript.Tables.{Run, StreamEvent, StreamRow, Vault, is_interrupted, is_run}
use infinite_context.Transcript.Events.{update_streaming_event, finalize_event, exclude_event}
use infinite_context.Transcript.Runs.{claim_run_for_execution, request_run_cancellation}
use infinite_context.Transcript.Streams.{
  push_stream, append_run_stream_event, stream_id, recover_answer, recover_assistant, fail_run,
  recover_runs, recover_interrupted_runs,
}
use infinite_context.Transcript.Streams.Untouched.{
  stream_of, append_event-stream, create_run-stream, set_run_status-stream,
  create_regeneration_run-stream, register_assistant_revision-stream,
  activate_assistant_revision-stream, create_message_and_run-stream,
}
use infinite_context.Transcript.History.{
  Step, Later, here, next, new_vault, appends, streams, finalizes, excludes, creates_run,
  creates_message, regenerates, registers, activates, claims, sets, cancels, sends, recovers,
  stores, embeds,
}

-- The rows stand in the order of their identifiers, none above the last.
abbrev pub IsSent : List StreamRow × ℕ → Type 0
IsSent (rows, top) = IsAscending stream_id rows × All (λ (r : StreamRow). r.id ≤ top) rows

pub push-IsSent :
    (run_id : String) (event : StreamEvent) (now : ℕ) (v : Vault)
    → IsSent (stream_of v)
    → IsSent (stream_of (push_stream run_id event now v))
push-IsSent run_id event now v s = (
  IsAscending-append stream_id _ v.stream (All-weaken _ _ v.stream (λ r h. omega arith) s.1) s.0,
  All-append _ v.stream _ (All-weaken _ _ v.stream (λ r h. omega arith) s.1) (omega arith, tt),
)

pub recover_assistant-stream :
    (run : Run) (now : ℕ) (v : Vault) → stream_of (recover_assistant run now v) ≡ stream_of v
unfolding recover_answer
recover_assistant-stream run now v = elim (Option-cases run.assistant_event_id) [
  | inl n ↦ rw n refl
  | inr (event_id, n) ↦ rw n refl
]

pub fail_run-IsSent :
    (run : Run) (now : ℕ) (v : Vault)
    → IsSent (stream_of v)
    → IsSent (stream_of (fail_run run.id now (recover_assistant run now v)))
unfolding fail_run
fail_run-IsSent run now v s =
    push-IsSent run.id _ now (recover_assistant run now v)
      (subst IsSent (sym (recover_assistant-stream run now v)) s)

recover_runs-IsSent :
    (runs : List Run) (now : ℕ) (v : Vault)
    → IsSent (stream_of v)
    → IsSent (stream_of (recover_runs runs now v))
recover_runs-IsSent [] now v s = s
recover_runs-IsSent (run ∷ runs) now v s =
    recover_runs-IsSent runs now (fail_run run.id now (recover_assistant run now v))
      (fail_run-IsSent run now v s)

sends-IsSent :
    (run_id : String) (event : StreamEvent) (now : ℕ) (v : Vault)
    → IsSent (stream_of v)
    → IsSent (stream_of (append_run_stream_event run_id event now v).1)
unfolding append_run_stream_event
sends-IsSent run_id event now v s = elim (Bool-cases (any (is_run run_id) v.runs)) [
  | inl t ↦ rw t (push-IsSent run_id event now v s)
  | inr t ↦ rw t s
]

recovers-IsSent :
    (now : ℕ) (v : Vault)
    → IsSent (stream_of v)
    → IsSent (stream_of (recover_interrupted_runs now v).1)
unfolding recover_interrupted_runs
recovers-IsSent now v s =
    recover_runs-IsSent (keep (λ (r : Run). is_interrupted r.status) v.runs) now v s

same_stream : (p q : List StreamRow × ℕ) → q ≡ p → IsSent p → IsSent q
same_stream p q e s = subst IsSent (sym e) s

Step-IsSent : (v w : Vault) → Step v w → IsSent (stream_of v) → IsSent (stream_of w)
unfolding update_streaming_event finalize_event exclude_event claim_run_for_execution
    request_run_cancellation
Step-IsSent _ _ (appends input id at v) s = same_stream _ _ (append_event-stream input id at v) s
Step-IsSent _ _ (streams id text v) s = s
Step-IsSent _ _ (finalizes id status content at v) s = s
Step-IsSent _ _ (excludes id v) s = s
Step-IsSent _ _ (creates_run id user quality at v) s =
    same_stream _ _ (create_run-stream id user quality at v) s
Step-IsSent _ _ (creates_message input at v) s =
    same_stream _ _ (create_message_and_run-stream input at v) s
Step-IsSent _ _ (regenerates key id user quality at v) s =
    same_stream _ _ (create_regeneration_run-stream key id user quality at v) s
Step-IsSent _ _ (registers id user answer at v) s =
    same_stream _ _ (register_assistant_revision-stream id user answer at v) s
Step-IsSent _ _ (activates answer v) s =
    same_stream _ _ (activate_assistant_revision-stream answer v) s
Step-IsSent _ _ (claims id v) s = s
Step-IsSent _ _ (sets id status answer code at v h) s =
    same_stream _ _ (set_run_status-stream id status answer code at v) s
Step-IsSent _ _ (cancels id at v) s = s
Step-IsSent _ _ (sends id event at v) s = sends-IsSent id event at v s
Step-IsSent _ _ (recovers at v) s = recovers-IsSent at v s
Step-IsSent _ _ (stores id v) s = s
Step-IsSent _ _ (embeds id v) s = s

Later-IsSent : (v w : Vault) → Later v w → IsSent (stream_of v) → IsSent (stream_of w)
Later-IsSent v _ here s = s
Later-IsSent _ _ (next {u} {v} {w} later step) s = Step-IsSent v w step (Later-IsSent u v later s)

-- After any calls, the stream events stand in the order of their identifiers.
pub stream-IsSent : (v : Vault) → Later new_vault v → IsSent (stream_of v)
stream-IsSent v h = Later-IsSent new_vault v h (tt, tt)
