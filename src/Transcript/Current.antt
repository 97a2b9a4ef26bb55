-- ===== src/Transcript/Current.antt =====
-- The revisions of answers over histories of the methods of packages/database/src/index.ts.
use infinite_context.Prelude.{
  ℕ, String, List, ◌≡◌, arith, Bool-cases, Option-cases, inl, inr, any, find_by, subst, sym, ◌&&◌,
  str_eq,
}
use infinite_context.Transcript.Tables.{Revision, Vault, is_answer, is_event}
use infinite_context.Transcript.Events.{update_streaming_event, finalize_event, exclude_event}
use infinite_context.Transcript.Runs.{claim_run_for_execution, request_run_cancellation}
use infinite_context.Transcript.Revisions.{
  add_revision, register_assistant_revision, activate_selected, activate_assistant_revision,
  is_selectable,
}
use infinite_context.Transcript.Revisions.Single.{AreSound, activated-AreSound, added-AreSound}
use infinite_context.Transcript.Revisions.Untouched.{
  append_event-revisions, create_run-revisions, set_run_status-revisions,
  append_run_stream_event-revisions, create_regeneration_run-revisions,
  recover_interrupted_runs-revisions, create_message_and_run-revisions,
}
use infinite_context.Transcript.History.{
  Step, Later, here, next, new_vault, appends, streams, finalizes, excludes, creates_run,
  creates_message, regenerates, registers, activates, claims, sets, cancels, sends, recovers,
  stores, embeds,
}

register-AreSound :
    (id user answer : String) (now : ℕ) (v : Vault)
    → AreSound v.revisions
    → AreSound (register_assistant_revision id user answer now v).1.revisions
unfolding register_assistant_revision add_revision
register-AreSound id user answer now v s =
    elim (Option-cases (find_by (is_answer answer) v.revisions)) [
      | inr (r, n) ↦ rw (n, register_assistant_revision) s
      | inl n ↦ elim (Bool-cases (any (λ (r : Revision). str_eq r.id id) v.revisions)) [
        | inl t ↦ rw (n, t, register_assistant_revision) s
        | inr t ↦
            elim (Bool-cases (any (is_event user) v.events && any (is_event answer) v.events)) [
              | inr p ↦ rw (n, t, p, register_assistant_revision) s
              | inl p ↦
                  rw (n, t, p, register_assistant_revision)
                    (added-AreSound id user answer now v.revisions n s)
            ]
      ]
    ]

activate-AreSound :
    (answer : String) (v : Vault)
    → AreSound v.revisions
    → AreSound (activate_assistant_revision answer v).1.revisions
unfolding activate_assistant_revision activate_selected
activate-AreSound answer v s = elim (Option-cases (find_by (is_answer answer) v.revisions)) [
  | inl n ↦ rw (n, activate_assistant_revision) s
  | inr (r, n) ↦ elim (Bool-cases (is_selectable answer v)) [
    | inl t ↦
        rw (n, t, activate_assistant_revision)
          (activated-AreSound r.user_event_id answer v.revisions s)
    | inr t ↦ rw (n, t, activate_assistant_revision) s
  ]
]

same_rows : (rs ss : List Revision) → ss ≡ rs → AreSound rs → AreSound ss
same_rows rs ss e s = subst AreSound (sym e) s

Step-AreSound : (v w : Vault) → Step v w → AreSound v.revisions → AreSound w.revisions
unfolding update_streaming_event finalize_event exclude_event claim_run_for_execution
    request_run_cancellation
Step-AreSound _ _ (appends input id at v) s = same_rows _ _ (append_event-revisions input id at v) s
Step-AreSound _ _ (streams id text v) s = s
Step-AreSound _ _ (finalizes id status content at v) s = s
Step-AreSound _ _ (excludes id v) s = s
Step-AreSound _ _ (creates_run id user quality at v) s =
    same_rows _ _ (create_run-revisions id user quality at v) s
Step-AreSound _ _ (creates_message input at v) s =
    same_rows _ _ (create_message_and_run-revisions input at v) s
Step-AreSound _ _ (regenerates key id user quality at v) s =
    same_rows _ _ (create_regeneration_run-revisions key id user quality at v) s
Step-AreSound _ _ (registers id user answer at v) s = register-AreSound id user answer at v s
Step-AreSound _ _ (activates answer v) s = activate-AreSound answer v s
Step-AreSound _ _ (claims id v) s = s
Step-AreSound _ _ (sets id status answer code at v h) s =
    same_rows _ _ (set_run_status-revisions id status answer code at v) s
Step-AreSound _ _ (cancels id at v) s = s
Step-AreSound _ _ (sends id event at v) s =
    same_rows _ _ (append_run_stream_event-revisions id event at v) s
Step-AreSound _ _ (recovers at v) s = same_rows _ _ (recover_interrupted_runs-revisions at v) s
Step-AreSound _ _ (stores id v) s = s
Step-AreSound _ _ (embeds id v) s = s

Later-AreSound : (v w : Vault) → Later v w → AreSound v.revisions → AreSound w.revisions
Later-AreSound v _ here s = s
Later-AreSound _ _ (next {u} {v} {w} later step) s =
    Step-AreSound v w step (Later-AreSound u v later s)

-- After any calls, an answer has one revision at most, the revisions of one message have rising numbers, and
-- at most one of them is active.
pub revisions-AreSound : (v : Vault) → Later new_vault v → AreSound v.revisions
revisions-AreSound v h =
    Later-AreSound new_vault v h (record { keyed = tt; rising = tt; single = λ u. omega arith })
