-- ===== src/Transcript/Answers.antt =====
-- Messages created once for an idempotency key in packages/database/src/index.ts.
use infinite_context.Prelude.{
  ℕ, String, Option, some, true, false, List, [], ◌∷◌, not, ◌≡◌, refl, arith, Bool-cases,
  Option-cases, Result-cases, ok, inl, inr, any, find_by, keep, str_eq, eq_iff, sym, subst, ap, ◌∙◌,
  find-append,
}
use infinite_context.Transcript.Tables.{Event, Run, MessageKey, Vault, is_event, is_run}
use infinite_context.Transcript.Events.{
  append_event, get_event, update_streaming_event, finalize_event, exclude_event,
}
use infinite_context.Transcript.Runs.{
  MessageInput, message_event, claim_run_for_execution, request_run_cancellation, create_run,
  get_run, create_message_run, create_message_fresh, prior_message, create_message_and_run,
  is_message_key, insert_message_key,
}
use infinite_context.Transcript.History.{
  Step, Later, here, next, appends, streams, finalizes, excludes, creates_run, creates_message,
  regenerates, registers, activates, claims, sets, cancels, sends, recovers, stores, embeds,
}
use infinite_context.Transcript.Changes.{EventChange-any, RunChange-any}
use infinite_context.Transcript.Order.{Step-Effect}
use infinite_context.Transcript.Keys.{
  append_event-keys, create_run-keys, set_run_status-keys, append_run_stream_event-keys,
  create_regeneration_run-keys, register_assistant_revision-keys, activate_assistant_revision-keys,
  recover_interrupted_runs-keys,
}

abbrev pub find_key : String → List MessageKey → Option MessageKey
find_key key keys = find_by (is_message_key key) keys

-- The answer is kept for its key, and its event and run are in the vault.
abbrev pub IsKept : MessageKey → Vault → Type 0
IsKept k v =
    (find_key k.key v.message_keys ≡ some k)
    × (any (is_event k.event_id) v.events ≡ true)
    × (any (is_run k.run_id) v.runs ≡ true)

find-any_event :
    (id : String) (es : List Event)
    → any (is_event id) es ≡ true
    → (e : Event) × (find_by (is_event id) es ≡ some e) × (str_eq e.id id ≡ true)
find-any_event id [] h = absurd (ground arith)
find-any_event id (e ∷ es) h = elim (Bool-cases (str_eq e.id id)) [
  | inl t ↦ (e, rw t refl, t)
  | inr t ↦ let (f, found, same) = find-any_event id es (ground (arith, t)) in (f, rw t found, same)
]

find-any_run :
    (id : String) (rs : List Run)
    → any (is_run id) rs ≡ true
    → (r : Run) × (find_by (is_run id) rs ≡ some r)
find-any_run id [] h = absurd (ground arith)
find-any_run id (r ∷ rs) h = elim (Bool-cases (str_eq r.id id)) [
  | inl t ↦ (r, rw t refl)
  | inr t ↦ let (s, found) = find-any_run id rs (ground (arith, t)) in (s, rw t found)
]

-- A request with a key whose answer is kept is answered with it, and changes nothing.
pub replayed :
    (k : MessageKey) (input : MessageInput) (now : ℕ → ℕ) (v : Vault)
    → input.idempotency_key ≡ k.key
    → IsKept k v
    → (event : Event) × (create_message_and_run input now v ≡ (ok (event, k.run_id), v))
      × (str_eq event.id k.event_id ≡ true)
unfolding create_message_and_run get_event get_run
replayed k input now v same (kept, there, run) =
    let (event, found, own) = find-any_event k.event_id v.events there in
    let (r, found_run) = find-any_run k.run_id v.runs run in
    let looked : find_key input.idempotency_key v.message_keys ≡ some k =
      subst (λ i. find_key i v.message_keys ≡ some k) (sym same) kept in
    (event, rw (looked, found, found_run, create_message_and_run) refl, own)

insert-finds :
    (key : String) (k new : MessageKey) (keys : List MessageKey)
    → find_key key keys ≡ some k
    → find_key key (insert_message_key new keys) ≡ some k
insert-finds key k new keys h = elim (Bool-cases (any (is_message_key new.key) keys)) [
  | inl t ↦ rw t h
  | inr t ↦ rw t (find-append (is_message_key key) keys (new ∷ []) k h)
]

run-finds :
    (key : String) (k : MessageKey) (input : MessageInput) (now : ℕ) (old : Vault) (event : Event)
    (v : Vault)
    → find_key key old.message_keys ≡ some k
    → find_key key v.message_keys ≡ some k
    → find_key key (create_message_run input now old event v).1.message_keys ≡ some k
run-finds key k input now old event v h g =
    let kept = create_run-keys input.new_run_id event.id input.quality now v in
    elim (Result-cases (create_run input.new_run_id event.id input.quality now v).0) [
      | inl (run, t) ↦
          rw (t, create_message_run) (insert-finds key k _ _ (ap (find_key key) kept ∙ g))
      | inr (refused, t) ↦ rw (t, create_message_run) h
    ]

fresh-finds :
    (key : String) (k : MessageKey) (input : MessageInput) (now : ℕ → ℕ) (old v : Vault)
    → find_key key old.message_keys ≡ some k
    → find_key key v.message_keys ≡ some k
    → find_key key (create_message_fresh input now old v).1.message_keys ≡ some k
unfolding create_message_fresh
fresh-finds key k input now old v h g =
    let kept = append_event-keys (message_event input) input.new_event_id (now 0) v in
    elim (Result-cases (append_event (message_event input) input.new_event_id (now 0) v).0) [
      | inl (event, t) ↦
          rw (t, create_message_fresh)
            (run-finds key k input (now 1) old event _ h (ap (find_key key) kept ∙ g))
      | inr (refused, t) ↦ rw (t, create_message_fresh) h
    ]

forget-finds :
    (key other : String) (k : MessageKey) (keys : List MessageKey)
    → str_eq other key ≡ false
    → find_key key keys ≡ some k
    → find_key key (keep (λ (l : MessageKey). not (is_message_key other l)) keys) ≡ some k
forget-finds key other k [] ne h = absurd (ground arith)
forget-finds key other k (l ∷ keys) ne h =
    ground
      (arith, eq_iff l.key other, eq_iff l.key key, eq_iff other key, forget-finds key other k keys)

pub forget-none :
    (key : String) (keys : List MessageKey)
    → any (is_message_key key) (keep (λ (l : MessageKey). not (is_message_key key l)) keys) ≡ false
forget-none key [] = refl
forget-none key (l ∷ keys) = ground (arith, forget-none key keys)

-- Other requests leave an answer that is kept.
creates-finds :
    (k : MessageKey) (input : MessageInput) (now : ℕ → ℕ) (v : Vault)
    → IsKept k v
    → find_key k.key (create_message_and_run input now v).1.message_keys ≡ some k
unfolding create_message_and_run
creates-finds k input now v kept = elim (Bool-cases (str_eq input.idempotency_key k.key)) [
  | inl t ↦
      let same : input.idempotency_key ≡ k.key =
        ground (arith, eq_iff input.idempotency_key k.key) in
      let (event, replay, own) = replayed k input now v same kept in
      subst (λ r. find_key k.key r.1.message_keys ≡ some k) (sym replay) kept.0
  | inr t ↦ elim (Option-cases (find_key input.idempotency_key v.message_keys)) [
    | inl n ↦ rw (n, create_message_and_run) (fresh-finds k.key k input now v v kept.0 kept.0)
    | inr (l, n) ↦ elim (Option-cases (prior_message l v)) [
      | inr (answer, m) ↦ rw (n, m, create_message_and_run) kept.0
      | inl m ↦
          rw (n, m, create_message_and_run)
            (fresh-finds k.key k input now v _ kept.0
              (forget-finds k.key input.idempotency_key k v.message_keys t kept.0))
    ]
  ]
]

Step-finds :
    (k : MessageKey) (v w : Vault) → Step v w → IsKept k v → find_key k.key w.message_keys ≡ some k
unfolding update_streaming_event finalize_event exclude_event claim_run_for_execution
    request_run_cancellation
Step-finds k _ _ (appends input id at v) h =
    ap (find_key k.key) (append_event-keys input id at v) ∙ h.0
Step-finds k _ _ (streams id text v) h = h.0
Step-finds k _ _ (finalizes id status content at v) h = h.0
Step-finds k _ _ (excludes id v) h = h.0
Step-finds k _ _ (creates_run id user quality at v) h =
    ap (find_key k.key) (create_run-keys id user quality at v) ∙ h.0
Step-finds k _ _ (creates_message input at v) h = creates-finds k input at v h
Step-finds k _ _ (regenerates key id user quality at v) h =
    ap (find_key k.key) (create_regeneration_run-keys key id user quality at v) ∙ h.0
Step-finds k _ _ (registers id user answer at v) h =
    ap (find_key k.key) (register_assistant_revision-keys id user answer at v) ∙ h.0
Step-finds k _ _ (activates answer v) h =
    ap (find_key k.key) (activate_assistant_revision-keys answer v) ∙ h.0
Step-finds k _ _ (claims id v) h = h.0
Step-finds k _ _ (sets id status answer code at v e) h =
    ap (find_key k.key) (set_run_status-keys id status answer code at v) ∙ h.0
Step-finds k _ _ (cancels id at v) h = h.0
Step-finds k _ _ (sends id event at v) h =
    ap (find_key k.key) (append_run_stream_event-keys id event at v) ∙ h.0
Step-finds k _ _ (recovers at v) h = ap (find_key k.key) (recover_interrupted_runs-keys at v) ∙ h.0
Step-finds k _ _ (stores id v) h = h.0
Step-finds k _ _ (embeds id v) h = h.0

pub Later-IsKept : (k : MessageKey) (v w : Vault) → Later v w → IsKept k v → IsKept k w
Later-IsKept k v _ here h = h
Later-IsKept k _ _ (next {u} {v} {w} later s) h =
    let g = Later-IsKept k u v later h in
    let e = Step-Effect v w s in
    (Step-finds k v w s g, EventChange-any k.event_id e.0 g.1, RunChange-any k.run_id e.1 g.2)
