-- ===== src/Transcript/Once.antt =====
-- A message is created once for an idempotency key in packages/database/src/index.ts.
use infinite_context.Prelude.{
  ℕ, String, some, true, ◌≡◌, refl, arith, Option-cases, ok, inl, inr, any, find_by, str_eq, eq_iff,
  sym, subst, ap, All-trivial, All-find_by, ◌∙◌, any-find_by,
}
use infinite_context.Transcript.Tables.{Event, MessageKey, Vault, is_event, is_run}
use infinite_context.Transcript.Events.{get_event}
use infinite_context.Transcript.Runs.{
  MessageInput, get_run, prior_message, create_message_and_run, is_message_key,
}
use infinite_context.Transcript.History.{Later}
use infinite_context.Transcript.Answers.{IsKept, find_key, replayed, Later-IsKept, forget-none}
use infinite_context.Transcript.Made.{any-find_none, key_of, fresh-IsKept}

prior-there :
    (k : MessageKey) (v : Vault) (answer : Event × String)
    → prior_message k v ≡ some answer
    → (any (is_event k.event_id) v.events ≡ true)
      × (any (is_run k.run_id) v.runs ≡ true)
      × (answer.1 ≡ k.run_id)
      × (str_eq answer.0.id k.event_id ≡ true)
unfolding get_event get_run
prior-there k v answer h = elim (Option-cases (find_by (is_event k.event_id) v.events)) [
  | inl n ↦ absurd (ground (arith, n))
  | inr (event, n) ↦ elim (Option-cases (find_by (is_run k.run_id) v.runs)) [
    | inl m ↦ absurd (ground (arith, n, m))
    | inr (run, m) ↦
        let same : (event, k.run_id) ≡ answer = ground (arith, n, m) in
        subst
          (λ a.
            (any (is_event k.event_id) v.events ≡ true)
            × (any (is_run k.run_id) v.runs ≡ true)
            × (a.1 ≡ k.run_id)
            × (str_eq a.0.id k.event_id ≡ true))
          same
          (
            any-find_by (is_event k.event_id) v.events event n,
            any-find_by (is_run k.run_id) v.runs run m,
            refl,
            (All-find_by (λ e. Unit) (is_event k.event_id) v.events event n
                (All-trivial v.events)).1,
          )
  ]
]

-- What is kept of an answer.
created-IsKept :
    (input : MessageInput) (now : ℕ → ℕ) (v : Vault) (answer : Event × String)
    → (create_message_and_run input now v).0 ≡ ok answer
    → (k : MessageKey) × (input.idempotency_key ≡ k.key)
      × (answer.1 ≡ k.run_id)
      × (answer.0.id ≡ k.event_id)
      × IsKept k (create_message_and_run input now v).1
unfolding create_message_and_run
created-IsKept input now v answer h =
    elim (Option-cases (find_key input.idempotency_key v.message_keys)) [
      | inl n ↦ (
        key_of input answer,
        refl,
        refl,
        refl,
        rw (n, create_message_and_run)
            (fresh-IsKept input now v v answer (ground (arith, n))
              (any-find_none _ v.message_keys n)),
      )
      | inr (k, n) ↦ elim (Option-cases (prior_message k v)) [
        | inl m ↦ (
          key_of input answer,
          refl,
          refl,
          refl,
          rw (n, m, create_message_and_run)
              (fresh-IsKept input now v _ answer (ground (arith, n, m))
                (forget-none input.idempotency_key v.message_keys)),
        )
        | inr (prior, m) ↦
            let same : prior ≡ answer = ground (arith, n, m) in
            let (there, run, runs, ids) = prior-there k v answer (m ∙ ap (λ a. some a) same) in
            let own =
              (All-find_by (λ e. Unit) (is_message_key input.idempotency_key) v.message_keys k n
                (All-trivial v.message_keys)).1 in
            let keys : input.idempotency_key ≡ k.key =
              ground (arith, eq_iff k.key input.idempotency_key) in
            (
              k,
              keys,
              runs,
              ground (arith, eq_iff answer.0.id k.event_id),
              rw (n, m, create_message_and_run)
                  (subst (λ i. find_key i v.message_keys ≡ some k) keys n, there, run),
            )
      ]
    ]

-- Once a message and its run were created for an idempotency key, each later request with the key is
-- answered with the same event and run and changes nothing, whatever other calls of these methods come
-- between and whatever content the request has.
pub created_once :
    (input again : MessageInput) (now then : ℕ → ℕ) (v w : Vault) (answer : Event × String)
    → (create_message_and_run input now v).0 ≡ ok answer
    → Later (create_message_and_run input now v).1 w
    → again.idempotency_key ≡ input.idempotency_key
    → (event : Event) × (create_message_and_run again then w ≡ (ok (event, answer.1), w))
      × (event.id ≡ answer.0.id)
created_once input again now then v w answer h later same =
    let (k, key, run, event, kept) = created-IsKept input now v answer h in
    let (found, replay, own) =
      replayed k again then w (same ∙ key) (Later-IsKept k _ w later kept) in
    (
      found,
      replay ∙ ap (λ r. (ok (found, r), w)) (sym run),
      ground (arith, eq_iff found.id k.event_id, event),
    )
