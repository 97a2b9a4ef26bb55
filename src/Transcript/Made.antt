-- ===== src/Transcript/Made.antt =====
-- What `createMessageAndRun` of packages/database/src/index.ts keeps of what it makes.
use infinite_context.Prelude.{
  ℕ, ◌+◌, String, none, some, Bool, true, false, List, [], ◌∷◌, ◌++◌, ◌≡◌, refl, arith, Bool-cases,
  Result-cases, ok, inl, inr, any, find_by, eq_iff, subst, ap, ◌∙◌,
}
use infinite_context.Transcript.Tables.{Event, Run, MessageKey, Vault, is_event, is_run}
use infinite_context.Transcript.Events.{append_event, new_event, max_sequence, all_attachments}
use infinite_context.Transcript.Runs.{
  MessageInput, message_event, create_run, new_run, create_message_run, create_message_fresh,
  is_message_key, insert_message_key,
}
use infinite_context.Transcript.Keys.{append_event-keys, create_run-keys}
use infinite_context.Transcript.Changes.{EventChange-any}
use infinite_context.Transcript.Touched.{create_run-Effect}
use infinite_context.Transcript.Answers.{IsKept, find_key}

any-last {ℓ} :
    {A : Type ℓ} (test : A → Bool) (xs : List A) (a : A)
    → test a ≡ true
    → any test (xs ++ a ∷ []) ≡ true
any-last test [] a h = ground (arith, h)
any-last test (x ∷ xs) a h = ground (arith, any-last test xs a h)

append-made :
    (event : Event) (id : String) (v : Vault) (now : ℕ) (input : MessageInput)
    → (append_event (message_event input) id now v).0 ≡ ok event
    → any (is_event event.id) (append_event (message_event input) id now v).1.events ≡ true
unfolding append_event
append-made event id v now input h =
    let made = new_event (message_event input) id (max_sequence v.events + 1) now in
    elim (Bool-cases (any (is_event id) v.events)) [
      | inl t ↦ absurd (ground (arith, t))
      | inr t ↦ elim (Bool-cases (all_attachments v.attachments input.attachment_ids)) [
        | inr a ↦ absurd (ground (arith, t, a))
        | inl a ↦
            let same : made ≡ event = ground (arith, t, a) in
            rw (t, a)
              (subst (λ e. any (is_event e.id) (v.events ++ made ∷ []) ≡ true) same
                (any-last (is_event id) v.events made (ground (arith, eq_iff id id))))
      ]
    ]

run-made :
    (run : Run) (id user_event_id quality : String) (now : ℕ) (v : Vault)
    → (create_run id user_event_id quality now v).0 ≡ ok run
    → any (is_run run.id) (create_run id user_event_id quality now v).1.runs ≡ true
unfolding create_run
run-made run id user_event_id quality now v h = elim (Bool-cases (any (is_run id) v.runs)) [
  | inl t ↦ absurd (ground (arith, t))
  | inr t ↦ elim (Bool-cases (any (is_event user_event_id) v.events)) [
    | inr a ↦ absurd (ground (arith, t, a))
    | inl a ↦
        let same : new_run id user_event_id quality now ≡ run = ground (arith, t, a) in
        rw (t, a)
          (subst
            (λ r. any (is_run r.id) (v.runs ++ new_run id user_event_id quality now ∷ []) ≡ true)
            same (any-last (is_run id) v.runs _ (ground (arith, eq_iff id id))))
  ]
]

pub find-inserted :
    (k : MessageKey) (keys : List MessageKey)
    → any (is_message_key k.key) keys ≡ false
    → find_key k.key (insert_message_key k keys) ≡ some k
find-inserted k [] h = ground (arith, eq_iff k.key k.key)
find-inserted k (l ∷ keys) h = ground (arith, eq_iff k.key k.key, find-inserted k keys)

pub any-find_none :
    (test : MessageKey → Bool) (keys : List MessageKey)
    → find_by test keys ≡ none
    → any test keys ≡ false
any-find_none test [] h = refl
any-find_none test (k ∷ keys) h = ground (arith, any-find_none test keys)

abbrev pub key_of : MessageInput → Event × String → MessageKey
key_of input answer = record {
  key = input.idempotency_key;
  event_id = answer.0.id;
  run_id = answer.1;
}

pub run-IsKept :
    (input : MessageInput) (now : ℕ) (old : Vault) (event : Event) (v : Vault)
    (answer : Event × String)
    → (create_message_run input now old event v).0 ≡ ok answer
    → any (is_event event.id) v.events ≡ true
    → any (is_message_key input.idempotency_key) v.message_keys ≡ false
    → IsKept (key_of input answer) (create_message_run input now old event v).1
run-IsKept input now old event v answer h there free =
    let made = create_run input.new_run_id event.id input.quality now v in
    elim (Result-cases made.0) [
      | inr (refused, t) ↦ absurd (ground (arith, t))
      | inl (run, t) ↦
          let same : (event, run.id) ≡ answer = ground (arith, t) in
          let kept = create_run-keys input.new_run_id event.id input.quality now v in
          let effect = create_run-Effect input.new_run_id event.id input.quality now v in
          rw (t, create_message_run)
            (subst
              (λ a. IsKept (key_of input a) (record made.1 {
                message_keys =
                    insert_message_key
                      (record { key = input.idempotency_key; event_id = event.id; run_id = run.id })
                      made.1.message_keys;
              }))
              same
              (
                find-inserted _ made.1.message_keys
                    (ap (any (is_message_key input.idempotency_key)) kept ∙ free),
                EventChange-any event.id effect.0 there,
                run-made run input.new_run_id event.id input.quality now v t,
              ))
    ]

pub fresh-IsKept :
    (input : MessageInput) (now : ℕ → ℕ) (old v : Vault) (answer : Event × String)
    → (create_message_fresh input now old v).0 ≡ ok answer
    → any (is_message_key input.idempotency_key) v.message_keys ≡ false
    → IsKept (key_of input answer) (create_message_fresh input now old v).1
unfolding create_message_fresh
fresh-IsKept input now old v answer h free =
    let made = append_event (message_event input) input.new_event_id (now 0) v in
    elim (Result-cases made.0) [
      | inr (refused, t) ↦ absurd (ground (arith, t))
      | inl (event, t) ↦
          let kept = append_event-keys (message_event input) input.new_event_id (now 0) v in
          rw (t, create_message_fresh)
            (run-IsKept input (now 1) old event made.1 answer (ground (arith, t))
              (append-made event input.new_event_id v (now 0) input t)
              (ap (any (is_message_key input.idempotency_key)) kept ∙ free))
    ]
