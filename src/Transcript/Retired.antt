-- ===== src/Transcript/Retired.antt =====
-- What `registerAssistantRevision` of packages/database/src/index.ts retires.
use infinite_context.Prelude.{
  ℕ, String, none, true, false, List, [], ◌∷◌, ◌&&◌, not, ◌≡◌, refl, arith, Bool-cases, inl, inr,
  any, keep, some, update, str_eq, eq_iff, find_by, All, All-update, All-weaken, All-both,
  All-trivial, All-keep, All-keep_kept, ok,
}
use infinite_context.Transcript.Tables.{Event, Revision, Vault, is_event, is_answer}
use infinite_context.Transcript.Events.{exclude_event}
use infinite_context.Transcript.Revisions.{
  is_older, older_ids, exclude_events, is_among, add_revision, register_assistant_revision,
}
use infinite_context.Transcript.Changes.{EventChange-any}
use infinite_context.Transcript.Effects.{exclude_events-Effect}

older_listed :
    (user answer : String) (es : List Event)
    → All (λ e. is_older user answer e ≡ true → is_among e.id (older_ids user answer es) ≡ true) es
older_listed user answer [] = tt
older_listed user answer (e ∷ es) = (
  λ h. ground (arith, eq_iff e.id e.id),
  All-weaken _ _ es (λ f h t. ground (arith, h t)) (older_listed user answer es),
)

excluded_older :
    (user answer : String) (ids : List String) (v : Vault)
    → All (λ e. is_older user answer e ≡ true → is_among e.id ids ≡ true) v.events
    → All (λ e. is_older user answer e ≡ false) (exclude_events ids v).events
unfolding exclude_event
excluded_older user answer [] v h =
    All-weaken _ _ v.events
      (λ e f. elim (Bool-cases (is_older user answer e)) [
        | inl t ↦ absurd (ground (arith, f t))
        | inr t ↦ t
      ])
      h
excluded_older user answer (id ∷ ids) v h = excluded_older user answer ids (exclude_event id v) (
    All-update _ _ (is_event id) _ v.events (λ e t f o. absurd (ground arith))
      (λ e t f o. ground (arith, f o, eq_iff e.id id, eq_iff id e.id)) h)

excluded_vectors :
    (ids : List String) (v : Vault) (P : String → Type 0)
    → All P v.vectors
    → All (λ s. P s × (is_among s ids ≡ false)) (exclude_events ids v).vectors
unfolding exclude_event
excluded_vectors [] v P h = All-weaken _ _ v.vectors (λ s p. (p, refl)) h
excluded_vectors (id ∷ ids) v P h =
    let test = λ (s : String). not (str_eq s id) in
    let left =
      All-both P (λ s. test s ≡ true) (λ s. P s × (str_eq s id ≡ false)) (keep test v.vectors)
        (λ s p t. (p, ground arith)) (All-keep_kept P test v.vectors h) (All-keep test v.vectors) in
    All-weaken _ _ (exclude_events ids (exclude_event id v)).vectors
      (λ s p. (p.0.0, ground (arith, p.0.1, p.1, eq_iff id s, eq_iff s id)))
      (excluded_vectors ids (exclude_event id v) (λ s. P s × (str_eq s id ≡ false)) left)

activated-find :
    (id : String) (es : List Event)
    → any (is_event id) es ≡ true
    → (e : Event) × (find_by
          (is_event id)
          (update (is_event id) (λ (f : Event). record f { active = true }) es)
        ≡ some e)
      × (e.active ≡ true)
activated-find id [] h = absurd (ground arith)
activated-find id (f ∷ es) h = elim (Bool-cases (str_eq f.id id)) [
  | inl t ↦ (record f { active = true }, rw (t, t) refl, refl)
  | inr t ↦
      let (e, found, on) = activated-find id es (ground (arith, t)) in (e, rw (t, t) found, on)
]

-- When a new revision is registered, its answer is active afterwards and no other answer to the message is, and
-- the answers that were active lose their vectors.
pub registered-retires :
    (id user answer : String) (now number : ℕ) (v : Vault)
    → find_by (is_answer answer) v.revisions ≡ none
    → (register_assistant_revision id user answer now v).0 ≡ ok number
    → ((e : Event) × (find_by
            (is_event answer)
            (register_assistant_revision id user answer now v).1.events
          ≡ some e)
        × (e.active ≡ true))
      × All
          (λ e. is_older user answer e ≡ false)
          (register_assistant_revision id user answer now v).1.events
      × All
          (λ s. is_among s (older_ids user answer v.events) ≡ false)
          (register_assistant_revision id user answer now v).1.vectors
unfolding register_assistant_revision add_revision
registered-retires id user answer now number v n h =
    let ids = older_ids user answer v.events in
    elim (Bool-cases (any (λ (r : Revision). str_eq r.id id) v.revisions)) [
      | inl t ↦ absurd (ground (arith, n, t))
      | inr t ↦ elim (Bool-cases (any (is_event user) v.events && any (is_event answer) v.events)) [
        | inr p ↦ absurd (ground (arith, n, t, p))
        | inl p ↦
            rw (n, t, p, register_assistant_revision)
              (
                activated-find answer (exclude_events ids v).events
                    (EventChange-any answer (exclude_events-Effect ids v).0 (ground (arith, p))),
                All-update _ _ (is_event answer) _ (exclude_events ids v).events
                    (λ e u o. ground (arith, u)) (λ e u o. o)
                    (excluded_older user answer ids v (older_listed user answer v.events)),
                All-weaken _ _ (exclude_events ids v).vectors (λ s p. p.1)
                    (excluded_vectors ids v (λ s. Unit) (All-trivial v.vectors)),
              )
      ]
    ]
