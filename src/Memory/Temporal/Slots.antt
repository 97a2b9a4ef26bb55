-- ===== src/Memory/Temporal/Slots.antt =====
-- packages/memory/src/temporal.ts keeps at most one current claim to a slot.
use infinite_context.Prelude.{
  ℕ, ◌≤◌, String, Option, none, some, Bool, true, false, List, [], ◌∷◌, ◌++◌, map, ◌≡◌, refl, arith,
  Bool-cases, inl, inr, count, ◌&&◌, str_eq, eq_iff, All, count-append, subst, sym,
}
use infinite_context.Memory.Claim.{
  Claim, Status, historical, current, conflicted, expired, reached, start_of, Platform, with_status,
  same_slot, is_current, normalize, same_topic,
}
use infinite_context.Memory.Temporal.Cases.{reconcile_cases}
use infinite_context.Memory.Temporal.{
  reconcile_claim, relevant, supersede, conflict, has_id, is_active,
}

module _ (p : Platform) where
  -- The current claims in the slot of `x`.
  abbrev pub holds_slot : Claim → Claim → Bool
  holds_slot x c = same_slot p c x && is_current c.status

  abbrev pub current_in_slot : Claim → List Claim → ℕ
  current_in_slot x = count (holds_slot x)

  abbrev pub HasSingleCurrents : List Claim → Type 0
  HasSingleCurrents cs = (x : Claim) → current_in_slot x cs ≤ 1

  same_topic_join :
      (a b c : Option String)
      → same_topic p a b ≡ true
      → same_topic p c b ≡ true
      → same_topic p c a ≡ true
  same_topic_join (some a) (some b) (some c) h k =
      ground (arith, eq_iff a b, eq_iff c b, eq_iff c a)
  same_topic_join (some a) (some b) none h k = ground arith
  same_topic_join (some a) none c h k = ground arith
  same_topic_join none none none h k = refl
  same_topic_join none none (some c) h k = ground arith
  same_topic_join none (some b) c h k = ground arith

  text_join : (a b c : String) → str_eq a b ≡ true → str_eq c b ≡ true → str_eq c a ≡ true
  text_join a b c h k = ground (arith, eq_iff a b, eq_iff c b, eq_iff c a)

  -- Two claims in the slot of a third are in one slot.
  same_slot_join :
      (a b c : Claim) → same_slot p a b ≡ true → same_slot p c b ≡ true → same_slot p c a ≡ true
  unfolding same_slot
  same_slot_join a b c h k = ground (
    arith,
    same_topic_join a.topic_id b.topic_id c.topic_id,
    text_join (normalize p a.subject) (normalize p b.subject) (normalize p c.subject),
    text_join (normalize p a.predicate) (normalize p b.predicate) (normalize p c.predicate),
  )

  -- Each active claim in the slot of the incoming one is among the competing ones, by its id.
  abbrev Covers : Claim → List Claim → List Claim → Type 0
  Covers incoming active =
      All (λ c. same_slot p c incoming && is_active c ≡ true → has_id p c.id active ≡ true)

  Covers-cons :
      (incoming y : Claim) (active cs : List Claim)
      → Covers incoming active cs
      → Covers incoming (y ∷ active) cs
  Covers-cons incoming y active [] h = tt
  Covers-cons incoming y active (c ∷ cs) h =
      (λ q. ground (arith, h.0 q), Covers-cons incoming y active cs h.1)

  relevant-Covers :
      (incoming : Claim) (cs : List Claim) → Covers incoming (relevant p cs incoming) cs
  relevant-Covers incoming [] = tt
  relevant-Covers incoming (c ∷ cs) = elim (Bool-cases (same_slot p c incoming && is_active c)) [
    | inl h ↦
        let e : relevant p (c ∷ cs) incoming ≡ c ∷ relevant p cs incoming = rw h refl in
        subst (λ a. Covers incoming a (c ∷ cs)) (sym e)
          (
            (λ q. ground (arith, eq_iff c.id c.id)),
            Covers-cons incoming c _ cs (relevant-Covers incoming cs),
          )
    | inr h ↦
        let e : relevant p (c ∷ cs) incoming ≡ relevant p cs incoming = rw h refl in
        subst (λ a. Covers incoming a (c ∷ cs)) (sym e)
          ((λ q. cc (q, h)), relevant-Covers incoming cs)
  ]

  supersede-slot :
      (active : List Claim) (cutoff : String) (x c : Claim)
      → same_slot p (supersede p active cutoff c) x ≡ same_slot p c x
  unfolding same_slot
  supersede-slot active cutoff x c = ground arith

  conflict-slot :
      (active : List Claim) (x c : Claim) → same_slot p (conflict p active c) x ≡ same_slot p c x
  unfolding same_slot
  conflict-slot active x c = ground arith

  current_in_slot-supersede-le :
      (active : List Claim) (cutoff : String) (x : Claim) (cs : List Claim)
      → current_in_slot x (map (supersede p active cutoff) cs) ≤ current_in_slot x cs
  current_in_slot-supersede-le active cutoff x [] = omega arith
  current_in_slot-supersede-le active cutoff x (c ∷ cs) =
      ground
        (arith, supersede-slot active cutoff x c, current_in_slot-supersede-le active cutoff x cs)

  current_in_slot-conflict-le :
      (active : List Claim) (x : Claim) (cs : List Claim)
      → current_in_slot x (map (conflict p active) cs) ≤ current_in_slot x cs
  current_in_slot-conflict-le active x [] = omega arith
  current_in_slot-conflict-le active x (c ∷ cs) =
      ground (arith, conflict-slot active x c, current_in_slot-conflict-le active x cs)

  current_in_slot-supersede :
      (incoming : Claim) (active : List Claim) (cutoff : String) (x : Claim) (cs : List Claim)
      → same_slot p incoming x ≡ true
      → Covers incoming active cs
      → current_in_slot x (map (supersede p active cutoff) cs) ≡ 0
  current_in_slot-supersede incoming active cutoff x [] h v = refl
  current_in_slot-supersede incoming active cutoff x (c ∷ cs) h v = ground (
    arith,
    supersede-slot active cutoff x c,
    same_slot_join incoming x c,
    v.0,
    current_in_slot-supersede incoming active cutoff x cs h v.1,
  )

  -- An empty relevant list leaves the slot without current claims.
  relevant_empty :
      (incoming x : Claim) (cs : List Claim)
      → same_slot p incoming x ≡ true
      → Covers incoming [] cs
      → current_in_slot x cs ≡ 0
  relevant_empty incoming x [] h v = refl
  relevant_empty incoming x (c ∷ cs) h v =
      ground (arith, same_slot_join incoming x c, v.0, relevant_empty incoming x cs h v.1)

  status-slot : (s : Status) (x c : Claim) → same_slot p (with_status c s) x ≡ same_slot p c x
  unfolding same_slot
  status-slot s x c = refl

  append_dormant :
      (x incoming : Claim) (kept existing : List Claim) (s : Status)
      → is_current s ≡ false
      → current_in_slot x kept ≤ current_in_slot x existing
      → current_in_slot x existing ≤ 1
      → current_in_slot x (kept ++ with_status incoming s ∷ []) ≤ 1
  append_dormant x incoming kept existing s d h w =
      ground (arith, count-append (holds_slot x) kept (with_status incoming s ∷ []))

  -- The incoming claim may be current where its slot holds no other.
  append_current :
      (x incoming : Claim) (kept existing : List Claim)
      → current_in_slot x kept ≤ current_in_slot x existing
      → current_in_slot x existing ≤ 1
      → (same_slot p incoming x ≡ true → current_in_slot x kept ≡ 0)
      → current_in_slot x (kept ++ with_status incoming current ∷ []) ≤ 1
  append_current x incoming kept existing h w z = ground (
    arith,
    count-append (holds_slot x) kept (with_status incoming current ∷ []),
    status-slot current x incoming,
  )

  -- Whatever comes in, no slot gets a second current claim.
  pub reconcile_claim-HasSingleCurrents :
      (existing : List Claim) (incoming : Claim) (now : String)
      → HasSingleCurrents existing
      → HasSingleCurrents (reconcile_claim p existing incoming now).claims
  reconcile_claim-HasSingleCurrents existing incoming now w x =
      let dormant = λ (s : Status) (d : is_current s ≡ false).
        append_dormant x incoming existing existing s d (omega arith) (w x) in
      let covers = relevant-Covers incoming existing in
      reconcile_cases p existing incoming now (λ r. current_in_slot x r.claims ≤ 1)
        (λ h. dormant historical refl) (λ a d e h. dormant historical refl)
        (λ e. elim (Bool-cases (reached p incoming.freshness_expires_at now)) [
          | inl stale ↦ rw stale (dormant expired refl)
          | inr fresh ↦ rw fresh (
              append_current x incoming existing existing (omega arith) (w x)
                (λ h. relevant_empty incoming x existing h (rw e at covers)))
        ])
        (λ c cs e h.
          append_current x incoming _ existing
            (current_in_slot-supersede-le (c ∷ cs) (start_of p incoming) x existing) (w x)
            (λ k.
              current_in_slot-supersede incoming (c ∷ cs) (start_of p incoming) x existing k
                (rw e at covers)))
        (λ c cs e h k. dormant conflicted refl)
        (λ c cs e h k.
          append_dormant x incoming _ existing conflicted refl
            (current_in_slot-conflict-le (c ∷ cs) x existing) (w x))
