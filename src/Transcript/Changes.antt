-- ===== src/Transcript/Changes.antt =====
-- How the methods of the transcript in packages/database/src/index.ts change the tables `events` and `runs`,
-- and what such changes keep.
use infinite_context.Prelude.{
  ◌+◌, ◌≤◌, ◌<◌, String, Bool, true, false, List, [], ◌∷◌, ◌++◌, ◌≡◌, refl, arith, Bool-cases, inl,
  inr, str_eq, eq_iff, any, max, update, All, All-append, All-update, All-weaken, HasKeys,
  HasKeys-append, update-HasKeys, any-append_left, any-update, ap, ◌∙◌,
}
use infinite_context.Transcript.Tables.{Event, Run, is_event, is_run, is_pending}
use infinite_context.Transcript.Events.{max_sequence}
use infinite_context.Transcript.Runs.{is_claimable}

pub data EventChange : List Event → List Event → Type 0 where
  kept : {es : List Event} → EventChange es es
  changed :
      (test : Event → Bool) (change : Event → Event) {es : List Event}
      → ((e : Event) → (change e).id ≡ e.id)
      → ((e : Event) → (change e).sequence ≡ e.sequence)
      → EventChange es (update test change es)
  added :
      (e : Event) {es : List Event}
      → any (is_event e.id) es ≡ false
      → e.sequence ≡ max_sequence es + 1
      → EventChange es (es ++ e ∷ [])
  followed : {es fs gs : List Event} → EventChange es fs → EventChange fs gs → EventChange es gs

abbrev pub event_id : Event → String
event_id e = e.id

-- Each event has a larger sequence number than those before it.
abbrev pub IsNumbered : List Event → Type 0
IsNumbered [] = Unit
IsNumbered (e ∷ es) = All (λ f. e.sequence < f.sequence) es × IsNumbered es

max_sequence-le : (es : List Event) → All (λ f. f.sequence ≤ max_sequence es) es
max_sequence-le [] = tt
max_sequence-le (e ∷ es) = (
  omega arith,
  All-weaken (λ f. f.sequence ≤ max_sequence es)
      (λ f. f.sequence ≤ max e.sequence (max_sequence es)) es (λ f h. omega arith)
      (max_sequence-le es),
)

IsNumbered-append :
    (e : Event) (es : List Event)
    → All (λ f. f.sequence < e.sequence) es
    → IsNumbered es
    → IsNumbered (es ++ e ∷ [])
IsNumbered-append e [] h n = (tt, tt)
IsNumbered-append e (f ∷ es) h n =
    (All-append _ es (e ∷ []) n.0 (h.0, tt), IsNumbered-append e es h.1 n.1)

update-IsNumbered :
    (test : Event → Bool) (change : Event → Event) (es : List Event)
    → ((e : Event) → (change e).sequence ≡ e.sequence)
    → IsNumbered es
    → IsNumbered (update test change es)
update-IsNumbered test change [] same n = tt
update-IsNumbered test change (e ∷ es) same n =
    let rest = update-IsNumbered test change es same n.1 in
    elim (Bool-cases (test e)) [
      | inl t ↦ rw t (
        All-update _ _ test change es (λ f u h. omega (arith, same e, same f))
            (λ f u h. omega (arith, same e)) n.0,
        rest,
      )
      | inr t ↦
          rw t
            (All-update _ _ test change es (λ f u h. omega (arith, same f)) (λ f u h. h) n.0, rest)
    ]

pub EventChange-HasKeys :
    {es fs : List Event} → EventChange es fs → HasKeys event_id es → HasKeys event_id fs
EventChange-HasKeys kept k = k
EventChange-HasKeys (changed test change ids numbers) k =
    update-HasKeys event_id test change _ ids k
EventChange-HasKeys (added e free number) k = HasKeys-append event_id e _ free k
EventChange-HasKeys (followed c d) k = EventChange-HasKeys d (EventChange-HasKeys c k)

pub EventChange-IsNumbered :
    {es fs : List Event} → EventChange es fs → IsNumbered es → IsNumbered fs
EventChange-IsNumbered kept n = n
EventChange-IsNumbered (changed test change ids numbers) n =
    update-IsNumbered test change _ numbers n
EventChange-IsNumbered (added e {es} free number) n =
    IsNumbered-append e es (All-weaken _ _ es (λ f h. omega (arith, number)) (max_sequence-le es)) n
EventChange-IsNumbered (followed c d) n = EventChange-IsNumbered d (EventChange-IsNumbered c n)

pub EventChange-any :
    {es fs : List Event} (id : String)
    → EventChange es fs
    → any (is_event id) es ≡ true
    → any (is_event id) fs ≡ true
EventChange-any id kept h = h
EventChange-any id (changed test change {es} ids numbers) h =
    any-update (is_event id) test change es (λ e. ap (λ i. str_eq i id) (ids e)) ∙ h
EventChange-any id (added e {es} free number) h = any-append_left (is_event id) es (e ∷ []) h
EventChange-any id (followed c d) h = EventChange-any id d (EventChange-any id c h)

-- No change makes a run pending again.
pub data RunChange : List Run → List Run → Type 0 where
  kept : {rs : List Run} → RunChange rs rs
  changed :
      (test : Run → Bool) (change : Run → Run) {rs : List Run}
      → ((r : Run) → (change r).id ≡ r.id)
      → ((r : Run) → is_pending r.status ≡ false → is_pending (change r).status ≡ false)
      → RunChange rs (update test change rs)
  added : (r : Run) {rs : List Run} → any (is_run r.id) rs ≡ false → RunChange rs (rs ++ r ∷ [])
  followed : {rs ss ts : List Run} → RunChange rs ss → RunChange ss ts → RunChange rs ts

abbrev pub run_id : Run → String
run_id r = r.id

pub RunChange-HasKeys : {rs ss : List Run} → RunChange rs ss → HasKeys run_id rs → HasKeys run_id ss
RunChange-HasKeys kept k = k
RunChange-HasKeys (changed test change ids stays) k = update-HasKeys run_id test change _ ids k
RunChange-HasKeys (added r free) k = HasKeys-append run_id r _ free k
RunChange-HasKeys (followed c d) k = RunChange-HasKeys d (RunChange-HasKeys c k)

pub RunChange-any :
    {rs ss : List Run} (id : String)
    → RunChange rs ss
    → any (is_run id) rs ≡ true
    → any (is_run id) ss ≡ true
RunChange-any id kept h = h
RunChange-any id (changed test change {rs} ids stays) h =
    any-update (is_run id) test change rs (λ r. ap (λ i. str_eq i id) (ids r)) ∙ h
RunChange-any id (added r {rs} free) h = any-append_left (is_run id) rs (r ∷ []) h
RunChange-any id (followed c d) h = RunChange-any id d (RunChange-any id c h)

none_claimable-update :
    (id : String) (test : Run → Bool) (change : Run → Run) (rs : List Run)
    → ((r : Run) → (change r).id ≡ r.id)
    → ((r : Run) → is_pending r.status ≡ false → is_pending (change r).status ≡ false)
    → any (is_claimable id) rs ≡ false
    → any (is_claimable id) (update test change rs) ≡ false
none_claimable-update id test change [] ids stays h = refl
none_claimable-update id test change (r ∷ rs) ids stays h = ground (
  arith,
  ap (λ i. str_eq i id) (ids r),
  stays r,
  none_claimable-update id test change rs ids stays,
)

none_claimable-append :
    (id : String) (r : Run) (rs : List Run)
    → str_eq r.id id ≡ false
    → any (is_claimable id) rs ≡ false
    → any (is_claimable id) (rs ++ r ∷ []) ≡ false
none_claimable-append id r [] ne h = ground (arith, ne)
none_claimable-append id r (s ∷ rs) ne h = ground (arith, none_claimable-append id r rs ne)

other_id :
    (id new : String) (rs : List Run)
    → any (is_run id) rs ≡ true
    → any (is_run new) rs ≡ false
    → str_eq new id ≡ false
other_id id new [] h free = absurd (ground arith)
other_id id new (r ∷ rs) h free =
    ground (arith, other_id id new rs, eq_iff r.id id, eq_iff r.id new, eq_iff new id)

-- A run that is not pending can be claimed in no later table.
pub RunChange-claimed :
    {rs ss : List Run} (id : String)
    → RunChange rs ss
    → any (is_run id) rs ≡ true
    → any (is_claimable id) rs ≡ false
    → any (is_claimable id) ss ≡ false
RunChange-claimed id kept p h = h
RunChange-claimed id (changed test change {rs} ids stays) p h =
    none_claimable-update id test change rs ids stays h
RunChange-claimed id (added r {rs} free) p h =
    none_claimable-append id r rs (other_id id r.id rs p free) h
RunChange-claimed id (followed c d) p h =
    RunChange-claimed id d (RunChange-any id c p) (RunChange-claimed id c p h)
