-- ===== src/Transcript/Revisions/Single.antt =====
-- At most one revision of an answer is active in packages/database/src/index.ts.
use infinite_context.Prelude.{
  ℕ, ◌+◌, ◌≤◌, ◌<◌, String, none, Bool, true, false, List, [], ◌∷◌, ◌++◌, ◌&&◌, ◌≡◌, refl, arith,
  Bool-cases, inl, inr, any, count, find_by, str_eq, eq_iff, update, All, All-append, All-weaken,
  All-update, HasKeys, HasKeys-append, update-HasKeys, count-append,
}
use infinite_context.Transcript.Tables.{Revision, is_answer, is_answer_to}
use infinite_context.Transcript.Revisions.{max_revision, retired, new_revision}

abbrev is_current : String → Revision → Bool
is_current user r = is_answer_to user r && r.active

abbrev pub answer_id : Revision → String
answer_id r = r.assistant_event_id

-- Revisions of one answer have rising numbers.
abbrev pub IsRising : List Revision → Type 0
IsRising [] = Unit
IsRising (r ∷ rs) =
    All (λ s. str_eq s.user_event_id r.user_event_id ≡ true → r.revision_number < s.revision_number)
      rs
    × IsRising rs

pub record AreSound (rs : List Revision) : Type 0 where
  pub keyed : HasKeys answer_id rs
  pub rising : IsRising rs
  pub single : (user : String) → count (is_current user) rs ≤ 1

max_revision-le :
    (user : String) (rs : List Revision)
    → All (λ r. str_eq user r.user_event_id ≡ true → r.revision_number ≤ max_revision user rs) rs
max_revision-le user [] = tt
max_revision-le user (r ∷ rs) = (
  λ h. ground (arith, eq_iff user r.user_event_id, eq_iff r.user_event_id user),
  All-weaken _ _ rs (λ s h e. ground (arith, h e)) (max_revision-le user rs),
)

IsRising-append :
    (r : Revision) (rs : List Revision)
    → All
        (λ s. str_eq r.user_event_id s.user_event_id ≡ true → s.revision_number < r.revision_number)
        rs
    → IsRising rs
    → IsRising (rs ++ r ∷ [])
IsRising-append r [] h n = (tt, tt)
IsRising-append r (s ∷ rs) h n =
    (All-append _ rs (r ∷ []) n.0 (h.0, tt), IsRising-append r rs h.1 n.1)

update-IsRising :
    (test : Revision → Bool) (change : Revision → Revision) (rs : List Revision)
    → ((r : Revision) → (change r).user_event_id ≡ r.user_event_id)
    → ((r : Revision) → (change r).revision_number ≡ r.revision_number)
    → IsRising rs
    → IsRising (update test change rs)
update-IsRising test change [] users numbers n = tt
update-IsRising test change (r ∷ rs) users numbers n =
    let rest = update-IsRising test change rs users numbers n.1 in
    elim (Bool-cases (test r)) [
      | inl t ↦ rw t (
        All-update _ _ test change rs
            (λ s u h e. ground (arith, h, users r, users s, numbers r, numbers s))
            (λ s u h e. ground (arith, h, users r, numbers r)) n.0,
        rest,
      )
      | inr t ↦ rw t (
        All-update _ _ test change rs (λ s u h e. ground (arith, h, users s, numbers s))
            (λ s u h. h) n.0,
        rest,
      )
    ]

count-retired_same :
    (u user : String) (rs : List Revision)
    → str_eq user u ≡ true
    → count (is_current u) (retired user rs) ≡ 0
count-retired_same u user [] h = refl
count-retired_same u user (r ∷ rs) h = ground (
  arith,
  eq_iff user u,
  eq_iff r.user_event_id u,
  eq_iff r.user_event_id user,
  count-retired_same u user rs,
)

abbrev activate : String → Revision → Revision
activate answer r = record r { active = str_eq r.assistant_event_id answer }

-- An update of the revisions of an event leaves those of the others.
count-other :
    (u user : String) (change : Revision → Revision) (rs : List Revision)
    → ((r : Revision) → (change r).user_event_id ≡ r.user_event_id)
    → str_eq user u ≡ false
    → count (is_current u) (update (is_answer_to user) change rs) ≡ count (is_current u) rs
count-other u user change [] users h = refl
count-other u user change (r ∷ rs) users h = ground (
  arith,
  eq_iff user u,
  eq_iff r.user_event_id u,
  eq_iff r.user_event_id user,
  users r,
  count-other u user change rs users h,
)

count-activated_le :
    (u user answer : String) (rs : List Revision)
    → str_eq user u ≡ true
    → count (is_current u) (update (is_answer_to user) (activate answer) rs)
      ≤ count (is_answer answer) rs
count-activated_le u user answer [] h = omega arith
count-activated_le u user answer (r ∷ rs) h = ground (
  arith,
  eq_iff user u,
  eq_iff r.user_event_id u,
  eq_iff r.user_event_id user,
  count-activated_le u user answer rs,
)

count-no_answer :
    (answer : String) (r : Revision) (rs : List Revision)
    → str_eq r.assistant_event_id answer ≡ true
    → All (λ s. str_eq s.assistant_event_id r.assistant_event_id ≡ false) rs
    → count (is_answer answer) rs ≡ 0
count-no_answer answer r [] h v = refl
count-no_answer answer r (s ∷ rs) h v = ground (
  arith,
  v.0,
  eq_iff r.assistant_event_id answer,
  eq_iff s.assistant_event_id answer,
  eq_iff s.assistant_event_id r.assistant_event_id,
  count-no_answer answer r rs h v.1,
)

count-answer_le :
    (answer : String) (rs : List Revision) → HasKeys answer_id rs → count (is_answer answer) rs ≤ 1
count-answer_le answer [] k = omega arith
count-answer_le answer (r ∷ rs) k = elim (Bool-cases (str_eq r.assistant_event_id answer)) [
  | inl t ↦ ground (arith, t, count-no_answer answer r rs t k.0)
  | inr t ↦ ground (arith, t, count-answer_le answer rs k.1)
]

pub activated-AreSound :
    (user answer : String) (rs : List Revision)
    → AreSound rs
    → AreSound (update (is_answer_to user) (activate answer) rs)
activated-AreSound user answer rs s = record {
  keyed = update-HasKeys answer_id _ _ rs (λ r. refl) s.keyed;
  rising = update-IsRising _ _ rs (λ r. refl) (λ r. refl) s.rising;
  single = λ u. elim (Bool-cases (str_eq user u)) [
    | inl t ↦
        let few = count-answer_le answer rs s.keyed in
        let fewer = count-activated_le u user answer rs t in omega arith
    | inr t ↦
        let same = count-other u user (activate answer) rs (λ r. refl) t in
        let few = s.single u in omega arith
  ];
}

retired-rising :
    (user : String) (rs : List Revision)
    → All
        (λ r. str_eq user r.user_event_id ≡ true → r.revision_number < max_revision user rs + 1)
        (retired user rs)
retired-rising user rs =
    All-update _ _ _ _ rs (λ r t h e. omega (arith, h e)) (λ r t h e. omega (arith, h e))
      (max_revision-le user rs)

any-answer-update :
    (answer : String) (test : Revision → Bool) (change : Revision → Revision) (rs : List Revision)
    → ((r : Revision) → (change r).assistant_event_id ≡ r.assistant_event_id)
    → find_by (is_answer answer) rs ≡ none
    → any (is_answer answer) (update test change rs) ≡ false
any-answer-update answer test change [] same h = refl
any-answer-update answer test change (r ∷ rs) same h =
    ground (arith, same r, any-answer-update answer test change rs same)

pub added-AreSound :
    (id user answer : String) (now : ℕ) (rs : List Revision)
    → find_by (is_answer answer) rs ≡ none
    → AreSound rs
    → AreSound (retired user rs ++ new_revision id user answer (max_revision user rs + 1) now ∷ [])
added-AreSound id user answer now rs free s =
    let new = new_revision id user answer (max_revision user rs + 1) now in
    record {
      keyed =
          HasKeys-append answer_id new (retired user rs)
            (any-answer-update answer _ _ rs (λ r. refl) free)
            (update-HasKeys answer_id _ _ rs (λ r. refl) s.keyed);
      rising =
          IsRising-append new (retired user rs) (retired-rising user rs)
            (update-IsRising _ _ rs (λ r. refl) (λ r. refl) s.rising);
      single = λ u.
          let both = count-append (is_current u) (retired user rs) (new ∷ []) in
          elim (Bool-cases (str_eq user u)) [
            | inl t ↦ let gone = count-retired_same u user rs t in ground (arith, both, gone, t)
            | inr t ↦
                let same =
                  count-other u user (λ (r : Revision). record r { active = false }) rs (λ r. refl)
                    t in
                let few = s.single u in ground (arith, both, same, few, t)
          ];
    }
