-- ===== src/Retrieval/Context/Groups.antt =====
-- The map of turns by their index in packages/retrieval/src/context.ts.
use mathlib.Core.List.{append-nil, append_assoc}
use native.Mathlib.Decide.{ℕ_discrete}
use infinite_context.Prelude.{
  ℕ, ◌+◌, ◌≤◌, List, [], ◌∷◌, ◌++◌, ◌==◌, keep, ◌≡◌, refl, arith, All, count, Bool-cases,
  keep-append, inl, inr, if◌then◌else◌, ap, ◌∙◌, sym, subst, ◌≢◌, subst, ◌≢◌,
}
use infinite_context.Retrieval.Context.{Turn, Group, add_turn, group_turns}

-- The turns of one index.
abbrev pub at_index : ℕ → List Turn → List Turn
at_index i = keep (λ t. t.turn_index == i)

abbrev pub groups_at : ℕ → List Group → ℕ
groups_at i = count (λ g. g.index == i)

abbrev pub IsWhole : List Turn → List Group → Type 0
IsWhole seen = All (λ g. g.turns ≡ at_index g.index seen)

-- What the map of groups is after the turns `seen`.
pub record IsGrouping (seen : List Turn) (gs : List Group) : Type 0 where
  pub whole : IsWhole seen gs
  pub single : (i : ℕ) → groups_at i gs ≤ 1
  pub covers : (i : ℕ) → groups_at i gs ≡ 0 → at_index i seen ≡ []

add_turn-groups_at :
    (i : ℕ) (t : Turn) (gs : List Group)
    → groups_at i (add_turn t gs) ≡ (
        if t.turn_index == i
        then (if groups_at t.turn_index gs == 0 then groups_at i gs + 1 else groups_at i gs)
        else groups_at i gs)
unfolding add_turn
add_turn-groups_at i t [] = ground arith
add_turn-groups_at i t (g ∷ gs) = ground (arith, add_turn-groups_at i t gs)

at_index-append_self :
    (i : ℕ) (seen : List Turn) (t : Turn)
    → t.turn_index ≡ i
    → at_index i (seen ++ t ∷ []) ≡ at_index i seen ++ t ∷ []
at_index-append_self i seen t h =
    keep-append (λ u. u.turn_index == i) seen (t ∷ [])
    ∙ ap (λ k. at_index i seen ++ k) (ground arith)

at_index-append_ne :
    (i : ℕ) (seen : List Turn) (t : Turn)
    → t.turn_index ≢ i
    → at_index i (seen ++ t ∷ []) ≡ at_index i seen
at_index-append_ne i seen t h =
    keep-append (λ u. u.turn_index == i) seen (t ∷ [])
    ∙ ap (λ k. at_index i seen ++ k) (ground arith)
    ∙ append-nil (at_index i seen)

add_turn_other :
    (seen : List Turn) (t : Turn) (gs : List Group)
    → groups_at t.turn_index gs ≡ 0
    → IsWhole seen gs
    → IsWhole (seen ++ t ∷ []) gs
add_turn_other seen t [] z v = tt
add_turn_other seen t (g ∷ gs) z v = (
  v.0 ∙ sym (at_index-append_ne g.index seen t (λ e. ground arith)),
  add_turn_other seen t gs (ground arith) v.1,
)

add_turn-IsWhole :
    (seen : List Turn) (t : Turn) (gs : List Group)
    → groups_at t.turn_index gs ≤ 1
    → (groups_at t.turn_index gs ≡ 0 → at_index t.turn_index seen ≡ [])
    → IsWhole seen gs
    → IsWhole (seen ++ t ∷ []) (add_turn t gs)
unfolding add_turn
add_turn-IsWhole seen t [] o c v =
    (sym (at_index-append_self t.turn_index seen t refl ∙ ap (λ k. k ++ t ∷ []) (c refl)), tt)
add_turn-IsWhole seen t (g ∷ gs) o c v = elim (Bool-cases (g.index == t.turn_index)) [
  | inl e ↦ rw e (
    ap (λ k. k ++ t ∷ []) v.0 ∙ sym (at_index-append_self g.index seen t (ground arith)),
    add_turn_other seen t gs (ground arith) v.1,
  )
  | inr e ↦ rw e (
    v.0 ∙ sym (at_index-append_ne g.index seen t (λ q. ground arith)),
    add_turn-IsWhole seen t gs (ground arith) (λ z. c (ground arith)) v.1,
  )
]

add_turn-IsGrouping :
    (seen : List Turn) (t : Turn) (gs : List Group)
    → IsGrouping seen gs
    → IsGrouping (seen ++ t ∷ []) (add_turn t gs)
add_turn-IsGrouping seen t gs s = record {
  whole = add_turn-IsWhole seen t gs (s.single t.turn_index) (s.covers t.turn_index) s.whole;
  single = λ i. ground (arith, add_turn-groups_at i t gs, s.single i);
  covers = λ i z. elim (ℕ_discrete t.turn_index i) [
    | yes e ↦ absurd (ground (arith, add_turn-groups_at i t gs))
    | no d ↦ at_index-append_ne i seen t d ∙ s.covers i (ground (arith, add_turn-groups_at i t gs))
  ];
}

pub group_turns-IsGrouping :
    (seen : List Turn) (gs : List Group) (ts : List Turn)
    → IsGrouping seen gs
    → IsGrouping (seen ++ ts) (group_turns gs ts)
unfolding group_turns
group_turns-IsGrouping seen gs [] s = subst (λ k. IsGrouping k gs) (sym (append-nil seen)) s
group_turns-IsGrouping seen gs (t ∷ ts) s =
    subst (λ k. IsGrouping k (group_turns (add_turn t gs) ts)) (append_assoc seen (t ∷ []) ts)
      (group_turns-IsGrouping (seen ++ t ∷ []) (add_turn t gs) ts (add_turn-IsGrouping seen t gs s))
