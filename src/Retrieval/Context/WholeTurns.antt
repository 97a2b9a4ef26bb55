-- ===== src/Retrieval/Context/WholeTurns.antt =====
-- The turns of a packet in packages/retrieval/src/context.ts.
use mathlib.Core.List.{append-nil}
use infinite_context.Prelude.{
  ℕ, ◌-◌, ◌*◌, ◌/◌, ◌≤◌, true, false, not, List, [], ◌∷◌, ◌++◌, min, ◌==◌, keep, any, take,
  ascending, ◌≡◌, refl, arith, All, All-append, All-sort, Bool-cases, keep-append, keep-sort,
  IsAscending, sort-IsAscending, ◌⊎◌, inl, inr, if◌then◌else◌, ap, ◌∙◌,
}
use infinite_context.Retrieval.Context.{
  Turn, Notice, Candidate, PacketInput, Platform, take_fitting, group_tokens, Group, turns_of,
  fill_packet, complete_turn_groups, is_complete, has_index, by_index, unique_evidence,
  default_turns,
}
use infinite_context.Retrieval.Context.Groups.{at_index, groups_at, IsWhole}
use infinite_context.Retrieval.Context.Selection.{
  IsSelection, complete_turn_groups-IsSelection, take-IsSelection, keep-IsSelection,
  sum_by-take_fitting-le,
}

at_index_self : (i : ℕ) (ts : List Turn) → at_index i (at_index i ts) ≡ at_index i ts
at_index_self i [] = refl
at_index_self i (t ∷ ts) = ground (arith, at_index_self i ts)

at_index_ne : (i k : ℕ) (ts : List Turn) → (k == i) ≡ false → at_index i (at_index k ts) ≡ []
at_index_ne i k [] h = refl
at_index_ne i k (t ∷ ts) h = ground (arith, at_index_ne i k ts)

at_index-turns_of_none :
    (input : List Turn) (i : ℕ) (gs : List Group)
    → IsWhole input gs
    → groups_at i gs ≡ 0
    → at_index i (turns_of gs) ≡ []
at_index-turns_of_none input i [] w z = refl
at_index-turns_of_none input i (g ∷ gs) w z =
    keep-append (λ u. u.turn_index == i) g.turns (turns_of gs)
    ∙ ap (λ k. at_index i k ++ at_index i (turns_of gs)) w.0
    ∙ ap (λ k. k ++ at_index i (turns_of gs)) (at_index_ne i g.index input (ground arith))
    ∙ at_index-turns_of_none input i gs w.1 (ground arith)

-- None of the turns of an index, or all of them.
abbrev pub IsAllOrNone : List Turn → List Turn → ℕ → Type 0
IsAllOrNone input ts i = (at_index i ts ≡ []) ⊎ (at_index i ts ≡ at_index i input)

at_index-turns_of :
    (input : List Turn) (i : ℕ) (gs : List Group)
    → IsWhole input gs
    → groups_at i gs ≤ 1
    → IsAllOrNone input (turns_of gs) i
at_index-turns_of input i [] w z = inl refl
at_index-turns_of input i (g ∷ gs) w z =
    let e = keep-append (λ (u : Turn). u.turn_index == i) g.turns (turns_of gs) in
    elim (Bool-cases (g.index == i)) [
      | inl h ↦
          let same_index : g.index ≡ i = ground arith in
          inr (
            e
            ∙ ap (λ k. at_index i g.turns ++ k)
                (at_index-turns_of_none input i gs w.1 (ground arith))
            ∙ append-nil (at_index i g.turns)
            ∙ ap (at_index i) (w.0 ∙ ap (λ k. at_index k input) same_index)
            ∙ at_index_self i input)
      | inr h ↦
          let none_here : at_index i g.turns ≡ [] =
            ap (at_index i) w.0 ∙ at_index_ne i g.index input h in
          let head = e ∙ ap (λ k. k ++ at_index i (turns_of gs)) none_here in
          elim (at_index-turns_of input i gs w.1 (ground arith)) [
            | inl n ↦ inl (head ∙ n)
            | inr a ↦ inr (head ∙ a)
          ]
    ]

at_index_absent : (i : ℕ) (ts : List Turn) → has_index i ts ≡ false → at_index i ts ≡ []
at_index_absent i [] h = refl
at_index_absent i (t ∷ ts) h = ground (arith, at_index_absent i ts)

groups_at-keep :
    (i : ℕ) (ts : List Turn) (gs : List Group)
    → has_index i ts ≡ true
    → groups_at i (keep (λ g. not (has_index g.index ts)) gs) ≡ 0
groups_at-keep i ts [] h = refl
groups_at-keep i ts (g ∷ gs) h = elim (Bool-cases (g.index == i)) [
  | inl e ↦
      let same_index : g.index ≡ i = ground arith in
      let present : has_index g.index ts ≡ true = ap (λ k. has_index k ts) same_index ∙ h in
      rw present (groups_at-keep i ts gs h)
  | inr e ↦ ground (arith, groups_at-keep i ts gs h)
]

complete_turns :
    (ts : List Turn) → not (any (λ t. not t.complete) ts) ≡ true → All (λ t. t.complete ≡ true) ts
complete_turns [] h = tt
complete_turns (t ∷ ts) h = (ground arith, complete_turns ts (ground arith))

turns_of-complete :
    (gs : List Group)
    → All (λ g. is_complete g ≡ true) gs
    → All (λ t. t.complete ≡ true) (turns_of gs)
turns_of-complete [] v = tt
turns_of-complete (g ∷ gs) v =
    All-append _ g.turns (turns_of gs) (complete_turns g.turns v.0) (turns_of-complete gs v.1)

-- What a packet promises of its turns, beside those of the input.
pub record HasWholeTurns (input ts : List Turn) : Type 0 where
  pub ascending_index : IsAscending (λ t. t.turn_index) ts
  pub complete : All (λ t. t.complete ≡ true) ts
  pub whole : (n : ℕ) → IsAllOrNone input ts n

-- The two rounds of selection, the second of which leaves out the indexes of the first.
chosen_turns-whole :
    (input : List Turn) (gs hs : List Group) (n : ℕ)
    → IsSelection input gs
    → IsSelection input hs
    → (has_index n (by_index (turns_of gs)) ≡ true → groups_at n hs ≡ 0)
    → IsAllOrNone input (by_index (by_index (turns_of gs) ++ turns_of hs)) n
chosen_turns-whole input gs hs n s r apart =
    let first = by_index (turns_of gs) in
    let split =
      keep-sort (λ (t : Turn). t.turn_index) n (first ++ turns_of hs)
      ∙ keep-append (λ (t : Turn). t.turn_index == n) first (turns_of hs) in
    elim (Bool-cases (has_index n first)) [
      | inl e ↦
          let head =
            split
            ∙ ap (λ k. at_index n first ++ k) (at_index-turns_of_none input n hs r.whole (apart e))
            ∙ append-nil (at_index n first)
            ∙ keep-sort (λ (t : Turn). t.turn_index) n (turns_of gs) in
          elim (at_index-turns_of input n gs s.whole (s.single n)) [
            | inl z ↦ inl (head ∙ z)
            | inr z ↦ inr (head ∙ z)
          ]
      | inr e ↦
          let head = split ∙ ap (λ k. k ++ at_index n (turns_of hs)) (at_index_absent n first e) in
          elim (at_index-turns_of input n hs r.whole (r.single n)) [
            | inl z ↦ inl (head ∙ z)
            | inr z ↦ inr (head ∙ z)
          ]
    ]

rounds-HasWholeTurns :
    (input : List Turn) (available wanted left : ℕ)
    → let all = complete_turn_groups input in
      let first =
        by_index (turns_of (take_fitting group_tokens available (take wanted all)).chosen) in
      let older = take_fitting group_tokens left (keep (λ g. not (has_index g.index first)) all) in
      HasWholeTurns input (by_index (first ++ turns_of older.chosen))
rounds-HasWholeTurns input available wanted left =
    let all = complete_turn_groups input in
    let gs = (take_fitting group_tokens available (take wanted all)).chosen in
    let first = by_index (turns_of gs) in
    let unused = λ (g : Group). not (has_index g.index first) in
    let hs = (take_fitting group_tokens left (keep unused all)).chosen in
    let a = complete_turn_groups-IsSelection input in
    let s : IsSelection input gs = take-IsSelection input available wanted all a in
    let r : IsSelection input hs = keep-IsSelection input left unused all a in
    let le = ascending (λ (t : Turn). t.turn_index) in
    record {
      ascending_index = sort-IsAscending (λ (t : Turn). t.turn_index) (first ++ turns_of hs);
      complete = All-sort le _ (first ++ turns_of hs) (
          All-append _ first (turns_of hs)
            (All-sort le _ (turns_of gs) (turns_of-complete gs s.complete))
            (turns_of-complete hs r.complete));
      whole = λ n. chosen_turns-whole input gs hs n s r (λ e. omega (
        arith,
        groups_at-keep n first all e,
        sum_by-take_fitting-le group_tokens (λ (g : Group). if g.index == n then 1 else 0) left
            (keep unused all),
      ));
    }

-- The turns of a packet stand in the order of their indexes, come from complete groups only, and for each
-- index the packet has either no turn of the input or all of them, in their order.
pub fill_packet-HasWholeTurns :
    (p : Platform) (i : PacketInput) (reserved fixed available : ℕ)
    → HasWholeTurns i.recent_turns (fill_packet p i reserved fixed available).recent_turns
unfolding fill_packet
fill_packet-HasWholeTurns p i reserved fixed available =
    let required =
      take_fitting group_tokens available
        (take (default_turns i.minimum_complete_turns) (complete_turn_groups i.recent_turns)) in
    let notices = take_fitting (λ (n : Notice). n.token_count) required.remaining i.notices in
    let capacity = min notices.remaining (available * 45 / 100) in
    let evidence =
      take_fitting (λ (c : Candidate). c.token_count) capacity (unique_evidence p i.candidates) in
    rounds-HasWholeTurns i.recent_turns available (default_turns i.minimum_complete_turns)
      (notices.remaining - (capacity - evidence.remaining))
