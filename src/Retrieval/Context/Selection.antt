-- ===== src/Retrieval/Context/Selection.antt =====
-- The groups of turns that packages/retrieval/src/context.ts selects.
use infinite_context.Prelude.{
  ℕ, ◌-◌, ◌≤◌, Bool, true, List, [], ◌∷◌, leb, ◌==◌, keep, take, sum_by, sum_by-sort,
  sum_by-take-le, sum_by-keep-le, descending, ◌≡◌, refl, arith, All, All-keep_kept, All-take,
  All-sort, All-keep, Bool-cases, inl, inr, if◌then◌else◌,
}
use infinite_context.Retrieval.Context.{
  Turn, take_fitting, group_tokens, Group, group_turns, complete_turn_groups, is_complete,
}
use infinite_context.Retrieval.Context.Groups.{
  groups_at, IsWhole, IsGrouping, group_turns-IsGrouping,
}

module _ {A : Type 0} (tokens : A → ℕ) where
  pub All-take_fitting :
      (P : A → Type 0) (n : ℕ) (xs : List A) → All P xs → All P (take_fitting tokens n xs).chosen
  unfolding take_fitting
  All-take_fitting P n [] v = tt
  All-take_fitting P n (x ∷ xs) v = elim (Bool-cases (leb (tokens x) n)) [
    | inl e ↦ rw e (v.0, All-take_fitting P (n - tokens x) xs v.1)
    | inr e ↦ rw e (All-take_fitting P n xs v.1)
  ]

  pub sum_by-take_fitting-le :
      (f : A → ℕ) (n : ℕ) (xs : List A) → sum_by f (take_fitting tokens n xs).chosen ≤ sum_by f xs
  unfolding take_fitting
  sum_by-take_fitting-le f n [] = omega arith
  sum_by-take_fitting-le f n (x ∷ xs) =
      ground (arith, sum_by-take_fitting-le f (n - tokens x) xs, sum_by-take_fitting-le f n xs)

-- What the selection keeps of the complete groups.
pub record IsSelection (input : List Turn) (gs : List Group) : Type 0 where
  pub whole : IsWhole input gs
  pub single : (i : ℕ) → groups_at i gs ≤ 1
  pub complete : All (λ g. is_complete g ≡ true) gs

pub complete_turn_groups-IsSelection :
    (input : List Turn) → IsSelection input (complete_turn_groups input)
unfolding complete_turn_groups
complete_turn_groups-IsSelection input =
    let gs = group_turns [] input in
    let le = descending (λ (g : Group). g.index) in
    let s : IsGrouping input gs =
      group_turns-IsGrouping [] [] input
        (record { whole = tt; single = λ i. omega arith; covers = λ i z. refl }) in
    record {
      whole = All-sort le _ (keep is_complete gs) (All-keep_kept _ is_complete gs s.whole);
      single = λ i. omega (
        arith,
        sum_by-sort le (λ (g : Group). if g.index == i then 1 else 0) (keep is_complete gs),
        sum_by-keep-le {0} (λ (g : Group). if g.index == i then 1 else 0) is_complete gs,
        s.single i,
      );
      complete = All-sort le _ (keep is_complete gs) (All-keep is_complete gs);
    }

pub take-IsSelection :
    (input : List Turn) (n m : ℕ) (gs : List Group)
    → IsSelection input gs
    → IsSelection input (take_fitting group_tokens n (take m gs)).chosen
take-IsSelection input n m gs s = record {
  whole = All-take_fitting group_tokens _ n (take m gs) (All-take _ m gs s.whole);
  single = λ i. omega (
    arith,
    sum_by-take_fitting-le group_tokens (λ (g : Group). if g.index == i then 1 else 0) n
        (take m gs),
    sum_by-take-le {0} (λ (g : Group). if g.index == i then 1 else 0) m gs,
    s.single i,
  );
  complete = All-take_fitting group_tokens _ n (take m gs) (All-take _ m gs s.complete);
}

pub keep-IsSelection :
    (input : List Turn) (n : ℕ) (q : Group → Bool) (gs : List Group)
    → IsSelection input gs
    → IsSelection input (take_fitting group_tokens n (keep q gs)).chosen
keep-IsSelection input n q gs s = record {
  whole = All-take_fitting group_tokens _ n (keep q gs) (All-keep_kept _ q gs s.whole);
  single = λ i. omega (
    arith,
    sum_by-take_fitting-le group_tokens (λ (g : Group). if g.index == i then 1 else 0) n
        (keep q gs),
    sum_by-keep-le {0} (λ (g : Group). if g.index == i then 1 else 0) q gs,
    s.single i,
  );
  complete = All-take_fitting group_tokens _ n (keep q gs) (All-keep_kept _ q gs s.complete);
}
