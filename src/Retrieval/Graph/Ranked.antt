-- ===== src/Retrieval/Graph/Ranked.antt =====
-- The order in which `expandGraphCandidates` of packages/retrieval/src/graph.ts answers.
use infinite_context.Prelude.{
  ℕ, String, Option, some, Bool, true, false, List, [], ◌∷◌, ◌≡◌, refl, arith, Bool-cases, inl, inr,
  map, sort, insert, sum_by, sum_by-sort, ◌∙◌,
}
use infinite_context.Retrieval.Graph.{
  Signal, Seed, Edge, Document, Options, Search, ◌<r◌, comes_first, expand, enough_fuel,
  start_search, expand_graph_candidates,
}
use infinite_context.Retrieval.Graph.Expansion.{expand-IsFound}

-- No candidate has a lower score than the one after it.
abbrev pub IsRanked : List Signal → Type 0
IsRanked [] = Unit
IsRanked (a ∷ []) = Unit
IsRanked (a ∷ (b ∷ rest)) = (a.score <r b.score ≡ false) × IsRanked (b ∷ rest)

module _ (locale_le : String → String → Bool) where
  first-high : (a b : Signal) → comes_first locale_le a b ≡ true → a.score <r b.score ≡ false
  first-high a b h = ground arith

  later-low : (a b : Signal) → comes_first locale_le a b ≡ false → b.score <r a.score ≡ false
  later-low a b h = ground arith

  insert-IsRanked :
      (a : Signal) (xs : List Signal) → IsRanked xs → IsRanked (insert (comes_first locale_le) a xs)
  insert-IsRanked a [] r = tt
  insert-IsRanked a (x ∷ []) r = elim (Bool-cases (comes_first locale_le a x)) [
    | inl h ↦ rw h (first-high a x h, tt)
    | inr h ↦ rw h (later-low a x h, tt)
  ]
  insert-IsRanked a (x ∷ (y ∷ ys)) r = elim (Bool-cases (comes_first locale_le a x)) [
    | inl h ↦ rw h (first-high a x h, r)
    | inr h ↦
        let rest = insert-IsRanked a (y ∷ ys) r.1 in
        elim (Bool-cases (comes_first locale_le a y)) [
          | inl g ↦ rw (h, g) (later-low a x h, rw g at rest)
          | inr g ↦ rw (h, g) (r.0, rw g at rest)
        ]
  ]

  sort-IsRanked : (xs : List Signal) → IsRanked (sort (comes_first locale_le) xs)
  sort-IsRanked [] = tt
  sort-IsRanked (x ∷ xs) = insert-IsRanked x (sort (comes_first locale_le) xs) (sort-IsRanked xs)

sum_by-signals :
    (f : Signal → ℕ) (ps : List (String × Signal))
    → sum_by f (map (λ (p : String × Signal). p.1) ps) ≡ sum_by (λ p. f p.1) ps
sum_by-signals f [] = refl
sum_by-signals f (p ∷ ps) = ground (arith, sum_by-signals f ps)

-- The expansion always answers, with the candidates that the search found, each as often, and none of
-- them before one of a higher score.
pub expand_graph_candidates-IsRanked :
    (words : String → List String) (get_adjacent : String → ℕ → List Edge)
    (get_document : String → Option Document) (options : Options) (query : String)
    (locale_le : String → String → Bool) (seeds : List Seed)
    → (search : Search) × (signals : List Signal) × (expand words get_adjacent get_document options
          query
          (enough_fuel options)
          (start_search options seeds)
        ≡ some search)
      × (expand_graph_candidates words get_adjacent get_document options query locale_le seeds
          ≡ some signals)
      × ((f : Signal → ℕ) → sum_by f signals ≡ sum_by (λ p. f p.1) search.expanded)
      × IsRanked signals
unfolding expand_graph_candidates
expand_graph_candidates-IsRanked words get_adjacent get_document options query locale_le seeds =
    let (search, e, f) = expand-IsFound words get_adjacent get_document options query seeds in
    let le = comes_first locale_le in
    let signals = map (λ (p : String × Signal). p.1) search.expanded in
    (
      search,
      sort le signals,
      e,
      rw (e, expand_graph_candidates) refl,
      λ g. sum_by-sort le g signals ∙ sum_by-signals g search.expanded,
      sort-IsRanked locale_le signals,
    )
