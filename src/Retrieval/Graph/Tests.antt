-- ===== src/Retrieval/Graph/Tests.antt =====
-- The expansion of packages/retrieval/src/graph.ts on a concrete graph with a cycle.
use Prim.Native.Char.{Char, code}
use infinite_context.Prelude.{
  sum_by, ℕ, String, true, List, [], ◌∷◌, not, Option, none, some, ◌==◌, str_eq, if◌then◌else◌, ◌≡◌,
  refl, map, utf16_length,
}
use infinite_context.Retrieval.Graph.{
  Document, Edge, current, Signal, Seed, Options, Search, default_options, split_words, tokenize,
  lexical_similarity, expand, expand_graph_candidates, enough_fuel, start_search,
}
use infinite_context.Retrieval.Graph.Found.{IsFound}
use infinite_context.Retrieval.Graph.Expansion.{ids, expand-IsFound}
use infinite_context.Retrieval.Graph.Ranked.{IsRanked, expand_graph_candidates-IsRanked}

abbrev words : String → List String
words = tokenize (λ s. s) (λ (c : Char). not (code c == 32))

abbrev edge_of : String → String → Edge
edge_of a b = record { source = a; target = b; type = "mentions"; status = current }

abbrev adjacent : String → ℕ → List Edge
adjacent id limit =
    if str_eq id "a"
    then edge_of "a" "b" ∷ edge_of "c" "a" ∷ []
    else if str_eq id "b"
    then edge_of "a" "b" ∷ edge_of "b" "d" ∷ []
    else []

abbrev document : String → Option Document
document id =
    if str_eq id "c"
    then none
    else some (record { id = id; title = "Budget"; content = "the ledger of the budget" })

abbrev one_seed : List Seed
one_seed = record { id = "a"; fused_score = record { num = 1; den = 2 } } ∷ []

abbrev related : Options
related = default_options true

-- "c" has no document, and "a" is visited already.
two_hops :
    map
      (λ (s : Signal). s.document.id)
      (elim (expand_graph_candidates words adjacent document related "budget ledger"
        (λ a b. true)
        one_seed) [ none ↦ [] | some signals ↦ signals ])
    ≡ "b" ∷ "d" ∷ []
unfolding tokenize split_words lexical_similarity expand expand_graph_candidates utf16_length
two_hops = refl

expand-IsFound_example :
    (search : Search) × (expand words adjacent document related "budget ledger"
        (enough_fuel related)
        (start_search related one_seed)
      ≡ some search)
    × IsFound related (ids one_seed) search
expand-IsFound_example = expand-IsFound words adjacent document related "budget ledger" one_seed

expand_graph_candidates-IsRanked_example :
    (search : Search) × (signals : List Signal) × (expand words adjacent document related
        "budget ledger"
        (enough_fuel related)
        (start_search related one_seed)
      ≡ some search)
    × (expand_graph_candidates words adjacent document related "budget ledger"
          (λ a b. true)
          one_seed
        ≡ some signals)
    × ((f : Signal → ℕ) → sum_by f signals ≡ sum_by (λ p. f p.1) search.expanded)
    × IsRanked signals
expand_graph_candidates-IsRanked_example =
    expand_graph_candidates-IsRanked words adjacent document related "budget ledger" (λ a b. true)
      one_seed
