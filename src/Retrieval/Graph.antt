-- ===== src/Retrieval/Graph.antt =====
-- The expansion of candidates along the graph in packages/retrieval/src/graph.ts, with `tokenize` of
-- packages/retrieval/src/candidates.ts.
pub mod Found
pub mod Expansion
pub mod Ranked
mod Tests
use Prim.Native.Char.{Char}
use Prim.Native.String.{◌++◌ as ◌+str◌}
use infinite_context.Prelude.{
  ℕ, zero, suc, ◌+◌, ◌*◌, ◌^◌, String, Bool, List, [], ◌∷◌, ◌++◌, ◌&&◌, ◌||◌, not, Option, none,
  some, ltb, leb, ◌==◌, if◌then◌else◌, str_eq, any, keep, count, length, sort, take, map,
  utf16_length,
}

-- An exact ratio, for a number between 0 and 1 and for the scores made of them.
pub record Ratio : Type 0 where
  pub num : ℕ
  pub den : ℕ

infix 50 ◌<r◌
abbrev pub ◌<r◌ : Ratio → Ratio → Bool
a <r b = ltb (a.num * b.den) (b.num * a.den)

abbrev pub times : Ratio → Ratio → Ratio
times a b = record { num = a.num * b.num; den = a.den * b.den }

-- `Math.max`
abbrev pub larger : Ratio → Ratio → Ratio
larger a b = if a <r b then b else a

-- What the search reads of a document.
pub record Document : Type 0 where
  pub id : String
  pub title : String
  pub content : String

pub data EdgeStatus : Type 0 where
  current historical conflicted : EdgeStatus

pub record Edge : Type 0 where
  pub source : String
  pub target : String
  pub type : String
  pub status : EdgeStatus

-- A candidate found along the graph; `hop`, `edge` and `similarity` make up its reason.
pub record Signal : Type 0 where
  pub document : Document
  pub score : Ratio
  pub hop : ℕ
  pub edge : String
  pub similarity : Ratio

-- The identifier and score of a candidate to start from.
pub record Seed : Type 0 where
  pub id : String
  pub fused_score : Ratio

abbrev grow : Char → List String → List String
grow c [] = String.◌∷◌ c "" ∷ []
grow c (w ∷ ws) = String.◌∷◌ c w ∷ ws

-- `split`: the runs of word characters between the others.
unfoldable pub split_words : (Char → Bool) → String → List String
split_words is_word String.[] = "" ∷ []
split_words is_word (String.◌∷◌ c s) =
    let rest = split_words is_word s in if is_word c then grow c rest else "" ∷ rest

-- `normalized` is the text in NFKC and lower case, and `is_word` tells letters, numbers and the underscore.
unfoldable pub tokenize : (String → String) → (Char → Bool) → String → List String
tokenize normalized is_word s =
    keep (λ t. ltb 1 (utf16_length t)) (split_words is_word (normalized s))

-- `new Set(xs)`
abbrev pub distinct : List String → List String
distinct [] = []
distinct (x ∷ xs) = x ∷ keep (λ y. not (str_eq y x)) (distinct xs)

abbrev pub member : String → List String → Bool
member x = any (λ y. str_eq y x)

unfoldable pub lexical_similarity : (String → List String) → (query content : String) → Ratio
lexical_similarity words query content =
    let query_tokens = distinct (words query) in
    let content_tokens = words content in
    let size = length query_tokens in
    if size == 0
    then record { num = 0; den = 1 }
    else record { num = count (λ t. member t content_tokens) query_tokens; den = size }

-- `options` with its defaults, and `classification.relationshipQuestion`.
pub record Options : Type 0 where
  pub max_seeds : ℕ
  pub max_expanded : ℕ
  pub max_adjacent_per_node : ℕ
  pub minimum_similarity : Ratio
  pub relationship_question : Bool

abbrev pub default_options : Bool → Options
default_options relationship_question = record {
  max_seeds = 8;
  max_expanded = 30;
  max_adjacent_per_node = 256;
  minimum_similarity = record { num = 8; den = 100 };
  relationship_question = relationship_question;
}

abbrev pub max_hops : Options → ℕ
max_hops options = if options.relationship_question then 2 else 1

abbrev pub required_similarity : Options → Ratio
required_similarity options =
    if options.relationship_question
    then times options.minimum_similarity (record { num = 1; den = 2 })
    else options.minimum_similarity

pub record Item : Type 0 where
  pub id : String
  pub hop : ℕ
  pub seed_score : Ratio

-- `expanded` maps identifiers to signals, in the order of their insertion.
pub record Search : Type 0 where
  pub queue : List Item
  pub visited : List String
  pub expanded : List (String × Signal)

abbrev pub status_weight : EdgeStatus → Ratio
status_weight current = record { num = 1; den = 1 }
status_weight _ = record { num = 8; den = 10 }

abbrev pub power : Ratio → ℕ → Ratio
power r n = record { num = r.num ^ n; den = r.den ^ n }

abbrev pub score : Item → ℕ → Ratio → Edge → Ratio
score item hop similarity edge =
    times
      (times (times item.seed_score (power (record { num = 65; den = 100 }) hop))
        (larger similarity (record { num = 15; den = 100 })))
      (status_weight edge.status)

abbrev pub next_id : Item → Edge → String
next_id item edge = if str_eq edge.source item.id then edge.target else edge.source

abbrev pub signal : (String → List String) → String → Item → Edge → Document → Signal
signal words query item edge document =
    let similarity =
      lexical_similarity words query (document.title +str (" " +str document.content)) in
    record {
      document = document;
      score = score item (item.hop + 1) similarity edge;
      hop = item.hop + 1;
      edge = edge.type;
      similarity = similarity;
    }

-- Too little in common with the query, and no bridge to a second hop.
abbrev pub is_weak : Options → Signal → Bool
is_weak options s =
    s.similarity <r required_similarity options
    && not (options.relationship_question && ltb s.hop (max_hops options))

abbrev pub found : String → Item → Signal → Search → Search
found id item s search = record search {
  queue = search.queue ++ record { id = id; hop = s.hop; seed_score = item.seed_score } ∷ [];
  expanded = search.expanded ++ (id, s) ∷ [];
}

abbrev pub seed_item : Seed → Item
seed_item seed = record { id = seed.id; hop = 0; seed_score = seed.fused_score }

abbrev pub start_search : Options → List Seed → Search
start_search options seeds = record {
  queue = map seed_item (take options.max_seeds seeds);
  visited = map (λ (s : Seed). s.id) seeds;
  expanded = [];
}

-- For each item that can be queued.
abbrev pub enough_fuel : Options → ℕ
enough_fuel options = options.max_seeds + options.max_expanded + 1

-- `b.score - a.score || a.document.id.localeCompare(b.document.id)`
abbrev pub comes_first : (String → String → Bool) → Signal → Signal → Bool
comes_first locale_le a b =
    b.score <r a.score || (not (a.score <r b.score) && locale_le a.document.id b.document.id)

module _ (words : String → List String) (get_adjacent : String → ℕ → List Edge)
    (get_document : String → Option Document) (options : Options) (query : String) where
  -- One edge of an item, whose other end was not visited.
  abbrev pub visit_new : Item → Edge → Search → Search
  visit_new item edge search =
      let id = next_id item edge in
      let seen = record search { visited = search.visited ++ id ∷ [] } in
      elim (get_document id) [
        | none ↦ seen
        | some document ↦
            let s = signal words query item edge document in
            if is_weak options s then seen else found id item s seen
      ]

  abbrev pub visit : Item → Edge → Search → Search
  visit item edge search =
      if member (next_id item edge) search.visited then search else visit_new item edge search

  -- The loop over the edges of an item, which ends when enough is found.
  abbrev pub visit_all : Item → List Edge → Search → Search
  visit_all item [] search = search
  visit_all item (edge ∷ edges) search =
      let after = visit item edge search in
      let rest = visit_all item edges after in
      if leb options.max_expanded (length after.expanded) then after else rest

  abbrev pub expand_item : Item → Search → Search
  expand_item item search =
      if leb (max_hops options) item.hop
      then search
      else visit_all item (get_adjacent item.id options.max_adjacent_per_node) search

  -- The loop over the queue; none when it needs more than the fuel.
  unfoldable pub expand : ℕ → Search → Option Search
  expand zero search = none
  expand (suc fuel) search = elim (search.queue) [
    | [] ↦ some search
    | item ∷ queue ↦
        let rest = expand fuel (expand_item item (record search { queue = queue })) in
        if leb options.max_expanded (length search.expanded) then some search else rest
  ]

  unfoldable pub expand_graph_candidates :
      (String → String → Bool) → List Seed → Option (List Signal)
  expand_graph_candidates locale_le seeds =
      elim (expand (enough_fuel options) (start_search options seeds)) [
        | none ↦ none
        | some search ↦
            some (sort (comes_first locale_le) (map (λ (p : String × Signal). p.1) search.expanded))
      ]
