-- ===== src/Retrieval/Graph/Expansion.antt =====
-- The search of packages/retrieval/src/graph.ts: it ends, and what it finds.
use infinite_context.Prelude.{
  ℕ, zero, suc, ◌+◌, ◌≤◌, ◌<◌, String, List, [], ◌∷◌, Option, some, leb, ◌≡◌, refl, arith,
  Bool-cases, inl, inr, length, length-map, take, map,
}
use infinite_context.Retrieval.Graph.{
  Document, Edge, Seed, Options, Item, Search, expand_item, expand, start_search, enough_fuel,
  seed_item,
}
use infinite_context.Retrieval.Graph.Found.{IsFound, expand_item-IsFound, pop-IsFound}

module _ (words : String → List String) (get_adjacent : String → ℕ → List Edge)
    (get_document : String → Option Document) (options : Options) (query : String)
    (seeds : List String) where
  -- The loop ends when the fuel covers the queue and what may still be found.
  expand-ends :
      (fuel : ℕ) (queue : List Item) (search : Search)
      → length queue + options.max_expanded < fuel + length search.expanded
      → IsFound options seeds search
      → (t : Search) × (expand words get_adjacent get_document options query fuel
            (record search { queue = queue })
          ≡ some t)
        × IsFound options seeds t
  unfolding expand
  expand-ends zero queue search enough f = absurd (omega (arith, f.bounded))
  expand-ends (suc fuel) [] search enough f =
      (_, refl, pop-IsFound words get_adjacent get_document options query seeds [] search f)
  expand-ends (suc fuel) (item ∷ queue) search enough f =
      let begun : Search = record search { queue = queue } in
      elim (Bool-cases (leb options.max_expanded (length search.expanded))) [
        | inl t ↦ (
          _,
          rw t refl,
          pop-IsFound words get_adjacent get_document options query seeds (item ∷ queue) search f,
        )
        | inr t ↦
            let next = expand_item words get_adjacent get_document options query item begun in
            let (fine, grown) =
              expand_item-IsFound words get_adjacent get_document options query seeds item begun
                (ground arith)
                (pop-IsFound words get_adjacent get_document options query seeds queue search f) in
            let (last, e, g) =
              expand-ends fuel next.queue next (omega (arith, grown.queued, grown.more)) fine in
            (last, rw t e, g)
      ]

length-take_le {ℓ} : {A : Type ℓ} (n : ℕ) (xs : List A) → length (take n xs) ≤ n
length-take_le zero xs = omega arith
length-take_le (suc n) [] = omega arith
length-take_le (suc n) (x ∷ xs) = omega (arith, length-take_le n xs)

abbrev pub ids : List Seed → List String
ids = map (λ (s : Seed). s.id)

-- The search ends within the fuel, whatever the graph answers: cycles are walked once. It found no more candidates than
-- the limit, each under its own identifier, no seed among them, within the hops that the question allows.
pub expand-IsFound :
    (words : String → List String) (get_adjacent : String → ℕ → List Edge)
    (get_document : String → Option Document) (options : Options) (query : String)
    (seeds : List Seed)
    → (search : Search) × (expand words get_adjacent get_document options query
          (enough_fuel options)
          (start_search options seeds)
        ≡ some search)
      × IsFound options (ids seeds) search
expand-IsFound words get_adjacent get_document options query seeds =
    let first = start_search options seeds in
    let few = length-take_le options.max_seeds seeds in
    let same = length-map seed_item (take options.max_seeds seeds) in
    expand-ends words get_adjacent get_document options query (ids seeds) (enough_fuel options)
      first.queue first (omega (arith, few, same))
      (record {
        bounded = omega arith;
        keyed = tt;
        known = tt;
        fresh = tt;
        near = tt;
        seeded = λ id h. h;
      })
