-- ===== src/Retrieval/Graph/Found.antt =====
-- What the search of packages/retrieval/src/graph.ts finds, edge by edge.
use infinite_context.Prelude.{
  ℕ, ◌+◌, ◌≤◌, ◌<◌, String, true, false, List, [], ◌∷◌, ◌++◌, Option, leb, ◌≡◌, refl, arith,
  Bool-cases, Option-cases, inl, inr, ap, sym, ◌∙◌, str_eq, eq_iff, any, length, length-append, All,
  All-append, All-weaken, HasKeys, HasKeys-append, any-append_left,
}
use infinite_context.Retrieval.Graph.{
  Document, Edge, Signal, Options, Item, Search, max_hops, next_id, signal, is_weak, found,
  visit_new, visit, visit_all, expand_item, member,
}

abbrev pub id_of : String × Signal → String
id_of p = p.0

-- What was found: no more than the limit, each under its own identifier, which was visited and is no seed, within the hops
-- that the question allows.
pub record IsFound (options : Options) (seeds : List String) (search : Search) : Type 0 where
  pub bounded : length search.expanded ≤ options.max_expanded
  pub keyed : HasKeys id_of search.expanded
  pub known : All (λ p. member p.0 search.visited ≡ true) search.expanded
  pub fresh : All (λ p. member p.0 seeds ≡ false) search.expanded
  pub near : All (λ p. (1 ≤ p.1.hop) × (p.1.hop ≤ max_hops options)) search.expanded
  pub seeded : (id : String) → member id search.visited ≡ false → member id seeds ≡ false

-- Each candidate that is found is queued once.
pub record Grows (s t : Search) : Type 0 where
  pub more : length s.expanded ≤ length t.expanded
  pub queued : length t.queue + length s.expanded ≡ length s.queue + length t.expanded

still : (s : Search) → Grows s s
still s = record { more = omega arith; queued = refl }

skipped : (id : String) (s : Search) → Grows s (record s { visited = s.visited ++ id ∷ [] })
skipped id s = record { more = omega arith; queued = refl }

both : (s t u : Search) → Grows s t → Grows t u → Grows s u
both s t u g h = record {
  more = omega (arith, g.more, h.more);
  queued = omega (arith, g.queued, h.queued);
}

module _ (words : String → List String) (get_adjacent : String → ℕ → List Edge)
    (get_document : String → Option Document) (options : Options) (query : String)
    (seeds : List String) where
  member_self : (id : String) (xs : List String) → member id (xs ++ id ∷ []) ≡ true
  member_self id [] = ground (arith, eq_iff id id)
  member_self id (x ∷ xs) = ground (arith, member_self id xs)

  member_later :
      (id other : String) (xs : List String)
      → member id (xs ++ other ∷ []) ≡ false
      → member id xs ≡ false
  member_later id other [] h = refl
  member_later id other (x ∷ xs) h = ground (arith, member_later id other xs)

  unused :
      (id : String) (visited : List String) (ps : List (String × Signal))
      → member id visited ≡ false
      → All (λ p. member p.0 visited ≡ true) ps
      → any (λ p. str_eq p.0 id) ps ≡ false
  unused id visited [] h v = refl
  unused id visited (p ∷ ps) h v = elim (Bool-cases (str_eq p.0 id)) [
    | inl t ↦
        let same : p.0 ≡ id = ground (arith, eq_iff p.0 id) in
        let yes : member id visited ≡ true = ap (λ x. member x visited) (sym same) ∙ v.0 in
        absurd (ground arith)
    | inr t ↦ ground (arith, t, unused id visited ps h v.1)
  ]

  seen-IsFound :
      (id : String) (search : Search)
      → IsFound options seeds search
      → IsFound options seeds (record search { visited = search.visited ++ id ∷ [] })
  seen-IsFound id search s = record {
    bounded = s.bounded;
    keyed = s.keyed;
    known =
        All-weaken _ _ search.expanded
          (λ p h. any-append_left (λ y. str_eq y p.0) search.visited (id ∷ []) h) s.known;
    fresh = s.fresh;
    near = s.near;
    seeded = λ other h. s.seeded other (member_later other id search.visited h);
  }

  found-IsFound :
      (id : String) (item : Item) (s : Signal) (search : Search)
      → member id search.visited ≡ false
      → length search.expanded < options.max_expanded
      → 1 ≤ s.hop
      → s.hop ≤ max_hops options
      → IsFound options seeds search
      → IsFound options seeds
          (found id item s (record search { visited = search.visited ++ id ∷ [] }))
  found-IsFound id item s search new room first last f = record {
    bounded = omega (arith, length-append search.expanded ((id, s) ∷ []));
    keyed =
        HasKeys-append id_of (id, s) search.expanded
          (unused id search.visited search.expanded new f.known) f.keyed;
    known =
        All-append _ search.expanded ((id, s) ∷ []) (seen-IsFound id search f).known
          (member_self id search.visited, tt);
    fresh = All-append _ search.expanded ((id, s) ∷ []) f.fresh (f.seeded id new, tt);
    near = All-append _ search.expanded ((id, s) ∷ []) f.near ((first, last), tt);
    seeded = (seen-IsFound id search f).seeded;
  }

  abbrev go : Item → Edge → Search → Search
  go = visit words get_adjacent get_document options query

  visit_new-IsFound :
      (item : Item) (edge : Edge) (search : Search)
      → member (next_id item edge) search.visited ≡ false
      → length search.expanded < options.max_expanded
      → item.hop < max_hops options
      → IsFound options seeds search
      → IsFound options seeds
          (visit_new words get_adjacent get_document options query item edge search)
        × Grows search (visit_new words get_adjacent get_document options query item edge search)
  visit_new-IsFound item edge search new room near f =
      let id = next_id item edge in
      let seen = seen-IsFound id search f in
      elim (Option-cases (get_document id)) [
        | inl n ↦ rw (n, visit_new) (seen, skipped id search)
        | inr (document, n) ↦
            let s = signal words query item edge document in
            let last : Item = record { id = id; hop = s.hop; seed_score = item.seed_score } in
            elim (Bool-cases (is_weak options s)) [
              | inl t ↦ rw (n, t, visit_new) (seen, skipped id search)
              | inr t ↦
                  rw (n, t, visit_new)
                    (
                      found-IsFound id item s search new room (omega arith) (omega arith) f,
                      record {
                        more = omega (arith, length-append search.expanded ((id, s) ∷ []));
                        queued = omega (
                          arith,
                          length-append search.expanded ((id, s) ∷ []),
                          length-append search.queue (last ∷ []),
                        );
                      },
                    )
            ]
      ]

  visit-IsFound :
      (item : Item) (edge : Edge) (search : Search)
      → length search.expanded < options.max_expanded
      → item.hop < max_hops options
      → IsFound options seeds search
      → IsFound options seeds (go item edge search) × Grows search (go item edge search)
  visit-IsFound item edge search room near f =
      elim (Bool-cases (member (next_id item edge) search.visited)) [
        | inl t ↦ rw t (f, still search)
        | inr t ↦ rw t (visit_new-IsFound item edge search t room near f)
      ]

  visit_all-IsFound :
      (item : Item) (edges : List Edge) (search : Search)
      → length search.expanded < options.max_expanded
      → item.hop < max_hops options
      → IsFound options seeds search
      → IsFound options seeds
          (visit_all words get_adjacent get_document options query item edges search)
        × Grows search (visit_all words get_adjacent get_document options query item edges search)
  visit_all-IsFound item [] search room near f = (f, still search)
  visit_all-IsFound item (edge ∷ edges) search room near f =
      let after = go item edge search in
      let (fine, grown) = visit-IsFound item edge search room near f in
      elim (Bool-cases (leb options.max_expanded (length after.expanded))) [
        | inl t ↦ rw t (fine, grown)
        | inr t ↦
            let (finer, more) = visit_all-IsFound item edges after (ground arith) near fine in
            rw t (finer, both search after _ grown more)
      ]

  pub expand_item-IsFound :
      (item : Item) (search : Search)
      → length search.expanded < options.max_expanded
      → IsFound options seeds search
      → IsFound options seeds
          (expand_item words get_adjacent get_document options query item search)
        × Grows search (expand_item words get_adjacent get_document options query item search)
  expand_item-IsFound item search room f = elim (Bool-cases (leb (max_hops options) item.hop)) [
    | inl t ↦ rw t (f, still search)
    | inr t ↦ rw t (
        visit_all-IsFound item (get_adjacent item.id options.max_adjacent_per_node) search room
          (ground arith) f)
  ]

  pub pop-IsFound :
      (queue : List Item) (search : Search)
      → IsFound options seeds search
      → IsFound options seeds (record search { queue = queue })
  pop-IsFound queue search f = record {
    bounded = f.bounded;
    keyed = f.keyed;
    known = f.known;
    fresh = f.fresh;
    near = f.near;
    seeded = f.seeded;
  }
