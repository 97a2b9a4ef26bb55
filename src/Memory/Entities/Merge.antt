-- ===== src/Memory/Entities/Merge.antt =====
-- Merges in packages/memory/src/entity-resolution.ts and their reversal.
use infinite_context.Prelude.{
  ◌==◌, ◌&&◌, if◌then◌else◌, err, ◌+◌, String, some, true, List, [], ◌∷◌, ◌++◌, ◌≡◌, ◌≢◌, refl,
  arith, ◌||◌, ok, err, str_eq, eq_iff, if◌then◌else◌,
}
use infinite_context.Memory.Entities.{
  Entity, MergeHistory, merge_entities, reverse_entity_merge, EntityStatus, active, merged,
  is_active, unique_from, has_text, changed_since,
}

has_text-append :
    (x : String) (xs ys : List String)
    → has_text x (xs ++ ys) ≡ (if has_text x xs then true else has_text x ys)
has_text-append x [] ys = refl
has_text-append x (y ∷ xs) ys = ground (arith, has_text-append x xs ys)

has_text-unique_from :
    (x : String) (seen xs : List String)
    → has_text x (unique_from seen xs) ≡ (if has_text x seen then true else has_text x xs)
unfolding unique_from
has_text-unique_from x seen [] = ground arith
has_text-unique_from x seen (y ∷ xs) = ground (
  arith,
  has_text-unique_from x (if has_text y seen then seen else seen ++ y ∷ []) xs,
  has_text-append x seen (y ∷ []),
  eq_iff y x,
)

active-is_active : (s : EntityStatus) → is_active s ≡ true → s ≡ active
active-is_active active h = refl
active-is_active merged h = absurd (ground arith)

-- A merge is recorded only for two active entities of one type with different identifiers. The primary then
-- answers to exactly its names, those of the other and the other's display name, and has the sources of both;
-- the other is merged into it.
pub merge_entities-joins :
    (id : String) (primary secondary : Entity) (h : MergeHistory)
    → merge_entities id primary secondary ≡ ok h
    → (primary.status ≡ active)
      × (secondary.status ≡ active)
      × (primary.id ≢ secondary.id)
      × (primary.entity_type ≡ secondary.entity_type)
      × ((x : String)
          → has_text x h.primary_after.aliases ≡ (
              has_text x primary.aliases
              || (str_eq secondary.display_name x || has_text x secondary.aliases)))
      × ((x : String)
          → has_text x h.primary_after.source_ids
            ≡ (has_text x primary.source_ids || has_text x secondary.source_ids))
      × (h.secondary_after.status ≡ merged)
      × (h.secondary_after.canonical_id ≡ some primary.id)
unfolding merge_entities
merge_entities-joins id primary secondary h e = (
  active-is_active primary.status (ground arith),
  active-is_active secondary.status (ground arith),
  λ q. ground (arith, eq_iff primary.id secondary.id),
  ground (arith, eq_iff primary.entity_type secondary.entity_type),
  λ x. ground (
    arith,
    has_text-unique_from x [] (primary.aliases ++ secondary.display_name ∷ secondary.aliases),
    has_text-append x primary.aliases (secondary.display_name ∷ secondary.aliases),
  ),
  λ x. ground (
    arith,
    has_text-unique_from x [] (primary.source_ids ++ secondary.source_ids),
    has_text-append x primary.source_ids secondary.source_ids,
  ),
  ground arith,
  ground arith,
)

-- Reversing a recorded merge gives both entities as they were before it, each two revisions later, if both have the
-- revision that the merge left them with, and is refused otherwise.
pub reverse-merge_entities :
    (id : String) (primary secondary : Entity) (h : MergeHistory) (p s : Entity)
    → merge_entities id primary secondary ≡ ok h
    → reverse_entity_merge h p s ≡ (
        if (p.revision == primary.revision + 1) && (s.revision == secondary.revision + 1)
        then ok (
          record primary { revision = primary.revision + 2 },
          record secondary { revision = secondary.revision + 2 },
        )
        else err changed_since)
unfolding merge_entities reverse_entity_merge
reverse-merge_entities id primary secondary h p s e = ground arith
