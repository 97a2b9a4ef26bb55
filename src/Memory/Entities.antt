-- ===== src/Memory/Entities.antt =====
-- `mergeEntities` and `reverseEntityMerge` of packages/memory/src/entity-resolution.ts.
pub mod Merge
use infinite_context.Prelude.{
  ℕ, ◌+◌, String, Option, none, some, Bool, true, false, not, List, [], ◌∷◌, ◌++◌, ◌||◌, ◌==◌,
  Result, ok, err, ◌>>=◌, ◌>>◌, reject_if, str_eq, any, if◌then◌else◌,
}

pub data EntityStatus : Type 0 where
  active merged : EntityStatus

pub record Entity : Type 0 where
  pub id : String
  pub entity_type : String
  pub display_name : String
  pub aliases : List String
  pub status : EntityStatus
  pub canonical_id : Option String
  pub revision : ℕ
  pub source_ids : List String

pub record MergeHistory : Type 0 where
  pub id : String
  pub primary_before : Entity
  pub secondary_before : Entity
  pub primary_after : Entity
  pub secondary_after : Entity
  pub expected_primary_revision : ℕ
  pub expected_secondary_revision : ℕ

pub data Error : Type 0 where
  same_entity different_types not_active changed_since : Error

abbrev pub is_active : EntityStatus → Bool
is_active active = true
is_active merged = false

abbrev pub has_text : String → List String → Bool
has_text x = any (λ y. str_eq y x)

-- `[...new Set(values)]`: the first of equal values stays.
unfoldable pub unique_from : List String → List String → List String
unique_from seen [] = seen
unique_from seen (x ∷ xs) = unique_from (if has_text x seen then seen else seen ++ x ∷ []) xs

abbrev pub unique : List String → List String
unique xs = unique_from [] xs

unfoldable pub merge_entities : String → Entity → Entity → Result Error MergeHistory
merge_entities id primary secondary = do
  reject_if (str_eq primary.id secondary.id) same_entity
  reject_if (not (str_eq primary.entity_type secondary.entity_type)) different_types
  reject_if (not (is_active primary.status) || not (is_active secondary.status)) not_active
  ok (record {
    id = id;
    primary_before = primary;
    secondary_before = secondary;
    primary_after = record primary {
      aliases = unique (primary.aliases ++ secondary.display_name ∷ secondary.aliases);
      source_ids = unique (primary.source_ids ++ secondary.source_ids);
      revision = primary.revision + 1;
    };
    secondary_after = record secondary {
      status = merged;
      canonical_id = some primary.id;
      revision = secondary.revision + 1;
    };
    expected_primary_revision = primary.revision + 1;
    expected_secondary_revision = secondary.revision + 1;
  })

unfoldable pub reverse_entity_merge :
    MergeHistory → Entity → Entity → Result Error (Entity × Entity)
reverse_entity_merge h primary secondary = do
  reject_if
      (not (primary.revision == h.expected_primary_revision)
        || not (secondary.revision == h.expected_secondary_revision))
      changed_since
  ok (
    record h.primary_before { revision = primary.revision + 1 },
    record h.secondary_before { revision = secondary.revision + 1 },
  )
