-- ===== src/Memory/Tests.antt =====
-- Claims of packages/memory/src/temporal.ts and entities of packages/memory/src/entity-resolution.ts, concrete ones.
use infinite_context.Prelude.{
  ℕ, ◌≢◌, ◌||◌, String, Option, none, some, Bool, true, false, List, [], ◌∷◌, ◌++◌, map, All, ok,
  ◌≡◌, refl, arith, str_eq, is_blank, trim, collapse_spaces, ap,
}
use infinite_context.Memory.Claim.{
  Claim, Platform, current, superseded, conflicted, user, assistant, conversation, Status,
  with_status, normalize, same_slot, same_value, time_of, authority,
}
use infinite_context.Memory.Temporal.{
  reconcile_claim, select_claims, now_only, remove_provenance, is_historical_on_arrival, newest,
}
use infinite_context.Memory.Temporal.Evidence.{evidence, reconcile_claim-evidence}
use infinite_context.Memory.Temporal.Slots.{HasSingleCurrents, reconcile_claim-HasSingleCurrents}
use infinite_context.Memory.Temporal.Authority.{weaker_adds}
use infinite_context.Memory.Temporal.Selection.{
  is_stale, select_claims-fresh, IsRemoved, remove_provenance-IsRemoved,
}
use infinite_context.Memory.Entities.{
  Entity, MergeHistory, active, merged, merge_entities, reverse_entity_merge, has_text, unique_from,
}
use infinite_context.Memory.Entities.Merge.{merge_entities-joins, reverse-merge_entities}

abbrev platform : Platform
platform = record {
  nfkc = λ text. text;
  lower = λ text. text;
  parse_date = λ text.
      if_known (str_eq text "2026-01-01") (str_eq text "2026-02-01") (str_eq text "2026-03-01");
}
  where
    if_known : Bool → Bool → Bool → Option ℕ
    if_known true _ _ = some 1
    if_known false true _ = some 2
    if_known false false true = some 3
    if_known false false false = none

abbrev stated : Claim
stated = record {
  id = "stated";
  topic_id = none;
  subject = "user";
  predicate = "city";
  value = "Oslo";
  confidence = 900;
  status = conflicted;
  source_role = user;
  source_ids = "event-1" ∷ ("event-2" ∷ []);
  valid_from = none;
  valid_to = none;
  observed_at = "2026-01-01";
  freshness_expires_at = none;
  recorded_at = "2026-01-01";
  source_kind = conversation;
  explicit_correction = false;
  attributed_to = none;
  extraction_version = "claims-v1";
}

abbrev guessed : Claim
guessed = record stated {
  id = "guessed";
  value = "Bergen";
  source_role = assistant;
  observed_at = "2026-02-01";
  recorded_at = "2026-02-01";
}

abbrev later_guess : Claim
later_guess = record guessed {
  id = "later";
  value = "Bodø";
  observed_at = "2026-03-01";
  recorded_at = "2026-03-01";
}

abbrev claims : List Claim
claims = stated ∷ (guessed ∷ [])

reconcile_claim-evidence_example :
    map evidence (reconcile_claim platform claims later_guess "2026-03-01").claims
    ≡ map evidence claims ++ evidence later_guess ∷ []
reconcile_claim-evidence_example = reconcile_claim-evidence platform claims later_guess "2026-03-01"

reconcile_claim-HasSingleCurrents_example :
    HasSingleCurrents platform (reconcile_claim platform claims later_guess "2026-03-01").claims
reconcile_claim-HasSingleCurrents_example =
    reconcile_claim-HasSingleCurrents platform claims later_guess "2026-03-01" (λ x. ground arith)

abbrev newest_authority : List Claim → ℕ
newest_authority [] = 0
newest_authority (c ∷ cs) = authority (newest platform c cs)

weaker_adds_example :
    (s : Status) × ((reconcile_claim platform (stated ∷ []) later_guess "2026-03-01").claims
      ≡ (stated ∷ []) ++ with_status later_guess s ∷ [])
unfolding same_slot normalize collapse_spaces trim is_blank
weaker_adds_example =
    weaker_adds platform (stated ∷ []) later_guess "2026-03-01" refl
      (λ c cs e. omega (arith, ap newest_authority e))

-- A later guess supersedes the statement too, since it has the authority of the newest claim, a guess.
later_guess_supersedes :
    map (λ c. c.status) (reconcile_claim platform claims later_guess "2026-03-01").claims
    ≡ superseded ∷ superseded ∷ current ∷ []
unfolding reconcile_claim same_slot normalize is_historical_on_arrival time_of same_value
    collapse_spaces trim is_blank
later_guess_supersedes = refl

select_claims-fresh_example :
    All
      (λ c. is_stale platform "2026-03-01" c ≡ false)
      (select_claims platform claims now_only "2026-03-01")
select_claims-fresh_example = select_claims-fresh platform claims now_only "2026-03-01"

abbrev is_first_event : String → Bool
is_first_event id = str_eq id "event-1"

remove_provenance-IsRemoved_example :
    IsRemoved stated is_first_event (remove_provenance stated is_first_event)
remove_provenance-IsRemoved_example = remove_provenance-IsRemoved stated is_first_event

abbrev ada : Entity
ada = record {
  id = "ada";
  entity_type = "person";
  display_name = "Ada Lovelace";
  aliases = "Ada" ∷ [];
  status = active;
  canonical_id = none;
  revision = 3;
  source_ids = "event-1" ∷ [];
}

abbrev countess : Entity
countess = record ada {
  id = "countess";
  display_name = "Countess of Lovelace";
  aliases = "Ada" ∷ ("Augusta Ada" ∷ []);
  revision = 1;
}

abbrev merge : MergeHistory
merge = record {
  id = "merge";
  primary_before = ada;
  secondary_before = countess;
  primary_after = record ada {
    aliases = "Ada" ∷ ("Countess of Lovelace" ∷ ("Augusta Ada" ∷ []));
    revision = 4;
  };
  secondary_after = record countess { status = merged; canonical_id = some "ada"; revision = 2 };
  expected_primary_revision = 4;
  expected_secondary_revision = 2;
}

merge_entities-joins_example :
    (ada.status ≡ active)
    × (countess.status ≡ active)
    × (ada.id ≢ countess.id)
    × (ada.entity_type ≡ countess.entity_type)
    × ((x : String)
        → has_text x merge.primary_after.aliases ≡ (
            has_text x ada.aliases
            || (str_eq "Countess of Lovelace" x || has_text x countess.aliases)))
    × ((x : String)
        → has_text x merge.primary_after.source_ids
          ≡ (has_text x ada.source_ids || has_text x countess.source_ids))
    × (merge.secondary_after.status ≡ merged)
    × (merge.secondary_after.canonical_id ≡ some "ada")
unfolding merge_entities unique_from
merge_entities-joins_example = merge_entities-joins "merge" ada countess merge refl

reverse-merge_entities_example :
    reverse_entity_merge merge (record merge.primary_after { aliases = [] }) merge.secondary_after
    ≡ ok (record ada { revision = 5 }, record countess { revision = 3 })
unfolding merge_entities unique_from
reverse-merge_entities_example =
    reverse-merge_entities "merge" ada countess merge (record merge.primary_after { aliases = [] })
      merge.secondary_after refl
