-- ===== src/Memory/Temporal.antt =====
-- packages/memory/src/temporal.ts: one claim reconciled with the ledger of claims, freshness, selection by
-- intent, and the removal of sources.
mod Cases
pub mod Evidence
pub mod Slots
pub mod Authority
pub mod Selection
use infinite_context.Prelude.{
  ℕ, String, Option, none, some, Bool, true, false, not, List, [], ◌∷◌, ◌++◌, map, ◌&&◌, ◌||◌, leb,
  keep, any, str_eq, if◌then◌else◌,
}
use infinite_context.Memory.Claim.{
  Claim, Status, current, superseded, conflicted, historical, expired, Relation, supports,
  contradicts, supersedes, duplicate_of, Platform, same_slot, same_value, start_of, time_of, later,
  reached, authority, is_current, is_conflicted, is_historical, with_status, relate,
}

pub data Outcome : Type 0 where
  inserted duplicated superseding conflicting historic : Outcome

pub record Reconciliation : Type 0 where
  pub claims : List Claim
  pub relations : List Relation
  pub current_ids : List String
  pub outcome : Outcome

pub data Intent : Type 0 where
  now_only past_only all : Intent

abbrev pub is_active : Claim → Bool
is_active c = is_current c.status || is_conflicted c.status

module _ (p : Platform) where
  abbrev pub relevant : List Claim → Claim → List Claim
  relevant existing incoming = keep (λ c. same_slot p c incoming && is_active c) existing

  unfoldable pub is_historical_on_arrival : Claim → String → Bool
  is_historical_on_arrival c now = is_historical c.status || reached p c.valid_to now

  -- `relevant.find((claim) => sameValue(claim, incoming))`
  abbrev pub find_duplicate : List Claim → Claim → Option Claim
  find_duplicate [] incoming = none
  find_duplicate (c ∷ cs) incoming =
      let rest = find_duplicate cs incoming in if same_value p c incoming then some c else rest

  -- `[...relevant].sort((a, b) => timeOf(b) - timeOf(a))[0]`: the first of the latest.
  abbrev pub newest : Claim → List Claim → Claim
  newest best [] = best
  newest best (c ∷ cs) = newest (if later p (time_of p c) (time_of p best) then c else best) cs

  abbrev pub current_ids : List Claim → List String
  current_ids cs = map (λ c. c.id) (keep (λ c. is_current c.status) cs)

  abbrev pub has_id : String → List Claim → Bool
  has_id id = any (λ c. str_eq c.id id)

  abbrev pub or_cutoff : Option String → String → Option String
  or_cutoff none cutoff = some cutoff
  or_cutoff (some t) cutoff = some t

  -- The two rewrites of the claims that compete with the incoming one.
  abbrev pub supersede : List Claim → String → Claim → Claim
  supersede active cutoff c =
      if has_id c.id active
      then record c { status = superseded; valid_to = or_cutoff c.valid_to cutoff }
      else c

  abbrev pub conflict : List Claim → Claim → Claim
  conflict active c = if has_id c.id active then with_status c conflicted else c

  abbrev pub replaced_relations : Claim → String → List Claim → List Relation
  replaced_relations stored now [] = []
  replaced_relations stored now (c ∷ cs) =
      relate stored c supersedes "Newer authoritative statement" now
      ∷ (relate stored c contradicts "Values differ for the same temporal slot" now
          ∷ replaced_relations stored now cs)

  abbrev pub store_historical : List Claim → List Claim → Claim → Reconciliation
  store_historical existing active incoming = record {
    claims = existing ++ with_status incoming historical ∷ [];
    relations = [];
    current_ids = current_ids active;
    outcome = historic;
  }

  abbrev pub store_duplicate : List Claim → List Claim → Claim → Claim → String → Reconciliation
  store_duplicate existing active incoming duplicate now =
      let stored = with_status incoming historical in
      record {
        claims = existing ++ stored ∷ [];
        relations =
            relate stored duplicate duplicate_of "Normalized values match" now
            ∷ (relate stored duplicate supports "Independent supporting evidence" now ∷ []);
        current_ids = current_ids active;
        outcome = duplicated;
      }

  abbrev pub store_first : List Claim → Claim → String → Reconciliation
  store_first existing incoming now =
      let stale = reached p incoming.freshness_expires_at now in
      record {
        claims = existing ++ with_status incoming (if stale then expired else current) ∷ [];
        relations = [];
        current_ids = if stale then [] else incoming.id ∷ [];
        outcome = inserted;
      }

  abbrev pub store_superseding : List Claim → List Claim → Claim → String → Reconciliation
  store_superseding existing active incoming now =
      let stored = with_status incoming current in
      record {
        claims = map (supersede active (start_of p incoming)) existing ++ stored ∷ [];
        relations = replaced_relations stored now active;
        current_ids = stored.id ∷ [];
        outcome = superseding;
      }

  abbrev pub store_weaker : List Claim → List Claim → Claim → Claim → String → Reconciliation
  store_weaker existing active incoming best now =
      let stored = with_status incoming conflicted in
      record {
        claims = existing ++ stored ∷ [];
        relations = relate stored best contradicts "Lower-authority conflicting evidence" now ∷ [];
        current_ids = current_ids active;
        outcome = conflicting;
      }

  abbrev pub store_unresolved : List Claim → List Claim → Claim → String → Reconciliation
  store_unresolved existing active incoming now =
      let stored = with_status incoming conflicted in
      record {
        claims = map (conflict active) existing ++ stored ∷ [];
        relations =
            map (λ c. relate stored c contradicts "Unresolved evidence conflict" now) active;
        current_ids = [];
        outcome = conflicting;
      }

  unfoldable pub dominates : Claim → Claim → Bool
  dominates incoming best =
      incoming.explicit_correction
      || (later p (time_of p incoming) (time_of p best)
          && leb (authority best) (authority incoming))

  -- From `newestRelevant` on: the competing claims are `first` and `rest`.
  unfoldable pub reconcile_competing :
      List Claim → Claim → List Claim → Claim → String → Reconciliation
  unfolding dominates
  reconcile_competing existing first rest incoming now =
      let best = newest first rest in
      let active = first ∷ rest in
      if dominates incoming best
      then store_superseding existing active incoming now
      else if not (leb (authority best) (authority incoming))
      then store_weaker existing active incoming best now
      else store_unresolved existing active incoming now

  unfoldable pub reconcile_active : List Claim → List Claim → Claim → String → Reconciliation
  unfolding reconcile_competing
  reconcile_active existing [] incoming now = store_first existing incoming now
  reconcile_active existing (c ∷ cs) incoming now = elim (find_duplicate (c ∷ cs) incoming) [
    | some duplicate ↦ store_duplicate existing (c ∷ cs) incoming duplicate now
    | none ↦ reconcile_competing existing c cs incoming now
  ]

  unfoldable pub reconcile_claim : List Claim → Claim → String → Reconciliation
  unfolding reconcile_active is_historical_on_arrival
  reconcile_claim existing incoming now =
      if is_historical_on_arrival incoming now
      then store_historical existing (relevant existing incoming) incoming
      else reconcile_active existing (relevant existing incoming) incoming now

  unfoldable pub refresh : String → Claim → Claim
  refresh now c =
      if is_current c.status && reached p c.freshness_expires_at now
      then with_status c expired
      else c

  unfoldable pub apply_freshness : List Claim → String → List Claim
  unfolding refresh
  apply_freshness cs now = map (refresh now) cs

  unfoldable pub select_claims : List Claim → Intent → String → List Claim
  unfolding apply_freshness
  select_claims cs all now = apply_freshness cs now
  select_claims cs now_only now = keep is_active (apply_freshness cs now)
  select_claims cs past_only now = keep (λ c. not (is_current c.status)) (apply_freshness cs now)

pub record Removal : Type 0 where
  pub retained : Option Claim
  pub removed_claim : Bool
  pub removed_ids : List String

abbrev pub is_empty : List String → Bool
is_empty [] = true
is_empty (x ∷ xs) = false

-- `removed` is `(id) => sourceIds.has(id)`.
unfoldable pub remove_provenance : Claim → (String → Bool) → Removal
remove_provenance c removed =
    let kept = keep (λ id. not (removed id)) c.source_ids in
    record {
      retained = if is_empty kept then none else some (record c { source_ids = kept });
      removed_claim = is_empty kept;
      removed_ids = keep removed c.source_ids;
    }
