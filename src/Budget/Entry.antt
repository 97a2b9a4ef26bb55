-- ===== src/Budget/Entry.antt =====
-- The ledger of packages/config/src/installation-budget.ts and the sums over its entries. Amounts of
-- USD are natural numbers of millionths.
use infinite_context.Prelude.{
  ℕ, ◌-◌, ◌*◌, String, Option, none, some, Bool, true, false, List, [], ◌∷◌, leb, if◌then◌else◌,
  str_eq, sum_by, map, keep,
}

pub data Category : Type 0 where
  application development final_evaluation contingency : Category

pub data Status : Type 0 where
  reserved committed released : Status

pub data AccountingBasis : Type 0 where
  reservation usage_priced_locally provider_reported : AccountingBasis
  conservative_uncertain_failure released_before_call : AccountingBasis

pub record Entry : Type 0 where
  pub call_id : String
  pub category : Category
  pub estimated_cost : ℕ
  pub actual_cost : Option ℕ
  pub essential : Bool
  pub status : Status
  pub created_at : String
  pub updated_at : String
  pub overrun : Bool
  pub basis : AccountingBasis
  pub owner_pid : Option ℕ
  pub owner_scope : Option String
  pub expires_at : Option String

pub record Ledger : Type 0 where
  pub created_at : String
  pub updated_at : String
  pub breached : Bool
  pub entries : List Entry

abbrev pub usd : ℕ
usd = 1_000_000

abbrev pub hard_cap : ℕ
hard_cap = 100 * usd

abbrev pub nonessential_stop : ℕ
nonessential_stop = 95 * usd

abbrev pub warning_thresholds : List ℕ
warning_thresholds = (20 * usd) ∷ (50 * usd) ∷ (75 * usd) ∷ (90 * usd) ∷ []

-- The allocated categories are those with an allocation.
abbrev pub allocation : Category → Option ℕ
allocation application = none
allocation development = some (25 * usd)
allocation final_evaluation = some (60 * usd)
allocation contingency = some (15 * usd)

abbrev pub same_category : Category → Category → Bool
same_category application application = true
same_category development development = true
same_category final_evaluation final_evaluation = true
same_category contingency contingency = true
same_category _ _ = false

abbrev pub or_zero : Option ℕ → ℕ
or_zero none = 0
or_zero (some n) = n

-- What an entry adds to the committed and to the reserved total.
abbrev pub committed_part : Entry → ℕ
committed_part e = elim e.status [ committed ↦ or_zero e.actual_cost | _ ↦ 0 ]

abbrev pub reserved_part : Entry → ℕ
reserved_part e = elim e.status [ reserved ↦ e.estimated_cost | _ ↦ 0 ]

-- What an entry uses of its own category.
abbrev pub used_part : Entry → ℕ
used_part e = elim e.status [
  | committed ↦ or_zero e.actual_cost
  | reserved ↦ e.estimated_cost
  | released ↦ 0
]

abbrev pub category_part : Category → Entry → ℕ
category_part c e = if same_category e.category c then used_part e else 0

abbrev pub committed_usd : List Entry → ℕ
committed_usd = sum_by committed_part

abbrev pub reserved_usd : List Entry → ℕ
reserved_usd = sum_by reserved_part

abbrev pub category_used : Category → List Entry → ℕ
category_used c = sum_by (category_part c)

-- The public part of an entry.
pub record PublicEntry : Type 0 where
  pub call_id : String
  pub category : Category
  pub estimated_cost : ℕ
  pub actual_cost : Option ℕ
  pub essential : Bool
  pub status : Status
  pub created_at : String

abbrev pub public_entry : Entry → PublicEntry
public_entry e = record {
  call_id = e.call_id;
  category = e.category;
  estimated_cost = e.estimated_cost;
  actual_cost = e.actual_cost;
  essential = e.essential;
  status = e.status;
  created_at = e.created_at;
}

pub record Snapshot : Type 0 where
  pub committed : ℕ
  pub reserved : ℕ
  pub remaining : ℕ
  pub warnings_reached : List ℕ
  pub entries : List PublicEntry

unfoldable pub snapshot_of : Ledger → Snapshot
snapshot_of l = record {
  committed = committed_usd l.entries;
  reserved = reserved_usd l.entries;
  remaining = hard_cap - committed_usd l.entries - reserved_usd l.entries;
  warnings_reached = keep (λ t. leb t (committed_usd l.entries)) warning_thresholds;
  entries = map public_entry l.entries;
}

-- `entries.find((entry) => entry.callId === callId)`; the source finds the index and reads there.
abbrev pub find : String → List Entry → Option Entry
find id [] = none
find id (e ∷ es) = let rest = find id es in if str_eq e.call_id id then some e else rest

-- `entries[index] = entry`, at the index that `find` reads.
abbrev pub replace : String → Entry → List Entry → List Entry
replace id new [] = []
replace id new (e ∷ es) =
    let rest = replace id new es in if str_eq e.call_id id then new ∷ es else e ∷ rest
