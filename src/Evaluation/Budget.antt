-- ===== src/Evaluation/Budget.antt =====
-- `EvaluationBudgetGuard` of packages/evaluation/src/budget.ts: the map of entries, in the order of insertion,
-- and its methods. Amounts of USD are natural numbers of millionths.
pub mod Sums
pub mod Allocated
use infinite_context.Prelude.{
  ℕ, ◌+◌, ◌-◌, ◌*◌, String, Option, none, some, Bool, true, false, not, List, [], ◌∷◌, ◌++◌, ◌&&◌,
  ◌||◌, map, Result, ok, err, ◌>>=◌, ◌>>◌, reject_if, ltb, leb, if◌then◌else◌, str_eq, any, keep,
  sum_by,
}
use infinite_context.Json.{Number, millionths, negative, non_finite}

pub data Category : Type 0 where
  development final_evaluation contingency : Category

pub data Status : Type 0 where
  reserved committed released : Status

pub record Entry : Type 0 where
  pub call_id : String
  pub category : Category
  pub estimated_cost : ℕ
  pub actual_cost : Option ℕ
  pub essential : Bool
  pub status : Status
  pub created_at : String

pub record Snapshot : Type 0 where
  pub committed_usd : ℕ
  pub reserved_usd : ℕ
  pub remaining_usd : ℕ
  pub warnings_reached : List ℕ
  pub entries : List Entry

pub data Error : Type 0 where
  duplicate_call_id not_money cap_exceeded nonessential_stopped : Error
  allocation_exceeded no_reservation : Error

abbrev pub usd : ℕ
usd = 1_000_000

abbrev pub hard_cap : ℕ
hard_cap = 100 * usd

abbrev pub nonessential_stop : ℕ
nonessential_stop = 95 * usd

abbrev pub warnings : List ℕ
warnings = (20 * usd) ∷ (50 * usd) ∷ (75 * usd) ∷ (90 * usd) ∷ []

abbrev pub allocation : Category → ℕ
allocation development = 25 * usd
allocation final_evaluation = 60 * usd
allocation contingency = 15 * usd

abbrev pub same_category : Category → Category → Bool
same_category development development = true
same_category final_evaluation final_evaluation = true
same_category contingency contingency = true
same_category _ _ = false

abbrev pub or_zero : Option ℕ → ℕ
or_zero none = 0
or_zero (some n) = n

abbrev pub committed_part : Entry → ℕ
committed_part e = elim e.status [ committed ↦ or_zero e.actual_cost | _ ↦ 0 ]

abbrev pub reserved_part : Entry → ℕ
reserved_part e = elim e.status [ reserved ↦ e.estimated_cost | _ ↦ 0 ]

abbrev pub category_part : Category → Entry → ℕ
category_part c e =
    if same_category e.category c
    then elim e.status [
      | committed ↦ or_zero e.actual_cost
      | reserved ↦ e.estimated_cost
      | released ↦ 0
    ]
    else 0

-- The sum over the entries of other calls.
abbrev pub other_part : String → Category → Entry → ℕ
other_part id c e = if str_eq e.call_id id then 0 else category_part c e

unfoldable pub snapshot : List Entry → Snapshot
snapshot es = record {
  committed_usd = sum_by committed_part es;
  reserved_usd = sum_by reserved_part es;
  remaining_usd = hard_cap - sum_by committed_part es - sum_by reserved_part es;
  warnings_reached = keep (λ t. leb t (sum_by committed_part es)) warnings;
  entries = es;
}

-- `this.entries.get(callId)`.
abbrev pub lookup : String → List Entry → Option Entry
lookup id [] = none
lookup id (e ∷ es) = let rest = lookup id es in if str_eq e.call_id id then some e else rest

-- `this.entries.set(callId, entry)`.
abbrev pub put : String → Entry → List Entry → List Entry
put id new [] = new ∷ []
put id new (e ∷ es) = let rest = put id new es in if str_eq e.call_id id then new ∷ es else e ∷ rest

abbrev pub has_call : String → List Entry → Bool
has_call id = any (λ e. str_eq e.call_id id)

abbrev pub finite_money : Number → Result Error ℕ
finite_money (millionths n) = ok n
finite_money negative = err not_money
finite_money non_finite = err not_money

pub record ReserveInput : Type 0 where
  pub call_id : String
  pub category : Category
  pub estimated_cost : Number
  pub essential : Bool
  pub created_at : Option String

abbrev pub default : {A : Type 0} → Option A → A → A
default none d = d
default (some a) d = a

-- The entry that `reserve` makes and returns, or what it throws; `now` is the clock's reading.
unfoldable pub new_entry : String → ReserveInput → List Entry → Result Error Entry
new_entry now r es = do
  reject_if (has_call r.call_id es) duplicate_call_id
  cost ← finite_money r.estimated_cost
  let projected = sum_by committed_part es + sum_by reserved_part es + cost
  reject_if (leb hard_cap (sum_by committed_part es) || ltb hard_cap projected) cap_exceeded
  reject_if (not r.essential && leb nonessential_stop projected) nonessential_stopped
  reject_if (ltb (allocation r.category) (sum_by (category_part r.category) es + cost))
      allocation_exceeded
  ok (record {
    call_id = r.call_id;
    category = r.category;
    estimated_cost = cost;
    actual_cost = none;
    essential = r.essential;
    status = reserved;
    created_at = default r.created_at now;
  })

abbrev pub is_reserved : Status → Bool
is_reserved reserved = true
is_reserved _ = false

abbrev pub find_reserved : String → List Entry → Result Error Entry
find_reserved id es = elim (lookup id es) [
  | none ↦ err no_reservation
  | some e ↦ if is_reserved e.status then ok e else err no_reservation
]

unfoldable pub committed_entry : String → Number → List Entry → Result Error Entry
committed_entry id actual es = do
  e ← find_reserved id es
  cost ← finite_money actual
  let others = sum_by reserved_part es - e.estimated_cost
  reject_if (ltb hard_cap (sum_by committed_part es + others + cost)) cap_exceeded
  reject_if (ltb (allocation e.category) (sum_by (other_part id e.category) es + cost))
      allocation_exceeded
  ok (record e { actual_cost = some cost; status = committed })

-- What a method that stores an entry leaves: its answer and the entries.
abbrev pub store : List Entry → Result Error Entry → Result Error Entry × List Entry
store es (ok e) = (ok e, put e.call_id e es)
store es (err x) = (err x, es)

unfoldable pub reserve : String → ReserveInput → List Entry → Result Error Entry × List Entry
reserve now r es = store es (new_entry now r es)

unfoldable pub commit : String → Number → List Entry → Result Error Entry × List Entry
commit id actual es = store es (committed_entry id actual es)

unfoldable pub release : String → List Entry → List Entry
release id es = elim (lookup id es) [
  | none ↦ es
  | some e ↦ if is_reserved e.status then put id (record e { status = released }) es else es
]
