-- ===== src/Budget/Import.antt =====
-- `reconcileLegacyEntries` of packages/config/src/installation-budget.ts.
use infinite_context.Prelude.{
  ℕ, ◌+◌, ◌*◌, String, Option, none, some, Bool, true, false, List, [], ◌∷◌, ◌++◌, ◌||◌, max,
  Result, ok, err, ◌>>=◌, ltb, leb, if◌then◌else◌, not,
}
use infinite_context.Json.{Number}
use infinite_context.Budget.Entry.{
  Category, development, final_evaluation, contingency, Entry, Ledger, hard_cap, usd,
  provider_reported, reservation, reserved, committed, committed_usd, reserved_usd, category_used,
  or_zero, find, replace, Snapshot, snapshot_of,
}
use infinite_context.Budget.Guards.{
  Error, unknown_category, Platform, finite_money, parse_category, or_throw, timestamp,
}
use infinite_context.Budget.Operations.{Answer, default}

pub record LegacyEntry : Type 0 where
  pub call_id : String
  pub category : String
  pub estimated_cost : Number
  pub actual_cost : Option Number
  pub committed : Bool
  pub created_at : String

-- A legacy entry whose fields passed the checks of the loop.
pub record Imported : Type 0 where
  pub call_id : String
  pub category : Category
  pub estimated_cost : ℕ
  pub actual_cost : Option ℕ
  pub committed : Bool
  pub created_at : String

unfoldable pub optional_money : Option Number → Result Error (Option ℕ)
optional_money none = ok none
optional_money (some n) = do m ← finite_money n; ok (some m)

unfoldable pub check_legacy : Platform → LegacyEntry → Result Error Imported
check_legacy p r = do
  estimated ← finite_money r.estimated_cost
  actual ← optional_money r.actual_cost
  category ← or_throw (parse_category r.category) unknown_category
  created ← timestamp p r.created_at
  ok (record {
    call_id = r.call_id;
    category = category;
    estimated_cost = estimated;
    actual_cost = actual;
    committed = r.committed;
    created_at = created;
  })

abbrev pub imported_cost : Imported → ℕ
imported_cost i = default i.actual_cost i.estimated_cost

unfoldable pub new_entry : String → Imported → Entry
new_entry time i = record {
  call_id = i.call_id;
  category = i.category;
  estimated_cost = i.estimated_cost;
  actual_cost = if i.committed then some (imported_cost i) else none;
  essential = true;
  status = if i.committed then committed else reserved;
  created_at = i.created_at;
  updated_at = time;
  overrun = false;
  basis = if i.committed then provider_reported else reservation;
  owner_pid = none;
  owner_scope = none;
  expires_at = none;
}

abbrev pub existing_cost : Entry → ℕ
existing_cost e = elim e.status [ committed ↦ or_zero e.actual_cost | _ ↦ 0 ]

unfoldable pub merged_entry : String → Imported → Entry → Entry
merged_entry time i e = record e {
  category = i.category;
  estimated_cost = max e.estimated_cost i.estimated_cost;
  actual_cost = some (max (existing_cost e) (imported_cost i));
  status = committed;
  updated_at = time;
  basis = provider_reported;
}

abbrev pub is_settled : Imported → Entry → Bool
is_settled i e = elim e.status [ committed ↦ leb (imported_cost i) (existing_cost e) | _ ↦ false ]

-- The entries after one legacy entry; `none` where the loop goes on with nothing changed.
unfoldable pub import_into : String → Imported → List Entry → Option Entry → Option (List Entry)
unfolding new_entry merged_entry
import_into time i es none = some (es ++ new_entry time i ∷ [])
import_into time i es (some e) =
    if not i.committed
    then none
    else if is_settled i e
    then none
    else some (replace i.call_id (merged_entry time i e) es)

-- The loop: the k-th legacy entry reads the clock at k. The flag is `changed`.
unfoldable pub import_entries :
    Platform → ℕ → List LegacyEntry → List Entry × Bool → Result Error (List Entry × Bool)
import_entries p k [] state = ok state
import_entries p k (r ∷ rs) (es, changed) = do
  i ← check_legacy p r
  import_entries p (k + 1) rs (elim (import_into (p.now k) i es (find i.call_id es)) [
    | none ↦ (es, changed)
    | some es' ↦ (es', true)
  ])

abbrev pub exceeds : Category → ℕ → List Entry → Bool
exceeds c a es = ltb a (category_used c es)

abbrev pub is_over : List Entry → Bool
is_over es =
    ltb hard_cap (committed_usd es + reserved_usd es)
    || exceeds development (25 * usd) es
    || exceeds final_evaluation (60 * usd) es
    || exceeds contingency (15 * usd) es

unfoldable pub reconcile_legacy_entries :
    Platform → List LegacyEntry → Ledger → Answer (Snapshot × Bool × String)
reconcile_legacy_entries p rs l = elim (import_entries p 1 rs (l.entries, false)) [
  | err e ↦ (err e, none)
  | ok (es, changed) ↦
      let l' : Ledger = record l {
        updated_at = p.now 0;
        breached = l.breached || is_over es;
        entries = es;
      } in
      if changed
      then (ok (snapshot_of l', l'.breached, l'.created_at), some l')
      else (ok (snapshot_of l, l.breached, l.created_at), none)
]
