-- ===== src/Budget/Settlement.antt =====
-- `commit`, `reserve` after a breach, and late charges in packages/config/src/installation-budget.ts.
use infinite_context.Prelude.{
  ok, ℕ, ◌+◌, ◌≤◌, ◌<◌, String, none, some, Bool, true, false, ◌≡◌, ◌≢◌, refl, List, arith, ok,
  Result-cases, ◌⊎◌, inl, inr,
}
use infinite_context.Json.{Number, millionths}
use infinite_context.Budget.Entry.{
  Entry, Ledger, hard_cap, committed_part, reserved_part, committed_usd, reserved_usd, find,
  reserved, committed, application, Category, allocation, category_used, usage_priced_locally,
}
use infinite_context.Budget.Guards.{Platform, ReserveInput, finite_money, assert_affordable}
use infinite_context.Budget.Operations.{
  reserve, reserve_entry, push_entry, commit_entry, reconcile_committed, reconcile_found,
  reconcile_entry, reconciled_entry, committed_entry, assert_can_reserve_total,
}
use infinite_context.Budget.Sums.{find_own, sum_by-replace, find-replace_self}
use infinite_context.Budget.Within.{after}
use infinite_context.Budget.Reserve.{reserve_entry-IsGranted}
use infinite_context.Budget.History.{Call, run, run-breached}

-- What a commit of `n` over the reservation `e` leaves.
pub record IsCommitted (l : Ledger) (e : Entry) (n : ℕ) (l' : Ledger) : Type 0 where
  pub entry : Entry
  pub stored : find e.call_id l'.entries ≡ some entry
  pub settled : entry.status ≡ committed
  pub charged : entry.actual_cost ≡ some n
  pub total : committed_usd l'.entries ≡ committed_usd l.entries + n
  pub freed : reserved_usd l'.entries + e.estimated_cost ≡ reserved_usd l.entries

-- The ledger is over the hard cap, or over the allocation of the category.
abbrev pub IsPast : Category → Ledger → Type 0
IsPast c l =
    (hard_cap < committed_usd l.entries + reserved_usd l.entries)
    ⊎ ((a : ℕ) × (allocation c ≡ some a) × (a < category_used c l.entries))

-- It is within both.
abbrev pub HasKept : Category → Ledger → Type 0
HasKept c l =
    (committed_usd l.entries + reserved_usd l.entries ≤ hard_cap)
    × ((a : ℕ) → allocation c ≡ some a → category_used c l.entries ≤ a)

module _ (p : Platform) (l : Ledger) (e : Entry) (n : ℕ) (found : find e.call_id l.entries ≡ some e)
    (h : e.status ≡ reserved) where
  commit_entry-IsCommitted : IsCommitted l e n (after l (commit_entry p l e n usage_priced_locally))
  unfolding commit_entry
  commit_entry-IsCommitted =
      let new : Entry = (committed_entry p l e n usage_priced_locally).0 in
      record {
        entry = new;
        stored = find-replace_self e.call_id new e l.entries found refl;
        settled = refl;
        charged = refl;
        total = ground (arith, sum_by-replace committed_part e.call_id new e l.entries found);
        freed = ground (arith, sum_by-replace reserved_part e.call_id new e l.entries found);
      }

plan_refused :
    (l : Ledger) (category : String) (cost : Number) (essential : Bool)
    → l.breached ≡ true
    → (assert_can_reserve_total category cost essential l).0 ≢ ok tt
unfolding assert_can_reserve_total assert_affordable
plan_refused l category cost essential b h = ground arith

-- After a breach no reservation is granted and no plan is admitted, whatever happens in between.
pub breach_blocks :
    (l : Ledger) (cs : List (Platform × Call)) (p : Platform) (r : ReserveInput)
    → l.breached ≡ true
    → ((reserve p r (run cs l)).1 ≡ none)
      × ((category : String) (cost : Number) (essential : Bool)
          → (assert_can_reserve_total category cost essential (run cs l)).0 ≢ ok tt)
unfolding reserve push_entry
breach_blocks l cs p r h =
    let b : (run cs l).breached ≡ true = run-breached cs l h in
    (
      elim (Result-cases (reserve_entry p r (run cs l))) [
        | inr (bad, x) ↦ rw x refl
        | inl (e, x) ↦
            ground (arith, b, (reserve_entry-IsGranted p r (run cs l) e x).affordable.unbreached)
      ],
      λ category cost essential. plan_refused (run cs l) category cost essential b,
    )

-- A late charge may take the room of the pending reservations: the method compares the committed total
-- alone with the cap. Then the ledger it writes is over the cap with no breach recorded.
pub late_charge_overruns :
    (p : Platform) (l : Ledger) (id : String) (e : Entry) (prior n : ℕ)
    → find id l.entries ≡ some e
    → e.status ≡ committed
    → e.actual_cost ≡ some prior
    → e.category ≡ application
    → l.breached ≡ false
    → prior < n
    → committed_usd l.entries + n ≤ hard_cap + prior
    → hard_cap + prior < committed_usd l.entries + reserved_usd l.entries + n
    → let l' = after l (reconcile_committed p id (millionths n) l) in
      (l'.breached ≡ false) × (hard_cap < committed_usd l'.entries + reserved_usd l'.entries)
unfolding reconcile_committed reconcile_found reconcile_entry finite_money
late_charge_overruns p l id e prior n found h k c b raised fits over = ground (
  arith,
  sum_by-replace committed_part e.call_id (reconciled_entry p l e n).0 e l.entries
      (find_own id e l.entries found),
  sum_by-replace reserved_part e.call_id (reconciled_entry p l e n).0 e l.entries
      (find_own id e l.entries found),
)
