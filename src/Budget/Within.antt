-- ===== src/Budget/Within.antt =====
-- The budget of packages/config/src/installation-budget.ts is kept: unless a breach is recorded, what is
-- committed and reserved fits the hard cap, and each allocated category its allocation.
pub mod Operations
use infinite_context.Prelude.{
  ℕ, ◌+◌, ◌*◌, ◌≤◌, String, Option, none, some, Bool, true, false, ◌≡◌, refl, List, [], ◌∷◌, ◌++◌,
  arith, ok, err, Bool-cases, Option-cases, Result-cases, sum_by-append, inl, inr,
}
use infinite_context.Json.{Number}
use infinite_context.Budget.Entry.{
  Category, application, development, final_evaluation, contingency, Entry, Ledger, usd, hard_cap,
  AccountingBasis, committed_part, reserved_part, category_part, committed_usd, reserved_usd,
  category_used, find, replace, allocation, reserved, committed, released,
}
use infinite_context.Budget.Guards.{Platform, ReserveInput, finite_money}
use infinite_context.Budget.Operations.{
  Answer, default, commit_with, commit_found, commit_entry, committed_entry, is_reserved,
}
use infinite_context.Budget.Sums.{sum_by-replace, le-sum_by-find, find-call_id}

-- What the ledger holds after a call: the one it wrote, or the one it read.
abbrev pub after : {A : Type 0} → Ledger → Answer A → Ledger
after l answer = default answer.1 l

pub record IsWithin (l : Ledger) : Type 0 where
  pub total : l.breached ≡ false → committed_usd l.entries + reserved_usd l.entries ≤ hard_cap
  pub allocated :
      l.breached ≡ false
      → (c : Category) (a : ℕ) → allocation c ≡ some a
      → category_used c l.entries ≤ a

-- A write over an entry keeps the budget where it admits the difference, unless it records a breach.
module _ (l : Ledger) (e new : Entry) (found : find e.call_id l.entries ≡ some e) where
  pub replace-IsWithin :
      (time : String) (breach : Bool)
      → IsWithin l
      → (breach ≡ false → l.breached ≡ false)
      → (breach ≡ false
          → committed_usd l.entries
              + reserved_usd l.entries
              + (committed_part new + reserved_part new)
            ≤ hard_cap + (committed_part e + reserved_part e))
      → ((c : Category) (a : ℕ)
          → allocation c ≡ some a
          → breach ≡ false
          → category_used c l.entries + category_part c new ≤ a + category_part c e)
      → IsWithin (record l {
        updated_at = time;
        breached = breach;
        entries = replace e.call_id new l.entries;
      })
  replace-IsWithin time breach w unbreached fits allots = record {
    total = λ q. omega (
      arith,
      fits q,
      sum_by-replace committed_part e.call_id new e l.entries found,
      sum_by-replace reserved_part e.call_id new e l.entries found,
    );
    allocated = λ q c a h.
        omega
          (arith, allots c a h q, sum_by-replace (category_part c) e.call_id new e l.entries found);
  }

module _ (p : Platform) (l : Ledger) (e : Entry) (found : find e.call_id l.entries ≡ some e) where
  pub commit_entry-IsWithin :
      (actual : ℕ) (b : AccountingBasis)
      → e.status ≡ reserved
      → IsWithin l
      → IsWithin (after l (commit_entry p l e actual b))
  unfolding commit_entry
  commit_entry-IsWithin actual b h w =
      replace-IsWithin l e (committed_entry p l e actual b).0 found (p.now 1) _ w
        (λ q. ground arith)
        (λ q. ground (arith, le-sum_by-find reserved_part e.call_id e l.entries found))
        (λ c a k q. ground (arith, w.allocated (ground arith) c a k))
