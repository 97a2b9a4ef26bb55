-- ===== src/Budget/Within/Operations.antt =====
-- The methods of packages/config/src/installation-budget.ts that keep the budget.
use infinite_context.Prelude.{
  ℕ, ◌+◌, ◌≤◌, String, Option, none, some, Bool, true, false, ◌≡◌, refl, List, [], ◌∷◌, arith, ok,
  Bool-cases, Result-cases, sum_by-append, inl, inr, sum_by,
}
use infinite_context.Json.{Number}
use infinite_context.Budget.Entry.{
  Category, Entry, Ledger, AccountingBasis, committed_part, reserved_part, category_part, find,
  reserved,
}
use infinite_context.Budget.Guards.{Platform, ReserveInput, finite_money}
use infinite_context.Budget.Operations.{
  reserve, reserve_entry, readings, push_entry, commit_with, commit_found, release, settle,
  released_entry, cancelled_entry, release_before_call, release_orphaned_before_call,
  release_orphans, orphaned_entry, is_reserved,
}
use infinite_context.Budget.Import.{LegacyEntry, reconcile_legacy_entries, import_entries}
use infinite_context.Budget.Sums.{find_own}
use infinite_context.Budget.Within.{IsWithin, after, replace-IsWithin, commit_entry-IsWithin}
use infinite_context.Budget.Reserve.{IsGranted, reserve_entry-IsGranted, IsGranted-fits}

module _ (p : Platform) (l : Ledger) where
  push_entry-IsWithin :
      (r : ReserveInput) (e : Entry)
      → IsGranted l r e
      → IsWithin l
      → IsWithin (after l (push_entry p (readings r.created_at) l (ok e)))
  unfolding push_entry
  push_entry-IsWithin r e g w = record {
    total = λ q. ground (
      arith,
      sum_by-append {0} committed_part l.entries (e ∷ []),
      sum_by-append {0} reserved_part l.entries (e ∷ []),
      IsGranted-fits l r e g,
    );
    allocated = λ q c a h. ground (
      arith,
      sum_by-append {0} (category_part c) l.entries (e ∷ []),
      w.allocated q c a h,
      g.affordable.allots a,
    );
  }

  pub reserve-IsWithin : (r : ReserveInput) → IsWithin l → IsWithin (after l (reserve p r l))
  unfolding reserve push_entry
  reserve-IsWithin r w = elim (Result-cases (reserve_entry p r l)) [
    | inr (bad, x) ↦ rw x w
    | inl (e, x) ↦ rw x (push_entry-IsWithin r e (reserve_entry-IsGranted p r l e x) w)
  ]

  pub commit_found-IsWithin :
      (actual : ℕ) (b : AccountingBasis) (o : Option Entry)
      → ((e : Entry) → o ≡ some e → find e.call_id l.entries ≡ some e)
      → IsWithin l
      → IsWithin (after l (commit_found p l actual b o))
  unfolding commit_found
  commit_found-IsWithin actual b none own w = w
  commit_found-IsWithin actual b (some e) own w =
      ground (arith, commit_entry-IsWithin p l e (own e refl) actual b)

  pub commit_with-IsWithin :
      (b : AccountingBasis) (id : String) (cost : Number)
      → IsWithin l
      → IsWithin (after l (commit_with b p id cost l))
  unfolding commit_with
  commit_with-IsWithin b id cost w = elim (Result-cases (finite_money cost)) [
    | inr (bad, x) ↦ rw (x, commit_with) w
    | inl (n, x) ↦
        rw (x, commit_with)
          (commit_found-IsWithin n b (find id l.entries) (λ e. find_own id e l.entries) w)
  ]

  pub settle-IsWithin :
      (settled : Entry → Entry) (o : Option Entry)
      → ((e : Entry) → o ≡ some e → find e.call_id l.entries ≡ some e)
      → ((e : Entry)
          → e.status ≡ reserved
          → committed_part (settled e) + reserved_part (settled e) ≤ e.estimated_cost)
      → ((e : Entry) (c : Category)
          → e.status ≡ reserved
          → category_part c (settled e) ≤ category_part c e)
      → IsWithin l
      → IsWithin (after l (settle p settled l o))
  unfolding settle
  settle-IsWithin settled none own part allots w = w
  settle-IsWithin settled (some e) own part allots w = elim (Bool-cases (is_reserved e.status)) [
    | inr q ↦ rw q w
    | inl q ↦
        let held : e.status ≡ reserved = ground arith in
        rw q (
          replace-IsWithin l e (settled e) (own e refl) (p.now 1) l.breached w (λ u. u)
            (λ u. ground (arith, part e held, w.total u))
            (λ c a k u. ground (arith, allots e c held, w.allocated u c a k)))
  ]

  pub release-IsWithin :
      (conservative : Bool) (id : String)
      → IsWithin l
      → IsWithin (after l (release conservative p id l))
  unfolding release released_entry
  release-IsWithin true id w =
      settle-IsWithin (released_entry true p) (find id l.entries) (λ e. find_own id e l.entries)
        (λ e h. omega arith) (λ e c h. ground arith) w
  release-IsWithin false id w =
      settle-IsWithin (released_entry false p) (find id l.entries) (λ e. find_own id e l.entries)
        (λ e h. omega arith) (λ e c h. ground arith) w

  pub release_before_call-IsWithin :
      (id : String) → IsWithin l → IsWithin (after l (release_before_call p id l))
  unfolding release_before_call
  release_before_call-IsWithin id w =
      settle-IsWithin (cancelled_entry p) (find id l.entries) (λ e. find_own id e l.entries)
        (λ e h. omega arith) (λ e c h. ground arith) w

sum_by-release_orphans-le :
    (f : Entry → ℕ) (p : Platform) (scope : String) (admitted : String → Bool)
    → ((k : ℕ) (e : Entry) → f (orphaned_entry p k e) ≤ f e)
    → (k : ℕ) (es : List Entry) → sum_by f (release_orphans p scope admitted k es).0 ≤ sum_by f es
unfolding release_orphans
sum_by-release_orphans-le f p scope admitted h k [] = omega arith
sum_by-release_orphans-le f p scope admitted h k (e ∷ es) = ground (
  arith,
  h k e,
  sum_by-release_orphans-le f p scope admitted h k es,
  sum_by-release_orphans-le f p scope admitted h (k + 1) es,
)

pub release_orphaned_before_call-IsWithin :
    (p : Platform) (scope : String) (admitted : String → Bool) (l : Ledger)
    → IsWithin l
    → IsWithin (after l (release_orphaned_before_call p scope admitted l))
unfolding release_orphaned_before_call
release_orphaned_before_call-IsWithin p scope admitted l w =
    let es = (release_orphans p scope admitted 0 l.entries).0 in
    record {
      total = λ q. ground (
        arith,
        sum_by-release_orphans-le committed_part p scope admitted (λ k e. omega arith) 0 l.entries,
        sum_by-release_orphans-le reserved_part p scope admitted (λ k e. omega arith) 0 l.entries,
      );
      allocated = λ q c a h. ground (
        arith,
        sum_by-release_orphans-le (category_part c) p scope admitted (λ k e. ground arith) 0
            l.entries,
        w.allocated (ground arith) c a h,
      );
    }

pub reconcile_legacy_entries-IsWithin :
    (p : Platform) (rs : List LegacyEntry) (l : Ledger)
    → IsWithin l
    → IsWithin (after l (reconcile_legacy_entries p rs l))
unfolding reconcile_legacy_entries
reconcile_legacy_entries-IsWithin p rs l w =
    elim (Result-cases (import_entries p 1 rs (l.entries, false))) [
      | inr (bad, x) ↦ rw (x, reconcile_legacy_entries) w
      | inl ((es, true), x) ↦
          rw (x, reconcile_legacy_entries)
            (record { total = λ q. ground arith; allocated = λ q c a h. ground arith })
      | inl ((es, false), x) ↦ rw (x, reconcile_legacy_entries) w
    ]
