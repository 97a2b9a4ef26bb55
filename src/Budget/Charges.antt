-- ===== src/Budget/Charges.antt =====
-- Charges in packages/config/src/installation-budget.ts: what a commit records, and that no call forgets
-- a charge.
use infinite_context.Prelude.{
  ℕ, ◌+◌, ◌≤◌, String, Option, none, some, Bool, true, false, ◌≡◌, refl, List, [], ◌∷◌, arith, ok,
  err, Option-cases, Result-cases, sum_by-append, inl, inr, Result, max,
}
use infinite_context.Budget.Entry.{
  Entry, Ledger, AccountingBasis, committed_part, committed_usd, find, replace, reserved, or_zero,
  usage_priced_locally,
}
use infinite_context.Budget.Guards.{Platform, finite_money, Error}
use infinite_context.Budget.Operations.{
  reserve, reserve_entry, readings, push_entry, commit_with, commit_found, commit_entry, release,
  settle, released_entry, cancelled_entry, release_before_call, release_orphaned_before_call,
  release_orphans, is_orphan, reconcile_committed, reconcile_found, reconcile_entry,
  committed_entry, reconciled_entry,
}
use infinite_context.Budget.Import.{
  LegacyEntry, Imported, reconcile_legacy_entries, import_entries, import_into, merged_entry,
  new_entry, check_legacy,
}
use infinite_context.Budget.Sums.{find_own, sum_by-replace}
use infinite_context.Budget.Within.{after}
use infinite_context.Budget.History.{
  Call, reserves, commits, reconciles, releases, cancels, sweeps, imports, step, run, run_induction,
}

-- A write over an entry that is not charged less.
committed-replace-le :
    (new e : Entry) (es : List Entry)
    → find e.call_id es ≡ some e
    → committed_part e ≤ committed_part new
    → committed_usd es ≤ committed_usd (replace e.call_id new es)
committed-replace-le new e es found h =
    omega (arith, sum_by-replace committed_part e.call_id new e es found)

module _ (p : Platform) (l : Ledger) where
  commit_entry-charges :
      (e : Entry) (actual : ℕ) (b : AccountingBasis)
      → find e.call_id l.entries ≡ some e
      → e.status ≡ reserved
      → committed_usd l.entries ≤ committed_usd (after l (commit_entry p l e actual b)).entries
  unfolding commit_entry
  commit_entry-charges e actual b found h =
      committed-replace-le (committed_entry p l e actual b).0 e l.entries found (ground arith)

  commit_found-charges :
      (actual : ℕ) (b : AccountingBasis) (o : Option Entry)
      → ((e : Entry) → o ≡ some e → find e.call_id l.entries ≡ some e)
      → committed_usd l.entries ≤ committed_usd (after l (commit_found p l actual b o)).entries
  unfolding commit_found
  commit_found-charges actual b none own = omega arith
  commit_found-charges actual b (some e) own =
      ground (arith, commit_entry-charges e actual b (own e refl))

  reconcile_found-charges :
      (actual : ℕ) (o : Option Entry)
      → ((e : Entry) → o ≡ some e → find e.call_id l.entries ≡ some e)
      → committed_usd l.entries ≤ committed_usd (after l (reconcile_found p l actual o)).entries
  unfolding reconcile_found reconcile_entry
  reconcile_found-charges actual none own = omega arith
  reconcile_found-charges actual (some e) own = ground (
    arith,
    commit_entry-charges e actual usage_priced_locally (own e refl),
    committed-replace-le (reconciled_entry p l e (max (or_zero e.actual_cost) actual)).0 e l.entries
        (own e refl),
  )

  settle-charges :
      (settled : Entry → Entry) (o : Option Entry)
      → ((e : Entry) → o ≡ some e → find e.call_id l.entries ≡ some e)
      → committed_usd l.entries ≤ committed_usd (after l (settle p settled l o)).entries
  unfolding settle
  settle-charges settled none own = omega arith
  settle-charges settled (some e) own =
      ground (arith, committed-replace-le (settled e) e l.entries (own e refl))

  push_entry-charges :
      (k : ℕ) (r : Result Error Entry)
      → committed_usd l.entries ≤ committed_usd (after l (push_entry p k l r)).entries
  unfolding push_entry
  push_entry-charges k (err x) = omega arith
  push_entry-charges k (ok e) = omega (arith, sum_by-append {0} committed_part l.entries (e ∷ []))

-- A sweep only turns reservations into released entries.
release_orphans-charges :
    (p : Platform) (scope : String) (admitted : String → Bool) (k : ℕ) (es : List Entry)
    → committed_usd (release_orphans p scope admitted k es).0 ≡ committed_usd es
unfolding release_orphans is_orphan
release_orphans-charges p scope admitted k [] = refl
release_orphans-charges p scope admitted k (e ∷ es) = ground (
  arith,
  release_orphans-charges p scope admitted k es,
  release_orphans-charges p scope admitted (k + 1) es,
)

import_into-charges :
    (time : String) (i : Imported) (es es' : List Entry) (o : Option Entry)
    → ((e : Entry) → o ≡ some e → find i.call_id es ≡ some e)
    → import_into time i es o ≡ some es'
    → committed_usd es ≤ committed_usd es'
unfolding import_into
import_into-charges time i es es' none own h =
    ground (arith, sum_by-append {0} committed_part es (new_entry time i ∷ []))
import_into-charges time i es es' (some e) own h =
    ground
      (arith, sum_by-replace committed_part i.call_id (merged_entry time i e) e es (own e refl))

import_entries-charges :
    (p : Platform) (k : ℕ) (rs : List LegacyEntry) (es es' : List Entry) (c c' : Bool)
    → import_entries p k rs (es, c) ≡ ok (es', c')
    → committed_usd es ≤ committed_usd es'
unfolding import_entries
import_entries-charges p k [] es es' c c' h = ground arith
import_entries-charges p k (r ∷ rs) es es' c c' h = elim (Result-cases (check_legacy p r)) [
  | inr (bad, x) ↦ ground (arith, x)
  | inl (i, x) ↦ elim (Option-cases (import_into (p.now k) i es (find i.call_id es))) [
    | inl same ↦ import_entries-charges p (k + 1) rs es es' c c' (ground (arith, x, same))
    | inr (es₁, y) ↦ omega (
      arith,
      import_into-charges (p.now k) i es es₁ (find i.call_id es) (λ e q. q) y,
      import_entries-charges p (k + 1) rs es₁ es' true c' (ground (arith, x, y)),
    )
  ]
]

step-charges :
    (p : Platform) (c : Call) (l : Ledger)
    → committed_usd l.entries ≤ committed_usd (step p c l).entries
unfolding step reserve commit_with reconcile_committed release release_before_call
    release_orphaned_before_call reconcile_legacy_entries
step-charges p (reserves r) l = push_entry-charges p l (readings r.created_at) (reserve_entry p r l)
step-charges p (commits b id cost) l = elim (Result-cases (finite_money cost)) [
  | inr (bad, x) ↦ rw (x, commit_with) (omega arith)
  | inl (n, x) ↦
      rw (x, commit_with)
        (commit_found-charges p l n b (find id l.entries) (λ e. find_own id e l.entries))
]
step-charges p (reconciles id cost) l = elim (Result-cases (finite_money cost)) [
  | inr (bad, x) ↦ rw (x, reconcile_committed) (omega arith)
  | inl (n, x) ↦
      rw (x, reconcile_committed)
        (reconcile_found-charges p l n (find id l.entries) (λ e. find_own id e l.entries))
]
step-charges p (releases conservative id) l =
    settle-charges p l (released_entry conservative p) (find id l.entries)
      (λ e. find_own id e l.entries)
step-charges p (cancels id) l =
    settle-charges p l (cancelled_entry p) (find id l.entries) (λ e. find_own id e l.entries)
step-charges p (sweeps scope admitted) l =
    ground (arith, release_orphans-charges p scope admitted 0 l.entries)
step-charges p (imports rs) l = elim (Result-cases (import_entries p 1 rs (l.entries, false))) [
  | inr (bad, x) ↦ rw (x, reconcile_legacy_entries) (omega arith)
  | inl ((es, true), x) ↦
      rw (x, reconcile_legacy_entries) (import_entries-charges p 1 rs l.entries es false true x)
  | inl ((es, false), x) ↦ rw (x, reconcile_legacy_entries) (omega arith)
]

-- The committed total never falls, whatever the calls.
pub run-charges :
    (cs : List (Platform × Call)) (l : Ledger)
    → committed_usd l.entries ≤ committed_usd (run cs l).entries
run-charges cs l =
    run_induction (λ k. committed_usd l.entries ≤ committed_usd k.entries)
      (λ p c k h. omega (arith, step-charges p c k)) cs l (omega arith)
