-- ===== src/Budget/History.antt =====
-- Histories of calls of `InstallationBudgetGuard` in packages/config/src/installation-budget.ts.
use infinite_context.Prelude.{String, Bool, true, ◌≡◌, List, [], ◌∷◌, arith}
use infinite_context.Json.{Number}
use infinite_context.Budget.Entry.{Ledger, AccountingBasis}
use infinite_context.Budget.Guards.{Platform, ReserveInput}
use infinite_context.Budget.Operations.{
  reserve, commit_with, commit_found, commit_entry, release, settle, release_before_call,
  release_orphaned_before_call, reconcile_committed, reconcile_found, reconcile_entry,
}
use infinite_context.Budget.Import.{LegacyEntry, reconcile_legacy_entries}
use infinite_context.Budget.Within.{IsWithin, after}
use infinite_context.Budget.Within.Operations.{
  reserve-IsWithin, commit_with-IsWithin, release-IsWithin, release_before_call-IsWithin,
  release_orphaned_before_call-IsWithin, reconcile_legacy_entries-IsWithin,
}

-- A call of a method that may write the ledger.
pub data Call : Type 0 where
  reserves : ReserveInput → Call
  commits : AccountingBasis → String → Number → Call
  reconciles : String → Number → Call
  releases : Bool → String → Call
  cancels : String → Call
  sweeps : String → (String → Bool) → Call
  imports : List LegacyEntry → Call

-- The ledger that the call leaves, whether it returns or throws.
unfoldable pub step : Platform → Call → Ledger → Ledger
step p (reserves r) l = after l (reserve p r l)
step p (commits b id cost) l = after l (commit_with b p id cost l)
step p (reconciles id cost) l = after l (reconcile_committed p id cost l)
step p (releases conservative id) l = after l (release conservative p id l)
step p (cancels id) l = after l (release_before_call p id l)
step p (sweeps scope admitted) l = after l (release_orphaned_before_call p scope admitted l)
step p (imports rs) l = after l (reconcile_legacy_entries p rs l)

-- Each call has a platform of its own: its clock and the processes alive at the time.
unfoldable pub run : List (Platform × Call) → Ledger → Ledger
run [] l = l
run ((p, c) ∷ cs) l = run cs (step p c l)

-- The history has no call of `reconcileCommitted`.
abbrev pub HasNoLateCharge : List (Platform × Call) → Type 0
HasNoLateCharge [] = Unit
HasNoLateCharge ((p, reconciles id cost) ∷ cs) = ⊥
HasNoLateCharge ((p, c) ∷ cs) = HasNoLateCharge cs

pub run_induction {ℓ} :
    (P : Ledger → Type ℓ)
    → ((p : Platform) (c : Call) (l : Ledger) → P l → P (step p c l))
    → (cs : List (Platform × Call)) (l : Ledger) → P l
    → P (run cs l)
unfolding run
run_induction P keeps [] l h = h
run_induction P keeps ((p, c) ∷ cs) l h = run_induction P keeps cs (step p c l) (keeps p c l h)

-- In any history without `reconcileCommitted`, from a ledger within budget: unless a breach is recorded,
-- what is committed and reserved fits USD 100, and each allocated category its allocation.
pub run-IsWithin :
    (cs : List (Platform × Call)) (l : Ledger)
    → HasNoLateCharge cs
    → IsWithin l
    → IsWithin (run cs l)
unfolding run step
run-IsWithin [] l h w = w
run-IsWithin ((p, reserves r) ∷ cs) l h w = run-IsWithin cs _ h (reserve-IsWithin p l r w)
run-IsWithin ((p, commits b id cost) ∷ cs) l h w =
    run-IsWithin cs _ h (commit_with-IsWithin p l b id cost w)
run-IsWithin ((p, reconciles id cost) ∷ cs) l h w = absurd h
run-IsWithin ((p, releases conservative id) ∷ cs) l h w =
    run-IsWithin cs _ h (release-IsWithin p l conservative id w)
run-IsWithin ((p, cancels id) ∷ cs) l h w =
    run-IsWithin cs _ h (release_before_call-IsWithin p l id w)
run-IsWithin ((p, sweeps scope admitted) ∷ cs) l h w =
    run-IsWithin cs _ h (release_orphaned_before_call-IsWithin p scope admitted l w)
run-IsWithin ((p, imports rs) ∷ cs) l h w =
    run-IsWithin cs _ h (reconcile_legacy_entries-IsWithin p rs l w)

-- A recorded breach is never withdrawn.
step-breached :
    (p : Platform) (c : Call) (l : Ledger) → l.breached ≡ true → (step p c l).breached ≡ true
unfolding step reserve commit_with commit_found commit_entry reconcile_committed reconcile_found
    reconcile_entry release settle release_before_call release_orphaned_before_call
    reconcile_legacy_entries
step-breached p (reserves r) l h = ground arith
step-breached p (commits b id cost) l h = ground arith
step-breached p (reconciles id cost) l h = ground arith
step-breached p (releases conservative id) l h = ground arith
step-breached p (cancels id) l h = ground arith
step-breached p (sweeps scope admitted) l h = ground arith
step-breached p (imports rs) l h = ground arith

pub run-breached :
    (cs : List (Platform × Call)) (l : Ledger) → l.breached ≡ true → (run cs l).breached ≡ true
run-breached cs l h = run_induction (λ k. k.breached ≡ true) step-breached cs l h
