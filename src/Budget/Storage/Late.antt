-- ===== src/Budget/Storage/Late.antt =====
-- Late charges of packages/config/src/installation-budget.ts and the file: `reconcileCommitted`.
use infinite_context.Prelude.{
  ℕ, ◌+◌, ◌≤◌, Option, none, some, false, ◌≡◌, refl, arith, ◌||◌, ◌⊎◌, Bool-cases, Result-cases,
  inl, inr, String, max, [], subst, sym,
}
use infinite_context.Json.{Number}
use infinite_context.Budget.Entry.{
  Entry, Ledger, Status, find, replace, reserved, committed, released, committed_usd, reserved_usd,
  committed_part, reserved_part, hard_cap, or_zero, usage_priced_locally,
}
use infinite_context.Budget.Guards.{Platform, finite_money}
use infinite_context.Budget.Operations.{
  reconcile_committed, reconcile_found, reconcile_entry, reconciled_entry, is_charge, commit_found,
}
use infinite_context.Budget.Sums.{sum_by-replace, find_own}
use infinite_context.Budget.Within.{IsWithin, after, replace-IsWithin}
use infinite_context.Budget.Within.Operations.{commit_found-IsWithin}
use infinite_context.Budget.Storage.RoundTrip.{IsStorable}
use infinite_context.Budget.Storage.Keeps.{find-IsStorableEntry}
use infinite_context.Budget.Storage.Methods.{HasClock, write-IsStorable, commit_found-IsStorable}

-- Unless a breach is recorded, what is committed leaves room for the pending reservations.
abbrev pub HasRoom : Ledger → Type 0
HasRoom l = l.breached ≡ false → committed_usd l.entries + reserved_usd l.entries ≤ hard_cap

-- The ledger that a late charge writes over a committed entry.
abbrev raised_ledger : Platform → Ledger → Entry → ℕ → Ledger
raised_ledger p l e cost = record l {
  updated_at = p.now 1;
  breached = l.breached || (reconciled_entry p l e cost).1;
  entries = replace e.call_id (reconciled_entry p l e cost).0 l.entries;
}

Status-cases : (s : Status) → (s ≡ reserved) ⊎ (s ≡ committed) ⊎ (s ≡ released)
Status-cases reserved = inl refl
Status-cases committed = inr (inl refl)
Status-cases released = inr (inr refl)

module _ (p : Platform) (l : Ledger) (c : HasClock p) (s : IsStorable p l) where
  raised-IsWithin :
      (e : Entry) (cost : ℕ)
      → find e.call_id l.entries ≡ some e
      → e.status ≡ committed
      → HasRoom (raised_ledger p l e cost)
      → IsWithin (raised_ledger p l e cost)
  unfolding reconciled_entry
  raised-IsWithin e cost found h fits =
      let new : Entry = (reconciled_entry p l e cost).0 in
      let paid = sum_by-replace committed_part e.call_id new e l.entries found in
      let pending = sum_by-replace reserved_part e.call_id new e l.entries found in
      replace-IsWithin l e new found (p.now 1) _ s.budget (λ q. ground arith)
        (λ q. omega (arith, fits q))
        (λ k a m q. ground (arith, s.budget.allocated (ground arith) k a m))

  raised-IsStorable :
      (e : Entry) (cost : ℕ)
      → find e.call_id l.entries ≡ some e
      → e.status ≡ committed
      → HasRoom (raised_ledger p l e cost)
      → IsStorable p (raised_ledger p l e cost)
  unfolding reconciled_entry
  raised-IsStorable e cost found h fits =
      let v = find-IsStorableEntry p e.call_id [] l.entries e s.stores found in
      write-IsStorable p l c s e (reconciled_entry p l e cost).0 1 _ refl
        (record {
          named = v.named;
          expiry = v.expiry;
          pid = v.pid;
          scope = v.scope;
          owner = v.owner;
          accounting = ground (arith, v.accounting);
          created = v.created;
          updated = c 0;
        })
        (raised-IsWithin e cost found h fits)

  reconcile_entry-IsStorable :
      (e : Entry) (n : ℕ)
      → find e.call_id l.entries ≡ some e
      → e.status ≡ committed
      → HasRoom (after l (reconcile_entry p l e n))
      → IsStorable p (after l (reconcile_entry p l e n))
  unfolding reconcile_entry
  reconcile_entry-IsStorable e n found h fits =
      let cost = max (or_zero e.actual_cost) n in
      elim (Bool-cases (is_charge cost e.actual_cost)) [
        | inl t ↦ rw t s
        | inr t ↦ rw t (raised-IsStorable e cost found h (rw t at fits))
      ]

  reconcile_found-IsStorable :
      (n : ℕ) (o : Option Entry)
      → ((e : Entry) → o ≡ some e → find e.call_id l.entries ≡ some e)
      → HasRoom (after l (reconcile_found p l n o))
      → IsStorable p (after l (reconcile_found p l n o))
  unfolding reconcile_found commit_found
  reconcile_found-IsStorable n none own fits = s
  reconcile_found-IsStorable n (some e) own fits = elim (Status-cases e.status) [
    | inl h ↦
        let settles : commit_found p l n usage_priced_locally (some e)
            ≡ reconcile_found p l n (some e) =
          ground arith in
        subst (λ a. IsStorable p (after l a)) settles
          (commit_found-IsStorable p l c s n usage_priced_locally (some e) refl own
            (commit_found-IsWithin p l n usage_priced_locally (some e) own s.budget))
    | inr (inl h) ↦
        let raises : reconcile_entry p l e n ≡ reconcile_found p l n (some e) = ground arith in
        subst (λ a. IsStorable p (after l a)) raises
          (reconcile_entry-IsStorable e n (own e refl) h
            (subst (λ a. HasRoom (after l a)) (sym raises) fits))
    | inr (inr h) ↦
        let refuses : l ≡ after l (reconcile_found p l n (some e)) = ground arith in
        subst (IsStorable p) refuses s
  ]

  pub reconcile_committed-IsStorable :
      (id : String) (cost : Number)
      → HasRoom (after l (reconcile_committed p id cost l))
      → IsStorable p (after l (reconcile_committed p id cost l))
  unfolding reconcile_committed
  reconcile_committed-IsStorable id cost fits = elim (Result-cases (finite_money cost)) [
    | inr (bad, x) ↦ rw (x, reconcile_committed) s
    | inl (n, x) ↦
        rw (x, reconcile_committed)
          (reconcile_found-IsStorable n (find id l.entries) (λ e. find_own id e l.entries)
            (rw (x, reconcile_committed) at fits))
  ]
