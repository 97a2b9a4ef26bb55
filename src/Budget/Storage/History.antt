-- ===== src/Budget/Storage/History.antt =====
-- Calls of packages/config/src/installation-budget.ts and the file that they leave.
use infinite_context.Prelude.{
  ℕ, ◌+◌, ◌<◌, String, some, true, false, [], ok, err, ◌≡◌, refl, arith, subst, ◌≢◌,
}
use infinite_context.Json.{millionths}
use infinite_context.Budget.Entry.{
  Entry, Ledger, Category, category_used, allocation, find, committed, application, committed_usd,
  reserved_usd, hard_cap,
}
use infinite_context.Budget.Guards.{Platform, finite_money, unreadable}
use infinite_context.Budget.Operations.{
  reconcile_committed, reconcile_found, reconcile_entry, reconciled_entry,
}
use infinite_context.Budget.Settlement.{late_charge_overruns}
use infinite_context.Budget.Within.{after}
use infinite_context.Budget.History.{
  Call, reserves, commits, reconciles, releases, cancels, sweeps, imports, step,
}
use infinite_context.Budget.Storage.{read_ledger, write_ledger}
use infinite_context.Budget.Storage.RoundTrip.{
  AreStorable, IsStorable, read-write_ledger, read-write_unrecorded,
}
use infinite_context.Budget.Storage.Keeps.{find-IsStorableEntry, replace-AreStorable}
use infinite_context.Budget.Storage.Methods.{
  HasClock, IsReadableRequest, is_charge_basis, reserve-IsStorable, commit_with-IsStorable,
  release-IsStorable, release_before_call-IsStorable, release_orphaned_before_call-IsStorable,
}
use infinite_context.Budget.Storage.Import.{AreNamed, reconcile_legacy_entries-IsStorable}
use infinite_context.Budget.Storage.Late.{HasRoom, reconcile_committed-IsStorable}

late_charge-AreStorable :
    (p : Platform) (l : Ledger) (id : String) (e : Entry) (prior n : ℕ)
    → HasClock p
    → IsStorable p l
    → find id l.entries ≡ some e
    → e.status ≡ committed
    → e.actual_cost ≡ some prior
    → prior < n
    → AreStorable p [] (after l (reconcile_committed p id (millionths n) l)).entries
unfolding reconcile_committed reconcile_found reconcile_entry finite_money
late_charge-AreStorable p l id e prior n c s found h k raised =
    let v = find-IsStorableEntry p id [] l.entries e s.stores found in
    subst (AreStorable p []) (ground arith) (
      replace-AreStorable p e.call_id (reconciled_entry p l e n).0 [] l.entries refl
        (record {
          named = v.named;
          expiry = v.expiry;
          pid = v.pid;
          scope = v.scope;
          owner = v.owner;
          accounting = ground (arith, v.accounting);
          created = v.created;
          updated = c 0;
        })
        s.stores)

-- No total meets a limit exactly. The source adds doubles, which there fall on either side.
pub record IsClear (l : Ledger) : Type 0 where
  pub total : committed_usd l.entries + reserved_usd l.entries ≢ hard_cap
  pub allocated : (c : Category) (a : ℕ) → allocation c ≡ some a → category_used c l.entries ≢ a

-- What a caller must bring for the file to stay readable. A late charge must leave the room that the
-- pending reservations take.
abbrev pub IsReadable : Platform → Ledger → Call → Type 0
IsReadable p l (reserves r) = IsReadableRequest p r
IsReadable p l (commits b id cost) = is_charge_basis b ≡ true
IsReadable p l (reconciles id cost) = HasRoom (step p (reconciles id cost) l)
IsReadable p l (imports rs) = AreNamed rs
IsReadable p l _ = Unit

pub step-IsStorable :
    (p : Platform) (call : Call) (l : Ledger)
    → HasClock p
    → IsReadable p l call
    → IsStorable p l
    → IsStorable p (step p call l)
unfolding step
step-IsStorable p (reserves r) l c h s = reserve-IsStorable p l c s r h
step-IsStorable p (commits b id cost) l c h s = commit_with-IsStorable p l c s b id cost h
step-IsStorable p (reconciles id cost) l c h s = reconcile_committed-IsStorable p l c s id cost h
step-IsStorable p (releases conservative id) l c h s = release-IsStorable p l c s conservative id
step-IsStorable p (cancels id) l c h s = release_before_call-IsStorable p l c s id
step-IsStorable p (sweeps scope admitted) l c h s =
    release_orphaned_before_call-IsStorable p l c s scope admitted
step-IsStorable p (imports rs) l c h s = reconcile_legacy_entries-IsStorable p c l rs h s

-- From a readable ledger, a call with an identifier and times that `#read` accepts, under a basis of the
-- methods where it commits, and with room for the pending reservations where it is a late charge, leaves a
-- file that `#read` accepts and that holds the ledger of the call. No total meets a limit exactly, before the
-- call or after it.
pub read-write_step :
    (p : Platform) (call : Call) (l : Ledger)
    → HasClock p
    → IsReadable p l call
    → IsStorable p l
    → IsClear l
    → IsClear (step p call l)
    → read_ledger p (write_ledger (step p call l)) ≡ ok (step p call l)
read-write_step p call l c h s before left =
    read-write_ledger p (step p call l) (step-IsStorable p call l c h s)

-- A higher late charge for an application entry, while no breach is recorded, that keeps the committed total under
-- the hard cap but leaves less room than the pending reservations take, writes a file that `#read` refuses.
pub late_charge_unreadable :
    (p : Platform) (l : Ledger) (id : String) (e : Entry) (prior n : ℕ)
    → HasClock p
    → IsStorable p l
    → find id l.entries ≡ some e
    → e.status ≡ committed
    → e.actual_cost ≡ some prior
    → e.category ≡ application
    → l.breached ≡ false
    → prior < n
    → committed_usd l.entries + n < hard_cap + prior
    → hard_cap + prior < committed_usd l.entries + reserved_usd l.entries + n
    → read_ledger p (write_ledger (step p (reconciles id (millionths n)) l)) ≡ err unreadable
unfolding step
late_charge_unreadable p l id e prior n c s found h k a b raised fits over =
    let bad = late_charge_overruns p l id e prior n found h k a b raised (omega arith) over in
    read-write_unrecorded p (after l (reconcile_committed p id (millionths n) l))
      (late_charge-AreStorable p l id e prior n c s found h k raised) bad.0 bad.1
