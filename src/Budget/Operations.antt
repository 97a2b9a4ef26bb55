-- ===== src/Budget/Operations.antt =====
-- The methods of `InstallationBudgetGuard` in packages/config/src/installation-budget.ts. A method reads
-- the ledger and answers with a result, or the error it throws, and the ledger that it writes, if any.
use infinite_context.Prelude.{
  ℕ, ◌+◌, ◌-◌, String, Option, none, some, Bool, true, false, not, List, [], ◌∷◌, ◌++◌, ◌&&◌, ◌||◌,
  max, Result, ok, err, ◌>>=◌, ◌>>◌, reject_if, ltb, ◌==◌, if◌then◌else◌, str_eq, any, is_blank,
  length,
}
use infinite_context.Budget.Entry.{
  application, same_category, Entry, Ledger, PublicEntry, public_entry, hard_cap, AccountingBasis,
  usage_priced_locally, conservative_uncertain_failure, released_before_call, reservation, Status,
  reserved, committed, released, committed_usd, reserved_usd, or_zero, find, replace, Snapshot,
  snapshot_of,
}
use infinite_context.Budget.Guards.{
  Error, duplicate_call_id, unknown_category, scope_required, no_reservation, released_reservation,
  overrun_recorded, Platform, ReserveInput, finite_money, parse_category, or_throw, effective_cap,
  parse_owner, optional_timestamp, assert_affordable, allocation_would_overrun,
}
use infinite_context.Json.{Number}

abbrev pub Answer : Type 0 → Type 0
Answer A = Result Error A × Option Ledger

abbrev pub default : {A : Type 0} → Option A → A → A
default none d = d
default (some a) d = a

abbrev pub has_call : String → List Entry → Bool
has_call id = any (λ e. str_eq e.call_id id)

-- The entry that `reserve` adds, or what it is refused for.
unfoldable pub reserve_entry : Platform → ReserveInput → Ledger → Result Error Entry
reserve_entry p r l = do
  cost ← finite_money r.estimated_cost
  category ← or_throw (parse_category r.category) unknown_category
  cap ← effective_cap r.hard_limit
  reject_if (has_call r.call_id l.entries) duplicate_call_id
  assert_affordable l cap category cost r.essential
  owner ← parse_owner r.owner_pid r.owner_scope
  expires ← optional_timestamp p r.expires_at
  ok (record {
    call_id = r.call_id;
    category = category;
    estimated_cost = cost;
    actual_cost = none;
    essential = r.essential;
    status = reserved;
    created_at = default r.created_at (p.now 0);
    updated_at = default r.created_at (p.now 0);
    overrun = false;
    basis = reservation;
    owner_pid = owner.0;
    owner_scope = owner.1;
    expires_at = expires;
  })

-- The readings of the clock before the ledger's own, by the `createdAt` of the request.
abbrev pub readings : Option String → ℕ
readings none = 1
readings (some t) = 0

unfoldable pub push_entry : Platform → ℕ → Ledger → Result Error Entry → Answer PublicEntry
push_entry p k l (err e) = (err e, none)
push_entry p k l (ok entry) = (
  ok (public_entry entry),
  some (record l { updated_at = p.now k; entries = l.entries ++ entry ∷ [] }),
)

unfoldable pub reserve : Platform → ReserveInput → Ledger → Answer PublicEntry
unfolding push_entry
reserve p r l = push_entry p (readings r.created_at) l (reserve_entry p r l)

abbrev pub scope_is : String → Option String → Bool
scope_is s none = false
scope_is s (some t) = str_eq t s

abbrev pub is_dead : Platform → Option ℕ → Bool
is_dead p none = false
is_dead p (some pid) = not (p.process_alive pid)

abbrev pub is_reserved : Status → Bool
is_reserved reserved = true
is_reserved _ = false

-- The two `continue` tests of the loop, negated.
unfoldable pub is_orphan : Platform → String → (String → Bool) → Entry → Bool
is_orphan p scope admitted e =
    is_reserved e.status
    && same_category e.category application
    && scope_is scope e.owner_scope
    && not (admitted e.call_id)
    && is_dead p e.owner_pid

abbrev pub orphaned_entry : Platform → ℕ → Entry → Entry
orphaned_entry p k e = record e {
  status = released;
  actual_cost = none;
  updated_at = p.now k;
  basis = released_before_call;
}

-- The loop, with the number of entries released so far, and the released identifiers.
unfoldable pub release_orphans :
    Platform → String → (String → Bool) → ℕ → List Entry → List Entry × List String
release_orphans p scope admitted k [] = ([], [])
release_orphans p scope admitted k (e ∷ es) =
    let orphan = is_orphan p scope admitted e in
    let rest = release_orphans p scope admitted (if orphan then k + 1 else k) es in
    if orphan then (orphaned_entry p k e ∷ rest.0, e.call_id ∷ rest.1) else (e ∷ rest.0, rest.1)

unfoldable pub release_orphaned_before_call :
    Platform → String → (String → Bool) → Ledger → Answer (List String)
release_orphaned_before_call p scope admitted l =
    if is_blank scope
    then (err scope_required, none)
    else let swept = release_orphans p scope admitted 0 l.entries in
      (
        ok swept.1,
        elim swept.1 [
          | [] ↦ none
          | _ ∷ _ ↦ some (record l { updated_at = p.now (length swept.1); entries = swept.0 })
        ],
      )

-- `#commitEntry`: the committed entry, whether the charge is a violation, and the changed ledger.
unfoldable pub committed_entry : Platform → Ledger → Entry → ℕ → AccountingBasis → Entry × Bool
committed_entry p l e actual b =
    let cap_overrun =
      ltb hard_cap
        (committed_usd l.entries + (reserved_usd l.entries - e.estimated_cost) + actual) in
    let over = allocation_would_overrun l.entries e.category actual e.estimated_cost in
    (
      record e {
        actual_cost = some actual;
        status = committed;
        updated_at = p.now 0;
        overrun = cap_overrun || over || ltb e.estimated_cost actual;
        basis = b;
      },
      cap_overrun || over,
    )

unfoldable pub commit_entry : Platform → Ledger → Entry → ℕ → AccountingBasis → Answer PublicEntry
unfolding committed_entry
commit_entry p l e actual b =
    let (entry, violation) = committed_entry p l e actual b in
    (
      if violation then err overrun_recorded else ok (public_entry entry),
      some (record l {
        updated_at = p.now 1;
        breached = l.breached || violation;
        entries = replace e.call_id entry l.entries;
      }),
    )

unfoldable pub commit_found :
    Platform → Ledger → ℕ → AccountingBasis → Option Entry → Answer PublicEntry
commit_found p l actual b none = (err no_reservation, none)
commit_found p l actual b (some e) =
    if is_reserved e.status then commit_entry p l e actual b else (err no_reservation, none)

-- `#commit`, for `commit` and `commitConservatively`.
unfoldable pub commit_with :
    AccountingBasis → Platform → String → Number → Ledger → Answer PublicEntry
unfolding commit_found
commit_with b p id cost l = elim (finite_money cost) [
  | err e ↦ (err e, none)
  | ok actual ↦ commit_found p l actual b (find id l.entries)
]

abbrev pub commit : Platform → String → Number → Ledger → Answer PublicEntry
commit = commit_with usage_priced_locally

abbrev pub commit_conservatively : Platform → String → Number → Ledger → Answer PublicEntry
commit_conservatively = commit_with conservative_uncertain_failure

abbrev pub is_charge : ℕ → Option ℕ → Bool
is_charge n none = false
is_charge n (some m) = n == m

-- A later charge for an entry that is committed already, and whether it is a violation. It never
-- lowers the charge.
unfoldable pub reconciled_entry : Platform → Ledger → Entry → ℕ → Entry × Bool
reconciled_entry p l e cost =
    let prior = or_zero e.actual_cost in
    let cap_overrun = ltb (hard_cap + prior) (committed_usd l.entries + cost) in
    let over = allocation_would_overrun l.entries e.category cost prior in
    (
      record e {
        actual_cost = some cost;
        updated_at = p.now 0;
        overrun = e.overrun || cap_overrun || over || ltb e.estimated_cost cost;
      },
      cap_overrun || over,
    )

unfoldable pub reconcile_entry : Platform → Ledger → Entry → ℕ → Answer PublicEntry
unfolding reconciled_entry
reconcile_entry p l e actual =
    let cost = max (or_zero e.actual_cost) actual in
    let (entry, violation) = reconciled_entry p l e cost in
    if is_charge cost e.actual_cost then (ok (public_entry e), none) else (
      if violation then err overrun_recorded else ok (public_entry entry),
      some (record l {
        updated_at = p.now 1;
        breached = l.breached || violation;
        entries = replace e.call_id entry l.entries;
      }),
    )

unfoldable pub reconcile_found : Platform → Ledger → ℕ → Option Entry → Answer PublicEntry
reconcile_found p l actual none = (err no_reservation, none)
reconcile_found p l actual (some e) = elim e.status [
  | released ↦ (err released_reservation, none)
  | reserved ↦ commit_entry p l e actual usage_priced_locally
  | committed ↦ reconcile_entry p l e actual
]

unfoldable pub reconcile_committed : Platform → String → Number → Ledger → Answer PublicEntry
unfolding reconcile_found
reconcile_committed p id cost l = elim (finite_money cost) [
  | err e ↦ (err e, none)
  | ok actual ↦ reconcile_found p l actual (find id l.entries)
]

-- The entry that `release` writes, by the guard's `conservativeFailures`.
unfoldable pub released_entry : Bool → Platform → Entry → Entry
released_entry true p e = record e {
  status = committed;
  actual_cost = some e.estimated_cost;
  updated_at = p.now 0;
  basis = conservative_uncertain_failure;
}
released_entry false p e = record e {
  status = released;
  updated_at = p.now 0;
  basis = released_before_call;
}

abbrev pub cancelled_entry : Platform → Entry → Entry
cancelled_entry p e = record e {
  status = released;
  actual_cost = none;
  updated_at = p.now 0;
  basis = released_before_call;
}

-- Writes over the reservation of a call; without one nothing is written.
unfoldable pub settle : Platform → (Entry → Entry) → Ledger → Option Entry → Answer (Unit {0})
settle p settled l none = (ok tt, none)
settle p settled l (some e) =
    if is_reserved e.status
    then (
      ok tt,
      some (record l { updated_at = p.now 1; entries = replace e.call_id (settled e) l.entries }),
    )
    else (ok tt, none)

unfoldable pub release : Bool → Platform → String → Ledger → Answer (Unit {0})
unfolding settle
release conservative p id l = settle p (released_entry conservative p) l (find id l.entries)

unfoldable pub release_before_call : Platform → String → Ledger → Answer (Unit {0})
unfolding settle
release_before_call p id l = settle p (cancelled_entry p) l (find id l.entries)

unfoldable pub snapshot : Ledger → Answer (Snapshot × Bool × String)
snapshot l = (ok (snapshot_of l, l.breached, l.created_at), none)

unfoldable pub assert_can_reserve_total : String → Number → Bool → Ledger → Answer (Unit {0})
assert_can_reserve_total category cost essential l = (
  do
    n ← finite_money cost
    c ← or_throw (parse_category category) unknown_category
    assert_affordable l hard_cap c n essential,
  none,
)
