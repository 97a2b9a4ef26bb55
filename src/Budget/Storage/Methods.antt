-- ===== src/Budget/Storage/Methods.antt =====
-- The methods of packages/config/src/installation-budget.ts that leave a readable file.
use infinite_context.Prelude.{
  ℕ, String, Option, none, some, Bool, true, false, [], ok, ◌≡◌, refl, arith, sym, subst,
  Bool-cases, Result-cases, List-cases, is_blank, inl, inr,
}
use infinite_context.Json.{Number}
use infinite_context.Budget.Entry.{
  Entry, Ledger, find, replace, Status, reserved, committed, released, AccountingBasis,
}
use infinite_context.Budget.Guards.{
  Platform, ReserveInput, is_pid, is_scope, parse_owner, optional_timestamp, finite_money,
}
use infinite_context.Budget.Operations.{
  has_call, release_orphans, reserve, reserve_entry, readings, push_entry, commit_with,
  commit_found, commit_entry, release, settle, released_entry, cancelled_entry, release_before_call,
  release_orphaned_before_call, is_reserved, committed_entry,
}
use infinite_context.Budget.Sums.{find_own}
use infinite_context.Budget.Within.{IsWithin, after}
use infinite_context.Budget.Within.Operations.{
  reserve-IsWithin, release-IsWithin, release_before_call-IsWithin,
  release_orphaned_before_call-IsWithin, commit_found-IsWithin,
}
use infinite_context.Budget.Reserve.{reserve_entry-IsGranted}
use infinite_context.Budget.Storage.{is_consistent, is_call_id, same, is_some}
use infinite_context.Budget.Storage.RoundTrip.{IsStorableEntry, AreStorable, IsStorable, Optionally}
use infinite_context.Budget.Storage.Keeps.{
  find-IsStorableEntry, replace-AreStorable, append-AreStorable, release_orphans-AreStorable,
}

-- The clock of the platform gives timestamps.
abbrev pub HasClock : Platform → Type 0
HasClock p = (n : ℕ) → p.is_timestamp (p.now n) ≡ true

-- The bases of accounting that the methods commit under.
abbrev pub is_charge_basis : AccountingBasis → Bool
is_charge_basis b = is_consistent committed (some 0) b

-- What a ledger is when only its entries, its clock reading and its breach flag changed.
pub keeps :
    (p : Platform) (l l' : Ledger)
    → IsStorable p l
    → l'.created_at ≡ l.created_at
    → p.is_timestamp l'.updated_at ≡ true
    → AreStorable p [] l'.entries
    → IsWithin l'
    → IsStorable p l'
keeps p l l' s c u es w = record { stores = es; created = rw c s.created; updated = u; budget = w }

parse_owner-same :
    (n : Option Number) (s : Option String) (o : Option ℕ × Option String)
    → parse_owner n s ≡ ok o
    → Optionally is_pid o.0 × Optionally is_scope o.1 × (same (is_some o.0) (is_some o.1) ≡ true)
unfolding parse_owner
parse_owner-same n s (o₀, o₁) h = ground arith

optional_timestamp-Optionally :
    (p : Platform) (s : Option String) (o : Option String)
    → optional_timestamp p s ≡ ok o
    → Optionally p.is_timestamp o
unfolding optional_timestamp
optional_timestamp-Optionally p s o h = ground arith

-- What a caller of `reserve` must bring for the entry to be readable.
pub record IsReadableRequest (p : Platform) (r : ReserveInput) : Type 0 where
  pub named : is_call_id r.call_id ≡ true
  pub created : Optionally p.is_timestamp r.created_at

reserve_entry-IsStorableEntry :
    (p : Platform) (r : ReserveInput) (l : Ledger) (e : Entry)
    → HasClock p
    → IsReadableRequest p r
    → reserve_entry p r l ≡ ok e
    → IsStorableEntry p e
unfolding reserve_entry
reserve_entry-IsStorableEntry p r l e c v h =
    elim (Result-cases (parse_owner r.owner_pid r.owner_scope)) [
      | inr (bad, x) ↦ ground (arith, x)
      | inl (o, x) ↦ elim (Result-cases (optional_timestamp p r.expires_at)) [
        | inr (bad, y) ↦ ground (arith, x, y)
        | inl (t, y) ↦
            let owner = parse_owner-same r.owner_pid r.owner_scope o x in
            record {
              named = ground (arith, x, y);
              expiry = ground (arith, x, y, optional_timestamp-Optionally p r.expires_at t y);
              pid = ground (arith, x, y, owner.0);
              scope = ground (arith, x, y, owner.1);
              owner = ground (arith, x, y, owner.2);
              accounting = ground (arith, x, y);
              created = ground (arith, x, y, c 0);
              updated = ground (arith, x, y, c 0);
            }
      ]
    ]

module _ (p : Platform) (l : Ledger) (c : HasClock p) (s : IsStorable p l) where
  pub reserve-IsStorable :
      (r : ReserveInput) → IsReadableRequest p r → IsStorable p (after l (reserve p r l))
  unfolding reserve push_entry
  reserve-IsStorable r v = elim (Result-cases (reserve_entry p r l)) [
    | inr (bad, x) ↦ rw x s
    | inl (e, x) ↦
        let g = reserve_entry-IsGranted p r l e x in
        keeps p l _ s (rw x refl) (rw x (c (readings r.created_at)))
          (rw x (
            append-AreStorable p e [] l.entries
              (subst (λ k. has_call k l.entries ≡ false) (sym g.names) g.fresh) refl
              (reserve_entry-IsStorableEntry p r l e c v x) s.stores))
          (reserve-IsWithin p l r s.budget)
  ]

  -- A write over an entry, at a reading of the clock.
  pub write-IsStorable :
      (e new : Entry) (k : ℕ) (breach : Bool)
      → new.call_id ≡ e.call_id
      → IsStorableEntry p new
      → IsWithin (record l {
        updated_at = p.now k;
        breached = breach;
        entries = replace e.call_id new l.entries;
      })
      → IsStorable p (record l {
        updated_at = p.now k;
        breached = breach;
        entries = replace e.call_id new l.entries;
      })
  write-IsStorable e new k breach n v w =
      keeps p l _ s refl (c k) (replace-AreStorable p e.call_id new [] l.entries n v s.stores) w

  pub commit_found-IsStorable :
      (n : ℕ) (b : AccountingBasis) (o : Option Entry)
      → is_charge_basis b ≡ true
      → ((e : Entry) → o ≡ some e → find e.call_id l.entries ≡ some e)
      → IsWithin (after l (commit_found p l n b o))
      → IsStorable p (after l (commit_found p l n b o))
  unfolding commit_found commit_entry
  commit_found-IsStorable n b none h own w = s
  commit_found-IsStorable n b (some e) h own w = elim (Bool-cases (is_reserved e.status)) [
    | inr q ↦ rw q s
    | inl q ↦
        let v = find-IsStorableEntry p e.call_id [] l.entries e s.stores (own e refl) in
        rw q (
          write-IsStorable e (committed_entry p l e n b).0 1 _ refl
            (record {
              named = v.named;
              expiry = v.expiry;
              pid = v.pid;
              scope = v.scope;
              owner = v.owner;
              accounting = ground arith;
              created = v.created;
              updated = c 0;
            })
            (rw q at w))
  ]

  settle-IsStorable :
      (settled : Entry → Entry) (o : Option Entry)
      → ((e : Entry) → o ≡ some e → find e.call_id l.entries ≡ some e)
      → ((e : Entry) → (settled e).call_id ≡ e.call_id)
      → ((e : Entry) → e.status ≡ reserved → IsStorableEntry p e → IsStorableEntry p (settled e))
      → IsWithin (after l (settle p settled l o))
      → IsStorable p (after l (settle p settled l o))
  unfolding settle
  settle-IsStorable settled none own n v w = s
  settle-IsStorable settled (some e) own n v w = elim (Bool-cases (is_reserved e.status)) [
    | inr q ↦ rw q s
    | inl q ↦ rw q (
        write-IsStorable e (settled e) 1 l.breached (n e)
          (v e (ground arith)
            (find-IsStorableEntry p e.call_id [] l.entries e s.stores (own e refl)))
          (rw q at w))
  ]

  -- An entry whose status, charge and basis were settled anew.
  settled_entry :
      (e : Entry) (st : Status) (a : Option ℕ) (b : AccountingBasis)
      → is_consistent st a b ≡ true
      → IsStorableEntry p e
      → IsStorableEntry p
          (record e { status = st; actual_cost = a; updated_at = p.now 0; basis = b })
  settled_entry e st a b h v = record {
    named = v.named;
    expiry = v.expiry;
    pid = v.pid;
    scope = v.scope;
    owner = v.owner;
    accounting = h;
    created = v.created;
    updated = c 0;
  }

  pub commit_with-IsStorable :
      (b : AccountingBasis) (id : String) (cost : Number)
      → is_charge_basis b ≡ true
      → IsStorable p (after l (commit_with b p id cost l))
  unfolding commit_with
  commit_with-IsStorable b id cost h = elim (Result-cases (finite_money cost)) [
    | inr (bad, x) ↦ rw (x, commit_with) s
    | inl (n, x) ↦
        let own = λ (e : Entry). find_own id e l.entries in
        rw (x, commit_with)
          (commit_found-IsStorable n b (find id l.entries) h own
            (commit_found-IsWithin p l n b (find id l.entries) own s.budget))
  ]

  pub release-IsStorable :
      (conservative : Bool) (id : String) → IsStorable p (after l (release conservative p id l))
  unfolding release released_entry
  release-IsStorable true id =
      settle-IsStorable (released_entry true p) (find id l.entries) (λ e. find_own id e l.entries)
        (λ e. refl) (λ e h v. settled_entry e committed (some e.estimated_cost) _ refl v)
        (release-IsWithin p l true id s.budget)
  release-IsStorable false id =
      settle-IsStorable (released_entry false p) (find id l.entries) (λ e. find_own id e l.entries)
        (λ e. refl)
        (λ e h v. settled_entry e released e.actual_cost _ (ground (arith, v.accounting)) v)
        (release-IsWithin p l false id s.budget)

  pub release_before_call-IsStorable :
      (id : String) → IsStorable p (after l (release_before_call p id l))
  unfolding release_before_call
  release_before_call-IsStorable id =
      settle-IsStorable (cancelled_entry p) (find id l.entries) (λ e. find_own id e l.entries)
        (λ e. refl) (λ e h v. settled_entry e released none _ refl v)
        (release_before_call-IsWithin p l id s.budget)

  pub release_orphaned_before_call-IsStorable :
      (scope : String) (admitted : String → Bool)
      → IsStorable p (after l (release_orphaned_before_call p scope admitted l))
  unfolding release_orphaned_before_call
  release_orphaned_before_call-IsStorable scope admitted = elim (Bool-cases (is_blank scope)) [
    | inl b ↦ rw (b, release_orphaned_before_call) s
    | inr b ↦ elim (List-cases (release_orphans p scope admitted 0 l.entries).1) [
      | inl none_released ↦ rw (b, release_orphaned_before_call, none_released) s
      | inr (x, rest, some_released) ↦
          let w = release_orphaned_before_call-IsWithin p scope admitted l s.budget in
          rw (b, release_orphaned_before_call, some_released)
            (keeps p l _ s refl (c _)
              (release_orphans-AreStorable p scope admitted 0 [] l.entries c s.stores)
              (rw (b, release_orphaned_before_call, some_released) at w))
    ]
  ]
