-- ===== src/Budget/Storage/Keeps.antt =====
-- The writes of packages/config/src/installation-budget.ts leave a ledger that can be read back.
use infinite_context.Prelude.{
  ℕ, ◌+◌, String, some, Bool, true, false, List, [], ◌∷◌, ◌++◌, str_eq, ◌≡◌, refl, arith, subst,
  Bool-cases, inl, inr, eq_iff,
}
use infinite_context.Budget.Entry.{Entry, find, replace}
use infinite_context.Budget.Guards.{Platform}
use infinite_context.Budget.Operations.{has_call, release_orphans, orphaned_entry, is_orphan}
use infinite_context.Budget.Storage.{contains}
use infinite_context.Budget.Storage.RoundTrip.{IsStorableEntry, AreStorable}

module _ (p : Platform) where
  pub find-IsStorableEntry :
      (id : String) (seen : List String) (es : List Entry) (e : Entry)
      → AreStorable p seen es
      → find id es ≡ some e
      → IsStorableEntry p e
  find-IsStorableEntry id seen [] e s h = cc
  find-IsStorableEntry id seen (x ∷ es) e s h = elim (Bool-cases (str_eq x.call_id id)) [
    | inl hit ↦ subst (IsStorableEntry p) (ground (arith, hit)) s.1
    | inr miss ↦ find-IsStorableEntry id (x.call_id ∷ seen) es e s.2 (ground (arith, miss))
  ]

  pub replace-AreStorable :
      (id : String) (new : Entry) (seen : List String) (es : List Entry)
      → new.call_id ≡ id
      → IsStorableEntry p new
      → AreStorable p seen es
      → AreStorable p seen (replace id new es)
  replace-AreStorable id new seen [] n v s = tt
  replace-AreStorable id new seen (x ∷ es) n v s = elim (Bool-cases (str_eq x.call_id id)) [
    | inl hit ↦
        let e : x.call_id ≡ new.call_id = ground (arith, eq_iff x.call_id id) in
        rw hit (
          subst (λ k. contains k seen ≡ false) e s.0,
          v,
          subst (λ k. AreStorable p (k ∷ seen) es) e s.2,
        )
    | inr miss ↦ rw miss (s.0, s.1, replace-AreStorable id new (x.call_id ∷ seen) es n v s.2)
  ]

  pub append-AreStorable :
      (new : Entry) (seen : List String) (es : List Entry)
      → has_call new.call_id es ≡ false
      → contains new.call_id seen ≡ false
      → IsStorableEntry p new
      → AreStorable p seen es
      → AreStorable p seen (es ++ new ∷ [])
  append-AreStorable new seen [] h c v s = (c, v, tt)
  append-AreStorable new seen (x ∷ es) h c v s =
      (s.0, s.1, append-AreStorable new (x.call_id ∷ seen) es (ground arith) (ground arith) v s.2)

  orphaned_entry-IsStorableEntry :
      (k : ℕ) (e : Entry)
      → p.is_timestamp (p.now k) ≡ true
      → IsStorableEntry p e
      → IsStorableEntry p (orphaned_entry p k e)
  orphaned_entry-IsStorableEntry k e c v = record {
    named = v.named;
    expiry = v.expiry;
    pid = v.pid;
    scope = v.scope;
    owner = v.owner;
    accounting = refl;
    created = v.created;
    updated = c;
  }

  pub release_orphans-AreStorable :
      (scope : String) (admitted : String → Bool) (k : ℕ) (seen : List String) (es : List Entry)
      → ((n : ℕ) → p.is_timestamp (p.now n) ≡ true)
      → AreStorable p seen es
      → AreStorable p seen (release_orphans p scope admitted k es).0
  unfolding release_orphans
  release_orphans-AreStorable scope admitted k seen [] c s = tt
  release_orphans-AreStorable scope admitted k seen (x ∷ es) c s =
      elim (Bool-cases (is_orphan p scope admitted x)) [
        | inl hit ↦ rw hit (
          s.0,
          orphaned_entry-IsStorableEntry k x (c k) s.1,
          release_orphans-AreStorable scope admitted (k + 1) (x.call_id ∷ seen) es c s.2,
        )
        | inr miss ↦
            rw miss
              (s.0, s.1, release_orphans-AreStorable scope admitted k (x.call_id ∷ seen) es c s.2)
      ]
