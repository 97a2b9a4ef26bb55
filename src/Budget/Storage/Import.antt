-- ===== src/Budget/Storage/Import.antt =====
-- `reconcileLegacyEntries` of packages/config/src/installation-budget.ts leaves a readable file.
use infinite_context.Prelude.{
  ℕ, ◌+◌, String, Option, none, some, Bool, true, false, List, [], ◌∷◌, ok, ◌≡◌, refl, arith, subst,
  Result-cases, Option-cases, inl, inr,
}
use infinite_context.Budget.Entry.{Entry, Ledger, find}
use infinite_context.Budget.Guards.{Platform}
use infinite_context.Budget.Operations.{has_call}
use infinite_context.Budget.Import.{
  LegacyEntry, Imported, import_entries, import_into, new_entry, merged_entry, check_legacy,
  reconcile_legacy_entries,
}
use infinite_context.Budget.Sums.{find-call_id}
use infinite_context.Budget.Within.{after}
use infinite_context.Budget.Within.Operations.{reconcile_legacy_entries-IsWithin}
use infinite_context.Budget.Storage.{is_call_id, same}
use infinite_context.Budget.Storage.RoundTrip.{AreStorable, IsStorable}
use infinite_context.Budget.Storage.Keeps.{
  find-IsStorableEntry, replace-AreStorable, append-AreStorable,
}
use infinite_context.Budget.Storage.Methods.{HasClock, keeps}

-- The legacy entries have call identifiers that `#read` accepts.
abbrev pub AreNamed : List LegacyEntry → Type 0
AreNamed [] = Unit
AreNamed (r ∷ rs) = (is_call_id r.call_id ≡ true) × AreNamed rs

check_legacy-created :
    (p : Platform) (r : LegacyEntry) (i : Imported)
    → check_legacy p r ≡ ok i
    → (i.call_id ≡ r.call_id) × (p.is_timestamp i.created_at ≡ true)
unfolding check_legacy
check_legacy-created p r i h = ground arith

find-has_call : (id : String) (es : List Entry) → find id es ≡ none → has_call id es ≡ false
find-has_call id [] h = refl
find-has_call id (e ∷ es) h = ground (arith, find-has_call id es)

module _ (p : Platform) (c : HasClock p) where
  import_into-AreStorable :
      (k : ℕ) (i : Imported) (es es' : List Entry) (o : Option Entry)
      → is_call_id i.call_id ≡ true
      → p.is_timestamp i.created_at ≡ true
      → find i.call_id es ≡ o
      → import_into (p.now k) i es o ≡ some es'
      → AreStorable p [] es
      → AreStorable p [] es'
  unfolding import_into
  import_into-AreStorable k i es es' none n t f h s = subst (AreStorable p []) (ground arith) (
      append-AreStorable p (new_entry (p.now k) i) [] es (find-has_call i.call_id es f) refl
        (record {
          named = n;
          expiry = tt;
          pid = tt;
          scope = tt;
          owner = refl;
          accounting = ground arith;
          created = t;
          updated = c k;
        })
        s)
  import_into-AreStorable k i es es' (some e) n t f h s =
      let v = find-IsStorableEntry p i.call_id [] es e s f in
      subst (AreStorable p []) (ground arith) (
        replace-AreStorable p i.call_id (merged_entry (p.now k) i e) [] es
          (find-call_id i.call_id e es f)
          (record {
            named = v.named;
            expiry = v.expiry;
            pid = v.pid;
            scope = v.scope;
            owner = v.owner;
            accounting = refl;
            created = v.created;
            updated = c k;
          })
          s)

  import_entries-AreStorable :
      (k : ℕ) (rs : List LegacyEntry) (es es' : List Entry) (b b' : Bool)
      → AreNamed rs
      → import_entries p k rs (es, b) ≡ ok (es', b')
      → AreStorable p [] es
      → AreStorable p [] es'
  unfolding import_entries
  import_entries-AreStorable k [] es es' b b' n h s = subst (AreStorable p []) (ground arith) s
  import_entries-AreStorable k (r ∷ rs) es es' b b' n h s = elim (Result-cases (check_legacy p r)) [
    | inr (bad, x) ↦ absurd (ground (arith, x))
    | inl (i, x) ↦ elim (Option-cases (import_into (p.now k) i es (find i.call_id es))) [
      | inl same ↦ import_entries-AreStorable (k + 1) rs es es' b b' n.1 (ground (arith, x, same)) s
      | inr (es₁, y) ↦
          let q = check_legacy-created p r i x in
          import_entries-AreStorable (k + 1) rs es₁ es' true b' n.1 (ground (arith, x, y))
            (import_into-AreStorable k i es es₁ (find i.call_id es) (rw (q.0) n.0) q.1 refl y s)
    ]
  ]

  pub reconcile_legacy_entries-IsStorable :
      (l : Ledger) (rs : List LegacyEntry)
      → AreNamed rs
      → IsStorable p l
      → IsStorable p (after l (reconcile_legacy_entries p rs l))
  unfolding reconcile_legacy_entries
  reconcile_legacy_entries-IsStorable l rs n s =
      let w = reconcile_legacy_entries-IsWithin p rs l s.budget in
      elim (Result-cases (import_entries p 1 rs (l.entries, false))) [
        | inr (bad, x) ↦ rw (x, reconcile_legacy_entries) s
        | inl ((es, true), x) ↦
            rw (x, reconcile_legacy_entries)
              (keeps p l _ s refl (c 0)
                (import_entries-AreStorable 1 rs l.entries es false true n x s.stores)
                (rw (x, reconcile_legacy_entries) at w))
        | inl ((es, false), x) ↦ rw (x, reconcile_legacy_entries) s
      ]
