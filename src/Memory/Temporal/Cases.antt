-- ===== src/Memory/Temporal/Cases.antt =====
-- The six outcomes of `reconcileClaim` in packages/memory/src/temporal.ts, as one case split.
use infinite_context.Prelude.{
  ◌<◌, ◌≤◌, String, some, true, false, List, [], ◌∷◌, ◌≡◌, refl, arith, Bool-cases, Option-cases,
  inl, inr, leb,
}
use infinite_context.Memory.Claim.{Claim, Platform, authority}
use infinite_context.Memory.Temporal.{
  Reconciliation, reconcile_claim, reconcile_active, reconcile_competing, relevant, newest,
  dominates, is_historical_on_arrival, find_duplicate, store_historical, store_duplicate,
  store_first, store_superseding, store_weaker, store_unresolved,
}

module _ (p : Platform) (existing : List Claim) (incoming : Claim) (now : String) where
  abbrev pub active : List Claim
  active = relevant p existing incoming

  module _ (P : Reconciliation → Type 0)
      (on_historical : is_historical_on_arrival p incoming now ≡ true
        → P (store_historical p existing active incoming))
      (on_duplicate : (a : List Claim) (d : Claim)
        → active ≡ a
        → find_duplicate p a incoming ≡ some d
        → P (store_duplicate p existing a incoming d now))
      (on_first : active ≡ [] → P (store_first p existing incoming now))
      (on_superseding : (c : Claim) (cs : List Claim)
        → active ≡ c ∷ cs
        → dominates p incoming (newest p c cs) ≡ true
        → P (store_superseding p existing (c ∷ cs) incoming now))
      (on_weaker : (c : Claim) (cs : List Claim)
        → active ≡ c ∷ cs
        → dominates p incoming (newest p c cs) ≡ false
        → authority incoming < authority (newest p c cs)
        → P (store_weaker p existing (c ∷ cs) incoming (newest p c cs) now))
      (on_unresolved : (c : Claim) (cs : List Claim)
        → active ≡ c ∷ cs
        → dominates p incoming (newest p c cs) ≡ false
        → authority (newest p c cs) ≤ authority incoming
        → P (store_unresolved p existing (c ∷ cs) incoming now)) where
    competing_cases :
        (c : Claim) (cs : List Claim)
        → active ≡ c ∷ cs
        → P (reconcile_competing p existing c cs incoming now)
    unfolding reconcile_competing
    competing_cases c cs e = elim (Bool-cases (dominates p incoming (newest p c cs))) [
      | inl h ↦ rw h (on_superseding c cs e h)
      | inr h ↦ elim (Bool-cases (leb (authority (newest p c cs)) (authority incoming))) [
        | inl k ↦ rw (h, k) (on_unresolved c cs e h (ground arith))
        | inr k ↦ rw (h, k) (on_weaker c cs e h (ground arith))
      ]
    ]

    active_cases : (a : List Claim) → active ≡ a → P (reconcile_active p existing a incoming now)
    unfolding reconcile_active
    active_cases [] e = on_first e
    active_cases (c ∷ cs) e = elim (Option-cases (find_duplicate p (c ∷ cs) incoming)) [
      | inl h ↦ rw (h, reconcile_active) (competing_cases c cs e)
      | inr (d, h) ↦ rw (h, reconcile_active) (on_duplicate (c ∷ cs) d e h)
    ]

    pub reconcile_cases : P (reconcile_claim p existing incoming now)
    unfolding reconcile_claim
    reconcile_cases = elim (Bool-cases (is_historical_on_arrival p incoming now)) [
      | inl h ↦ rw h (on_historical h)
      | inr h ↦ rw h (active_cases active refl)
    ]
