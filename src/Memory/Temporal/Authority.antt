-- ===== src/Memory/Temporal/Authority.antt =====
-- Authority in packages/memory/src/temporal.ts: when an incoming claim leaves the stored ones alone.
use infinite_context.Prelude.{◌<◌, String, false, List, [], ◌∷◌, ◌++◌, ◌≡◌, refl, arith}
use infinite_context.Memory.Claim.{
  Claim, Status, conflicted, historical, Platform, authority, with_status,
}
use infinite_context.Memory.Temporal.Cases.{reconcile_cases}
use infinite_context.Memory.Temporal.{reconcile_claim, relevant, newest, dominates}

module _ (p : Platform) (existing : List Claim) (incoming : Claim) (now : String) where
  -- A claim of lower authority than the newest competing claim, and no explicit correction, changes no
  -- stored claim: it is only added.
  pub weaker_adds :
      incoming.explicit_correction ≡ false
      → ((c : Claim) (cs : List Claim)
          → relevant p existing incoming ≡ c ∷ cs
          → authority incoming < authority (newest p c cs))
      → (s : Status) × ((reconcile_claim p existing incoming now).claims
          ≡ existing ++ with_status incoming s ∷ [])
  unfolding dominates
  weaker_adds plain weaker =
      reconcile_cases p existing incoming now
        (λ r. (s : Status) × (r.claims ≡ existing ++ with_status incoming s ∷ []))
        (λ h. (historical, refl)) (λ a d e h. (historical, refl)) (λ e. (_, refl))
        (λ c cs e h. absurd (ground (arith, weaker c cs e))) (λ c cs e h k. (conflicted, refl))
        (λ c cs e h k. absurd (omega (arith, weaker c cs e)))
