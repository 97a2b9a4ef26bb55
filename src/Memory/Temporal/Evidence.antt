-- ===== src/Memory/Temporal/Evidence.antt =====
-- packages/memory/src/temporal.ts keeps every claim that it was given.
use mathlib.Core.List.{map-append}
use infinite_context.Prelude.{String, none, List, [], ◌∷◌, ◌++◌, map, ◌≡◌, refl, arith}
use infinite_context.Memory.Claim.{
  Claim, Status, historical, current, conflicted, start_of, Platform, with_status,
}
use infinite_context.Memory.Temporal.Cases.{reconcile_cases}
use infinite_context.Memory.Temporal.{reconcile_claim, supersede, conflict}

-- All of a claim but its status and the end of its validity.
abbrev pub evidence : Claim → Claim
evidence c = record c { status = historical; valid_to = none }

module _ (p : Platform) where
  supersede-evidence :
      (active : List Claim) (cutoff : String) (cs : List Claim)
      → map evidence (map (supersede p active cutoff) cs) ≡ map evidence cs
  supersede-evidence active cutoff [] = refl
  supersede-evidence active cutoff (c ∷ cs) = ground (arith, supersede-evidence active cutoff cs)

  conflict-evidence :
      (active : List Claim) (cs : List Claim)
      → map evidence (map (conflict p active) cs) ≡ map evidence cs
  conflict-evidence active [] = refl
  conflict-evidence active (c ∷ cs) = ground (arith, conflict-evidence active cs)

  abbrev Keeps : List Claim → Claim → List Claim → Type 0
  Keeps existing incoming claims =
      map evidence claims ≡ map evidence existing ++ evidence incoming ∷ []

  append-Keeps :
      (existing kept : List Claim) (incoming : Claim) (s : Status)
      → map evidence kept ≡ map evidence existing
      → Keeps existing incoming (kept ++ with_status incoming s ∷ [])
  append-Keeps existing kept incoming s h = rw (map-append, h) refl

  -- Whatever the outcome, every claim is kept, in order, with all but its status and the end of its
  -- validity unchanged, and the incoming one is added at the end.
  pub reconcile_claim-evidence :
      (existing : List Claim) (incoming : Claim) (now : String)
      → map evidence (reconcile_claim p existing incoming now).claims
        ≡ map evidence existing ++ evidence incoming ∷ []
  reconcile_claim-evidence existing incoming now =
      let append = λ (s : Status). append-Keeps existing existing incoming s refl in
      reconcile_cases p existing incoming now (λ r. Keeps existing incoming r.claims)
        (λ h. append historical) (λ a d e h. append historical) (λ e. append _)
        (λ c cs e h.
          append-Keeps existing _ incoming current
            (supersede-evidence (c ∷ cs) (start_of p incoming) existing))
        (λ c cs e h k. append conflicted)
        (λ c cs e h k.
          append-Keeps existing _ incoming conflicted (conflict-evidence (c ∷ cs) existing))
