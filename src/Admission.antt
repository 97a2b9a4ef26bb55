-- ===== src/Admission.antt =====
-- `MutationAdmissionGate` of apps/api/src/mutation-admission.ts. Tokens are objects that the gate compares
-- by identity: numbers. A waiting call of `beginExclusive` stands among the waiters under its token until
-- the last admitted mutation is released, or its timer or its signal fires.
pub mod Tests
pub mod Exclusion
use infinite_context.Prelude.{
  ℕ, Option, none, some, Bool, true, false, not, List, [], ◌∷◌, ◌++◌, ◌&&◌, ◌||◌, ◌==◌,
  if◌then◌else◌, any, keep,
}

pub record Gate : Type 0 where
  pub accepting : Bool
  pub admitted : List ℕ
  pub exclusive : Option ℕ
  pub waiters : List ℕ

abbrev pub new_gate : Gate
new_gate = record { accepting = true; admitted = []; exclusive = none; waiters = [] }

abbrev pub has : ℕ → List ℕ → Bool
has t = any (λ u. u == t)

-- `Set.delete`, on a list without duplicates.
abbrev pub delete : ℕ → List ℕ → List ℕ
delete t [] = []
delete t (u ∷ us) = let rest = delete t us in if u == t then us else u ∷ rest

abbrev pub is_empty : List ℕ → Bool
is_empty [] = true
is_empty (_ ∷ _) = false

abbrev pub is_some : Option ℕ → Bool
is_some none = false
is_some (some _) = true

abbrev pub holds : ℕ → Option ℕ → Bool
holds t none = false
holds t (some u) = u == t

unfoldable pub admit : ℕ → Gate → Bool × Gate
admit t g =
    if not g.accepting || is_some g.exclusive || has t g.admitted
    then (false, g)
    else (true, record g { admitted = t ∷ g.admitted })

-- What a call of `beginExclusive` does up to its first `await`.
pub data Begun : Type 0 where
  refused entered waiting : Begun

unfoldable pub begin_exclusive : ℕ → Gate → Begun × Gate
begin_exclusive t g =
    if is_some g.exclusive || not (has t g.admitted)
    then (refused, g)
    else let left = delete t g.admitted in
      let closed = record g { accepting = false; exclusive = some t; admitted = left } in
      if is_empty left
      then (entered, closed)
      else (waiting, record closed { waiters = t ∷ g.waiters })

-- The `catch` and the `finally` of a waiting call whose timer or signal fired.
unfoldable pub fail_waiting : ℕ → Gate → Gate
fail_waiting t g =
    let left = record g { waiters = delete t g.waiters } in
    if has t g.waiters
    then (if holds t g.exclusive then record left { exclusive = none; accepting = true } else left)
    else g

-- The gate, and the waiting calls that return `true`.
unfoldable pub release : ℕ → Gate → Gate × List ℕ
release t g =
    let left = delete t g.admitted in
    if not (has t g.admitted)
    then (g, [])
    else if is_empty left
    then (record g { admitted = left; waiters = [] }, g.waiters)
    else (record g { admitted = left }, [])

unfoldable pub end_exclusive : ℕ → Gate → Bool × Gate
end_exclusive t g =
    if holds t g.exclusive
    then (true, record g { exclusive = none; accepting = true })
    else (false, g)
