-- ===== src/Admission/Exclusion.antt =====
-- The steps of the gate in apps/api/src/mutation-admission.ts, in any order.
use infinite_context.Prelude.{ℕ, some, false, not, List, [], ◌∷◌, ◌==◌, ◌≡◌, refl, arith, inl, ◌⊎◌}
use infinite_context.Admission.{
  Gate, new_gate, has, delete, is_some, admit, begin_exclusive, fail_waiting, release,
  end_exclusive,
}

pub data Step : Gate → Gate → Type 0 where
  admits : (t : ℕ) (g : Gate) → Step g (admit t g).1
  begins : (t : ℕ) (g : Gate) → Step g (begin_exclusive t g).1
  fails : (t : ℕ) (g : Gate) → Step g (fail_waiting t g)
  releases : (t : ℕ) (g : Gate) → Step g (release t g).0
  ends : (t : ℕ) (g : Gate) → has t g.waiters ≡ false → Step g (end_exclusive t g).1

pub data Reachable : Gate → Type 0 where
  start : Reachable new_gate
  next : {g h : Gate} → Reachable g → Step g h → Reachable h

-- What holds between the steps.
pub record IsSound (g : Gate) : Type 0 where
  pub closed : g.accepting ≡ not (is_some g.exclusive)
  pub drained : (t : ℕ) → g.exclusive ≡ some t → has t g.waiters ≡ false → g.admitted ≡ []
  pub own : (g.waiters ≡ []) ⊎ ((t : ℕ) × (g.exclusive ≡ some t) × (g.waiters ≡ t ∷ []))
  pub awaited : g.admitted ≡ [] → g.waiters ≡ []

has-delete_ne : (t u : ℕ) (us : List ℕ) → (u == t) ≡ false → has u us ≡ has u (delete t us)
has-delete_ne t u [] h = refl
has-delete_ne t u (v ∷ us) h = ground (arith, has-delete_ne t u us)

Step-IsSound : (g h : Gate) → Step g h → IsSound g → IsSound h
unfolding admit begin_exclusive fail_waiting release end_exclusive
Step-IsSound _ _ (admits t g) s = record {
  closed = ground (arith, s.closed);
  drained = λ u e w. ground (arith, s.drained u, s.closed);
  own = ground (arith, s.own, s.closed);
  awaited = λ e. ground (arith, s.awaited, s.own);
}
Step-IsSound _ _ (begins t g) s = record {
  closed = ground (arith, s.closed);
  drained = λ u e w. ground (arith, s.drained u, s.closed);
  own = ground (arith, s.own, s.closed);
  awaited = λ e. ground (arith, s.awaited, s.own);
}
Step-IsSound _ _ (fails t g) s = record {
  closed = ground (arith, s.closed);
  drained = λ u e w. ground (arith, s.drained u, s.closed, has-delete_ne t u g.waiters);
  own = ground (arith, s.own, s.closed);
  awaited = λ e. ground (arith, s.awaited, s.own);
}
Step-IsSound _ _ (releases t g) s = record {
  closed = ground (arith, s.closed);
  drained = λ u e w. ground (arith, s.drained u, s.closed);
  own = ground (arith, s.own, s.closed);
  awaited = λ e. ground (arith, s.awaited, s.own);
}
Step-IsSound _ _ (ends t g w) s = record {
  closed = ground (arith, s.closed);
  drained = λ u e w. ground (arith, s.drained u, s.closed);
  own = ground (arith, s.own, s.closed);
  awaited = λ e. ground (arith, s.awaited, s.own);
}

-- However the steps are ordered: the gate accepts exactly when no token is exclusive; while one is, and its call
-- no longer waits, no mutation is admitted; and no call waits once the last mutation is released.
pub Reachable-IsSound : (g : Gate) → Reachable g → IsSound g
Reachable-IsSound _ start = record {
  closed = refl;
  drained = λ t e w. refl;
  own = inl refl;
  awaited = λ e. refl;
}
Reachable-IsSound h (next {g} r s) = Step-IsSound g h s (Reachable-IsSound g r)
