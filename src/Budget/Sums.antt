-- ===== src/Budget/Sums.antt =====
-- How a write over one entry changes the sums over all of them.
use infinite_context.Prelude.{
  ℕ, ◌+◌, ◌≤◌, String, some, false, ◌≡◌, refl, sym, subst, List, [], ◌∷◌, arith, eq_iff, sum_by,
  Bool-cases, str_eq, inl, inr,
}
use infinite_context.Budget.Entry.{Entry, find, replace}

module _ (f : Entry → ℕ) where
  pub sum_by-replace :
      (id : String) (new old : Entry) (es : List Entry)
      → find id es ≡ some old
      → sum_by f (replace id new es) + f old ≡ sum_by f es + f new
  sum_by-replace id new old [] h = cc
  sum_by-replace id new old (e ∷ es) h = elim (Bool-cases (str_eq e.call_id id)) [
    | inl hit ↦ ground (arith, hit)
    | inr miss ↦ ground (arith, miss, sum_by-replace id new old es)
  ]

  pub le-sum_by-find :
      (id : String) (old : Entry) (es : List Entry) → find id es ≡ some old → f old ≤ sum_by f es
  le-sum_by-find id old [] h = cc
  le-sum_by-find id old (e ∷ es) h = ground (arith, le-sum_by-find id old es)

pub find-call_id :
    (id : String) (old : Entry) (es : List Entry) → find id es ≡ some old → old.call_id ≡ id
find-call_id id old [] h = cc
find-call_id id old (e ∷ es) h = ground (arith, eq_iff e.call_id id, find-call_id id old es)

pub find-replace_self :
    (id : String) (new old : Entry) (es : List Entry)
    → find id es ≡ some old
    → new.call_id ≡ id
    → find id (replace id new es) ≡ some new
find-replace_self id new old [] h n = cc
find-replace_self id new old (e ∷ es) h n =
    ground (arith, eq_iff e.call_id id, eq_iff new.call_id id, find-replace_self id new old es)

pub find-replace_ne :
    (id other : String) (new : Entry) (es : List Entry)
    → new.call_id ≡ id
    → str_eq id other ≡ false
    → find other (replace id new es) ≡ find other es
find-replace_ne id other new [] n d = refl
find-replace_ne id other new (e ∷ es) n d = ground (
  arith,
  eq_iff e.call_id id,
  eq_iff new.call_id other,
  eq_iff e.call_id other,
  eq_iff id other,
  find-replace_ne id other new es,
)

pub find_own :
    (id : String) (old : Entry) (es : List Entry)
    → find id es ≡ some old
    → find old.call_id es ≡ some old
find_own id old es h = subst (λ k. find k es ≡ some old) (sym (find-call_id id old es h)) h
