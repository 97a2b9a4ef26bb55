-- ===== src/Evaluation/Budget/Sums.antt =====
-- The map of entries in packages/evaluation/src/budget.ts and sums over it.
use infinite_context.Prelude.{
  ℕ, ◌+◌, ◌≤◌, String, some, false, List, [], ◌∷◌, ◌≡◌, refl, arith, str_eq, count, sum_by, eq_iff,
}
use infinite_context.Evaluation.Budget.{
  Entry, committed_part, reserved_part, development, final_evaluation, contingency, lookup, put,
  has_call, Category, other_part, category_part,
}

abbrev pub entries_at : String → List Entry → ℕ
entries_at id = count (λ e. str_eq e.call_id id)

pub lookup-call_id :
    (id : String) (es : List Entry) (e : Entry) → lookup id es ≡ some e → e.call_id ≡ id
lookup-call_id id [] e h = ground arith
lookup-call_id id (x ∷ es) e h = ground (arith, eq_iff x.call_id id, lookup-call_id id es e)

pub sum_by-put_new :
    (f : Entry → ℕ) (e : Entry) (es : List Entry)
    → has_call e.call_id es ≡ false
    → sum_by f (put e.call_id e es) ≡ sum_by f es + f e
sum_by-put_new f e [] h = omega arith
sum_by-put_new f e (x ∷ es) h = ground (arith, sum_by-put_new f e es)

pub sum_by-put :
    (f : Entry → ℕ) (id : String) (new e : Entry) (es : List Entry)
    → lookup id es ≡ some e
    → sum_by f (put id new es) + f e ≡ sum_by f es + f new
sum_by-put f id new e [] h = ground arith
sum_by-put f id new e (x ∷ es) h = ground (arith, sum_by-put f id new e es)

other_sum_none :
    (id : String) (c : Category) (es : List Entry)
    → entries_at id es ≡ 0
    → sum_by (other_part id c) es ≡ sum_by (category_part c) es
other_sum_none id c [] h = refl
other_sum_none id c (x ∷ es) h = ground (arith, other_sum_none id c es)

pub other_sum :
    (id : String) (c : Category) (e : Entry) (es : List Entry)
    → entries_at id es ≤ 1
    → lookup id es ≡ some e
    → sum_by (category_part c) es ≡ sum_by (other_part id c) es + category_part c e
other_sum id c e [] o h = ground arith
other_sum id c e (x ∷ es) o h = ground (arith, other_sum id c e es, other_sum_none id c es)

pub entries_at_new : (id : String) (es : List Entry) → has_call id es ≡ false → entries_at id es ≡ 0
entries_at_new id [] h = refl
entries_at_new id (x ∷ es) h = ground (arith, entries_at_new id es)

-- What each category uses adds up to what is committed and reserved.
pub sum_by_categories :
    (es : List Entry)
    → sum_by committed_part es + sum_by reserved_part es
      ≡ sum_by (category_part development) es
        + sum_by (category_part final_evaluation) es
        + sum_by (category_part contingency) es
sum_by_categories [] = omega arith
sum_by_categories (e ∷ es) = ground (arith, sum_by_categories es)
