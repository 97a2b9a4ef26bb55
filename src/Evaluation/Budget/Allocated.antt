-- ===== src/Evaluation/Budget/Allocated.antt =====
-- Histories of `EvaluationBudgetGuard` in packages/evaluation/src/budget.ts.
use infinite_context.Prelude.{
  ◌+◌, ◌≤◌, String, some, false, List, [], ◌∷◌, ◌≡◌, refl, arith, str_eq, sum_by, if◌then◌else◌,
  eq_iff, ok, err, Result-cases, Option-cases, Bool-cases, inl, inr, sym, subst, ◌∙◌,
}
use infinite_context.Json.{Number}
use infinite_context.Evaluation.Budget.{
  Entry, lookup, put, has_call, Category, category_part, committed_part, reserved_part, hard_cap,
  allocation, ReserveInput, new_entry, committed_entry, reserve, commit, release, find_reserved,
  is_reserved, Error, released, development, final_evaluation, contingency,
}
use infinite_context.Evaluation.Budget.Sums.{
  entries_at, lookup-call_id, sum_by-put_new, sum_by-put, other_sum, entries_at_new,
  sum_by_categories,
}

-- The map has one entry for a call, and what a category uses fits its allocation.
pub record IsAllocated (es : List Entry) : Type 0 where
  pub single : (id : String) → entries_at id es ≤ 1
  pub within : (c : Category) → sum_by (category_part c) es ≤ allocation c

new_entry_absent :
    (now : String) (r : ReserveInput) (es : List Entry) (e : Entry)
    → new_entry now r es ≡ ok e
    → has_call e.call_id es ≡ false
unfolding new_entry
new_entry_absent now r es e h = ground arith

new_entry_fits :
    (now : String) (r : ReserveInput) (es : List Entry) (e : Entry) (c : Category)
    → new_entry now r es ≡ ok e
    → sum_by (category_part c) es ≤ allocation c
    → sum_by (category_part c) es + category_part c e ≤ allocation c
unfolding new_entry
new_entry_fits now r es e c h w = ground arith

reserve-IsAllocated :
    (now : String) (r : ReserveInput) (es : List Entry)
    → IsAllocated es
    → IsAllocated (reserve now r es).1
unfolding reserve
reserve-IsAllocated now r es v = elim (Result-cases (new_entry now r es)) [
  | inr (x, q) ↦ rw q v
  | inl (e, q) ↦
      let a = new_entry_absent now r es e q in
      rw q (record {
        single = λ id. ground (
          arith,
          sum_by-put_new (λ (k : Entry). if str_eq k.call_id id then 1 else 0) e es a,
          entries_at_new e.call_id es a,
          v.single id,
          eq_iff e.call_id id,
        );
        within = λ c. ground (
          arith,
          sum_by-put_new (category_part c) e es a,
          new_entry_fits now r es e c q (v.within c),
        );
      })
]

find_reserved_found :
    (id : String) (es : List Entry) (old : Entry)
    → find_reserved id es ≡ ok old
    → lookup id es ≡ some old
find_reserved_found id es old h = ground arith

-- A write over the entry of a call.
put-IsAllocated :
    (id : String) (es : List Entry) (old new : Entry)
    → lookup id es ≡ some old
    → new.call_id ≡ old.call_id
    → ((c : Category)
        → sum_by (category_part c) es ≤ allocation c
        → sum_by (category_part c) es + category_part c new ≤ allocation c + category_part c old)
    → IsAllocated es
    → IsAllocated (put id new es)
put-IsAllocated id es old new found same fits v = record {
  single = λ k. ground (
    arith,
    sum_by-put (λ (e : Entry). if str_eq e.call_id k then 1 else 0) id new old es found,
    v.single k,
    same,
  );
  within =
      λ c. omega (arith, sum_by-put (category_part c) id new old es found, fits c (v.within c));
}

committed_entry_fits :
    (id : String) (cost : Number) (es : List Entry) (old new : Entry) (c : Category)
    → committed_entry id cost es ≡ ok new
    → find_reserved id es ≡ ok old
    → IsAllocated es
    → sum_by (category_part c) es ≤ allocation c
    → sum_by (category_part c) es + category_part c new ≤ allocation c + category_part c old
unfolding committed_entry
committed_entry_fits id cost es old new c h q v w =
    ground
      (arith, other_sum id c old es (v.single id) (find_reserved_found id es old q), v.single id, q)

committed_entry_call :
    (id : String) (cost : Number) (es : List Entry) (old new : Entry)
    → committed_entry id cost es ≡ ok new
    → find_reserved id es ≡ ok old
    → new.call_id ≡ old.call_id
unfolding committed_entry
committed_entry_call id cost es old new h q = ground (arith, q)

committed_entry_none :
    (id : String) (cost : Number) (es : List Entry) (new : Entry) (x : Error)
    → committed_entry id cost es ≡ ok new
    → find_reserved id es ≡ err x
    → ⊥
unfolding committed_entry
committed_entry_none id cost es new x h q = ground (arith, q)

commit-IsAllocated :
    (id : String) (cost : Number) (es : List Entry)
    → IsAllocated es
    → IsAllocated (commit id cost es).1
unfolding commit
commit-IsAllocated id cost es v = elim (Result-cases (committed_entry id cost es)) [
  | inr (x, q) ↦ rw q v
  | inl (new, q) ↦ elim (Result-cases (find_reserved id es)) [
    | inr (x, u) ↦ absurd (committed_entry_none id cost es new x q u)
    | inl (old, u) ↦
        let found = find_reserved_found id es old u in
        let call = committed_entry_call id cost es old new q u in
        let own : lookup new.call_id es ≡ some old =
          subst (λ k. lookup k es ≡ some old) (sym (call ∙ lookup-call_id id es old found)) found in
        rw q (
          put-IsAllocated new.call_id es old new own call
            (λ c w. committed_entry_fits id cost es old new c q u v w) v)
  ]
]

release-IsAllocated : (id : String) (es : List Entry) → IsAllocated es → IsAllocated (release id es)
unfolding release
release-IsAllocated id es v = elim (Option-cases (lookup id es)) [
  | inl q ↦ rw (q, release) v
  | inr (e, q) ↦ elim (Bool-cases (is_reserved e.status)) [
    | inr u ↦ rw (q, u, release) v
    | inl u ↦
        rw (q, u, release)
          (put-IsAllocated id es e (record e { status = released }) q refl (λ c w. ground arith) v)
  ]
]

-- A call of a method that changes the map.
pub data Call : Type 0 where
  reserves : String → ReserveInput → Call
  commits : String → Number → Call
  releases : String → Call

unfoldable pub run : List Call → List Entry → List Entry
run [] es = es
run (reserves now r ∷ cs) es = run cs (reserve now r es).1
run (commits id cost ∷ cs) es = run cs (commit id cost es).1
run (releases id ∷ cs) es = run cs (release id es)

run_from-IsAllocated : (cs : List Call) (es : List Entry) → IsAllocated es → IsAllocated (run cs es)
unfolding run
run_from-IsAllocated [] es v = v
run_from-IsAllocated (reserves now r ∷ cs) es v =
    run_from-IsAllocated cs _ (reserve-IsAllocated now r es v)
run_from-IsAllocated (commits id cost ∷ cs) es v =
    run_from-IsAllocated cs _ (commit-IsAllocated id cost es v)
run_from-IsAllocated (releases id ∷ cs) es v =
    run_from-IsAllocated cs _ (release-IsAllocated id es v)

-- After any calls on a new guard, there is one entry for a call, what each category uses fits its
-- allocation, and what is committed and reserved fits the hard cap.
pub run-IsAllocated :
    (cs : List Call)
    → IsAllocated (run cs [])
      × (sum_by committed_part (run cs []) + sum_by reserved_part (run cs []) ≤ hard_cap)
run-IsAllocated cs =
    let v : IsAllocated (run cs []) =
      run_from-IsAllocated cs []
        (record { single = λ id. omega arith; within = λ c. ground arith }) in
    (
      v,
      omega (
        arith,
        sum_by_categories (run cs []),
        v.within development,
        v.within final_evaluation,
        v.within contingency,
      ),
    )
