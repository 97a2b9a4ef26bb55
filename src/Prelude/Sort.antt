-- ===== src/Prelude/Sort.antt =====
-- `Array.prototype.sort`: stable. `le a b` says that `a`, which comes first, may stay before `b`.
use Prim.Native.Nat.{ℕ, ◌+◌, ◌≤◌}
use mathlib.Core.Path.{◌≡◌, refl, ap, ◌∙◌}
use mathlib.Core.Bool.{Bool}
use mathlib.Core.List.{List, [], ◌∷◌, ◌++◌}
use mathlib.Core.Logic.{inl, inr}
use native.Mathlib.Omega.{arith}
use infinite_context.Prelude.Tests.{if◌then◌else◌, Bool-cases, leb, ◌==◌}
use infinite_context.Prelude.Lists.{sum_by, keep, All, All-append, All-keep_kept}

module _ {ℓ} {A : Type ℓ} (le : A → A → Bool) where
  abbrev pub insert : A → List A → List A
  insert a [] = a ∷ []
  insert a (x ∷ xs) = let rest = insert a xs in if le a x then a ∷ (x ∷ xs) else x ∷ rest

  abbrev pub sort : List A → List A
  sort [] = []
  sort (x ∷ xs) = insert x (sort xs)

  pub sum_by-insert : (f : A → ℕ) (a : A) (xs : List A) → sum_by f (insert a xs) ≡ f a + sum_by f xs
  sum_by-insert f a [] = refl
  sum_by-insert f a (x ∷ xs) = ground (arith, sum_by-insert f a xs)

  pub sum_by-sort : (f : A → ℕ) (xs : List A) → sum_by f (sort xs) ≡ sum_by f xs
  sum_by-sort f [] = refl
  sum_by-sort f (x ∷ xs) = omega (arith, sum_by-insert f x (sort xs), sum_by-sort f xs)

  All-insert : (P : A → Type 0) (a : A) (xs : List A) → P a → All P xs → All P (insert a xs)
  All-insert P a [] h v = (h, tt)
  All-insert P a (x ∷ xs) h v = elim (Bool-cases (le a x)) [
    | inl e ↦ rw e (h, v)
    | inr e ↦ rw e (v.0, All-insert P a xs h v.1)
  ]

  pub All-sort : (P : A → Type 0) (xs : List A) → All P xs → All P (sort xs)
  All-sort P [] v = tt
  All-sort P (x ∷ xs) v = All-insert P x (sort xs) v.0 (All-sort P xs v.1)

-- Sorting by a number keeps the order of entries that share it.
module _ {ℓ} {A : Type ℓ} (key : A → ℕ) where
  abbrev pub ascending : A → A → Bool
  ascending a b = leb (key a) (key b)

  abbrev pub descending : A → A → Bool
  descending a b = leb (key b) (key a)

  keep-insert :
      (i : ℕ) (a : A) (xs : List A)
      → keep (λ x. key x == i) (insert ascending a xs) ≡ keep (λ x. key x == i) (a ∷ xs)
  keep-insert i a [] = refl
  keep-insert i a (x ∷ xs) = ground (arith, keep-insert i a xs)

  pub keep-sort :
      (i : ℕ) (xs : List A) → keep (λ x. key x == i) (sort ascending xs) ≡ keep (λ x. key x == i) xs
  keep-sort i [] = refl
  keep-sort i (x ∷ xs) = ground (arith, keep-insert i x (sort ascending xs), keep-sort i xs)

  -- Each key is at most the next.
  abbrev pub IsAscending : List A → Type 0
  IsAscending [] = Unit
  IsAscending (x ∷ xs) = All (λ y. key x ≤ key y) xs × IsAscending xs

  All-le_trans : (m n : ℕ) (xs : List A) → m ≤ n → All (λ y. n ≤ key y) xs → All (λ y. m ≤ key y) xs
  All-le_trans m n [] h v = tt
  All-le_trans m n (x ∷ xs) h v = (omega arith, All-le_trans m n xs h v.1)

  insert-IsAscending : (a : A) (xs : List A) → IsAscending xs → IsAscending (insert ascending a xs)
  insert-IsAscending a [] s = (tt, tt)
  insert-IsAscending a (x ∷ xs) s = elim (Bool-cases (ascending a x)) [
    | inl e ↦
        let h : key a ≤ key x = ground arith in rw e ((h, All-le_trans (key a) (key x) xs h s.0), s)
    | inr e ↦ rw e (
      All-insert ascending (λ y. key x ≤ key y) a xs (ground arith) s.0,
      insert-IsAscending a xs s.1,
    )
  ]

  pub sort-IsAscending : (xs : List A) → IsAscending (sort ascending xs)
  sort-IsAscending [] = tt
  sort-IsAscending (x ∷ xs) = insert-IsAscending x (sort ascending xs) (sort-IsAscending xs)

  insert_first :
      (a : A) (xs : List A) → All (λ y. key a ≤ key y) xs → insert ascending a xs ≡ a ∷ xs
  insert_first a [] v = refl
  insert_first a (x ∷ xs) v = ground (arith, v.0)

  pub sort_sorted : (xs : List A) → IsAscending xs → sort ascending xs ≡ xs
  sort_sorted [] s = refl
  sort_sorted (x ∷ xs) s = ap (insert ascending x) (sort_sorted xs s.1) ∙ insert_first x xs s.0

  pub keep-IsAscending : (p : A → Bool) (xs : List A) → IsAscending xs → IsAscending (keep p xs)
  keep-IsAscending p [] s = tt
  keep-IsAscending p (x ∷ xs) s = elim (Bool-cases (p x)) [
    | inl e ↦ rw e (All-keep_kept _ p xs s.0, keep-IsAscending p xs s.1)
    | inr e ↦ rw e (keep-IsAscending p xs s.1)
  ]

  pub IsAscending-append :
      (a : A) (xs : List A)
      → All (λ x. key x ≤ key a) xs
      → IsAscending xs
      → IsAscending (xs ++ a ∷ [])
  IsAscending-append a [] h s = (tt, tt)
  IsAscending-append a (x ∷ xs) h s =
      (All-append _ xs (a ∷ []) s.0 (h.0, tt), IsAscending-append a xs h.1 s.1)
