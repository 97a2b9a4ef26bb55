-- ===== src/Prelude/Rows.antt =====
-- What SQL statements do to the rows of a table, as packages/database/src/index.ts uses them.
use mathlib.Core.Path.{◌≡◌, refl, ap, ◌∙◌, sym, subst}
use mathlib.Core.Bool.{Bool, true, false}
use mathlib.Core.Option.{Option, none, some}
use mathlib.Core.List.{List, [], ◌∷◌, ◌++◌}
use mathlib.Core.Logic.{inl, inr}
use Prim.Native.String.{String}
use native.Mathlib.Omega.{arith}
use text.Mathlib.Text.{◌==◌ as str_eq}
use text.Mathlib.TextEquality.{eq_iff}
use infinite_context.Prelude.Tests.{if◌then◌else◌, Bool-cases}
use infinite_context.Prelude.Lists.{any, keep, All, All-append, All-keep_kept}

-- `UPDATE ... SET change WHERE test`.
abbrev pub update {ℓ} : {A : Type ℓ} → (A → Bool) → (A → A) → List A → List A
update test change [] = []
update test change (x ∷ xs) =
    let rest = update test change xs in if test x then change x ∷ rest else x ∷ rest

abbrev pub find_by {ℓ} : {A : Type ℓ} → (A → Bool) → List A → Option A
find_by test [] = none
find_by test (x ∷ xs) = let rest = find_by test xs in if test x then some x else rest

module _ {ℓ} {A : Type ℓ} where
  pub All-update :
      (P Q : A → Type 0) (test : A → Bool) (change : A → A) (xs : List A)
      → ((x : A) → test x ≡ true → P x → Q (change x))
      → ((x : A) → test x ≡ false → P x → Q x)
      → All P xs
      → All Q (update test change xs)
  All-update P Q test change [] f g v = tt
  All-update P Q test change (x ∷ xs) f g v = elim (Bool-cases (test x)) [
    | inl e ↦ rw e (f x e v.0, All-update P Q test change xs f g v.1)
    | inr e ↦ rw e (g x e v.0, All-update P Q test change xs f g v.1)
  ]

  pub All-weaken : (P Q : A → Type 0) (xs : List A) → ((x : A) → P x → Q x) → All P xs → All Q xs
  All-weaken P Q [] f v = tt
  All-weaken P Q (x ∷ xs) f v = (f x v.0, All-weaken P Q xs f v.1)

  pub All-both :
      (P Q R : A → Type 0) (xs : List A)
      → ((x : A) → P x → Q x → R x)
      → All P xs
      → All Q xs
      → All R xs
  All-both P Q R [] f v w = tt
  All-both P Q R (x ∷ xs) f v w = (f x v.0 w.0, All-both P Q R xs f v.1 w.1)

  -- A row that is found passes the test and has what all rows have.
  pub All-find_by :
      (P : A → Type 0) (test : A → Bool) (xs : List A) (a : A)
      → find_by test xs ≡ some a
      → All P xs
      → P a × (test a ≡ true)
  All-find_by P test [] a h v = absurd (ground arith)
  All-find_by P test (x ∷ xs) a h v = elim (Bool-cases (test x)) [
    | inl e ↦
        let same : x ≡ a = ground (arith, e) in subst (λ y. P y × (test y ≡ true)) same (v.0, e)
    | inr e ↦ All-find_by P test xs a (ground (arith, e)) v.1
  ]

  pub find-keep :
      (test kept : A → Bool) (xs : List A) (a : A)
      → find_by test xs ≡ some a
      → kept a ≡ true
      → find_by test (keep kept xs) ≡ some a
  find-keep test kept [] a h k = absurd (ground arith)
  find-keep test kept (x ∷ xs) a h k = elim (Bool-cases (test x)) [
    | inl e ↦
        let same : x ≡ a = ground (arith, e) in
        let stays : kept x ≡ true = ap kept same ∙ k in rw stays (rw e (ap (λ y. some y) same))
    | inr e ↦
        let rest = find-keep test kept xs a (ground (arith, e)) k in
        elim (Bool-cases (kept x)) [ inl t ↦ rw t (rw e rest) | inr t ↦ rw t rest ]
  ]

  pub find-append :
      (test : A → Bool) (xs ys : List A) (a : A)
      → find_by test xs ≡ some a
      → find_by test (xs ++ ys) ≡ some a
  find-append test [] ys a h = absurd (ground arith)
  find-append test (x ∷ xs) ys a h = ground (arith, find-append test xs ys a)

  pub any-append_left :
      (test : A → Bool) (xs ys : List A) → any test xs ≡ true → any test (xs ++ ys) ≡ true
  any-append_left test [] ys h = absurd (ground arith)
  any-append_left test (x ∷ xs) ys h = ground (arith, any-append_left test xs ys)

  pub any-find_by :
      (test : A → Bool) (xs : List A) (a : A) → find_by test xs ≡ some a → any test xs ≡ true
  any-find_by test [] a h = absurd (ground arith)
  any-find_by test (x ∷ xs) a h = ground (arith, any-find_by test xs a)

  -- An update that does not touch what a test reads.
  pub any-update :
      (test which : A → Bool) (change : A → A) (xs : List A)
      → ((x : A) → test (change x) ≡ test x)
      → any test (update which change xs) ≡ any test xs
  any-update test which change [] same = refl
  any-update test which change (x ∷ xs) same =
      ground (arith, same x, any-update test which change xs same)

-- Rows with a text for a key.
module _ {A : Type 0} (key : A → String) where
  abbrev pub has_key : String → A → Bool
  has_key k a = str_eq (key a) k

  abbrev pub HasKeys : List A → Type 0
  HasKeys [] = Unit
  HasKeys (x ∷ xs) = All (λ y. str_eq (key y) (key x) ≡ false) xs × HasKeys xs

  pub HasKeys-append :
      (a : A) (xs : List A) → any (has_key (key a)) xs ≡ false → HasKeys xs → HasKeys (xs ++ a ∷ [])
  HasKeys-append a [] h k = (tt, tt)
  HasKeys-append a (x ∷ xs) h k = (
    All-append _ xs (a ∷ []) k.0
        (ground (arith, eq_iff (key a) (key x), eq_iff (key x) (key a)), tt),
    HasKeys-append a xs (ground arith) k.1,
  )

  pub HasKeys-keep : (p : A → Bool) (xs : List A) → HasKeys xs → HasKeys (keep p xs)
  HasKeys-keep p [] k = tt
  HasKeys-keep p (x ∷ xs) k = elim (Bool-cases (p x)) [
    | inl e ↦ rw e (All-keep_kept _ p xs k.0, HasKeys-keep p xs k.1)
    | inr e ↦ rw e (HasKeys-keep p xs k.1)
  ]

  All-key-update :
      (k : String) (test : A → Bool) (change : A → A) (xs : List A)
      → ((x : A) → key (change x) ≡ key x)
      → All (λ y. str_eq (key y) k ≡ false) xs
      → All (λ y. str_eq (key y) k ≡ false) (update test change xs)
  All-key-update k test change xs same v =
      All-update _ _ test change xs (λ x t h. rw (same x) h) (λ x t h. h) v

  pub update-HasKeys :
      (test : A → Bool) (change : A → A) (xs : List A)
      → ((x : A) → key (change x) ≡ key x)
      → HasKeys xs
      → HasKeys (update test change xs)
  update-HasKeys test change [] same k = tt
  update-HasKeys test change (x ∷ xs) same k = elim (Bool-cases (test x)) [
    | inl e ↦ rw e (
      subst (λ i. All (λ y. str_eq (key y) i ≡ false) (update test change xs)) (sym (same x))
          (All-key-update (key x) test change xs same k.0),
      update-HasKeys test change xs same k.1,
    )
    | inr e ↦
        rw e
          (All-key-update (key x) test change xs same k.0, update-HasKeys test change xs same k.1)
  ]

  -- A row that is looked up by its key after an update is the row, updated if the update meets it.
  pub find-key-update :
      (k : String) (test : A → Bool) (change : A → A) (xs : List A) (a : A)
      → ((x : A) → key (change x) ≡ key x)
      → find_by (has_key k) xs ≡ some a
      → find_by (has_key k) (update test change xs) ≡ some (if test a then change a else a)
  find-key-update k test change [] a same h = absurd (ground arith)
  find-key-update k test change (x ∷ xs) a same h = elim (Bool-cases (str_eq (key x) k)) [
    | inl e ↦
        let own : x ≡ a = ground (arith, e) in
        let hit : str_eq (key (change x)) k ≡ true = ap (λ i. str_eq i k) (same x) ∙ e in
        subst
          (λ b.
            find_by (has_key k) (update test change (x ∷ xs))
            ≡ some (if test b then change b else b))
          own (elim (Bool-cases (test x)) [ inl t ↦ rw t (rw hit refl) | inr t ↦ rw t (rw e refl) ])
    | inr e ↦
        let rest = find-key-update k test change xs a same (ground (arith, e)) in
        let miss : str_eq (key (change x)) k ≡ false = ap (λ i. str_eq i k) (same x) ∙ e in
        elim (Bool-cases (test x)) [ inl t ↦ rw t (rw miss rest) | inr t ↦ rw t (rw e rest) ]
  ]
