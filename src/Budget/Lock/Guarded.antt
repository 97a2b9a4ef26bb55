-- ===== src/Budget/Lock/Guarded.antt =====
-- Who has the lock file of packages/config/src/installation-budget.ts: the guard, and the steps that make and take
-- away the file.
use infinite_context.Prelude.{
  ℕ, ◌<◌, Option, none, some, true, false, ◌==◌, ◌≡◌, refl, arith, Bool-cases, Option-cases, inl,
  inr, ap, sym, ◌∙◌,
}
use infinite_context.Budget.Lock.{
  File, Local, idle, creating, suspecting, confirmed, Disk, move, created, open_lock, unlink,
  has_id, lock_at_path_matches, quarantine,
}
use infinite_context.Budget.Lock.Owner.{held, IsSound, Keeps, set-part, created-held}

-- The lock that a process takes for abandoned.
abbrev pub suspect : Local → Option ℕ
suspect (suspecting id) = some id
suspect (confirmed id) = some id
suspect _ = none

pub record IsGuarded (d : Disk) : Type 0 where
  pub present : (p id : ℕ) → held (d.local p) ≡ some id → has_id id d.at_path ≡ true
  pub owned :
      (f : File) (o p : ℕ)
      → d.at_path ≡ some f
      → f.owner ≡ some o
      → held (d.local p) ≡ some f.id
      → p ≡ o
  pub dropped : (p q id : ℕ) → held (d.local p) ≡ some id → suspect (d.local q) ≡ some id → ⊥
  pub suspect_old : (q id : ℕ) → suspect (d.local q) ≡ some id → id < d.next_id
  pub path_old : (f : File) → d.at_path ≡ some f → f.id < d.next_id

pub move-IsGuarded :
    (d : Disk) (p : ℕ) (m : Local)
    → Keeps held (d.local p) m
    → Keeps suspect (d.local p) m
    → IsGuarded d
    → IsGuarded (move p m d)
move-IsGuarded d p m k l s = record {
  present = λ q id h. s.present q id (set-part held d.local p m k q id h);
  owned = λ f o q e w h. s.owned f o q e w (set-part held d.local p m k q f.id h);
  dropped = λ q r id h g.
      s.dropped q r id (set-part held d.local p m k q id h) (set-part suspect d.local p m l r id g);
  suspect_old = λ q id h. s.suspect_old q id (set-part suspect d.local p m l q id h);
  path_old = s.path_old;
}

pub no_part : (part : Local → Option ℕ) (l m : Local) → part m ≡ none → Keeps part l m
no_part part l m n id h = absurd (ground arith)

-- The lock at the path goes while nobody else has it.
drop-IsGuarded :
    (d : Disk) (p : ℕ)
    → ((q id : ℕ) → (q == p) ≡ false → held (d.local q) ≡ some id → ⊥)
    → IsGuarded d
    → IsGuarded (move p idle (record d { at_path = none }))
drop-IsGuarded d p alone s = record {
  present = λ q id h. elim (Bool-cases (q == p)) [
    | inl t ↦ absurd (ground (arith, t))
    | inr t ↦ absurd (alone q id t (ground (arith, t)))
  ];
  owned = λ f o q e w h. absurd (ground arith);
  dropped = λ q r id h g.
      s.dropped q r id (set-part held d.local p idle (no_part held (d.local p) idle refl) q id h)
        (set-part suspect d.local p idle (no_part suspect (d.local p) idle refl) r id g);
  suspect_old = λ q id h.
      s.suspect_old q id
        (set-part suspect d.local p idle (no_part suspect (d.local p) idle refl) q id h);
  path_old = λ f e. absurd (ground arith);
}

pub same_id : (i j : ℕ) (path : Option File) → has_id i path ≡ true → has_id j path ≡ true → i ≡ j
same_id i j none h g = absurd (ground arith)
same_id i j (some f) h g = ground arith

abbrev owner_of : Option File → Option ℕ
owner_of none = none
owner_of (some f) = f.owner

created-IsGuarded : (p : ℕ) (d : Disk) → d.at_path ≡ none → IsGuarded d → IsGuarded (created p d)
created-IsGuarded p d n s =
    let nobody = λ (q id : ℕ) (h : held (d.local q) ≡ some id).
      let there = s.present q id h in
      let gone : has_id id none ≡ true = ap (has_id id) (sym n) ∙ there in
      absurd {A = ⊥} (ground arith) in
    let keeps =
      set-part suspect d.local p (creating d.next_id)
        (no_part suspect (d.local p) (creating d.next_id) refl) in
    record {
      present = λ q id h. elim (created-held d p q id h) [
        | inl e ↦ ground (arith, e.1)
        | inr g ↦ absurd (nobody q id g)
      ];
      owned = λ f o q e w h.
          let none_yet : f.owner ≡ none = ap owner_of (sym e) in absurd (ground arith);
      dropped = λ q r id h g. elim (created-held d p q id h) [
        | inl e ↦ let less = s.suspect_old r id (keeps r id g) in absurd (omega (arith, e.1))
        | inr a ↦ absurd (nobody q id a)
      ];
      suspect_old = λ q id h. let less = s.suspect_old q id (keeps q id h) in omega arith;
      path_old = λ f e. let same : f.id ≡ d.next_id = ground arith in omega (arith, same);
    }

pub open_lock-IsGuarded : (p : ℕ) (d : Disk) → IsGuarded d → IsGuarded (open_lock p d)
unfolding open_lock
open_lock-IsGuarded p d s = elim (Option-cases d.at_path) [
  | inl n ↦ rw (n, open_lock) (created-IsGuarded p d n s)
  | inr (f, n) ↦ rw (n, open_lock) s
]

-- The process that gives its own lock back is the only one that has one.
pub unlink-IsGuarded :
    (p id : ℕ) (d : Disk)
    → held (d.local p) ≡ some id
    → IsSound d
    → IsGuarded d
    → IsGuarded (unlink p d)
unfolding unlink
unlink-IsGuarded p id d own sound s =
    drop-IsGuarded d p
      (λ q i t h.
        let same = same_id i id d.at_path (s.present q i h) (s.present p id own) in
        let one = sound.distinct q p i h (own ∙ ap (λ k. some k) (sym same)) in
        absurd (ground arith))
      s

pub quarantine-IsGuarded :
    (p id : ℕ) (d : Disk)
    → d.local p ≡ confirmed id
    → lock_at_path_matches id d ≡ true
    → IsGuarded d
    → IsGuarded (quarantine p d)
unfolding quarantine lock_at_path_matches
quarantine-IsGuarded p id d e there s =
    drop-IsGuarded d p
      (λ q i t h.
        let same = same_id i id d.at_path (s.present q i h) there in
        s.dropped q p i h (ap suspect e ∙ ap (λ k. some k) (sym same)))
      s
