-- ===== src/Budget/Lock/Exclusion.antt =====
-- When the lock file of packages/config/src/installation-budget.ts excludes other processes.
use infinite_context.Prelude.{
  ℕ, ◌<◌, Option, none, some, true, false, ◌&&◌, ◌==◌, leb, not, ◌≡◌, refl, arith, Bool-cases,
  Option-cases, inl, inr, ◌⊎◌, ap, sym, ◌∙◌,
}
use infinite_context.Budget.Lock.{
  File, Local, idle, creating, holding, unlinking, suspecting, confirmed, gone, Disk, move,
  owned_by, write_lock, has_id, lock_at_path_matches, begin_release, is_dead_owner, is_gone,
  is_alive, inspect, confirm, die,
}
use infinite_context.Budget.Lock.Steps.{
  Reachable, start, opens, writes, gives_up, checks, unlinks, inspects, confirms, removes, dies,
}
use infinite_context.Budget.Lock.Owner.{held, IsSound, Keeps, set-part, Reachable-IsSound}
use infinite_context.Budget.Lock.Guarded.{
  suspect, IsGuarded, move-IsGuarded, no_part, same_id, open_lock-IsGuarded, unlink-IsGuarded,
  quarantine-IsGuarded,
}

owned_by-has_id : (p id i : ℕ) (path : Option File) → has_id i (owned_by p id path) ≡ has_id i path
owned_by-has_id p id i none = refl
owned_by-has_id p id i (some f) = ground arith

owned_by-cases :
    (p id : ℕ) (path : Option File) (f : File)
    → owned_by p id path ≡ some f
    → (path ≡ some f) ⊎ ((f.id ≡ id) × (f.owner ≡ some p) × (has_id id path ≡ true))
owned_by-cases p id none f h = absurd (ground arith)
owned_by-cases p id (some g) f h = elim (Bool-cases (g.id == id)) [
  | inl t ↦ inr (ground (arith, t), ground (arith, t), t)
  | inr t ↦ inl (ground (arith, t))
]

has_id-some : (path : Option File) (f : File) → path ≡ some f → has_id f.id path ≡ true
has_id-some none f h = absurd (ground arith)
has_id-some (some g) f h = ground arith

path_id_old : (d : Disk) (id : ℕ) → IsGuarded d → has_id id d.at_path ≡ true → id < d.next_id
path_id_old d id s h = elim (Option-cases d.at_path) [
  | inl n ↦ let no : has_id id none ≡ true = ap (has_id id) (sym n) ∙ h in absurd (ground arith)
  | inr (f, n) ↦
      let yes : has_id id (some f) ≡ true = ap (has_id id) (sym n) ∙ h in
      let less = s.path_old f n in ground arith
]

write_lock-IsGuarded :
    (p id : ℕ) (d : Disk)
    → d.local p ≡ creating id
    → IsSound d
    → IsGuarded d
    → IsGuarded (write_lock p id d)
unfolding write_lock
write_lock-IsGuarded p id d e sound s =
    let path = owned_by p id d.at_path in
    let keeps : Keeps held (d.local p) (holding id) = λ i h. ap held e ∙ h in
    let own : held (d.local p) ≡ some id = ap held e in
    let was = set-part held d.local p (holding id) keeps in
    let suspected =
      set-part suspect d.local p (holding id) (no_part suspect (d.local p) (holding id) refl) in
    record {
      present = λ q i h. owned_by-has_id p id i d.at_path ∙ s.present q i (was q i h);
      owned = λ f o q at w h. elim (owned_by-cases p id d.at_path f at) [
        | inl old ↦ s.owned f o q old w (was q f.id h)
        | inr new ↦
            let one = sound.distinct q p id (was q f.id h ∙ ap (λ k. some k) new.0) own in
            ground (arith, one, new.1)
      ];
      dropped = λ q r i h g. s.dropped q r i (was q i h) (suspected r i g);
      suspect_old = λ q i h. s.suspect_old q i (suspected q i h);
      path_old = λ f at.
          path_id_old d f.id s (sym (owned_by-has_id p id f.id d.at_path) ∙ has_id-some path f at);
    }

begin_release-IsGuarded :
    (p id : ℕ) (d : Disk) → d.local p ≡ holding id → IsGuarded d → IsGuarded (begin_release p id d)
unfolding begin_release
begin_release-IsGuarded p id d e s = elim (Bool-cases (lock_at_path_matches id d)) [
  | inl t ↦ rw t (
      move-IsGuarded d p (unlinking id) (λ i h. ap held e ∙ h)
        (no_part suspect (d.local p) (unlinking id) refl) s)
  | inr t ↦ rw t (
      move-IsGuarded d p idle (no_part held (d.local p) idle refl)
        (no_part suspect (d.local p) idle refl) s)
]

confirm-IsGuarded :
    (p id : ℕ) (d : Disk) → d.local p ≡ suspecting id → IsGuarded d → IsGuarded (confirm p id d)
unfolding confirm
confirm-IsGuarded p id d e s = elim (Bool-cases (has_id id d.at_path)) [
  | inl t ↦ rw t (
      move-IsGuarded d p (confirmed id) (no_part held (d.local p) (confirmed id) refl)
        (λ i h. ap suspect e ∙ h) s)
  | inr t ↦ rw t (
      move-IsGuarded d p idle (no_part held (d.local p) idle refl)
        (no_part suspect (d.local p) idle refl) s)
]

die-IsGuarded : (p : ℕ) (d : Disk) → IsGuarded d → IsGuarded (die p d)
unfolding die
die-IsGuarded p d s =
    move-IsGuarded d p gone (no_part held (d.local p) gone refl)
      (no_part suspect (d.local p) gone refl) s

dead-gone : (l : Local) → not (is_gone l) ≡ false → l ≡ gone
dead-gone gone h = refl
dead-gone idle h = absurd (ground arith)
dead-gone (creating id) h = absurd (ground arith)
dead-gone (holding id) h = absurd (ground arith)
dead-gone (unlinking id) h = absurd (ground arith)
dead-gone (suspecting id) h = absurd (ground arith)
dead-gone (confirmed id) h = absurd (ground arith)

-- The lock of a process that is not alive is no other process's.
dead_owner-drops :
    (d : Disk) (f : File)
    → d.at_path ≡ some f
    → is_dead_owner f.owner d ≡ true
    → IsGuarded d
    → (q : ℕ) → held (d.local q) ≡ some f.id
    → ⊥
unfolding is_alive
dead_owner-drops d f e dead s q h = elim (Option-cases f.owner) [
  | inl n ↦ absurd (ground (arith, n))
  | inr (o, n) ↦
      let ended : d.local o ≡ gone = dead-gone (d.local o) (ground (arith, n)) in
      let one = s.owned f o q e n h in
      let none_held : none ≡ some f.id =
        sym (ap held ended) ∙ ap (λ p. held (d.local p)) (sym one) ∙ h in
      absurd (ground arith)
]

suspecting-IsGuarded :
    (p : ℕ) (d : Disk) (f : File)
    → d.at_path ≡ some f
    → is_dead_owner f.owner d ≡ true
    → IsGuarded d
    → IsGuarded (move p (suspecting f.id) d)
suspecting-IsGuarded p d f e dead s =
    let keeps =
      set-part held d.local p (suspecting f.id) (no_part held (d.local p) (suspecting f.id) refl) in
    record {
      present = λ q id h. s.present q id (keeps q id h);
      owned = λ g o q at w h. s.owned g o q at w (keeps q g.id h);
      dropped = λ q r id h g. elim (Bool-cases (r == p)) [
        | inl t ↦
            let same : f.id ≡ id = ground (arith, t) in
            dead_owner-drops d f e dead s q (keeps q id h ∙ ap (λ k. some k) (sym same))
        | inr t ↦ s.dropped q r id (keeps q id h) (ground (arith, t))
      ];
      suspect_old = λ q id h. elim (Bool-cases (q == p)) [
        | inl t ↦
            let same : f.id ≡ id = ground (arith, t) in let less = s.path_old f e in omega arith
        | inr t ↦ s.suspect_old q id (ground (arith, t))
      ];
      path_old = s.path_old;
    }

inspect-IsGuarded : (p age : ℕ) (d : Disk) → IsGuarded d → IsGuarded (inspect p age d)
unfolding inspect
inspect-IsGuarded p age d s = elim (Option-cases d.at_path) [
  | inl n ↦ rw (n, inspect) s
  | inr (f, n) ↦ elim (Bool-cases (leb 1_000 age && is_dead_owner f.owner d)) [
    | inl t ↦ rw (n, t, inspect) (suspecting-IsGuarded p d f n (ground (arith, t)) s)
    | inr t ↦ rw (n, t, inspect) s
  ]
]

Reachable-IsGuarded : (d : Disk) → Reachable true d → IsGuarded d
Reachable-IsGuarded _ start = record {
  present = λ p id h. absurd (ground arith);
  owned = λ f o p e w h. absurd (ground arith);
  dropped = λ p q id h g. absurd (ground arith);
  suspect_old = λ q id h. absurd (ground arith);
  path_old = λ f e. absurd (ground arith);
}
Reachable-IsGuarded _ (opens p d r e) = open_lock-IsGuarded p d (Reachable-IsGuarded d r)
Reachable-IsGuarded _ (writes p id d r e) =
    write_lock-IsGuarded p id d e (Reachable-IsSound true d r) (Reachable-IsGuarded d r)
Reachable-IsGuarded _ (gives_up p id d r e) =
    unlink-IsGuarded p id d (ap held e) (Reachable-IsSound true d r) (Reachable-IsGuarded d r)
Reachable-IsGuarded _ (checks p id d r e) =
    begin_release-IsGuarded p id d e (Reachable-IsGuarded d r)
Reachable-IsGuarded _ (unlinks p id d r e) =
    unlink-IsGuarded p id d (ap held e) (Reachable-IsSound true d r) (Reachable-IsGuarded d r)
Reachable-IsGuarded _ (inspects p age d r e) = inspect-IsGuarded p age d (Reachable-IsGuarded d r)
Reachable-IsGuarded _ (confirms p id d r e) = confirm-IsGuarded p id d e (Reachable-IsGuarded d r)
Reachable-IsGuarded _ (removes p id d r e same) =
    quarantine-IsGuarded p id d e (same refl) (Reachable-IsGuarded d r)
Reachable-IsGuarded _ (dies p d r) = die-IsGuarded p d (Reachable-IsGuarded d r)

-- While each rename takes away the lock that was confirmed, two processes that are between the creation of a
-- lock and its release are one process, and the lock at the path is its own.
pub careful_exclusion :
    (d : Disk) (p q i j : ℕ)
    → Reachable true d
    → held (d.local p) ≡ some i
    → held (d.local q) ≡ some j
    → (p ≡ q) × (lock_at_path_matches i d ≡ true)
unfolding lock_at_path_matches
careful_exclusion d p q i j r h g =
    let s = Reachable-IsGuarded d r in
    let same = same_id i j d.at_path (s.present p i h) (s.present q j g) in
    ((Reachable-IsSound true d r).distinct p q j (h ∙ ap (λ k. some k) same) g, s.present p i h)
