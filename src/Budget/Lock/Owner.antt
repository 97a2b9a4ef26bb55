-- ===== src/Budget/Lock/Owner.antt =====
-- The locks that processes have created, of packages/config/src/installation-budget.ts.
use infinite_context.Prelude.{
  ℕ, ◌<◌, Option, none, some, Bool, ◌&&◌, ◌==◌, leb, ◌≡◌, refl, arith, Bool-cases, Option-cases,
  inl, inr, ◌⊎◌, ap, sym, ◌∙◌, subst,
}
use infinite_context.Budget.Lock.{
  File, Local, idle, creating, holding, unlinking, suspecting, confirmed, gone, Disk, set, move,
  created, open_lock, owned_by, write_lock, unlink, has_id, lock_at_path_matches, begin_release,
  is_dead_owner, inspect, confirm, quarantine, die,
}
use infinite_context.Budget.Lock.Steps.{
  Reachable, start, opens, writes, gives_up, checks, unlinks, inspects, confirms, removes, dies,
}

-- The lock that a process has created and not yet given back.
abbrev pub held : Local → Option ℕ
held (creating id) = some id
held (holding id) = some id
held (unlinking id) = some id
held _ = none

pub record IsSound (d : Disk) : Type 0 where
  pub old : (p id : ℕ) → held (d.local p) ≡ some id → id < d.next_id
  pub distinct : (p q id : ℕ) → held (d.local p) ≡ some id → held (d.local q) ≡ some id → p ≡ q

-- A process keeps the lock that it has, or has none any more.
abbrev pub Keeps : (Local → Option ℕ) → Local → Local → Type 0
Keeps part l m = (id : ℕ) → part m ≡ some id → part l ≡ some id

pub set-part :
    (part : Local → Option ℕ) (local : ℕ → Local) (p : ℕ) (m : Local)
    → Keeps part (local p) m
    → (q id : ℕ) → part (set local p m q) ≡ some id
    → part (local q) ≡ some id
set-part part local p m k q id h = elim (Bool-cases (q == p)) [
  | inl t ↦
      let same : q ≡ p = ground arith in
      let g : part m ≡ some id = ground (arith, t) in
      subst (λ r. part (local r) ≡ some id) (sym same) (k id g)
  | inr t ↦ ground (arith, t)
]

-- A step that makes no lock keeps the properties.
pub move-IsSound :
    (d : Disk) (p : ℕ) (m : Local) (path : Option File)
    → Keeps held (d.local p) m
    → IsSound d
    → IsSound (move p m (record d { at_path = path }))
move-IsSound d p m path k s = record {
  old = λ q id h. s.old q id (set-part held d.local p m k q id h);
  distinct = λ q r id h g.
      s.distinct q r id (set-part held d.local p m k q id h) (set-part held d.local p m k r id g);
}

pub created-held :
    (d : Disk) (p q id : ℕ)
    → held (set d.local p (creating d.next_id) q) ≡ some id
    → ((q ≡ p) × (id ≡ d.next_id)) ⊎ (held (d.local q) ≡ some id)
created-held d p q id h = elim (Bool-cases (q == p)) [
  | inl t ↦ inl (ground arith, ground (arith, t))
  | inr t ↦ inr (ground (arith, t))
]

created-IsSound : (p : ℕ) (d : Disk) → IsSound d → IsSound (created p d)
created-IsSound p d s = record {
  old = λ q id h. elim (created-held d p q id h) [
    | inl e ↦ omega (arith, e.1)
    | inr g ↦ let less = s.old q id g in omega arith
  ];
  distinct = λ q r id h g. elim (created-held d p q id h) [
    | inl e ↦ elim (created-held d p r id g) [
      | inl f ↦ e.0 ∙ sym f.0
      | inr b ↦ let less = s.old r id b in absurd (omega (arith, e.1))
    ]
    | inr a ↦ elim (created-held d p r id g) [
      | inl f ↦ let less = s.old q id a in absurd (omega (arith, f.1))
      | inr b ↦ s.distinct q r id a b
    ]
  ];
}

open_lock-IsSound : (p : ℕ) (d : Disk) → IsSound d → IsSound (open_lock p d)
unfolding open_lock
open_lock-IsSound p d s = elim (Option-cases d.at_path) [
  | inl n ↦ rw (n, open_lock) (created-IsSound p d s)
  | inr (f, n) ↦ rw (n, open_lock) s
]

idle-Keeps : (l m : Local) → held m ≡ none → Keeps held l m
idle-Keeps l m n id h = absurd (ground arith)

write_lock-IsSound :
    (p id : ℕ) (d : Disk) → d.local p ≡ creating id → IsSound d → IsSound (write_lock p id d)
unfolding write_lock
write_lock-IsSound p id d e s =
    move-IsSound d p (holding id) (owned_by p id d.at_path) (λ i h. ap held e ∙ h) s

unlink-IsSound : (p : ℕ) (d : Disk) → IsSound d → IsSound (unlink p d)
unfolding unlink
unlink-IsSound p d s = move-IsSound d p idle none (idle-Keeps (d.local p) idle refl) s

begin_release-IsSound :
    (p id : ℕ) (d : Disk) → d.local p ≡ holding id → IsSound d → IsSound (begin_release p id d)
unfolding begin_release
begin_release-IsSound p id d e s = elim (Bool-cases (lock_at_path_matches id d)) [
  | inl t ↦ rw t (move-IsSound d p (unlinking id) d.at_path (λ i h. ap held e ∙ h) s)
  | inr t ↦ rw t (move-IsSound d p idle d.at_path (idle-Keeps (d.local p) idle refl) s)
]

inspect-IsSound : (p age : ℕ) (d : Disk) → IsSound d → IsSound (inspect p age d)
unfolding inspect
inspect-IsSound p age d s = elim (Option-cases d.at_path) [
  | inl n ↦ rw (n, inspect) s
  | inr (f, n) ↦ elim (Bool-cases (leb 1_000 age && is_dead_owner f.owner d)) [
    | inl t ↦
        rw (n, t, inspect)
          (move-IsSound d p (suspecting f.id) d.at_path
            (idle-Keeps (d.local p) (suspecting f.id) refl) s)
    | inr t ↦ rw (n, t, inspect) s
  ]
]

confirm-IsSound : (p id : ℕ) (d : Disk) → IsSound d → IsSound (confirm p id d)
unfolding confirm
confirm-IsSound p id d s = elim (Bool-cases (has_id id d.at_path)) [
  | inl t ↦
      rw t
        (move-IsSound d p (confirmed id) d.at_path (idle-Keeps (d.local p) (confirmed id) refl) s)
  | inr t ↦ rw t (move-IsSound d p idle d.at_path (idle-Keeps (d.local p) idle refl) s)
]

die-IsSound : (p : ℕ) (d : Disk) → IsSound d → IsSound (die p d)
unfolding die
die-IsSound p d s = move-IsSound d p gone d.at_path (idle-Keeps (d.local p) gone refl) s

quarantine-IsSound : (p : ℕ) (d : Disk) → IsSound d → IsSound (quarantine p d)
unfolding quarantine
quarantine-IsSound p d s = move-IsSound d p idle none (idle-Keeps (d.local p) idle refl) s

pub Reachable-IsSound : (careful : Bool) (d : Disk) → Reachable careful d → IsSound d
Reachable-IsSound c _ start = record {
  old = λ p id h. absurd (ground arith);
  distinct = λ p q id h g. absurd (ground arith);
}
Reachable-IsSound c _ (opens p d r e) = open_lock-IsSound p d (Reachable-IsSound c d r)
Reachable-IsSound c _ (writes p id d r e) = write_lock-IsSound p id d e (Reachable-IsSound c d r)
Reachable-IsSound c _ (gives_up p id d r e) = unlink-IsSound p d (Reachable-IsSound c d r)
Reachable-IsSound c _ (checks p id d r e) = begin_release-IsSound p id d e (Reachable-IsSound c d r)
Reachable-IsSound c _ (unlinks p id d r e) = unlink-IsSound p d (Reachable-IsSound c d r)
Reachable-IsSound c _ (inspects p age d r e) = inspect-IsSound p age d (Reachable-IsSound c d r)
Reachable-IsSound c _ (confirms p id d r e) = confirm-IsSound p id d (Reachable-IsSound c d r)
Reachable-IsSound c _ (removes p id d r e same) = quarantine-IsSound p d (Reachable-IsSound c d r)
Reachable-IsSound c _ (dies p d r) = die-IsSound p d (Reachable-IsSound c d r)
