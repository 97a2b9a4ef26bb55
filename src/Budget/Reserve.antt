-- ===== src/Budget/Reserve.antt =====
-- What `reserve` of packages/config/src/installation-budget.ts grants.
use infinite_context.Prelude.{
  ℕ, ◌+◌, ◌≤◌, ◌<◌, Option, some, Bool, false, ◌≡◌, arith, ok, Result-cases, inl, inr,
}
use infinite_context.Json.{Number}
use infinite_context.Budget.Entry.{
  Category, Entry, Ledger, hard_cap, committed_usd, reserved_usd, category_used, reserved,
  allocation, nonessential_stop,
}
use infinite_context.Budget.Guards.{Platform, ReserveInput, effective_cap, assert_affordable}
use infinite_context.Budget.Operations.{reserve_entry, has_call}

pub effective_cap-le :
    (limit : Option Number) (cap : ℕ) → effective_cap limit ≡ ok cap → (0 < cap) × (cap ≤ hard_cap)
unfolding effective_cap
effective_cap-le limit cap h = ground arith

-- What a call must leave room for.
pub record IsAffordable (l : Ledger) (cap : ℕ) (c : Category) (cost : ℕ) (essential : Bool)
    : Type 0 where
  pub unbreached : l.breached ≡ false
  pub fits : committed_usd l.entries + reserved_usd l.entries + cost ≤ cap
  pub stops :
      essential ≡ false
      → committed_usd l.entries + reserved_usd l.entries + cost < nonessential_stop
  pub allots : (a : ℕ) → allocation c ≡ some a → category_used c l.entries + cost ≤ a

pub assert_affordable-IsAffordable :
    (l : Ledger) (cap : ℕ) (c : Category) (cost : ℕ) (essential : Bool)
    → assert_affordable l cap c cost essential ≡ ok tt
    → IsAffordable l cap c cost essential
unfolding assert_affordable
assert_affordable-IsAffordable l cap c cost essential h = record {
  unbreached = ground arith;
  fits = ground arith;
  stops = λ q. ground arith;
  allots = λ a q. ground arith;
}

pub record IsGranted (l : Ledger) (r : ReserveInput) (e : Entry) : Type 0 where
  pub reserves : e.status ≡ reserved
  pub names : e.call_id ≡ r.call_id
  pub essential : e.essential ≡ r.essential
  pub fresh : has_call r.call_id l.entries ≡ false
  pub cap : ℕ
  pub limit : effective_cap r.hard_limit ≡ ok cap
  pub affordable : IsAffordable l cap e.category e.estimated_cost e.essential

-- A reservation that is granted is under a new call identifier, with no breach recorded; with it the committed and reserved
-- amounts fit the effective cap, those of its category the allocation, and, if it is not essential, the total stays
-- below USD 95.
pub reserve_entry-IsGranted :
    (p : Platform) (r : ReserveInput) (l : Ledger) (e : Entry)
    → reserve_entry p r l ≡ ok e
    → IsGranted l r e
unfolding reserve_entry
reserve_entry-IsGranted p r l e h = elim (Result-cases (effective_cap r.hard_limit)) [
  | inr (bad, x) ↦ ground (arith, x)
  | inl (limit, x) ↦ record {
    reserves = ground arith;
    names = ground arith;
    essential = ground arith;
    fresh = ground arith;
    cap = limit;
    limit = x;
    affordable =
        assert_affordable-IsAffordable l limit e.category e.estimated_cost e.essential
          (ground arith);
  }
]

-- A grant fits the hard cap, whatever limit the caller set.
pub IsGranted-fits :
    (l : Ledger) (r : ReserveInput) (e : Entry)
    → IsGranted l r e
    → committed_usd l.entries + reserved_usd l.entries + e.estimated_cost ≤ hard_cap
IsGranted-fits l r e g = omega (arith, effective_cap-le r.hard_limit g.cap g.limit)
