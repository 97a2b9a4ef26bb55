-- ===== src/Budget/Storage/RoundTrip.antt =====
-- The ledger file of packages/config/src/installation-budget.ts can be read back.
use infinite_context.Prelude.{
  ◌+◌, ◌*◌, ◌<◌, String, Option, none, some, Bool, true, false, not, List, [], ◌∷◌, ◌&&◌, ok, err,
  ◌≡◌, refl, arith, Bool-cases, inl, inr,
}
use infinite_context.Budget.Entry.{
  Entry, Ledger, application, development, final_evaluation, contingency, reserved, committed,
  released, reservation, usage_priced_locally, provider_reported, conservative_uncertain_failure,
  released_before_call, Status, AccountingBasis, Category, usd, hard_cap, committed_usd,
  reserved_usd,
}
use infinite_context.Budget.Guards.{Platform, unreadable, is_pid, is_scope, parse_category}
use infinite_context.Budget.Import.{is_over}
use infinite_context.Budget.Within.{IsWithin}
use infinite_context.Budget.Storage.{
  write_entry, write_entries, write_ledger, read_entry, read_entries, read_ledger, is_call_id,
  contains, is_consistent, is_some, same, parse_status, parse_basis, category_text, status_text,
  basis_text,
}

abbrev pub Optionally : {A : Type 0} → (A → Bool) → Option A → Type 0
Optionally p none = Unit
Optionally p (some a) = p a ≡ true

-- What `#read` wants of an entry.
pub record IsStorableEntry (p : Platform) (e : Entry) : Type 0 where
  pub named : is_call_id e.call_id ≡ true
  pub expiry : Optionally p.is_timestamp e.expires_at
  pub pid : Optionally is_pid e.owner_pid
  pub scope : Optionally is_scope e.owner_scope
  pub owner : same (is_some e.owner_pid) (is_some e.owner_scope) ≡ true
  pub accounting : is_consistent e.status e.actual_cost e.basis ≡ true
  pub created : p.is_timestamp e.created_at ≡ true
  pub updated : p.is_timestamp e.updated_at ≡ true

abbrev pub AreStorable : Platform → List String → List Entry → Type 0
AreStorable p seen [] = Unit
AreStorable p seen (e ∷ es) =
    (contains e.call_id seen ≡ false) × IsStorableEntry p e × AreStorable p (e.call_id ∷ seen) es

pub record IsStorable (p : Platform) (l : Ledger) : Type 0 where
  pub stores : AreStorable p [] l.entries
  pub created : p.is_timestamp l.created_at ≡ true
  pub updated : p.is_timestamp l.updated_at ≡ true
  pub budget : IsWithin l

pub IsWithin-is_over : (l : Ledger) → IsWithin l → not l.breached && is_over l.entries ≡ false
IsWithin-is_over l w = elim (Bool-cases l.breached) [
  | inl b ↦ ground arith
  | inr b ↦ ground (
    arith,
    w.total b,
    w.allocated b development (25 * usd) refl,
    w.allocated b final_evaluation (60 * usd) refl,
    w.allocated b contingency (15 * usd) refl,
  )
]

parse-category_text : (c : Category) → parse_category (category_text c) ≡ some c
unfolding parse_category
parse-category_text application = refl
parse-category_text development = refl
parse-category_text final_evaluation = refl
parse-category_text contingency = refl

parse-status_text : (s : Status) → parse_status (status_text s) ≡ some s
unfolding parse_status
parse-status_text reserved = refl
parse-status_text committed = refl
parse-status_text released = refl

parse-basis_text : (b : AccountingBasis) → parse_basis (basis_text b) ≡ some b
unfolding parse_basis
parse-basis_text reservation = refl
parse-basis_text usage_priced_locally = refl
parse-basis_text provider_reported = refl
parse-basis_text conservative_uncertain_failure = refl
parse-basis_text released_before_call = refl

read-write_entry :
    (p : Platform) (seen : List String) (e : Entry)
    → contains e.call_id seen ≡ false
    → IsStorableEntry p e
    → read_entry p seen (write_entry e) ≡ ok e
unfolding read_entry write_entry
read-write_entry p seen e f s =
    ground
      (arith, parse-category_text e.category, parse-status_text e.status, parse-basis_text e.basis)

read-write_entries :
    (p : Platform) (seen : List String) (es : List Entry)
    → AreStorable p seen es
    → read_entries p seen (write_entries es) ≡ ok es
unfolding read_entries write_entries
read-write_entries p seen [] s = refl
read-write_entries p seen (e ∷ es) s =
    ground
      (arith, read-write_entry p seen e s.0 s.1, read-write_entries p (e.call_id ∷ seen) es s.2)

-- A storable ledger is read back as it was written.
pub read-write_ledger :
    (p : Platform) (l : Ledger) → IsStorable p l → read_ledger p (write_ledger l) ≡ ok l
unfolding read_ledger write_ledger
read-write_ledger p l s =
    ground (arith, read-write_entries p [] l.entries s.stores, IsWithin-is_over l s.budget)

-- A ledger over the cap with no recorded breach is not read back.
pub read-write_unrecorded :
    (p : Platform) (l : Ledger)
    → AreStorable p [] l.entries
    → l.breached ≡ false
    → hard_cap < committed_usd l.entries + reserved_usd l.entries
    → read_ledger p (write_ledger l) ≡ err unreadable
unfolding read_ledger write_ledger
read-write_unrecorded p l s b over = ground (arith, read-write_entries p [] l.entries s)
