-- ===== src/Budget/Storage.antt =====
-- The ledger file of packages/config/src/installation-budget.ts: what `#write` stores as JSON, and what
-- `#read` accepts. Every refusal of `#read` is the one error `unreadable`.
pub mod RoundTrip
pub mod Keeps
pub mod Methods
pub mod Import
pub mod Late
pub mod History
use infinite_context.Prelude.{
  ℕ, ◌+◌, ◌*◌, String, Option, none, some, Bool, true, false, not, List, [], ◌∷◌, ◌&&◌, ◌||◌,
  Result, ok, err, ◌>>=◌, ◌>>◌, reject_if, ltb, leb, ◌==◌, if◌then◌else◌, str_eq, any, is_blank,
  utf16_length,
}
use infinite_context.Json.{
  Number, millionths, Json, null, bool, num, str, arr, obj, Items, nil, cons, Fields, end, field,
  get,
}
use infinite_context.Budget.Entry.{
  Category, application, development, final_evaluation, contingency, Entry, Ledger, usd, hard_cap,
  AccountingBasis, reservation, usage_priced_locally, provider_reported,
  conservative_uncertain_failure, released_before_call, Status, reserved, committed, released,
}
use infinite_context.Budget.Guards.{
  Error, unreadable, Platform, parse_category, or_throw, is_pid, is_scope, finite_money,
}
use infinite_context.Budget.Import.{is_over}

abbrev category_text : Category → String
category_text application = "application"
category_text development = "development"
category_text final_evaluation = "final_evaluation"
category_text contingency = "contingency"

abbrev status_text : Status → String
status_text reserved = "reserved"
status_text committed = "committed"
status_text released = "released"

abbrev basis_text : AccountingBasis → String
basis_text reservation = "reservation"
basis_text usage_priced_locally = "usage-priced-locally"
basis_text provider_reported = "provider-reported"
basis_text conservative_uncertain_failure = "conservative-uncertain-failure"
basis_text released_before_call = "released-before-call"

abbrev amount : ℕ → Json
amount n = num (millionths n)

abbrev or_null : {A : Type 0} → (A → Json) → Option A → Json
or_null f none = null
or_null f (some a) = f a

unfoldable pub write_entry : Entry → Json
write_entry e = obj (
    field "callId" (str e.call_id) (
      field "category" (str (category_text e.category)) (
        field "estimatedCostUsd" (amount e.estimated_cost) (
          field "actualCostUsd" (or_null amount e.actual_cost) (
            field "essential" (bool e.essential) (
              field "status" (str (status_text e.status)) (
                field "createdAt" (str e.created_at) (
                  field "updatedAt" (str e.updated_at) (
                    field "overrun" (bool e.overrun) (
                      field "accountingBasis" (str (basis_text e.basis)) (
                        field "ownerPid" (or_null amount e.owner_pid) (
                          field "ownerScope" (or_null str e.owner_scope)
                            (field "expiresAt" (or_null str e.expires_at) end)))))))))))))

unfoldable pub write_entries : List Entry → Items
write_entries [] = nil
write_entries (e ∷ es) = cons (write_entry e) (write_entries es)

abbrev allocations : Json
allocations = obj (
    field "development" (amount (25 * usd))
      (field "final_evaluation" (amount (60 * usd)) (field "contingency" (amount (15 * usd)) end)))

unfoldable pub write_ledger : Ledger → Json
unfolding write_entries
write_ledger l = obj (
    field "schemaVersion" (amount usd) (
      field "hardCapUsd" (amount hard_cap) (
        field "allocationsUsd" allocations (
          field "createdAt" (str l.created_at) (
            field "updatedAt" (str l.updated_at) (
              field "breached" (bool l.breached)
                (field "entries" (arr (write_entries l.entries)) end)))))))

abbrev text : Option Json → Result Error String
text (some (str s)) = ok s
text _ = err unreadable

abbrev flag : Option Json → Result Error Bool
flag (some (bool b)) = ok b
flag _ = err unreadable

abbrev money : Option Json → Result Error ℕ
money (some (num (millionths n))) = ok n
money _ = err unreadable

-- A number or `null`; `undefined` is refused.
abbrev money_or_null : Option Json → Result Error (Option ℕ)
money_or_null (some null) = ok none
money_or_null (some (num (millionths n))) = ok (some n)
money_or_null _ = err unreadable

-- `undefined` and `null` stand for none.
abbrev pid_or_null : Option Json → Result Error (Option ℕ)
pid_or_null none = ok none
pid_or_null (some null) = ok none
pid_or_null (some (num (millionths n))) = if is_pid n then ok (some n) else err unreadable
pid_or_null _ = err unreadable

abbrev scope_or_null : Option Json → Result Error (Option String)
scope_or_null none = ok none
scope_or_null (some null) = ok none
scope_or_null (some (str s)) = if is_scope s then ok (some s) else err unreadable
scope_or_null _ = err unreadable

abbrev time : Platform → Option Json → Result Error String
time p (some (str s)) = if p.is_timestamp s then ok s else err unreadable
time p _ = err unreadable

abbrev time_or_null : Platform → Option Json → Result Error (Option String)
time_or_null p none = ok none
time_or_null p (some null) = ok none
time_or_null p (some (str s)) = if p.is_timestamp s then ok (some s) else err unreadable
time_or_null p _ = err unreadable

unfoldable pub parse_status : String → Option Status
parse_status s =
    if str_eq s "reserved"
    then some reserved
    else if str_eq s "committed"
    then some committed
    else if str_eq s "released"
    then some released
    else none

unfoldable pub parse_basis : String → Option AccountingBasis
parse_basis s =
    if str_eq s "reservation"
    then some reservation
    else if str_eq s "usage-priced-locally"
    then some usage_priced_locally
    else if str_eq s "provider-reported"
    then some provider_reported
    else if str_eq s "conservative-uncertain-failure"
    then some conservative_uncertain_failure
    else if str_eq s "released-before-call"
    then some released_before_call
    else none

abbrev pub is_some : {A : Type 0} → Option A → Bool
is_some none = false
is_some (some a) = true

abbrev pub same : Bool → Bool → Bool
same true b = b
same false b = not b

-- The three tests of a status against the charge and its basis.
abbrev pub is_consistent : Status → Option ℕ → AccountingBasis → Bool
is_consistent reserved none reservation = true
is_consistent released none released_before_call = true
is_consistent committed (some n) usage_priced_locally = true
is_consistent committed (some n) provider_reported = true
is_consistent committed (some n) conservative_uncertain_failure = true
is_consistent _ _ _ = false

abbrev pub is_call_id : String → Bool
is_call_id id = not (is_blank id) && leb (utf16_length id) 500

abbrev pub contains : String → List String → Bool
contains id = any (λ s. str_eq s id)

-- One entry, given the call identifiers that came before it.
unfoldable pub read_entry : Platform → List String → Json → Result Error Entry
unfolding get parse_category parse_status parse_basis
read_entry p seen (obj fs) = do
  id ← text (get "callId" fs)
  reject_if (not (is_call_id id)) unreadable
  reject_if (contains id seen) unreadable
  category_name ← text (get "category" fs)
  category ← or_throw (parse_category category_name) unreadable
  status_name ← text (get "status" fs)
  status ← or_throw (parse_status status_name) unreadable
  basis_name ← text (get "accountingBasis" fs)
  basis ← or_throw (parse_basis basis_name) unreadable
  essential ← flag (get "essential" fs)
  overrun ← flag (get "overrun" fs)
  estimated ← money (get "estimatedCostUsd" fs)
  actual ← money_or_null (get "actualCostUsd" fs)
  expires ← time_or_null p (get "expiresAt" fs)
  pid ← pid_or_null (get "ownerPid" fs)
  scope ← scope_or_null (get "ownerScope" fs)
  reject_if (not (same (is_some pid) (is_some scope))) unreadable
  reject_if (not (is_consistent status actual basis)) unreadable
  created ← time p (get "createdAt" fs)
  updated ← time p (get "updatedAt" fs)
  ok (record {
    call_id = id;
    category = category;
    estimated_cost = estimated;
    actual_cost = actual;
    essential = essential;
    status = status;
    created_at = created;
    updated_at = updated;
    overrun = overrun;
    basis = basis;
    owner_pid = pid;
    owner_scope = scope;
    expires_at = expires;
  })
read_entry p seen _ = err unreadable

unfoldable pub read_entries : Platform → List String → Items → Result Error (List Entry)
read_entries p seen nil = ok []
read_entries p seen (cons j js) = do
  e ← read_entry p seen j
  es ← read_entries p (e.call_id ∷ seen) js
  ok (e ∷ es)

abbrev pub is_amount : ℕ → Option Json → Bool
is_amount n (some (num (millionths m))) = m == n
is_amount n _ = false

abbrev is_zero_or_absent : Option Json → Bool
is_zero_or_absent none = true
is_zero_or_absent j = is_amount 0 j

abbrev pub has_allocations : Option Json → Bool
has_allocations (some (obj fs)) =
    is_amount (25 * usd) (get "development" fs)
    && is_amount (60 * usd) (get "final_evaluation" fs)
    && is_amount (15 * usd) (get "contingency" fs)
has_allocations _ = false

abbrev items : Option Json → Result Error Items
items (some (arr js)) = ok js
items _ = err unreadable

unfoldable pub read_ledger : Platform → Json → Result Error Ledger
unfolding get
read_ledger p (obj fs) = do
  reject_if (not (is_amount usd (get "schemaVersion" fs))) unreadable
  reject_if (not (is_amount hard_cap (get "hardCapUsd" fs))) unreadable
  js ← items (get "entries" fs)
  breached ← flag (get "breached" fs)
  reject_if (not (is_zero_or_absent (get "cycleNumber" fs))) unreadable
  reject_if (not (has_allocations (get "allocationsUsd" fs))) unreadable
  es ← read_entries p [] js
  created ← time p (get "createdAt" fs)
  updated ← time p (get "updatedAt" fs)
  reject_if (not breached && is_over es) unreadable
  ok (record { created_at = created; updated_at = updated; breached = breached; entries = es })
read_ledger p _ = err unreadable
