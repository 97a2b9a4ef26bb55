-- ===== src/Budget/Guards.antt =====
-- The guards of packages/config/src/installation-budget.ts: what a call is refused for, in the order in
-- which the source looks.
use infinite_context.Prelude.{
  ℕ, ◌+◌, ◌-◌, ◌*◌, ◌^◌, ◌%◌, String, Option, none, some, Bool, false, not, List, ◌&&◌, ◌||◌,
  Result, ok, err, ◌>>=◌, ◌>>◌, reject_if, ltb, leb, ◌==◌, if◌then◌else◌, str_eq, is_blank,
  utf16_length,
}
use infinite_context.Json.{Number, millionths, negative, non_finite}
use infinite_context.Budget.Entry.{
  Category, application, development, final_evaluation, contingency, Entry, Ledger, usd, hard_cap,
  nonessential_stop, allocation, category_used, committed_usd, reserved_usd,
}

pub data Error : Type 0 where
  not_money unknown_category hard_limit_out_of_range duplicate_call_id cap_exceeded : Error
  nonessential_stopped allocation_exceeded owner_incomplete invalid_owner_pid : Error
  invalid_owner_scope invalid_timestamp scope_required no_reservation : Error
  released_reservation overrun_recorded unreadable : Error

-- What the guard takes from the platform: `is_timestamp text` is
-- `Number.isFinite(new Date(text).valueOf())`, `process_alive` asks the system for a process, and
-- `now k` is the k-th reading of the clock within a call.
pub record Platform : Type 0 where
  pub is_timestamp : String → Bool
  pub process_alive : ℕ → Bool
  pub now : ℕ → String

unfoldable pub finite_money : Number → Result Error ℕ
finite_money (millionths n) = ok n
finite_money negative = err not_money
finite_money non_finite = err not_money

unfoldable pub parse_category : String → Option Category
parse_category text =
    if str_eq text "application"
    then some application
    else if str_eq text "development"
    then some development
    else if str_eq text "final_evaluation"
    then some final_evaluation
    else if str_eq text "contingency"
    then some contingency
    else none

abbrev pub or_throw : {E A : Type 0} → Option A → E → Result E A
or_throw none e = err e
or_throw (some a) e = ok a

unfoldable pub effective_cap : Option Number → Result Error ℕ
effective_cap none = ok hard_cap
effective_cap (some (millionths n)) =
    if n == 0 || ltb hard_cap n then err hard_limit_out_of_range else ok n
effective_cap (some _) = err hard_limit_out_of_range

-- `Number.isSafeInteger(pid) && pid > 0`, with a number of millionths.
abbrev pub is_pid : ℕ → Bool
is_pid n = n % usd == 0 && leb n ((2 ^ 53 - 1) * usd) && ltb 0 n

abbrev pub is_scope : String → Bool
is_scope s = not (is_blank s) && leb (utf16_length s) 500

abbrev pub parse_pid : Number → Result Error ℕ
parse_pid (millionths n) = if is_pid n then ok n else err invalid_owner_pid
parse_pid _ = err invalid_owner_pid

unfoldable pub parse_owner : Option Number → Option String → Result Error (Option ℕ × Option String)
parse_owner none none = ok (none, none)
parse_owner (some pid) (some scope) = do
  n ← parse_pid pid
  reject_if (not (is_scope scope)) invalid_owner_scope
  ok (some n, some scope)
parse_owner _ _ = err owner_incomplete

abbrev pub timestamp : Platform → String → Result Error String
timestamp p text = if p.is_timestamp text then ok text else err invalid_timestamp

unfoldable pub optional_timestamp : Platform → Option String → Result Error (Option String)
optional_timestamp p none = ok none
optional_timestamp p (some text) = do t ← timestamp p text; ok (some t)

unfoldable pub assert_allocation_available : List Entry → Category → ℕ → Result Error (Unit {0})
assert_allocation_available es c extra = elim (allocation c) [
  | none ↦ ok tt
  | some a ↦ reject_if (ltb a (category_used c es + extra)) allocation_exceeded
]

-- Does the category pass its allocation once `minus` is taken from what it uses, and `plus` added?
abbrev pub allocation_would_overrun : List Entry → Category → ℕ → ℕ → Bool
allocation_would_overrun es c plus minus = elim (allocation c) [
  | none ↦ false
  | some a ↦ ltb (a + minus) (category_used c es + plus)
]

unfoldable pub assert_affordable : Ledger → ℕ → Category → ℕ → Bool → Result Error (Unit {0})
unfolding assert_allocation_available
assert_affordable l cap c cost essential = do
  let projected = committed_usd l.entries + reserved_usd l.entries + cost
  reject_if (l.breached || ltb cap projected) cap_exceeded
  reject_if (not essential && leb nonessential_stop projected) nonessential_stopped
  assert_allocation_available l.entries c cost

pub record ReserveInput : Type 0 where
  pub call_id : String
  pub category : String
  pub estimated_cost : Number
  pub essential : Bool
  pub created_at : Option String
  pub hard_limit : Option Number
  pub owner_pid : Option Number
  pub owner_scope : Option String
  pub expires_at : Option String
