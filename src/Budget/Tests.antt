-- ===== src/Budget/Tests.antt =====
-- The guard of packages/config/src/installation-budget.ts on concrete ledgers.
use infinite_context.Prelude.{
  ◌*◌, ◌≤◌, ◌≢◌, String, none, some, Bool, true, false, List, [], ◌∷◌, ok, err, ◌≡◌, refl, arith,
  str_eq, is_blank, utf16_length,
}
use infinite_context.Json.{Number, millionths}
use infinite_context.Budget.Entry.{
  Entry, Ledger, application, development, reserved, committed, reservation, usage_priced_locally,
  committed_usd, usd,
}
use infinite_context.Budget.Guards.{
  Platform, ReserveInput, unreadable, finite_money, parse_category, effective_cap, parse_owner,
  optional_timestamp, assert_affordable, assert_allocation_available,
}
use infinite_context.Budget.Operations.{
  commit_with, commit_found, commit_entry, committed_entry, reserve, reserve_entry,
  assert_can_reserve_total,
}
use infinite_context.Budget.Within.{IsWithin}
use infinite_context.Budget.Reserve.{IsGranted, reserve_entry-IsGranted}
use infinite_context.Budget.History.{
  Call, reserves, commits, reconciles, releases, step, run, run-IsWithin,
}
use infinite_context.Budget.Charges.{run-charges}
use infinite_context.Budget.Settlement.{breach_blocks}
use infinite_context.Budget.Storage.{read_ledger, write_ledger}
use infinite_context.Budget.Storage.RoundTrip.{IsStorable, IsStorableEntry, read-write_ledger}
use infinite_context.Budget.Storage.History.{IsClear, read-write_step, late_charge_unreadable}

abbrev platform : Platform
platform = record {
  is_timestamp = λ text. str_eq text "2026-01-01T00:00:00.000Z";
  process_alive = λ pid. true;
  now = λ k. "2026-01-01T00:00:00.000Z";
}

abbrev held : Entry
held = record {
  call_id = "held";
  category = application;
  estimated_cost = 90 * usd;
  actual_cost = none;
  essential = true;
  status = reserved;
  created_at = "2026-01-01T00:00:00.000Z";
  updated_at = "2026-01-01T00:00:00.000Z";
  overrun = false;
  basis = reservation;
  owner_pid = none;
  owner_scope = none;
  expires_at = none;
}

abbrev paid : Entry
paid = record held {
  call_id = "paid";
  estimated_cost = 5 * usd;
  actual_cost = some (5 * usd);
  status = committed;
  basis = usage_priced_locally;
}

abbrev ledger : Ledger
ledger = record {
  created_at = "2026-01-01T00:00:00.000Z";
  updated_at = "2026-01-01T00:00:00.000Z";
  breached = false;
  entries = held ∷ (paid ∷ []);
}

abbrev request : ReserveInput
request = record {
  call_id = "next";
  category = "development";
  estimated_cost = millionths (2 * usd);
  essential = true;
  created_at = none;
  hard_limit = none;
  owner_pid = none;
  owner_scope = none;
  expires_at = none;
}

abbrev granted : Entry
granted = record held { call_id = "next"; category = development; estimated_cost = 2 * usd }

abbrev calls : List (Platform × Call)
calls =
    (platform, reserves request)
    ∷ ((platform, commits usage_priced_locally "held" (millionths (80 * usd)))
        ∷ ((platform, releases false "next") ∷ []))

ledger-IsWithin : IsWithin ledger
ledger-IsWithin = record { total = λ b. ground arith; allocated = λ b c a h. ground arith }

held-IsStorableEntry : IsStorableEntry platform held
unfolding is_blank utf16_length
held-IsStorableEntry = record {
  named = refl;
  expiry = tt;
  pid = tt;
  scope = tt;
  owner = refl;
  accounting = refl;
  created = refl;
  updated = refl;
}

paid-IsStorableEntry : IsStorableEntry platform paid
unfolding is_blank utf16_length
paid-IsStorableEntry = record {
  named = refl;
  expiry = tt;
  pid = tt;
  scope = tt;
  owner = refl;
  accounting = refl;
  created = refl;
  updated = refl;
}

ledger-IsStorable : IsStorable platform ledger
ledger-IsStorable = record {
  stores = (refl, held-IsStorableEntry, (refl, paid-IsStorableEntry, tt));
  created = refl;
  updated = refl;
  budget = ledger-IsWithin;
}

run-IsWithin_example : IsWithin (run calls ledger)
run-IsWithin_example = run-IsWithin calls ledger tt ledger-IsWithin

reserve_entry-IsGranted_example : IsGranted ledger request granted
unfolding reserve_entry assert_affordable assert_allocation_available finite_money parse_category
    effective_cap parse_owner optional_timestamp
reserve_entry-IsGranted_example = reserve_entry-IsGranted platform request ledger granted refl

run-charges_example : committed_usd ledger.entries ≤ committed_usd (run calls ledger).entries
run-charges_example = run-charges calls ledger

breach_blocks_example :
    ((reserve platform request (run calls (record ledger { breached = true }))).1 ≡ none)
    × ((category : String) (cost : Number) (essential : Bool)
        → (assert_can_reserve_total category cost essential
            (run calls (record ledger { breached = true }))).0
          ≢ ok tt)
breach_blocks_example =
    breach_blocks (record ledger { breached = true }) calls platform request refl

read-write_ledger_example : read_ledger platform (write_ledger ledger) ≡ ok ledger
read-write_ledger_example = read-write_ledger platform ledger ledger-IsStorable

ledger-IsClear : IsClear ledger
ledger-IsClear = record { total = λ e. ground arith; allocated = λ c a h e. ground arith }

charged-IsClear :
    IsClear (step platform (commits usage_priced_locally "held" (millionths (99 * usd))) ledger)
unfolding step commit_with commit_found commit_entry committed_entry finite_money
charged-IsClear = record { total = λ e. ground arith; allocated = λ c a h e. ground arith }

read-write_step_example :
    read_ledger platform (
      write_ledger
        (step platform (commits usage_priced_locally "held" (millionths (99 * usd))) ledger))
    ≡ ok (step platform (commits usage_priced_locally "held" (millionths (99 * usd))) ledger)
read-write_step_example =
    read-write_step platform (commits usage_priced_locally "held" (millionths (99 * usd))) ledger
      (λ k. refl) refl ledger-IsStorable ledger-IsClear charged-IsClear

late_charge_unreadable_example :
    read_ledger platform
      (write_ledger (step platform (reconciles "paid" (millionths (20 * usd))) ledger))
    ≡ err unreadable
late_charge_unreadable_example =
    late_charge_unreadable platform ledger "paid" paid (5 * usd) (20 * usd) (λ k. refl)
      ledger-IsStorable refl refl refl refl refl (omega arith) (omega arith) (omega arith)
