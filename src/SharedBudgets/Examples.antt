-- ===== src/SharedBudgets/Examples.antt =====
-- The theorems on contracts/shared-budgets/src at a small contract: the admin 9, and a budget of the
-- owner 1 with the member 2, which holds 150 of the token 50.
use stellarspend_contracts.Common.{
  ℕ, ◌≡◌, ◌≢◌, refl, none, some, List, [], ◌∷◌, true, false, arith, insert, insert_pair, ◌==◌, ◌&&◌,
  if◌then◌else◌,
}
use stellarspend_contracts.Common.Int.{
  ℤ, pos, checked_sub, fits_i128, ◌-ℤ◌, saturate, saturating_add_u64,
}
use stellarspend_contracts.Soroban.{Address, Env, ok, ok_or}
use stellarspend_contracts.Soroban.SimpleToken.{Table, simple_token, transfer}
use stellarspend_contracts.SharedBudgets.Types.{Budget, BudgetSpendingRule, State}
use stellarspend_contracts.SharedBudgets.Floats.{bits, round_53, share}
use stellarspend_contracts.SharedBudgets.Spending.{refuses, enforce_rules, spend_from_budget}
use stellarspend_contracts.SharedBudgets.Spends.{IsSpent, spend_ok}
use stellarspend_contracts.SharedBudgets.Calls.{BudgetCall, make_call, try_calls}
use stellarspend_contracts.SharedBudgets.Lifecycle.{Leads, filed, phase_of, try_calls-Leads}
use stellarspend_contracts.SharedBudgets.Budgets.{
  require_admin, require_owner, set_archive_retention_period, deactivate_budget,
}
use stellarspend_contracts.SharedBudgets.Archive.{
  archive_inactive_budgets, archive_loop, archive_one, archive_budget,
}
use stellarspend_contracts.SharedBudgets.Locked.{
  AllFunded, IsShut, try_calls-AllFunded, try_calls-never_spends,
}

-- The share of an amount is exact while `f64` is, and not beyond 2 ^ 53.
share_of_150 : share (pos 150) 50 ≡ pos 75
unfolding share round_53 bits saturate
share_of_150 = refl

share_of_large : share (pos 9_007_199_254_740_993) 100 ≡ pos 9_007_199_254_740_992
unfolding share round_53 bits saturate
share_of_large = refl

abbrev at_time : ℕ → Env
at_time t = record { timestamp = t; sequence = 7; contract = 100; authorized = λ a. true }

abbrev rule : BudgetSpendingRule
rule = record {
  applicable_to = 2;
  percentage_threshold = 50;
  requires_approval = false;
  description = 3;
}

abbrev budget : Budget
budget = record {
  id = 1;
  name = 5;
  creator = 1;
  token = 50;
  members = 2 ∷ [];
  balance = pos 150;
  total_contributed = pos 150;
  spending_rules = rule ∷ [];
  is_active = true;
  created_at = 0;
}

abbrev holding : Budget → State Table
holding b = record {
  admin = some 9;
  budgets = insert 1 b (λ k. none);
  budget_member = insert_pair 1 2 true (λ k a. none);
  contributions = λ k. none;
  budget_contributions = λ k. none;
  budget_deactivated_at = λ k. none;
  archived_budgets = λ k. none;
  archive_retention_period = some 0;
  total_budgets_created = some 1;
  total_contributions_processed = some 0;
  ledger = λ k a. if (k == 50) && (a == 100) then pos 150 else pos 0;
  events = [];
}

abbrev spent_state : State Table
spent_state =
    ok_or (spend_from_budget simple_token (at_time 5) 2 1 3 (pos 70) (holding budget))
      (holding budget)

spend_ok_example : IsSpent simple_token (at_time 5) 2 1 3 (pos 70) (holding budget) spent_state
unfolding spend_from_budget enforce_rules refuses share round_53 bits saturate transfer checked_sub
    fits_i128 ◌-ℤ◌
spend_ok_example =
    spend_ok simple_token (at_time 5) 2 1 3 (pos 70) (holding budget) spent_state refl

abbrev calls : List (Env × BudgetCall)
calls =
    (at_time 10, BudgetCall.spend 2 1 3 (pos 70))
    ∷ (at_time 20, BudgetCall.deactivate 1 1)
    ∷ (at_time 30, BudgetCall.spend 2 1 3 (pos 10))
    ∷ []

holding-AllFunded : AllFunded (holding budget)
holding-AllFunded = record {
  funded =
      λ k x stored. let same : budget ≡ x = ground arith in rw (← same) (omega arith, omega arith);
  started = λ gone. ground arith;
}

try_calls-AllFunded_example : AllFunded (try_calls simple_token calls (holding budget))
try_calls-AllFunded_example =
    try_calls-AllFunded simple_token calls (holding budget) holding-AllFunded

abbrev shut : State Table
shut = holding (record budget { is_active = false })

-- The budget is spent from, shut and filed.
abbrev life : List (Env × BudgetCall)
life =
    (at_time 10, BudgetCall.spend 2 1 3 (pos 70))
    ∷ (at_time 15, BudgetCall.set_retention 9 10)
    ∷ (at_time 20, BudgetCall.deactivate 1 1)
    ∷ (at_time 40, BudgetCall.archive 9 5)
    ∷ []

try_calls-never_spends_example :
    IsShut 1 (pos 150) (try_calls simple_token life shut)
    × ((env : Env) (spender recipient : Address) (amount : ℤ) (s' : State Table)
        → spend_from_budget simple_token env spender 1 recipient amount
            (try_calls simple_token life shut)
          ≢ ok s')
try_calls-never_spends_example =
    try_calls-never_spends simple_token life 1 shut (record budget { is_active = false })
      (λ gone. ground arith) refl refl (omega arith)

try_calls-Leads_example :
    Leads (phase_of 1 (holding budget)) (phase_of 1 (try_calls simple_token life (holding budget)))
try_calls-Leads_example = try_calls-Leads simple_token life 1 (holding budget) (record {
  given_out = λ x stored. omega arith;
  filed_before = λ z found. absurd (ground arith);
  started = λ gone. ground arith;
})

life_files : phase_of 1 (try_calls simple_token life (holding budget)) ≡ filed (pos 80)
unfolding try_calls make_call spend_from_budget enforce_rules refuses share round_53 bits saturate
    transfer checked_sub fits_i128 ◌-ℤ◌ set_archive_retention_period require_admin deactivate_budget
    require_owner archive_inactive_budgets archive_loop archive_one archive_budget
    saturating_add_u64
life_files = refl
