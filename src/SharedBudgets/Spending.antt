-- ===== src/SharedBudgets/Spending.antt =====
-- contracts/shared-budgets/src/lib.rs: contributions to a budget, and what its members spend.
use stellarspend_contracts.Common.{
  ℕ, Bool, not, ◌&&◌, Option, some, List, [], ◌∷◌, ◌==◌, push_back, insert, unwrap_or,
  if◌then◌else◌,
}
use stellarspend_contracts.Common.Int.{ℤ, pos, ltb_ℤ, checked_add, checked_sub}
use stellarspend_contracts.Soroban.{
  Address, Symbol, Env, Token, contract_error, overflowed, token_failed, Result, ok, ◌>>=◌, ◌>>◌,
  throw_if, or_throw, require_auth, add_u64,
}
use stellarspend_contracts.SharedBudgets.Types.{
  Budget, BudgetContribution, BudgetSpendingRule, BudgetEvent, SharedBudgetError, State, publish,
  set_budget, unauthorized, budget_not_found, member_not_found, invalid_amount,
  insufficient_balance, budget_not_active,
}
use stellarspend_contracts.SharedBudgets.Floats.{share}
use stellarspend_contracts.SharedBudgets.Budgets.{validate_amount, is_budget_member}

-- Whether a rule refuses a spend.
unfoldable pub refuses : Budget → Address → ℤ → BudgetSpendingRule → Bool
refuses budget spender amount rule =
    let threshold_amount =
      if ltb_ℤ (pos 0) budget.total_contributed
      then share budget.total_contributed rule.percentage_threshold
      else pos 0 in
    (rule.applicable_to == spender) && (ltb_ℤ threshold_amount amount && not rule.requires_approval)

-- The loop over the rules of a budget.
unfoldable pub enforce_rules :
    Budget → Address → ℤ → List BudgetSpendingRule → Result SharedBudgetError (Unit {0})
enforce_rules budget spender amount [] = ok tt
enforce_rules budget spender amount (rule ∷ rules) = do
  throw_if (refuses budget spender amount rule) (contract_error unauthorized)
  enforce_rules budget spender amount rules

abbrev pub enforce_spending_rules : Budget → Address → ℤ → Result SharedBudgetError (Unit {0})
enforce_spending_rules budget spender amount =
    enforce_rules budget spender amount budget.spending_rules

module _ (tok : Token) (env : Env) where
  unfoldable pub contribute_to_budget :
      Address
      → ℕ
      → ℤ
      → Option Symbol
      → State tok.Ledger
      → Result SharedBudgetError (State tok.Ledger)
  contribute_to_budget contributor budget_id amount memo s = do
    require_auth env contributor
    throw_if (not (validate_amount amount)) (contract_error invalid_amount)
    budget ← or_throw (s.budgets budget_id) (contract_error budget_not_found)
    throw_if (not budget.is_active) (contract_error budget_not_active)
    ledger ←
        or_throw (tok.transfer budget.token contributor env.contract amount s.ledger) token_failed
    balance ← or_throw (checked_add budget.balance amount) overflowed
    total_contributed ← or_throw (checked_add budget.total_contributed amount) overflowed
    contribution_id ← add_u64 (unwrap_or s.total_contributions_processed 0) 1
    let contribution : BudgetContribution = record {
      budget_id = budget_id;
      contributor = contributor;
      amount = amount;
      memo = memo;
      timestamp = env.timestamp;
    }
    let budget' = record budget { balance = balance; total_contributed = total_contributed }
    let contribution_ids =
        push_back (unwrap_or (s.budget_contributions budget_id) []) contribution_id
    ok (
        publish (BudgetEvent.contribution_added budget_id contributor amount memo) (record s {
          budgets = insert budget_id budget' s.budgets;
          contributions = insert contribution_id contribution s.contributions;
          budget_contributions = insert budget_id contribution_ids s.budget_contributions;
          total_contributions_processed = some contribution_id;
          ledger = ledger;
        }))

  unfoldable pub spend_from_budget :
      Address → ℕ → Address → ℤ → State tok.Ledger → Result SharedBudgetError (State tok.Ledger)
  spend_from_budget spender budget_id recipient amount s = do
    require_auth env spender
    throw_if (not (validate_amount amount)) (contract_error invalid_amount)
    budget ← or_throw (s.budgets budget_id) (contract_error budget_not_found)
    throw_if (not budget.is_active) (contract_error budget_not_active)
    throw_if (not (is_budget_member s budget_id spender)) (contract_error member_not_found)
    throw_if (ltb_ℤ budget.balance amount) (contract_error insufficient_balance)
    enforce_spending_rules budget spender amount
    ledger ←
        or_throw (tok.transfer budget.token env.contract recipient amount s.ledger) token_failed
    balance ← or_throw (checked_sub budget.balance amount) overflowed
    ok (
        publish (BudgetEvent.expense_incurred budget_id spender recipient amount)
          (record (set_budget budget_id (record budget { balance = balance }) s) {
            ledger = ledger;
          }))
