-- ===== src/SharedBudgets/Spends.antt =====
-- Successful contributions and spends of contracts/shared-budgets/src/lib.rs.
use stellarspend_contracts.Common.{
  ℕ, ◌≡◌, inl, inr, true, false, Option, some, List, [], ◌∷◌, All, arith, Option-cases, insert,
}
use stellarspend_contracts.Common.Int.{
  ℤ, pos, ◌<ℤ◌, ◌≤ℤ◌, ◌+ℤ◌, ◌-ℤ◌, checked_add, checked_sub, checked_add_u64,
}
use stellarspend_contracts.Soroban.{Address, Symbol, Env, Token, ok, Result-cases}
use stellarspend_contracts.SharedBudgets.Types.{
  Budget, BudgetSpendingRule, BudgetEvent, State, publish, set_budget,
}
use stellarspend_contracts.SharedBudgets.Budgets.{is_budget_member}
use stellarspend_contracts.SharedBudgets.Spending.{
  refuses, enforce_rules, enforce_spending_rules, contribute_to_budget, spend_from_budget,
}

enforce_rules_ok :
    (budget : Budget) (spender : Address) (amount : ℤ) (rules : List BudgetSpendingRule)
    → enforce_rules budget spender amount rules ≡ ok tt
    → All (λ rule. refuses budget spender amount rule ≡ false) rules
unfolding enforce_rules
enforce_rules_ok budget spender amount [] h = tt
enforce_rules_ok budget spender amount (rule ∷ rules) h =
    (ground arith, enforce_rules_ok budget spender amount rules (ground arith))

-- A spend that succeeds.
pub record IsSpent (tok : Token) (env : Env) (spender : Address) (budget_id : ℕ)
    (recipient : Address) (amount : ℤ) (s s' : State tok.Ledger) : Type 0 where
  pub budget : Budget
  pub ledger : tok.Ledger
  pub stored : s.budgets budget_id ≡ some budget
  pub auth : env.authorized spender ≡ true
  pub positive : pos 0 <ℤ amount
  pub active : budget.is_active ≡ true
  pub member : is_budget_member s budget_id spender ≡ true
  pub covered : amount ≤ℤ budget.balance
  pub allowed : All (λ rule. refuses budget spender amount rule ≡ false) budget.spending_rules
  pub paid : tok.transfer budget.token env.contract recipient amount s.ledger ≡ some ledger
  pub after :
      s'
      ≡ publish
          (BudgetEvent.expense_incurred budget_id spender recipient amount)
          (record (set_budget budget_id (record budget { balance = budget.balance -ℤ amount }) s) {
            ledger = ledger;
          })

module _ (tok : Token) (env : Env) where
  -- A spend that succeeds is authorized by a member of a stored and active budget whose balance
  -- covers the positive amount, and no rule refuses it; the amount goes to the recipient in one
  -- transfer, the balance falls by it, and nothing else changes but the events.
  pub spend_ok :
      (spender : Address) (budget_id : ℕ) (recipient : Address) (amount : ℤ)
      (s s' : State tok.Ledger)
      → spend_from_budget tok env spender budget_id recipient amount s ≡ ok s'
      → IsSpent tok env spender budget_id recipient amount s s'
  unfolding spend_from_budget checked_sub
  spend_ok spender budget_id recipient amount s s' h = elim (Option-cases (s.budgets budget_id)) [
    | inl missing ↦ absurd (ground arith)
    | inr (budget, stored) ↦ elim (Result-cases (enforce_spending_rules budget spender amount)) [
      | inl (_, refused) ↦ absurd (ground arith)
      | inr (tt, allowed) ↦
          elim (Option-cases (tok.transfer budget.token env.contract recipient amount s.ledger)) [
            | inl failed ↦ absurd (ground arith)
            | inr (ledger, paid) ↦ record {
              budget = budget;
              ledger = ledger;
              stored = stored;
              auth = ground arith;
              positive = ground arith;
              active = ground arith;
              member = ground arith;
              covered = ground arith;
              allowed = enforce_rules_ok budget spender amount budget.spending_rules allowed;
              paid = paid;
              after = ground arith;
            }
          ]
    ]
  ]

  -- The budget that a contribution that succeeds finds and leaves.
  pub contribute_ok :
      (contributor : Address) (budget_id : ℕ) (amount : ℤ) (memo : Option Symbol)
      (s s' : State tok.Ledger)
      → contribute_to_budget tok env contributor budget_id amount memo s ≡ ok s'
      → (budget : Budget) × (s.budgets budget_id ≡ some budget)
        × (budget.is_active ≡ true)
        × (pos 0 <ℤ amount)
        × (s'.budgets
            ≡ insert budget_id
                (record budget {
                  balance = budget.balance +ℤ amount;
                  total_contributed = budget.total_contributed +ℤ amount;
                })
                s.budgets)
        × (s'.admin ≡ s.admin)
        × (s'.total_budgets_created ≡ s.total_budgets_created)
        × (s'.archived_budgets ≡ s.archived_budgets)
  unfolding contribute_to_budget checked_add checked_add_u64
  contribute_ok contributor budget_id amount memo s s' h =
      elim (Option-cases (s.budgets budget_id)) [
        | inl missing ↦ absurd (ground arith)
        | inr (budget, stored) ↦
            elim (Option-cases
              (tok.transfer budget.token contributor env.contract amount s.ledger)) [
                | inl failed ↦ absurd (ground arith)
                | inr (ledger, paid) ↦ (
                  budget,
                  stored,
                  ground arith,
                  ground arith,
                  ground arith,
                  ground arith,
                  ground arith,
                  ground arith,
                )
              ]
      ]
