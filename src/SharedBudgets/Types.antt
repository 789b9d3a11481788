-- ===== src/SharedBudgets/Types.antt =====
-- contracts/shared-budgets/src/types.rs, and the errors of contracts/shared-budgets/src/lib.rs.
use stellarspend_contracts.Common.{ℕ, Bool, Option, List, Map, push_back, insert}
use stellarspend_contracts.Common.Int.{ℤ}
use stellarspend_contracts.Soroban.{Address, Symbol}

abbrev pub max_budget_members : ℕ
max_budget_members = 20

abbrev pub max_spending_rules : ℕ
max_spending_rules = 10

pub record BudgetSpendingRule : Type 0 where
  pub applicable_to : Address
  pub percentage_threshold : ℕ
  pub requires_approval : Bool
  pub description : Symbol

pub record Budget : Type 0 where
  pub id : ℕ
  pub name : Symbol
  pub creator : Address
  pub token : Address
  pub members : List Address
  pub balance : ℤ
  pub total_contributed : ℤ
  pub spending_rules : List BudgetSpendingRule
  pub is_active : Bool
  pub created_at : ℕ

pub data BudgetUtilizationBand : Type 0 where
  low moderate high critical : BudgetUtilizationBand

pub record BudgetUtilizationSummary : Type 0 where
  pub utilization_percent : ℕ
  pub total_spent : ℤ
  pub avg_spending_per_member : ℤ
  pub remaining_balance : ℤ
  pub utilization_band : BudgetUtilizationBand

pub record ArchivedBudget : Type 0 where
  pub budget : Budget
  pub deactivated_at : ℕ
  pub archived_at : ℕ
  pub contribution_ids : List ℕ

pub record BudgetContribution : Type 0 where
  pub budget_id : ℕ
  pub contributor : Address
  pub amount : ℤ
  pub memo : Option Symbol
  pub timestamp : ℕ

pub data SharedBudgetError : Type 0 where
  not_initialized unauthorized budget_not_found member_already_exists : SharedBudgetError
  member_not_found rule_not_found invalid_amount insufficient_balance : SharedBudgetError
  invalid_percentage budget_already_active budget_not_active too_many_members : SharedBudgetError
  too_many_rules invalid_archive_retention archived_budget_not_found : SharedBudgetError

-- What the emitters of `SharedBudgetEvents` that the contract calls publish.
pub data BudgetEvent : Type 0 where
  budget_created : ℕ → Address → List Address → Address → BudgetEvent
  contribution_added : ℕ → Address → ℤ → Option Symbol → BudgetEvent
  expense_incurred : ℕ → (spender recipient : Address) → ℤ → BudgetEvent
  spending_rule_added : ℕ → Address → ℕ → Bool → BudgetEvent
  ownership_transferred : ℕ → (previous_owner new_owner : Address) → BudgetEvent
  budget_deactivated : ℕ → Address → ℕ → BudgetEvent
  budget_archived : ℕ → ℕ → BudgetEvent

-- The storage, a field for each `DataKey`, with the ledger of the tokens.
pub record State (Ledger : Type 0) : Type 0 where
  pub admin : Option Address
  pub budgets : Map Budget
  pub budget_member : ℕ → Address → Option Bool
  pub contributions : Map BudgetContribution
  pub budget_contributions : Map (List ℕ)
  pub budget_deactivated_at : Map ℕ
  pub archived_budgets : Map ArchivedBudget
  pub archive_retention_period : Option ℕ
  pub total_budgets_created : Option ℕ
  pub total_contributions_processed : Option ℕ
  pub ledger : Ledger
  pub events : List BudgetEvent

-- `env.events().publish`
abbrev pub publish : {L : Type 0} → BudgetEvent → State L → State L
publish ev s = record s { events = push_back s.events ev }

-- The write of a budget.
abbrev pub set_budget : {L : Type 0} → ℕ → Budget → State L → State L
set_budget id budget s = record s { budgets = insert id budget s.budgets }
