-- ===== src/SharedBudgets/Budgets.antt =====
-- contracts/shared-budgets/src/lib.rs: budgets, their members, rules and owners, and the admin.
use stellarspend_contracts.Common.{
  ℕ, Bool, true, false, not, Option, none, some, List, [], ◌∷◌, ◌==◌, ltb, leb, length, push_back,
  insert, insert_pair, unwrap_or, if◌then◌else◌,
}
use stellarspend_contracts.Common.Int.{ℤ, pos, leb_ℤ}
use stellarspend_contracts.Soroban.{
  Address, Symbol, Env, contract_error, panicked, Result, ok, ◌>>=◌, ◌>>◌, throw_if, or_throw,
  require_auth, add_u64,
}
use stellarspend_contracts.SharedBudgets.Types.{
  Budget, BudgetSpendingRule, BudgetEvent, SharedBudgetError, State, publish, set_budget,
  max_budget_members, max_spending_rules, unauthorized, budget_not_found, member_already_exists,
  invalid_percentage, too_many_members, too_many_rules, invalid_archive_retention,
}

abbrev pub is_set {ℓ} : {A : Type ℓ} → Option A → Bool
is_set none = false
is_set (some a) = true

abbrev pub validate_amount : ℤ → Bool
validate_amount amount = not (leb_ℤ amount (pos 0))

abbrev pub validate_percentage : ℕ → Bool
validate_percentage percentage = not (ltb 100 percentage)

-- The loop over the spending rules of a new budget.
unfoldable pub validate_rules : List BudgetSpendingRule → Bool
validate_rules [] = true
validate_rules (rule ∷ rules) =
    let rest = validate_rules rules in
    if validate_percentage rule.percentage_threshold then rest else false

-- The loop over the members of a new budget.
unfoldable pub add_members :
    ℕ → List Address → (ℕ → Address → Option Bool) → ℕ → Address → Option Bool
add_members budget_id [] members = members
add_members budget_id (member ∷ rest) members =
    add_members budget_id rest (insert_pair budget_id member true members)

-- The budget that a call creates.
abbrev pub new_budget :
    Env → ℕ → Address → Symbol → List Address → Address → List BudgetSpendingRule → Budget
new_budget env id creator name members token rules = record {
  id = id;
  name = name;
  creator = creator;
  token = token;
  members = members;
  balance = pos 0;
  total_contributed = pos 0;
  spending_rules = rules;
  is_active = true;
  created_at = env.timestamp;
}

module _ {L : Type 0} where
  unfoldable pub initialize : Address → State L → Result SharedBudgetError (State L)
  initialize admin s = do
    throw_if (is_set s.admin) panicked
    ok (record s {
      admin = some admin;
      total_budgets_created = some 0;
      total_contributions_processed = some 0;
      archive_retention_period = some 0;
    })

  unfoldable pub require_admin : State L → Address → Result SharedBudgetError (Unit {0})
  require_admin s caller = do
    admin ← or_throw s.admin panicked
    throw_if (not (caller == admin)) (contract_error unauthorized)

  -- `if caller != budget.creator { Self::require_admin(&env, &caller); }`
  unfoldable pub require_owner : State L → Address → Budget → Result SharedBudgetError (Unit {0})
  require_owner s caller budget =
      if not (caller == budget.creator) then require_admin s caller else ok tt

  -- `get(&DataKey::BudgetMember(..)).unwrap_or(false)`
  abbrev pub is_budget_member : State L → ℕ → Address → Bool
  is_budget_member s budget_id member = unwrap_or (s.budget_member budget_id member) false

  module _ (env : Env) where
    unfoldable pub create_budget :
        Address
        → Symbol
        → List Address
        → Address
        → List BudgetSpendingRule
        → State L
        → Result SharedBudgetError (ℕ × State L)
    create_budget creator budget_name members token spending_rules s = do
      require_auth env creator
      throw_if (ltb max_budget_members (length members)) (contract_error too_many_members)
      throw_if (ltb max_spending_rules (length spending_rules)) (contract_error too_many_rules)
      throw_if (not (validate_rules spending_rules)) (contract_error invalid_percentage)
      budget_id ← add_u64 (unwrap_or s.total_budgets_created 0) 1
      let budget = new_budget env budget_id creator budget_name members token spending_rules
      ok (
        budget_id,
        publish (BudgetEvent.budget_created budget_id creator members token) (record s {
          budgets = insert budget_id budget s.budgets;
          total_budgets_created = some budget_id;
          budget_member = add_members budget_id members s.budget_member;
        }),
      )

    unfoldable pub transfer_budget_ownership :
        Address → ℕ → Address → State L → Result SharedBudgetError (State L)
    transfer_budget_ownership current_owner budget_id new_owner s = do
      require_auth env current_owner
      require_auth env new_owner
      budget ← or_throw (s.budgets budget_id) (contract_error budget_not_found)
      throw_if (not (current_owner == budget.creator)) (contract_error unauthorized)
      ok (
          if current_owner == new_owner
          then s
          else publish (BudgetEvent.ownership_transferred budget_id current_owner new_owner)
              (set_budget budget_id (record budget { creator = new_owner }) s))

    unfoldable pub add_member_to_budget :
        Address → ℕ → Address → State L → Result SharedBudgetError (State L)
    add_member_to_budget caller budget_id new_member s = do
      require_auth env caller
      budget ← or_throw (s.budgets budget_id) (contract_error budget_not_found)
      require_owner s caller budget
      throw_if (is_budget_member s budget_id new_member) (contract_error member_already_exists)
      throw_if (leb max_budget_members (length budget.members)) (contract_error too_many_members)
      ok
          (record (set_budget budget_id
            (record budget { members = push_back budget.members new_member }) s) {
              budget_member = insert_pair budget_id new_member true s.budget_member;
            })

    unfoldable pub add_spending_rule :
        Address → ℕ → BudgetSpendingRule → State L → Result SharedBudgetError (State L)
    add_spending_rule caller budget_id rule s = do
      require_auth env caller
      budget ← or_throw (s.budgets budget_id) (contract_error budget_not_found)
      require_owner s caller budget
      throw_if (not (validate_percentage rule.percentage_threshold))
          (contract_error invalid_percentage)
      throw_if (leb max_spending_rules (length budget.spending_rules))
          (contract_error too_many_rules)
      ok (
          set_budget budget_id
            (record budget { spending_rules = push_back budget.spending_rules rule })
            (publish
              (BudgetEvent.spending_rule_added budget_id rule.applicable_to
                rule.percentage_threshold rule.requires_approval)
              s))

    unfoldable pub set_archive_retention_period :
        Address → ℕ → State L → Result SharedBudgetError (State L)
    set_archive_retention_period caller retention_seconds s = do
      require_auth env caller
      require_admin s caller
      throw_if (retention_seconds == 0) (contract_error invalid_archive_retention)
      ok (record s { archive_retention_period = some retention_seconds })

    unfoldable pub deactivate_budget : Address → ℕ → State L → Result SharedBudgetError (State L)
    deactivate_budget caller budget_id s = do
      require_auth env caller
      budget ← or_throw (s.budgets budget_id) (contract_error budget_not_found)
      require_owner s caller budget
      ok (
          if not budget.is_active
          then s
          else publish (BudgetEvent.budget_deactivated budget_id caller env.timestamp)
              (record (set_budget budget_id (record budget { is_active = false }) s) {
                budget_deactivated_at = insert budget_id env.timestamp s.budget_deactivated_at;
              }))

    unfoldable pub set_admin :
        (current_admin new_admin : Address) → State L → Result SharedBudgetError (State L)
    set_admin current_admin new_admin s = do
      require_auth env current_admin
      require_admin s current_admin
      ok (record s { admin = some new_admin })
