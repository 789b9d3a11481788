-- ===== src/SharedBudgets/Steps.antt =====
-- How one call of contracts/shared-budgets/src/lib.rs changes the budgets.
use stellarspend_contracts.Common.{
  ℕ, ◌≡◌, ◌≢◌, inl, inr, refl, ◌==◌, push_back, false, Option, none, List, arith, Option-cases,
  Bool-cases,
}
use stellarspend_contracts.Common.Int.{ℤ, pos, ◌<ℤ◌, ◌≤ℤ◌, ◌+ℤ◌, ◌-ℤ◌, int_laws, checked_add_u64}
use stellarspend_contracts.Soroban.{Address, Symbol, Env, Token, ok}
use stellarspend_contracts.SharedBudgets.Types.{BudgetSpendingRule, State}
use stellarspend_contracts.SharedBudgets.Budgets.{
  initialize, require_admin, require_owner, new_budget, create_budget, transfer_budget_ownership,
  add_member_to_budget, add_spending_rule, set_archive_retention_period, deactivate_budget,
  set_admin,
}
use stellarspend_contracts.SharedBudgets.Spending.{contribute_to_budget, spend_from_budget}
use stellarspend_contracts.SharedBudgets.Spends.{spend_ok, contribute_ok}
use stellarspend_contracts.SharedBudgets.Changes.{
  edited, moved, created, IsStep, IsStep-of_insert, IsStep-of_same,
}

module _ {L : Type 0} where
  pub create-IsStep :
      (env : Env) (creator : Address) (name : Symbol) (members : List Address) (token : Address)
      (rules : List BudgetSpendingRule) (s : State L) (id : ℕ) (s' : State L)
      → create_budget env creator name members token rules s ≡ ok (id, s')
      → IsStep s s'
  unfolding create_budget checked_add_u64
  create-IsStep env creator name members token rules s id s' h =
      let y = new_budget env id creator name members token rules in
      IsStep-of_insert id y s s' (ground arith)
        (created y (ground arith) (ground arith) refl (omega arith, omega arith) refl refl)
        (ground arith) (ground arith) (ground arith)

  pub transfer-IsStep :
      (env : Env) (current : Address) (id : ℕ) (new : Address) (s s' : State L)
      → transfer_budget_ownership env current id new s ≡ ok s'
      → IsStep s s'
  unfolding transfer_budget_ownership
  transfer-IsStep env current id new s s' h = elim (Option-cases (s.budgets id)) [
    | inl missing ↦ absurd (ground arith)
    | inr (x, stored) ↦ elim (Bool-cases (current == new)) [
      | inl unchanged ↦
          IsStep-of_same s s' (ground arith) (ground arith) (λ started gone. ground arith)
            (ground arith)
      | inr handed ↦
          let y = record x { creator = new } in
          IsStep-of_insert id y s s' (ground arith)
            (edited x y stored refl refl refl (λ inactive. inactive) refl) (ground arith)
            (ground arith) (ground arith)
    ]
  ]

  pub add_member-IsStep :
      (env : Env) (caller : Address) (id : ℕ) (member : Address) (s s' : State L)
      → add_member_to_budget env caller id member s ≡ ok s'
      → IsStep s s'
  unfolding add_member_to_budget require_owner require_admin
  add_member-IsStep env caller id member s s' h = elim (Option-cases (s.budgets id)) [
    | inl missing ↦ absurd (ground arith)
    | inr (x, stored) ↦
        let y = record x { members = push_back x.members member } in
        IsStep-of_insert id y s s' (ground arith)
          (edited x y stored refl refl refl (λ inactive. inactive) refl) (ground arith)
          (ground arith) (ground arith)
  ]

  pub add_rule-IsStep :
      (env : Env) (caller : Address) (id : ℕ) (rule : BudgetSpendingRule) (s s' : State L)
      → add_spending_rule env caller id rule s ≡ ok s'
      → IsStep s s'
  unfolding add_spending_rule require_owner require_admin
  add_rule-IsStep env caller id rule s s' h = elim (Option-cases (s.budgets id)) [
    | inl missing ↦ absurd (ground arith)
    | inr (x, stored) ↦
        let y = record x { spending_rules = push_back x.spending_rules rule } in
        IsStep-of_insert id y s s' (ground arith)
          (edited x y stored refl refl refl (λ inactive. inactive) refl) (ground arith)
          (ground arith) (ground arith)
  ]

  pub deactivate-IsStep :
      (env : Env) (caller : Address) (id : ℕ) (s s' : State L)
      → deactivate_budget env caller id s ≡ ok s'
      → IsStep s s'
  unfolding deactivate_budget require_owner require_admin
  deactivate-IsStep env caller id s s' h = elim (Option-cases (s.budgets id)) [
    | inl missing ↦ absurd (ground arith)
    | inr (x, stored) ↦ elim (Bool-cases x.is_active) [
      | inr inactive ↦
          IsStep-of_same s s' (ground arith) (ground arith) (λ started gone. ground arith)
            (ground arith)
      | inl active ↦
          let y = record x { is_active = false } in
          IsStep-of_insert id y s s' (ground arith)
            (edited x y stored refl refl refl (λ inactive. refl) refl) (ground arith) (ground arith)
            (ground arith)
    ]
  ]

  pub retention-IsStep :
      (env : Env) (caller : Address) (seconds : ℕ) (s s' : State L)
      → set_archive_retention_period env caller seconds s ≡ ok s'
      → IsStep s s'
  unfolding set_archive_retention_period require_admin
  retention-IsStep env caller seconds s s' h =
      IsStep-of_same s s' (ground arith) (ground arith) (λ started gone. ground arith)
        (ground arith)

  pub set_admin-IsStep :
      (env : Env) (current new : Address) (s s' : State L)
      → set_admin env current new s ≡ ok s'
      → IsStep s s'
  unfolding set_admin require_admin
  set_admin-IsStep env current new s s' h =
      IsStep-of_same s s' (ground arith) (ground arith) (λ started gone. ground arith)
        (ground arith)

  -- A contract that has an admin is not initialized again.
  pub initialize-refused :
      (admin : Address) (s s' : State L) → s.admin ≢ none → initialize admin s ≢ ok s'
  unfolding initialize
  initialize-refused admin s s' started h = ground arith

funded_more :
    (b t a : ℤ) → pos 0 <ℤ a → pos 0 ≤ℤ b → b ≤ℤ t → (pos 0 ≤ℤ b +ℤ a) × (b +ℤ a ≤ℤ t +ℤ a)
funded_more b t a positive low high = (omega int_laws, omega int_laws)

funded_less : (b t a : ℤ) → pos 0 <ℤ a → a ≤ℤ b → b ≤ℤ t → (pos 0 ≤ℤ b -ℤ a) × (b -ℤ a ≤ℤ t)
funded_less b t a positive covered high = (omega int_laws, omega int_laws)

module _ (tok : Token) (env : Env) where
  pub contribute-IsStep :
      (contributor : Address) (id : ℕ) (amount : ℤ) (memo : Option Symbol) (s s' : State tok.Ledger)
      → contribute_to_budget tok env contributor id amount memo s ≡ ok s'
      → IsStep s s'
  contribute-IsStep contributor id amount memo s s' h =
      let (x, stored, active, positive, budgets, admin, count, archive) =
        contribute_ok tok env contributor id amount memo s s' h in
      let y = record x {
        balance = x.balance +ℤ amount;
        total_contributed = x.total_contributed +ℤ amount;
      } in
      IsStep-of_insert id y s s' budgets
        (moved x y stored refl active
          (λ (low, high). funded_more x.balance x.total_contributed amount positive low high) refl)
        (rw count (omega arith)) admin archive

  pub spend-IsStep :
      (spender : Address) (id : ℕ) (recipient : Address) (amount : ℤ) (s s' : State tok.Ledger)
      → spend_from_budget tok env spender id recipient amount s ≡ ok s'
      → IsStep s s'
  spend-IsStep spender id recipient amount s s' h =
      let w = spend_ok tok env spender id recipient amount s s' h in
      let x = w.budget in
      let y = record x { balance = x.balance -ℤ amount } in
      rw w.after (
        IsStep-of_insert id y s _ refl
          (moved x y w.stored refl w.active
            (λ (low, high).
              funded_less x.balance x.total_contributed amount w.positive w.covered high)
            refl)
          (omega arith) refl refl)
