-- ===== src/SharedBudgets/Reports.antt =====
-- contracts/shared-budgets/src/lib.rs: the queries that compute.
use stellarspend_contracts.Common.{
  ℕ, zero, suc, ◌+◌, ◌-◌, ◌≡◌, refl, ap, ◌++◌, arith, not, ◌&&◌, ◌||◌, none, some, List, [], ◌∷◌,
  ◌==◌, ltb, leb, length, unwrap_or, if◌then◌else◌,
}
use stellarspend_contracts.Common.Int.{pos, pos_part, ltb_ℤ, div_ℤ, to_u32, checked_sub}
use stellarspend_contracts.Soroban.{
  Address, contract_error, overflowed, Result, ok, ◌>>=◌, ◌>>◌, throw_if, or_throw, mul_i128,
  add_u32,
}
use stellarspend_contracts.SharedBudgets.Types.{
  BudgetContribution, BudgetUtilizationBand, BudgetUtilizationSummary, SharedBudgetError, State,
  budget_not_found, low, moderate, high, critical,
}
use stellarspend_contracts.SharedBudgets.Budgets.{is_set, is_budget_member}

unfoldable pub classify_utilization : ℕ → BudgetUtilizationBand
classify_utilization percent =
    if ltb percent 25
    then low
    else if ltb percent 50
    then moderate
    else if ltb percent 80
    then high
    else critical

-- The symbols "OWNER", "MEMBER" and "NONE".
pub data MemberRole : Type 0 where
  owner member none_role : MemberRole

module _ {L : Type 0} where
  unfoldable pub get_member_role : State L → ℕ → Address → Result SharedBudgetError MemberRole
  get_member_role s budget_id account = do
    budget ← or_throw (s.budgets budget_id) (contract_error budget_not_found)
    ok (
        if account == budget.creator
        then owner
        else if is_budget_member s budget_id account
        then member
        else none_role)

  unfoldable pub get_budget_utilization_summary :
      State L → ℕ → Result SharedBudgetError BudgetUtilizationSummary
  get_budget_utilization_summary s budget_id = do
    budget ← or_throw (s.budgets budget_id) (contract_error budget_not_found)
    total_spent ← or_throw (checked_sub budget.total_contributed budget.balance) overflowed
    utilization_percent ←
        if ltb_ℤ (pos 0) budget.total_contributed
        then (do
          hundredfold ← mul_i128 total_spent (pos 100)
          ok (to_u32 (div_ℤ hundredfold (pos_part budget.total_contributed))))
        else ok 0
    ok (record {
      utilization_percent = utilization_percent;
      total_spent = total_spent;
      avg_spending_per_member =
          if ltb 0 (length budget.members)
          then div_ℤ total_spent (length budget.members)
          else pos 0;
      remaining_balance = budget.balance;
      utilization_band = classify_utilization utilization_percent;
    })

  unfoldable pub get_budget_contribution_ids : State L → ℕ → Result SharedBudgetError (List ℕ)
  get_budget_contribution_ids s budget_id = do
    throw_if (not (is_set (s.budgets budget_id)) && not (is_set (s.archived_budgets budget_id)))
        (contract_error budget_not_found)
    ok (unwrap_or (s.budget_contributions budget_id) [])

  -- The contributions under a list of numbers.
  unfoldable pub found_contributions : State L → List ℕ → List BudgetContribution
  found_contributions s [] = []
  found_contributions s (id ∷ ids) =
      let rest = found_contributions s ids in
      elim (s.contributions id) [ none ↦ rest | some contribution ↦ contribution ∷ rest ]

  unfoldable pub get_contributions :
      State L → ℕ → Result SharedBudgetError (List BudgetContribution)
  get_contributions s budget_id = do
    ids ← get_budget_contribution_ids s budget_id
    ok (found_contributions s ids)

-- `contribution_ids.get(i)` for the `count` positions from `offset` on.
unfoldable pub page : List ℕ → (offset count : ℕ) → List ℕ
page [] offset count = []
page (id ∷ ids) zero zero = []
page (id ∷ ids) zero (suc count) = id ∷ page ids zero count
page (id ∷ ids) (suc offset) count = page ids offset count

unfoldable pub get_contributions_paginated :
    {L : Type 0}
    → State L
    → (budget_id offset limit : ℕ) → Result SharedBudgetError (List BudgetContribution)
get_contributions_paginated s budget_id offset limit = do
  let limit' = if ltb 100 limit then 100 else limit
  ids ← get_budget_contribution_ids s budget_id
  if leb (length ids) offset || (limit' == 0) then ok [] else (do
    stop ← add_u32 offset limit'
    let last = if ltb (length ids) stop then length ids else stop
    ok (found_contributions s (page ids offset (last - offset))))

-- Two pages that follow each other are one page.
page-append :
    (ids : List ℕ) (offset a b : ℕ)
    → page ids offset a ++ page ids (offset + a) b ≡ page ids offset (a + b)
unfolding page
page-append [] offset a b = refl
page-append (id ∷ ids) zero zero b = let e : 0 + b ≡ b = omega arith in rw e refl
page-append (id ∷ ids) zero (suc a) b =
    let from : 0 + suc a ≡ suc (0 + a) = omega arith in
    let both : suc a + b ≡ suc (a + b) = omega arith in
    rw (from, both) (ap (λ (rest : List ℕ). id ∷ rest) (page-append ids zero a b))
page-append (id ∷ ids) (suc offset) a b =
    let from : suc offset + a ≡ suc (offset + a) = omega arith in
    rw from (page-append ids offset a b)
