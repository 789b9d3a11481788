-- ===== src/SharedBudgets/Archive.antt =====
-- contracts/shared-budgets/src/lib.rs: `archive_inactive_budgets`.
use stellarspend_contracts.Common.{
  ℕ, zero, suc, ◌+◌, none, some, [], ◌==◌, ltb, leb, insert, remove, unwrap_or, if◌then◌else◌,
}
use stellarspend_contracts.Common.Int.{saturating_add_u64}
use stellarspend_contracts.Soroban.{
  Address, Env, contract_error, Result, ok, ◌>>◌, throw_if, require_auth,
}
use stellarspend_contracts.SharedBudgets.Types.{
  Budget, ArchivedBudget, BudgetEvent, SharedBudgetError, State, publish, invalid_archive_retention,
}
use stellarspend_contracts.SharedBudgets.Budgets.{require_admin}

module _ {L : Type 0} (env : Env) (retention_seconds : ℕ) where
  abbrev pub deactivated_at : ℕ → Budget → State L → ℕ
  deactivated_at budget_id budget s =
      unwrap_or (s.budget_deactivated_at budget_id) budget.created_at

  -- The end of a round: the budget moves to the archive.
  unfoldable pub archive_budget : ℕ → Budget → State L → State L
  archive_budget budget_id budget s =
      let archived : ArchivedBudget = record {
        budget = budget;
        deactivated_at = deactivated_at budget_id budget s;
        archived_at = env.timestamp;
        contribution_ids = unwrap_or (s.budget_contributions budget_id) [];
      } in
      publish (BudgetEvent.budget_archived budget_id env.timestamp) (record s {
        archived_budgets = insert budget_id archived s.archived_budgets;
        budgets = remove budget_id s.budgets;
        budget_deactivated_at = remove budget_id s.budget_deactivated_at;
      })

  -- One round of the loop. The first component counts what is archived, at most `max_to_archive`.
  unfoldable pub archive_one : ℕ → ℕ × State L → ℕ × State L
  archive_one budget_id (archived, s) = elim (s.budgets budget_id) [
    | none ↦ (archived, s)
    | some budget ↦
        if budget.is_active
        then (archived, s)
        else if ltb env.timestamp
            (saturating_add_u64 (deactivated_at budget_id budget s) retention_seconds)
        then (archived, s)
        else (archived + 1, archive_budget budget_id budget s)
  ]

  -- `for budget_id in 1..=total_budgets`, with `left` rounds to go.
  unfoldable pub archive_loop : (max_to_archive left budget_id : ℕ) → ℕ × State L → ℕ × State L
  archive_loop max_to_archive zero budget_id (archived, s) = (archived, s)
  archive_loop max_to_archive (suc left) budget_id (archived, s) =
      let rest =
        archive_loop max_to_archive left (budget_id + 1) (archive_one budget_id (archived, s)) in
      if leb max_to_archive archived then (archived, s) else rest

unfoldable pub archive_inactive_budgets :
    {L : Type 0} → Env → Address → ℕ → State L → Result SharedBudgetError (ℕ × State L)
archive_inactive_budgets env caller max_to_archive s = do
  require_auth env caller
  require_admin s caller
  let retention_seconds = unwrap_or s.archive_retention_period 0
  throw_if (retention_seconds == 0) (contract_error invalid_archive_retention)
  ok (
      if max_to_archive == 0
      then (0, s)
      else archive_loop env retention_seconds max_to_archive (unwrap_or s.total_budgets_created 0) 1
          (0, s))
