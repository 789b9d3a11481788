-- ===== src/SavingsGoals/Merging.antt =====
-- contracts/savings-goals/src/lib.rs: `merge_goals`.
use stellarspend_contracts.Common.{ℕ, false, not, ◌||◌, ◌==◌}
use stellarspend_contracts.Common.Int.{pos, leb_ℤ, saturating_add}
use stellarspend_contracts.Soroban.{
  Address, Env, contract_error, Result, ok, ◌>>=◌, ◌>>◌, throw_if, or_throw, require_auth,
}
use stellarspend_contracts.SavingsGoals.Types.{
  SavingsGoal, GoalEvent, SavingsGoalError, State, publish, set_goal, unauthorized, invalid_batch,
  goal_not_active, goal_not_found,
}
use stellarspend_contracts.SavingsGoals.Milestones.{check_and_emit_milestones}

module _ (env : Env) where
  -- The source and the target of a merge, behind it.
  abbrev pub emptied : SavingsGoal → SavingsGoal
  emptied source = record source { current_amount = pos 0; is_active = false }

  abbrev pub enlarged : (target source : SavingsGoal) → SavingsGoal
  enlarged target source =
      let current_amount = saturating_add target.current_amount source.current_amount in
      record target {
        current_amount = current_amount;
        is_complete = leb_ℤ target.target_amount current_amount;
      }

  unfoldable pub merge_goals :
      Address → (source_goal_id target_goal_id : ℕ) → State → Result SavingsGoalError State
  merge_goals caller source_goal_id target_goal_id s = do
    require_auth env caller
    throw_if (source_goal_id == target_goal_id) (contract_error invalid_batch)
    source ← or_throw (s.goals source_goal_id) (contract_error goal_not_found)
    target ← or_throw (s.goals target_goal_id) (contract_error goal_not_found)
    throw_if (not (source.user == caller) || not (target.user == caller))
        (contract_error unauthorized)
    throw_if (not source.is_active || not target.is_active) (contract_error goal_not_active)
    s₁ ← check_and_emit_milestones env target_goal_id (
        set_goal target_goal_id (enlarged target source)
          (set_goal source_goal_id (emptied source) s))
    ok (publish (GoalEvent.goals_merged source_goal_id target_goal_id source.current_amount) s₁)
