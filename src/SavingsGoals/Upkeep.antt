-- ===== src/SavingsGoals/Upkeep.antt =====
-- contracts/savings-goals/src/lib.rs: a goal is cloned, renamed and recorded, and the admin changes.
use stellarspend_contracts.Common.{
  ℕ, ◌-◌, true, false, not, some, [], ◌==◌, ltb, insert, insert_pair, unwrap_or, push_back,
  if◌then◌else◌,
}
use stellarspend_contracts.Common.Int.{pos}
use stellarspend_contracts.Soroban.{
  Address, Symbol, Env, contract_error, Result, ok, ◌>>=◌, ◌>>◌, throw_if, or_throw, require_auth,
  add_u64,
}
use stellarspend_contracts.SavingsGoals.Types.{
  SavingsGoal, GoalSnapshot, GoalEvent, SavingsGoalError, State, publish, set_goal, unauthorized,
  invalid_batch, invalid_goal_name, goal_not_found,
}
use stellarspend_contracts.SavingsGoals.Validation.{is_set, validate_goal_name_unique}
use stellarspend_contracts.SavingsGoals.Goals.{require_admin, after, add_user_goal}

-- The seconds from the creation to a date that is set, and 0 otherwise.
abbrev pub duration : (date created_at : ℕ) → ℕ
duration date created_at = if ltb created_at date then date - created_at else 0

module _ (env : Env) where
  -- The clone of a goal, with an empty balance.
  unfoldable pub cloned : ℕ → Address → Symbol → SavingsGoal → SavingsGoal
  cloned goal_id caller new_goal_name existing = record {
    goal_id = goal_id;
    user = caller;
    goal_name = new_goal_name;
    target_amount = existing.target_amount;
    current_amount = pos 0;
    deadline = existing.deadline;
    created_at = env.timestamp;
    is_active = true;
    is_complete = false;
    priority = existing.priority;
    unlock_at = after env.timestamp (duration existing.unlock_at existing.created_at);
    expires_at = after env.timestamp (duration existing.expires_at existing.created_at);
    penalty_bps = existing.penalty_bps;
  }

  unfoldable pub clone_savings_goal :
      Address → ℕ → Symbol → State → Result SavingsGoalError (ℕ × State)
  clone_savings_goal caller goal_id new_goal_name s = do
    require_auth env caller
    existing ← or_throw (s.goals goal_id) (contract_error goal_not_found)
    throw_if (not (existing.user == caller)) (contract_error unauthorized)
    throw_if (is_set (validate_goal_name_unique s caller new_goal_name))
        (contract_error invalid_goal_name)
    new_id ← add_u64 (unwrap_or s.last_goal_id 0) 1
    let goal = cloned new_id caller new_goal_name existing
    let s₁ = add_user_goal caller new_id (record s {
      goals = insert new_id goal s.goals;
      goal_by_name = insert_pair caller new_goal_name new_id s.goal_by_name;
    })
    total_goals ← add_u64 (unwrap_or s.total_goals_created 0) 1
    ok (
      new_id,
      publish (GoalEvent.goal_created 0 new_id caller goal.target_amount)
          (record s₁ { last_goal_id = some new_id; total_goals_created = some total_goals }),
    )

  unfoldable pub update_goal_name : Address → ℕ → Symbol → State → Result SavingsGoalError State
  update_goal_name caller goal_id new_name s = do
    require_auth env caller
    goal ← or_throw (s.goals goal_id) (contract_error invalid_batch)
    throw_if (not (goal.user == caller)) (contract_error unauthorized)
    ok (
        publish (GoalEvent.goal_renamed goal_id goal.goal_name new_name)
          (set_goal goal_id (record goal { goal_name = new_name }) s))

  unfoldable pub record_goal_snapshot : Address → ℕ → State → Result SavingsGoalError State
  record_goal_snapshot caller goal_id s = do
    require_auth env caller
    goal ← or_throw (s.goals goal_id) (contract_error goal_not_found)
    throw_if (not (goal.user == caller)) (contract_error unauthorized)
    let snapshot : GoalSnapshot = record {
      goal_id = goal_id;
      amount = goal.current_amount;
      timestamp = env.timestamp;
    }
    let snapshots = push_back (unwrap_or (s.goal_snapshots goal_id) []) snapshot
    ok (
        publish (GoalEvent.goal_snapshot_recorded goal_id goal.current_amount env.timestamp)
          (record s { goal_snapshots = insert goal_id snapshots s.goal_snapshots }))

  unfoldable pub set_admin :
      (current_admin new_admin : Address) → State → Result SavingsGoalError State
  set_admin current_admin new_admin s = do
    require_auth env current_admin
    require_admin s current_admin
    ok (record s { admin = some new_admin })
