-- ===== src/SavingsGoals/Goals.antt =====
-- contracts/savings-goals/src/lib.rs: goals are created, cloned and renamed, and the admin.
use stellarspend_contracts.Common.{
  ℕ, ◌+◌, true, false, not, none, some, List, [], ◌∷◌, ◌==◌, ltb, insert, insert_pair, unwrap_or,
  push_back, length, if◌then◌else◌,
}
use stellarspend_contracts.Common.Int.{
  ℤ, pos, leb_ℤ, div_ℤ, checked_add, i128_max, saturating_add_u64,
}
use stellarspend_contracts.Soroban.{
  Address, Env, contract_error, panicked, Result, ok, ◌>>=◌, ◌>>◌, throw_if, or_throw, require_auth,
  add_u64,
}
use stellarspend_contracts.SavingsGoals.Types.{
  SavingsGoalRequest, SavingsGoal, GoalResult, BatchGoalResult, GoalEvent, SavingsGoalError, State,
  publish, max_batch_size, unauthorized, empty_batch, batch_too_large,
}
use stellarspend_contracts.SavingsGoals.Validation.{
  is_set, validate_goal_request, validate_goal_name_unique,
}
use stellarspend_contracts.SavingsGoals.Milestones.{check_and_emit_milestones}

abbrev pub default_deadline_alert_thresholds : List ℕ
default_deadline_alert_thresholds = 100 ∷ 25 ∷ 5 ∷ []

unfoldable pub initialize : Address → State → Result SavingsGoalError State
initialize admin s = do
  throw_if (is_set s.admin) panicked
  ok (record s {
    admin = some admin;
    last_batch_id = some 0;
    last_goal_id = some 0;
    total_goals_created = some 0;
    total_batches_processed = some 0;
    default_alert_thresholds = some default_deadline_alert_thresholds;
  })

unfoldable pub require_admin : State → Address → Result SavingsGoalError (Unit {0})
require_admin s caller = do
  admin ← or_throw s.admin panicked
  throw_if (not (caller == admin)) (contract_error unauthorized)

-- `if seconds > 0 { created_at.saturating_add(seconds) } else { 0 }`
abbrev pub after : (created_at seconds : ℕ) → ℕ
after created_at seconds = if ltb 0 seconds then saturating_add_u64 created_at seconds else 0

-- `user_goals.push_back(goal_id)`
abbrev pub add_user_goal : Address → ℕ → State → State
add_user_goal user goal_id s = record s {
  user_goals = insert user (push_back (unwrap_or (s.user_goals user) []) goal_id) s.user_goals;
}

-- The variables of the loop over the requests. The counts are at most the size of a batch.
pub record GoalTally : Type 0 where
  pub results : List GoalResult
  pub successful_count : ℕ
  pub failed_count : ℕ
  pub total_target_amount : ℤ
  pub total_initial_contributions : ℤ
  pub goal_id_counter : ℕ
  pub state : State

module _ (env : Env) where
  -- The goal that a request asks for.
  unfoldable pub new_goal : ℕ → SavingsGoalRequest → SavingsGoal
  new_goal goal_id request = record {
    goal_id = goal_id;
    user = request.user;
    goal_name = request.goal_name;
    target_amount = request.target_amount;
    current_amount = request.initial_contribution;
    deadline = request.deadline;
    created_at = env.timestamp;
    is_active = true;
    is_complete = false;
    priority = request.priority;
    unlock_at = after env.timestamp request.lock_duration_seconds;
    expires_at = after env.timestamp request.expiration_seconds;
    penalty_bps = request.penalty_bps;
  }

  -- A goal with its name, and what its first contribution achieves.
  unfoldable pub store_goal : ℕ → SavingsGoalRequest → State → Result SavingsGoalError State
  store_goal goal_id request s = check_and_emit_milestones env goal_id (record s {
    goals = insert goal_id (new_goal goal_id request) s.goals;
    goal_by_name = insert_pair request.user request.goal_name goal_id s.goal_by_name;
  })

  -- The goal that is reported.
  abbrev pub reported_goal : ℕ → SavingsGoalRequest → SavingsGoal
  reported_goal goal_id request =
      if leb_ℤ request.target_amount request.initial_contribution
      then record (new_goal goal_id request) { is_complete = true }
      else new_goal goal_id request

  -- A request that is valid.
  unfoldable pub create_goal :
      ℕ → SavingsGoalRequest → GoalTally → Result SavingsGoalError GoalTally
  create_goal batch_id request t = do
    goal_id ← add_u64 t.goal_id_counter 1
    s ← store_goal goal_id request t.state
    let s₁ =
        publish (GoalEvent.goal_created batch_id goal_id request.user request.target_amount)
          (add_user_goal request.user goal_id s)
    let s₂ =
        if leb_ℤ (pos 1_000_000_000_000) request.target_amount
        then publish (GoalEvent.high_value_goal batch_id goal_id request.target_amount) s₁
        else s₁
    ok (record {
      results = push_back t.results (GoalResult.success (reported_goal goal_id request));
      successful_count = t.successful_count + 1;
      failed_count = t.failed_count;
      total_target_amount =
          unwrap_or (checked_add t.total_target_amount request.target_amount) (pos i128_max);
      total_initial_contributions =
          unwrap_or (checked_add t.total_initial_contributions request.initial_contribution)
            (pos i128_max);
      goal_id_counter = goal_id;
      state = s₂;
    })

  -- A request that is not.
  unfoldable pub refuse_goal :
      (batch_id : ℕ) → SavingsGoalRequest → (error_code : ℕ) → GoalTally → GoalTally
  refuse_goal batch_id request error_code t = record t {
    results = push_back t.results (GoalResult.failure request.user error_code);
    failed_count = t.failed_count + 1;
    state = publish (GoalEvent.goal_creation_failed batch_id request.user error_code) t.state;
  }

  unfoldable pub set_savings_goal :
      ℕ → SavingsGoalRequest → GoalTally → Result SavingsGoalError GoalTally
  set_savings_goal batch_id request t = elim (validate_goal_request env request) [
    | some error_code ↦ ok (refuse_goal batch_id request error_code t)
    | none ↦ elim (validate_goal_name_unique t.state request.user request.goal_name) [
      | some error_code ↦ ok (refuse_goal batch_id request error_code t)
      | none ↦ create_goal batch_id request t
    ]
  ]

  unfoldable pub set_savings_goals :
      ℕ → List SavingsGoalRequest → GoalTally → Result SavingsGoalError GoalTally
  set_savings_goals batch_id [] t = ok t
  set_savings_goals batch_id (request ∷ requests) t = do
    t' ← set_savings_goal batch_id request t
    set_savings_goals batch_id requests t'

  -- The answer of a batch.
  unfoldable pub goal_answer : (batch_id request_count : ℕ) → GoalTally → BatchGoalResult
  goal_answer batch_id request_count t = record {
    batch_id = batch_id;
    total_requests = request_count;
    successful = t.successful_count;
    failed = t.failed_count;
    results = t.results;
    metrics = record {
      total_requests = request_count;
      successful_goals = t.successful_count;
      failed_goals = t.failed_count;
      total_target_amount = t.total_target_amount;
      total_initial_contributions = t.total_initial_contributions;
      avg_goal_amount =
          if ltb 0 t.successful_count
          then div_ℤ t.total_target_amount t.successful_count
          else pos 0;
      processed_at = env.sequence;
    };
  }

  -- The loop starts with no results, and the counter that is stored.
  abbrev pub no_goals : State → GoalTally
  no_goals s = record {
    results = [];
    successful_count = 0;
    failed_count = 0;
    total_target_amount = pos 0;
    total_initial_contributions = pos 0;
    goal_id_counter = unwrap_or s.last_goal_id 0;
    state = s;
  }

  -- The writes behind the loop.
  unfoldable pub finish_goals : ℕ → GoalTally → Result SavingsGoalError State
  finish_goals batch_id t = do
    total_goals ← add_u64 (unwrap_or t.state.total_goals_created 0) t.successful_count
    total_batches ← add_u64 (unwrap_or t.state.total_batches_processed 0) 1
    ok (
        publish
          (GoalEvent.batch_completed batch_id t.successful_count t.failed_count
            t.total_target_amount)
          (record t.state {
            last_batch_id = some batch_id;
            last_goal_id = some t.goal_id_counter;
            total_goals_created = some total_goals;
            total_batches_processed = some total_batches;
          }))

  unfoldable pub batch_set_savings_goals :
      Address → List SavingsGoalRequest → State → Result SavingsGoalError (BatchGoalResult × State)
  batch_set_savings_goals caller requests s = do
    require_auth env caller
    require_admin s caller
    let request_count = length requests
    throw_if (request_count == 0) (contract_error empty_batch)
    throw_if (ltb max_batch_size request_count) (contract_error batch_too_large)
    batch_id ← add_u64 (unwrap_or s.last_batch_id 0) 1
    t ←
        set_savings_goals batch_id requests
          (no_goals (publish (GoalEvent.batch_started batch_id request_count) s))
    s' ← finish_goals batch_id t
    ok (goal_answer batch_id request_count t, s')
