-- ===== src/SavingsGoals/Samples.antt =====
-- A small savings goals contract, for the examples: the admin 9, and goals of the user 1.
use stellarspend_contracts.Common.{ℕ, none, some, [], true, false, insert}
use stellarspend_contracts.Common.Int.{ℤ, pos}
use stellarspend_contracts.Soroban.{Env}
use stellarspend_contracts.SavingsGoals.Types.{SavingsGoal, SavingsGoalRequest, State}

abbrev pub at_time : ℕ → Env
at_time t = record { timestamp = t; sequence = 7; contract = 100; authorized = λ a. true }

abbrev pub deployed : State
deployed = record {
  admin = none;
  last_batch_id = none;
  last_goal_id = none;
  goals = λ k. none;
  user_goals = λ a. none;
  total_goals_created = none;
  total_batches_processed = none;
  last_milestone_id = none;
  milestones = λ k. none;
  goal_milestones = λ k. none;
  goal_milestones_percent = λ k. none;
  goal_prereqs = λ k. none;
  total_milestones_achieved = none;
  goal_closed_at = λ k. none;
  goal_by_name = λ a k. none;
  goal_snapshots = λ k. none;
  contributions = λ k i. none;
  last_contrib_id = λ k. none;
  contribution_idempotency = λ a k i. none;
  default_alert_thresholds = none;
  goal_alert_thresholds = λ k. none;
  goal_alert_sent = λ k i. none;
  certificates = λ k. none;
  events = [];
}

-- A request for a goal of the user 1 with a name, from 10,000,000 on.
abbrev pub request : ℕ → SavingsGoalRequest
request name = record {
  user = 1;
  goal_name = name;
  target_amount = pos 20_000_000;
  deadline = 1000;
  initial_contribution = pos 5_000_000;
  priority = 1;
  lock_duration_seconds = 0;
  penalty_bps = 100;
  expiration_seconds = 0;
}

-- An open goal of the user 1 with a balance.
abbrev pub goal : (id : ℕ) → ℤ → SavingsGoal
goal id balance = record {
  goal_id = id;
  user = 1;
  goal_name = 5;
  target_amount = pos 20_000_000;
  current_amount = balance;
  deadline = 1000;
  created_at = 0;
  is_active = true;
  is_complete = false;
  priority = 1;
  unlock_at = 0;
  expires_at = 0;
  penalty_bps = 100;
}

-- The goal 1 with a balance, and an empty goal 2.
abbrev pub holding : ℤ → State
holding balance = record deployed {
  admin = some 9;
  last_goal_id = some 2;
  goals = insert 1 (goal 1 balance) (insert 2 (goal 2 (pos 0)) deployed.goals);
}

-- A closed goal that holds its target.
abbrev pub closed_goal : SavingsGoal
closed_goal = record (goal 1 (pos 20_000_000)) { is_active = false; is_complete = true }

abbrev pub closed : State
closed = record deployed {
  admin = some 9;
  last_goal_id = some 1;
  goals = insert 1 closed_goal deployed.goals;
}
