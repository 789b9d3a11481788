-- ===== src/SavingsGoals/Types.antt =====
-- contracts/savings-goals/src/types.rs, and the errors of contracts/savings-goals/src/lib.rs.
use stellarspend_contracts.Common.{ℕ, Bool, Option, List, Map, insert, push_back}
use stellarspend_contracts.Common.Int.{ℤ, pos}
use stellarspend_contracts.Soroban.{Address, Symbol}

abbrev pub max_batch_size : ℕ
max_batch_size = 100

abbrev pub min_goal_amount : ℤ
min_goal_amount = pos 10_000_000

abbrev pub max_goal_amount : ℤ
max_goal_amount = pos 1_000_000_000_000_000_000

abbrev pub reversal_period_secs : ℕ
reversal_period_secs = 86_400

-- The idempotency tokens: byte strings that are compared, and tested for being empty, so numbers
-- name them, and 0 the empty one.
abbrev pub Bytes : Type 0
Bytes = ℕ

pub record SavingsGoalRequest : Type 0 where
  pub user : Address
  pub goal_name : Symbol
  pub target_amount : ℤ
  pub deadline : ℕ
  pub initial_contribution : ℤ
  pub priority : ℕ
  pub lock_duration_seconds : ℕ
  pub penalty_bps : ℕ
  pub expiration_seconds : ℕ

pub record GoalCertificate : Type 0 where
  pub goal_id : ℕ
  pub user : Address
  pub target_amount : ℤ
  pub issued_at : ℕ

pub record SavingsGoal : Type 0 where
  pub goal_id : ℕ
  pub user : Address
  pub goal_name : Symbol
  pub target_amount : ℤ
  pub current_amount : ℤ
  pub deadline : ℕ
  pub created_at : ℕ
  pub is_active : Bool
  pub is_complete : Bool
  pub priority : ℕ
  pub unlock_at : ℕ
  pub expires_at : ℕ
  pub penalty_bps : ℕ

pub record SavingsGoalProgress : Type 0 where
  pub goal_id : ℕ
  pub current_amount : ℤ
  pub target_amount : ℤ
  pub progress_percentage : ℕ
  pub is_complete : Bool

pub record GoalSnapshot : Type 0 where
  pub goal_id : ℕ
  pub amount : ℤ
  pub timestamp : ℕ

pub data GoalResult : Type 0 where
  success : SavingsGoal → GoalResult
  failure : Address → ℕ → GoalResult

pub record BatchGoalMetrics : Type 0 where
  pub total_requests : ℕ
  pub successful_goals : ℕ
  pub failed_goals : ℕ
  pub total_target_amount : ℤ
  pub total_initial_contributions : ℤ
  pub avg_goal_amount : ℤ
  pub processed_at : ℕ

pub record BatchGoalResult : Type 0 where
  pub batch_id : ℕ
  pub total_requests : ℕ
  pub successful : ℕ
  pub failed : ℕ
  pub results : List GoalResult
  pub metrics : BatchGoalMetrics

pub record MilestoneAchievementRequest : Type 0 where
  pub goal_id : ℕ
  pub user : Address
  pub milestone_percentage : ℕ
  pub achieved_at : ℕ

pub record MilestoneAchievement : Type 0 where
  pub milestone_id : ℕ
  pub goal_id : ℕ
  pub user : Address
  pub milestone_percentage : ℕ
  pub goal_amount_at_achievement : ℤ
  pub achieved_at : ℕ

pub data MilestoneResult : Type 0 where
  success : MilestoneAchievement → MilestoneResult
  failure : ℕ → ℕ → MilestoneResult

pub record BatchMilestoneMetrics : Type 0 where
  pub total_requests : ℕ
  pub successful_milestones : ℕ
  pub failed_milestones : ℕ
  pub total_percentage_points : ℕ
  pub avg_percentage : ℕ
  pub processed_at : ℕ

pub record BatchMilestoneResult : Type 0 where
  pub batch_id : ℕ
  pub total_requests : ℕ
  pub successful : ℕ
  pub failed : ℕ
  pub results : List MilestoneResult
  pub metrics : BatchMilestoneMetrics

pub record ContributionRecord : Type 0 where
  pub amount : ℤ
  pub contributed_at : ℕ
  pub idempotency_token : Bytes
  pub reversed : Bool

pub data SavingsGoalError : Type 0 where
  not_initialized unauthorized invalid_batch empty_batch batch_too_large : SavingsGoalError
  goal_closed insufficient_balance goal_not_active invalid_goal_name : SavingsGoalError
  invalid_amount goal_not_found goal_locked goal_expired : SavingsGoalError
  dependency_not_met reversal_expired contribution_not_found : SavingsGoalError
  invalid_alert_threshold duplicate_contribution_request : SavingsGoalError

-- What the emitters of `GoalEvents` publish, and the event of a merge. The event of a locked
-- withdrawal is left out: the call that publishes it panics next, which undoes it.
pub data GoalEvent : Type 0 where
  batch_started : ℕ → ℕ → GoalEvent
  goal_created : ℕ → ℕ → Address → ℤ → GoalEvent
  goal_creation_failed : ℕ → Address → ℕ → GoalEvent
  batch_completed : ℕ → ℕ → ℕ → ℤ → GoalEvent
  high_value_goal : ℕ → ℕ → ℤ → GoalEvent
  milestone_achieved_percent : ℕ → ℕ → GoalEvent
  goal_contributed goal_withdrawn partial_withdrawal : ℕ → Address → (amount total : ℤ) → GoalEvent
  goal_closed : ℕ → Address → ℤ → ℕ → GoalEvent
  goal_completed : ℕ → Address → ℤ → GoalEvent
  goal_renamed : ℕ → Symbol → Symbol → GoalEvent
  goal_snapshot_recorded : ℕ → ℤ → ℕ → GoalEvent
  deadline_alert_thresholds_updated : ℕ → Address → ℕ → GoalEvent
  deadline_alert : ℕ → Address → (threshold remaining_ledgers : ℕ) → ℤ → GoalEvent
  goals_merged : (source target : ℕ) → ℤ → GoalEvent

-- The storage, a field for each `DataKey`.
pub record State : Type 0 where
  pub admin : Option Address
  pub last_batch_id : Option ℕ
  pub last_goal_id : Option ℕ
  pub goals : Map SavingsGoal
  pub user_goals : Map (List ℕ)
  pub total_goals_created : Option ℕ
  pub total_batches_processed : Option ℕ
  pub last_milestone_id : Option ℕ
  pub milestones : Map MilestoneAchievement
  pub goal_milestones : Map (List ℕ)
  pub goal_milestones_percent : Map (List ℕ)
  pub goal_prereqs : Map (List ℕ)
  pub total_milestones_achieved : Option ℕ
  pub goal_closed_at : Map ℕ
  pub goal_by_name : Address → Map ℕ
  pub goal_snapshots : Map (List GoalSnapshot)
  pub contributions : ℕ → Map ContributionRecord
  pub last_contrib_id : Map ℕ
  pub contribution_idempotency : Address → ℕ → Map ℕ
  pub default_alert_thresholds : Option (List ℕ)
  pub goal_alert_thresholds : Map (List ℕ)
  pub goal_alert_sent : ℕ → Map Bool
  pub certificates : Map GoalCertificate
  pub events : List GoalEvent

-- `env.events().publish`
abbrev pub publish : GoalEvent → State → State
publish ev s = record s { events = push_back s.events ev }

-- The write of a goal.
abbrev pub set_goal : ℕ → SavingsGoal → State → State
set_goal id goal s = record s { goals = insert id goal s.goals }
