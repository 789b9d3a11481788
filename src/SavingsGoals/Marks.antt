-- ===== src/SavingsGoals/Marks.antt =====
-- contracts/savings-goals/src/lib.rs: `batch_mark_milestones`.
use stellarspend_contracts.Common.{
  ℕ, ◌+◌, ◌/◌, not, none, some, List, [], ◌∷◌, ◌==◌, ltb, contains, insert, unwrap_or, push_back,
  length, if◌then◌else◌,
}
use stellarspend_contracts.Soroban.{
  Address, Env, contract_error, Result, ok, ◌>>=◌, ◌>>◌, throw_if, require_auth, add_u64, add_u32,
}
use stellarspend_contracts.SavingsGoals.ErrorCode
use stellarspend_contracts.SavingsGoals.Types.{
  SavingsGoal, MilestoneAchievement, MilestoneAchievementRequest, MilestoneResult,
  BatchMilestoneResult, GoalEvent, SavingsGoalError, State, publish, max_batch_size, empty_batch,
  batch_too_large,
}
use stellarspend_contracts.SavingsGoals.Milestones.{progress_of, triggered_percents, all_milestones}

-- The variables of the loop. The counts are at most the size of a batch.
pub record MilestoneTally : Type 0 where
  pub results : List MilestoneResult
  pub successful : ℕ
  pub failed : ℕ
  pub last_milestone_id : ℕ
  pub total_percentage_points : ℕ
  pub state : State

-- `results.push_back(MilestoneResult::Failure(..)); failed += 1;`
unfoldable pub refuse_milestone : (goal_id code : ℕ) → MilestoneTally → MilestoneTally
refuse_milestone goal_id code t = record t {
  results = push_back t.results (MilestoneResult.failure goal_id code);
  failed = t.failed + 1;
}

-- A request that passes the checks.
unfoldable pub achieve_milestone :
    Address
    → MilestoneAchievementRequest
    → SavingsGoal
    → MilestoneTally
    → Result SavingsGoalError MilestoneTally
achieve_milestone caller req goal t = do
  let s = t.state
  milestone_id ← add_u64 t.last_milestone_id 1
  total_achieved ← add_u64 (unwrap_or s.total_milestones_achieved 0) 1
  points ← add_u32 t.total_percentage_points req.milestone_percentage
  let achievement : MilestoneAchievement = record {
    milestone_id = milestone_id;
    goal_id = req.goal_id;
    user = caller;
    milestone_percentage = req.milestone_percentage;
    goal_amount_at_achievement = goal.current_amount;
    achieved_at = req.achieved_at;
  }
  let triggered = push_back (triggered_percents s req.goal_id) req.milestone_percentage
  let ids = push_back (unwrap_or (s.goal_milestones req.goal_id) []) milestone_id
  ok (record {
    results = push_back t.results (MilestoneResult.success achievement);
    successful = t.successful + 1;
    failed = t.failed;
    last_milestone_id = milestone_id;
    total_percentage_points = points;
    state =
        publish (GoalEvent.milestone_achieved_percent req.goal_id req.milestone_percentage)
          (record s {
            goal_milestones_percent = insert req.goal_id triggered s.goal_milestones_percent;
            milestones = insert milestone_id achievement s.milestones;
            goal_milestones = insert req.goal_id ids s.goal_milestones;
            last_milestone_id = some milestone_id;
            total_milestones_achieved = some total_achieved;
          });
  })

-- The checks of a request whose goal is stored.
unfoldable pub mark_goal :
    Address
    → MilestoneAchievementRequest
    → SavingsGoal
    → MilestoneTally
    → Result SavingsGoalError MilestoneTally
mark_goal caller req goal t =
    if not (goal.user == caller)
    then ok (refuse_milestone req.goal_id ErrorCode.unauthorized_user t)
    else if not (contains all_milestones req.milestone_percentage)
    then ok (refuse_milestone req.goal_id ErrorCode.invalid_milestone_percentage t)
    else if contains (triggered_percents t.state req.goal_id) req.milestone_percentage
    then ok (refuse_milestone req.goal_id ErrorCode.milestone_already_achieved t)
    else do
      progress ← progress_of goal
      if ltb progress req.milestone_percentage
          then ok (refuse_milestone req.goal_id ErrorCode.milestone_not_yet_achieved t)
          else achieve_milestone caller req goal t

unfoldable pub mark_milestone :
    Address → MilestoneAchievementRequest → MilestoneTally → Result SavingsGoalError MilestoneTally
mark_milestone caller req t = elim (t.state.goals req.goal_id) [
  | none ↦ ok (refuse_milestone req.goal_id ErrorCode.goal_not_found t)
  | some goal ↦ mark_goal caller req goal t
]

unfoldable pub mark_milestones :
    Address
    → List MilestoneAchievementRequest
    → MilestoneTally
    → Result SavingsGoalError MilestoneTally
mark_milestones caller [] t = ok t
mark_milestones caller (req ∷ reqs) t = do
  t' ← mark_milestone caller req t
  mark_milestones caller reqs t'

abbrev pub no_milestones : State → MilestoneTally
no_milestones s = record {
  results = [];
  successful = 0;
  failed = 0;
  last_milestone_id = unwrap_or s.last_milestone_id 0;
  total_percentage_points = 0;
  state = s;
}

unfoldable pub milestone_answer :
    Env → (batch_id request_count : ℕ) → MilestoneTally → BatchMilestoneResult
milestone_answer env batch_id request_count t = record {
  batch_id = batch_id;
  total_requests = request_count;
  successful = t.successful;
  failed = t.failed;
  results = t.results;
  metrics = record {
    total_requests = request_count;
    successful_milestones = t.successful;
    failed_milestones = t.failed;
    total_percentage_points = t.total_percentage_points;
    avg_percentage = if ltb 0 t.successful then t.total_percentage_points / t.successful else 0;
    processed_at = env.sequence;
  };
}

-- The number of the batch is answered and not stored.
unfoldable pub batch_mark_milestones :
    Env
    → Address
    → List MilestoneAchievementRequest
    → State
    → Result SavingsGoalError (BatchMilestoneResult × State)
batch_mark_milestones env caller requests s = do
  require_auth env caller
  batch_id ← add_u64 (unwrap_or s.last_batch_id 0) 1
  throw_if (length requests == 0) (contract_error empty_batch)
  throw_if (ltb max_batch_size (length requests)) (contract_error batch_too_large)
  t ← mark_milestones caller requests (no_milestones s)
  ok (milestone_answer env batch_id (length requests) t, t.state)
