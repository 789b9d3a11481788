-- ===== src/SavingsGoals/Milestones.antt =====
-- contracts/savings-goals/src/lib.rs: the progress of a goal, and `check_and_emit_milestones`.
use stellarspend_contracts.Common.{
  ℕ, Bool, true, false, not, ◌&&◌, Option, none, some, List, [], ◌∷◌, contains, push_back, leb, ltb,
  ◌==◌, insert, unwrap_or, if◌then◌else◌,
}
use stellarspend_contracts.Common.Int.{pos, pos_part, leb_ℤ, ltb_ℤ, div_ℤ, to_u32}
use stellarspend_contracts.Soroban.{Env, Result, ok, ◌>>=◌, mul_i128}
use stellarspend_contracts.SavingsGoals.Types.{
  SavingsGoal, SavingsGoalProgress, GoalCertificate, GoalEvent, SavingsGoalError, State, publish,
  set_goal,
}
use stellarspend_contracts.SavingsGoals.Validation.{is_set}

-- `if target > 0 { (current * 100 / target) as u32 } else { 0 }`
unfoldable pub progress_of : SavingsGoal → Result SavingsGoalError ℕ
progress_of goal =
    if ltb_ℤ (pos 0) goal.target_amount
    then (do
      hundredfold ← mul_i128 goal.current_amount (pos 100)
      ok (to_u32 (div_ℤ hundredfold (pos_part goal.target_amount))))
    else ok 0

abbrev pub cap_100 : ℕ → ℕ
cap_100 progress = if ltb 100 progress then 100 else progress

abbrev pub triggered_percents : State → ℕ → List ℕ
triggered_percents s goal_id = unwrap_or (s.goal_milestones_percent goal_id) []

-- `goal.is_complete != is_complete`
abbrev differ : Bool → Bool → Bool
differ a b = if a then not b else b

-- The goal with its completion brought up to date.
abbrev pub refreshed : SavingsGoal → SavingsGoal
refreshed goal = record goal { is_complete = leb_ℤ goal.target_amount goal.current_amount }

-- `if goal.is_complete != is_complete { .. }`
unfoldable pub refresh_complete : ℕ → SavingsGoal → State → State
refresh_complete goal_id goal s =
    if differ goal.is_complete (refreshed goal).is_complete
    then if (refreshed goal).is_complete
      then publish (GoalEvent.goal_completed goal_id goal.user goal.target_amount)
          (set_goal goal_id (refreshed goal) s)
      else set_goal goal_id (refreshed goal) s
    else s

-- The variables of the loop over the milestones.
pub record Emission : Type 0 where
  pub triggered : List ℕ
  pub newly_triggered_100 : Bool
  pub state : State

unfoldable pub emit_milestone : (goal_id progress milestone : ℕ) → Emission → Emission
emit_milestone goal_id progress milestone e =
    if leb milestone progress && not (contains e.triggered milestone)
    then record {
      triggered = push_back e.triggered milestone;
      newly_triggered_100 = if milestone == 100 then true else e.newly_triggered_100;
      state = publish (GoalEvent.milestone_achieved_percent goal_id milestone) e.state;
    }
    else e

unfoldable pub emit_milestones : (goal_id progress : ℕ) → List ℕ → Emission → Emission
emit_milestones goal_id progress [] e = e
emit_milestones goal_id progress (milestone ∷ milestones) e =
    emit_milestones goal_id progress milestones (emit_milestone goal_id progress milestone e)

abbrev pub all_milestones : List ℕ
all_milestones = 25 ∷ 50 ∷ 75 ∷ 100 ∷ []

-- The goal is closed the first time 100% is reached.
unfoldable pub close_goal : Env → ℕ → SavingsGoal → State → State
close_goal env goal_id goal s =
    publish (GoalEvent.goal_closed goal_id goal.user goal.current_amount env.sequence) (record s {
      goals = insert goal_id (record goal { is_active = false }) s.goals;
      goal_closed_at = insert goal_id env.sequence s.goal_closed_at;
    })

-- A certificate is issued once.
unfoldable pub issue_certificate : Env → ℕ → SavingsGoal → State → State
issue_certificate env goal_id goal s =
    let certificate : GoalCertificate = record {
      goal_id = goal_id;
      user = goal.user;
      target_amount = goal.target_amount;
      issued_at = env.timestamp;
    } in
    if is_set (s.certificates goal_id)
    then s
    else record s { certificates = insert goal_id certificate s.certificates }

-- The part behind the loop.
unfoldable pub finish_milestones : Env → ℕ → SavingsGoal → Emission → State
finish_milestones env goal_id goal e =
    let s₁ = record e.state {
      goal_milestones_percent = insert goal_id e.triggered e.state.goal_milestones_percent;
    } in
    let s₂ =
      if e.newly_triggered_100 && goal.is_active then close_goal env goal_id goal s₁ else s₁ in
    if e.newly_triggered_100 then issue_certificate env goal_id goal s₂ else s₂

-- The part behind the look-up of the goal.
unfoldable pub check_goal : Env → ℕ → SavingsGoal → State → Result SavingsGoalError State
check_goal env goal_id goal s = do
  progress ← progress_of goal
  let start : Emission = record {
    triggered = triggered_percents s goal_id;
    newly_triggered_100 = false;
    state = refresh_complete goal_id goal s;
  }
  ok (
      finish_milestones env goal_id (refreshed goal)
        (emit_milestones goal_id (cap_100 progress) all_milestones start))

unfoldable pub check_and_emit_milestones : Env → ℕ → State → Result SavingsGoalError State
check_and_emit_milestones env goal_id s = elim (s.goals goal_id) [
  | none ↦ ok s
  | some goal ↦ check_goal env goal_id goal s
]

unfoldable pub get_goal_progress : State → ℕ → Result SavingsGoalError (Option SavingsGoalProgress)
get_goal_progress s goal_id = elim (s.goals goal_id) [
  | none ↦ ok none
  | some goal ↦ do
    progress ← progress_of goal
    ok (
        some (record {
          goal_id = goal.goal_id;
          current_amount = goal.current_amount;
          target_amount = goal.target_amount;
          progress_percentage = cap_100 progress;
          is_complete = leb_ℤ goal.target_amount goal.current_amount;
        }))
]
