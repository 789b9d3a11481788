-- ===== src/SavingsGoals/Alerts.antt =====
-- contracts/savings-goals/src/lib.rs: the alerts before a deadline, and `contributions_due`.
use stellarspend_contracts.Common.{
  ℕ, ◌+◌, ◌-◌, ◌/◌, true, not, ◌&&◌, ◌||◌, none, some, List, [], ◌∷◌, ◌==◌, ltb, leb, contains,
  insert, insert_pair, unwrap_or, push_back, length, if◌then◌else◌,
}
use stellarspend_contracts.Common.Int.{saturating_sub}
use stellarspend_contracts.Soroban.{
  Address, Env, contract_error, Result, ok, ◌>>=◌, ◌>>◌, throw_if, or_throw, require_auth,
}
use stellarspend_contracts.SavingsGoals.Types.{
  SavingsGoal, GoalEvent, SavingsGoalError, State, publish, goal_not_found, invalid_alert_threshold,
}
use stellarspend_contracts.SavingsGoals.Validation.{is_set}
use stellarspend_contracts.SavingsGoals.Goals.{require_admin, default_deadline_alert_thresholds}

unfoldable pub get_goal_alert_thresholds : State → ℕ → List ℕ
get_goal_alert_thresholds s goal_id =
    unwrap_or (s.goal_alert_thresholds goal_id)
      (unwrap_or s.default_alert_thresholds default_deadline_alert_thresholds)

abbrev sent_of : State → ℕ → List ℕ → List ℕ
sent_of s goal_id [] = []
sent_of s goal_id (threshold ∷ thresholds) =
    if is_set (s.goal_alert_sent goal_id threshold)
    then threshold ∷ sent_of s goal_id thresholds
    else sent_of s goal_id thresholds

unfoldable pub get_goal_alerts_emitted : State → ℕ → List ℕ
get_goal_alerts_emitted s goal_id = sent_of s goal_id (get_goal_alert_thresholds s goal_id)

-- The loop of `normalize_deadline_alert_thresholds`.
unfoldable pub normalize_onto : (normalized thresholds : List ℕ) → List ℕ
normalize_onto normalized [] = normalized
normalize_onto normalized (threshold ∷ thresholds) =
    normalize_onto
      (if ltb 0 threshold && not (contains normalized threshold)
        then push_back normalized threshold
        else normalized)
      thresholds

abbrev pub normalize_deadline_alert_thresholds : List ℕ → List ℕ
normalize_deadline_alert_thresholds thresholds = normalize_onto [] thresholds

unfoldable pub set_default_alert_thresholds :
    Env → Address → List ℕ → State → Result SavingsGoalError State
set_default_alert_thresholds env caller thresholds s = do
  require_auth env caller
  require_admin s caller
  let normalized = normalize_deadline_alert_thresholds thresholds
  throw_if (length normalized == 0) (contract_error invalid_alert_threshold)
  ok (record s { default_alert_thresholds = some normalized })

unfoldable pub set_goal_alert_thresholds :
    Env → Address → ℕ → List ℕ → State → Result SavingsGoalError State
set_goal_alert_thresholds env caller goal_id thresholds s = do
  require_auth env caller
  goal ← or_throw (s.goals goal_id) (contract_error goal_not_found)
  if not (caller == goal.user) then require_admin s caller else ok tt
  let normalized = normalize_deadline_alert_thresholds thresholds
  throw_if (length normalized == 0) (contract_error invalid_alert_threshold)
  ok (
      publish (GoalEvent.deadline_alert_thresholds_updated goal_id goal.user (length normalized))
        (record s { goal_alert_thresholds = insert goal_id normalized s.goal_alert_thresholds }))

-- One round of the loop over the thresholds.
unfoldable pub send_alert :
    SavingsGoal → (goal_id remaining_ledgers threshold : ℕ) → ℕ × State → ℕ × State
send_alert goal goal_id remaining_ledgers threshold (emitted, s) =
    if leb remaining_ledgers threshold && not (is_set (s.goal_alert_sent goal_id threshold))
    then (
      emitted + 1,
      record (publish
          (GoalEvent.deadline_alert goal_id goal.user threshold remaining_ledgers
            (saturating_sub goal.target_amount goal.current_amount))
          s) { goal_alert_sent = insert_pair goal_id threshold true s.goal_alert_sent },
    )
    else (emitted, s)

unfoldable pub send_alerts :
    SavingsGoal → (goal_id remaining_ledgers : ℕ) → List ℕ → ℕ × State → ℕ × State
send_alerts goal goal_id remaining_ledgers [] r = r
send_alerts goal goal_id remaining_ledgers (threshold ∷ thresholds) r =
    send_alerts goal goal_id remaining_ledgers thresholds
      (send_alert goal goal_id remaining_ledgers threshold r)

-- The number of alerts is at most the number of thresholds, which `u32` counts.
unfoldable pub process_goal_alerts : Env → ℕ → State → ℕ × State
process_goal_alerts env goal_id s = elim (s.goals goal_id) [
  | none ↦ (0, s)
  | some goal ↦
      if not goal.is_active || goal.is_complete || leb goal.deadline env.sequence
      then (0, s)
      else send_alerts goal goal_id (goal.deadline - env.sequence)
          (get_goal_alert_thresholds s goal_id) (0, s)
]

unfoldable pub contributions_due : Env → (last_contributed_at interval_seconds : ℕ) → ℕ
contributions_due env last_contributed_at interval_seconds =
    if interval_seconds == 0
    then 0
    else if leb env.timestamp last_contributed_at
    then 0
    else (env.timestamp - last_contributed_at) / interval_seconds
