-- ===== src/SavingsGoals/Notices.antt =====
-- The calls of contracts/savings-goals/src/lib.rs that leave every goal as it is.
use stellarspend_contracts.Common.{
  ℕ, ◌≡◌, inl, inr, refl, not, ◌||◌, leb, ◌-◌, List, [], ◌∷◌, arith, Bool-cases, Option-cases,
}
use stellarspend_contracts.Soroban.{Address, Env, ok, Result-cases, >>=-succeeds}
use stellarspend_contracts.SavingsGoals.Types.{
  SavingsGoal, State, MilestoneAchievementRequest, BatchMilestoneResult,
}
use stellarspend_contracts.SavingsGoals.Alerts.{
  set_goal_alert_thresholds, set_default_alert_thresholds, send_alert, send_alerts,
  process_goal_alerts, get_goal_alert_thresholds,
}
use stellarspend_contracts.SavingsGoals.Goals.{require_admin}
use stellarspend_contracts.SavingsGoals.Marks.{
  MilestoneTally, refuse_milestone, achieve_milestone, mark_goal, mark_milestone, mark_milestones,
  batch_mark_milestones, no_milestones,
}
use stellarspend_contracts.SavingsGoals.Edits.{IsEdit, IsEdit-trans, IsEdit-of}

IsEdit-refl : (s : State) → IsEdit s s
IsEdit-refl s = IsEdit-of s s refl refl refl refl

pub set_default_alert_thresholds-IsEdit :
    (env : Env) (caller : Address) (thresholds : List ℕ) (s s' : State)
    → set_default_alert_thresholds env caller thresholds s ≡ ok s'
    → IsEdit s s'
unfolding set_default_alert_thresholds require_admin
set_default_alert_thresholds-IsEdit env caller thresholds s s' h =
    IsEdit-of s s' (ground arith) (ground arith) (ground arith) (ground arith)

pub set_goal_alert_thresholds-IsEdit :
    (env : Env) (caller : Address) (goal_id : ℕ) (thresholds : List ℕ) (s s' : State)
    → set_goal_alert_thresholds env caller goal_id thresholds s ≡ ok s'
    → IsEdit s s'
unfolding set_goal_alert_thresholds require_admin
set_goal_alert_thresholds-IsEdit env caller goal_id thresholds s s' h =
    IsEdit-of s s' (ground arith) (ground arith) (ground arith) (ground arith)

send_alert-IsEdit :
    (goal : SavingsGoal) (goal_id remaining threshold emitted : ℕ) (s : State)
    → IsEdit s (send_alert goal goal_id remaining threshold (emitted, s)).1
unfolding send_alert
send_alert-IsEdit goal goal_id remaining threshold emitted s =
    IsEdit-of s _ (ground arith) (ground arith) (ground arith) (ground arith)

send_alerts-IsEdit :
    (goal : SavingsGoal) (goal_id remaining : ℕ) (thresholds : List ℕ) (emitted : ℕ) (s : State)
    → IsEdit s (send_alerts goal goal_id remaining thresholds (emitted, s)).1
unfolding send_alerts
send_alerts-IsEdit goal goal_id remaining [] emitted s = IsEdit-refl s
send_alerts-IsEdit goal goal_id remaining (t ∷ thresholds) emitted s =
    let r = send_alert goal goal_id remaining t (emitted, s) in
    IsEdit-trans (send_alert-IsEdit goal goal_id remaining t emitted s)
      (send_alerts-IsEdit goal goal_id remaining thresholds r.0 r.1)

pub process_goal_alerts-IsEdit :
    (env : Env) (goal_id : ℕ) (s : State) → IsEdit s (process_goal_alerts env goal_id s).1
unfolding process_goal_alerts
process_goal_alerts-IsEdit env goal_id s = elim (Option-cases (s.goals goal_id)) [
  | inl missing ↦ rw (process_goal_alerts, missing) (IsEdit-refl s)
  | inr (goal, stored) ↦
      elim (Bool-cases (not goal.is_active || goal.is_complete || leb goal.deadline env.sequence)) [
        | inl rests ↦ rw (process_goal_alerts, stored, rests) (IsEdit-refl s)
        | inr due ↦
            rw (process_goal_alerts, stored, due)
              (send_alerts-IsEdit goal goal_id (goal.deadline - env.sequence)
                (get_goal_alert_thresholds s goal_id) 0 s)
      ]
]

achieve_milestone-IsEdit :
    (caller : Address) (req : MilestoneAchievementRequest) (goal : SavingsGoal)
    (t t' : MilestoneTally)
    → achieve_milestone caller req goal t ≡ ok t'
    → IsEdit t.state t'.state
unfolding achieve_milestone
achieve_milestone-IsEdit caller req goal t t' h =
    IsEdit-of t.state t'.state (ground arith) (ground arith) (ground arith) (ground arith)

mark_goal-IsEdit :
    (caller : Address) (req : MilestoneAchievementRequest) (goal : SavingsGoal)
    (t t' : MilestoneTally)
    → mark_goal caller req goal t ≡ ok t'
    → IsEdit t.state t'.state
unfolding mark_goal refuse_milestone achieve_milestone
mark_goal-IsEdit caller req goal t t' h =
    IsEdit-of t.state t'.state (ground arith) (ground arith) (ground arith) (ground arith)

mark_milestones-IsEdit :
    (caller : Address) (reqs : List MilestoneAchievementRequest) (t t' : MilestoneTally)
    → mark_milestones caller reqs t ≡ ok t'
    → IsEdit t.state t'.state
unfolding mark_milestones mark_milestone refuse_milestone
mark_milestones-IsEdit caller [] t t' h =
    let same : t ≡ t' = cc in rw (← same) (IsEdit-refl t.state)
mark_milestones-IsEdit caller (req ∷ reqs) t t' h =
    let (u, one, rest) =
      >>=-succeeds (mark_milestone caller req t) (λ u. mark_milestones caller reqs u) h in
    elim (Option-cases (t.state.goals req.goal_id)) [
      | inl missing ↦
          IsEdit-trans
            (IsEdit-of t.state u.state (ground arith) (ground arith) (ground arith) (ground arith))
            (mark_milestones-IsEdit caller reqs u t' rest)
      | inr (goal, stored) ↦
          let marked : mark_goal caller req goal t ≡ ok u = ground arith in
          IsEdit-trans (mark_goal-IsEdit caller req goal t u marked)
            (mark_milestones-IsEdit caller reqs u t' rest)
    ]

pub batch_mark_milestones-IsEdit :
    (env : Env) (caller : Address) (reqs : List MilestoneAchievementRequest) (s : State)
    (answer : BatchMilestoneResult) (s' : State)
    → batch_mark_milestones env caller reqs s ≡ ok (answer, s')
    → IsEdit s s'
unfolding batch_mark_milestones
batch_mark_milestones-IsEdit env caller reqs s answer s' h =
    elim (Result-cases (mark_milestones caller reqs (no_milestones s))) [
      | inl (_, refused) ↦ absurd (ground arith)
      | inr (t, marked) ↦
          let same : s' ≡ t.state = ground arith in
          rw same (mark_milestones-IsEdit caller reqs (no_milestones s) t marked)
    ]
