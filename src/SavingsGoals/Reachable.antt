-- ===== src/SavingsGoals/Reachable.antt =====
-- Sequences of calls of contracts/savings-goals/src/lib.rs: every operation that writes, the open
-- check of milestones included.
use stellarspend_contracts.Common.{
  ℕ, suc, ◌≡◌, ◌≤◌, ◌⊎◌, subst, some, true, false, List, [], ◌∷◌, arith,
}
use stellarspend_contracts.Common.Int.{ℤ}
use stellarspend_contracts.Soroban.{
  Address, Symbol, Env, Result, ok, ok_or, ok_or-keeps, ◌>>=◌, >>=-succeeds,
}
use stellarspend_contracts.SavingsGoals.Types.{
  SavingsGoalError, SavingsGoalRequest, MilestoneAchievementRequest, Bytes, State,
}
use stellarspend_contracts.SavingsGoals.Goals.{initialize, batch_set_savings_goals}
use stellarspend_contracts.SavingsGoals.Funds.{
  contribute_to_goal, reverse_contribution, withdraw_from_goal, partial_withdraw,
}
use stellarspend_contracts.SavingsGoals.Milestones.{check_and_emit_milestones}
use stellarspend_contracts.SavingsGoals.Merging.{merge_goals}
use stellarspend_contracts.SavingsGoals.Upkeep.{
  clone_savings_goal, update_goal_name, record_goal_snapshot, set_admin,
}
use stellarspend_contracts.SavingsGoals.Marks.{batch_mark_milestones}
use stellarspend_contracts.SavingsGoals.Alerts.{
  set_default_alert_thresholds, set_goal_alert_thresholds, process_goal_alerts,
}
use stellarspend_contracts.SavingsGoals.Prerequisites.{has_dependency_path, set_goal_prerequisites}
use stellarspend_contracts.SavingsGoals.Reaches.{Reaches}
use stellarspend_contracts.SavingsGoals.Cycles.{enough_fuel, has_dependency_path_lem}
use stellarspend_contracts.SavingsGoals.Edits.{SameTerms-refl}
use stellarspend_contracts.SavingsGoals.InPlace.{
  contribute-IsEdit, check-IsEdit, reverse-IsEdit, withdraw-IsEdit, partial_withdraw-IsEdit,
  merge-IsEdit, update_goal_name-IsEdit, record_goal_snapshot-IsEdit,
}
use stellarspend_contracts.SavingsGoals.Notices.{
  set_default_alert_thresholds-IsEdit, set_goal_alert_thresholds-IsEdit, process_goal_alerts-IsEdit,
  batch_mark_milestones-IsEdit,
}
use stellarspend_contracts.SavingsGoals.Sound.{
  keeps_trans, IsSound, IsKept, last_goal, edit-IsKept, set_goal_prerequisites-IsKept,
  sound-StoredBelow,
}
use stellarspend_contracts.SavingsGoals.Batches.{
  batch_set_savings_goals-IsKept, clone_savings_goal-IsKept, initialize-IsKept, set_admin-IsKept,
}

pub data GoalCall : Type 0 where
  start : Address → GoalCall
  create : Address → List SavingsGoalRequest → GoalCall
  contribute : Address → ℕ → ℤ → Bytes → GoalCall
  reverse : Address → (goal_id contrib_id : ℕ) → GoalCall
  clone : Address → ℕ → Symbol → GoalCall
  withdraw withdraw_partly : Address → ℕ → ℤ → GoalCall
  merge : Address → (source target : ℕ) → GoalCall
  rename : Address → ℕ → Symbol → GoalCall
  snapshot : Address → ℕ → GoalCall
  hand_over : (current new : Address) → GoalCall
  mark : Address → List MilestoneAchievementRequest → GoalCall
  require : Address → ℕ → List ℕ → GoalCall
  set_defaults : Address → List ℕ → GoalCall
  set_thresholds : Address → ℕ → List ℕ → GoalCall
  check alert : ℕ → GoalCall

-- The state behind a call that answers something, too.
abbrev state_of : {A : Type 0} → Result SavingsGoalError (A × State) → Result SavingsGoalError State
state_of r = r >>= λ p. ok p.1

module _ (fuel : ℕ) where
  unfoldable pub make_call : Env → GoalCall → State → Result SavingsGoalError State
  make_call env (GoalCall.start admin) s = initialize admin s
  make_call env (GoalCall.create caller requests) s =
      state_of (batch_set_savings_goals env caller requests s)
  make_call env (GoalCall.contribute caller id amount token) s =
      state_of (contribute_to_goal env caller id amount token s)
  make_call env (GoalCall.reverse caller id contrib_id) s =
      state_of (reverse_contribution env caller id contrib_id s)
  make_call env (GoalCall.clone caller id name) s =
      state_of (clone_savings_goal env caller id name s)
  make_call env (GoalCall.withdraw caller id amount) s =
      state_of (withdraw_from_goal env caller id amount s)
  make_call env (GoalCall.withdraw_partly caller id amount) s =
      partial_withdraw env caller id amount s
  make_call env (GoalCall.merge caller source target) s = merge_goals env caller source target s
  make_call env (GoalCall.rename caller id name) s = update_goal_name env caller id name s
  make_call env (GoalCall.snapshot caller id) s = record_goal_snapshot env caller id s
  make_call env (GoalCall.hand_over current new) s = set_admin env current new s
  make_call env (GoalCall.mark caller reqs) s = state_of (batch_mark_milestones env caller reqs s)
  make_call env (GoalCall.require caller id ids) s = set_goal_prerequisites fuel env caller id ids s
  make_call env (GoalCall.set_defaults caller ts) s = set_default_alert_thresholds env caller ts s
  make_call env (GoalCall.set_thresholds caller id ts) s =
      set_goal_alert_thresholds env caller id ts s
  make_call env (GoalCall.check id) s = check_and_emit_milestones env id s
  make_call env (GoalCall.alert id) s = ok (process_goal_alerts env id s).1

  state_of_ok :
      {A : Type 0} (r : Result SavingsGoalError (A × State)) (s' : State)
      → state_of r ≡ ok s'
      → (a : A) × (r ≡ ok (a, s'))
  state_of_ok r s' h =
      let ((a, u), one, same) = >>=-succeeds r (λ p. ok p.1) h in
      let e : u ≡ s' = ground arith in (a, subst (λ x. r ≡ ok (a, x)) e one)

  call-IsKept :
      (env : Env) (call : GoalCall) (s s' : State)
      → make_call env call s ≡ ok s'
      → IsSound s
      → IsKept s s'
  unfolding make_call
  call-IsKept env (GoalCall.start admin) s s' h sound = initialize-IsKept admin s s' h sound
  call-IsKept env (GoalCall.create caller requests) s s' h sound =
      let (a, e) = state_of_ok (batch_set_savings_goals env caller requests s) s' h in
      batch_set_savings_goals-IsKept env caller requests s a s' e sound
  call-IsKept env (GoalCall.contribute caller id amount token) s s' h sound =
      let (a, e) = state_of_ok (contribute_to_goal env caller id amount token s) s' h in
      edit-IsKept s s' (contribute-IsEdit env caller id amount token s a s' e) sound
  call-IsKept env (GoalCall.reverse caller id contrib_id) s s' h sound =
      let (a, e) = state_of_ok (reverse_contribution env caller id contrib_id s) s' h in
      edit-IsKept s s' (reverse-IsEdit env caller id contrib_id s a s' e) sound
  call-IsKept env (GoalCall.clone caller id name) s s' h sound =
      let (a, e) = state_of_ok (clone_savings_goal env caller id name s) s' h in
      clone_savings_goal-IsKept env caller id name s a s' e sound
  call-IsKept env (GoalCall.withdraw caller id amount) s s' h sound =
      let (a, e) = state_of_ok (withdraw_from_goal env caller id amount s) s' h in
      edit-IsKept s s' (withdraw-IsEdit env caller id amount s a s' e) sound
  call-IsKept env (GoalCall.withdraw_partly caller id amount) s s' h sound =
      edit-IsKept s s' (partial_withdraw-IsEdit env caller id amount s s' h) sound
  call-IsKept env (GoalCall.merge caller source target) s s' h sound =
      edit-IsKept s s' (merge-IsEdit env caller source target s s' h) sound
  call-IsKept env (GoalCall.rename caller id name) s s' h sound =
      edit-IsKept s s' (update_goal_name-IsEdit env caller id name s s' h) sound
  call-IsKept env (GoalCall.snapshot caller id) s s' h sound =
      edit-IsKept s s' (record_goal_snapshot-IsEdit env caller id s s' h) sound
  call-IsKept env (GoalCall.hand_over current new) s s' h sound =
      set_admin-IsKept env current new s s' h sound
  call-IsKept env (GoalCall.mark caller reqs) s s' h sound =
      let (a, e) = state_of_ok (batch_mark_milestones env caller reqs s) s' h in
      edit-IsKept s s' (batch_mark_milestones-IsEdit env caller reqs s a s' e) sound
  call-IsKept env (GoalCall.require caller id ids) s s' h sound =
      set_goal_prerequisites-IsKept fuel env caller id ids s s' h sound
  call-IsKept env (GoalCall.set_defaults caller ts) s s' h sound =
      edit-IsKept s s' (set_default_alert_thresholds-IsEdit env caller ts s s' h) sound
  call-IsKept env (GoalCall.set_thresholds caller id ts) s s' h sound =
      edit-IsKept s s' (set_goal_alert_thresholds-IsEdit env caller id ts s s' h) sound
  call-IsKept env (GoalCall.check id) s s' h sound =
      edit-IsKept s s' (check-IsEdit env id s s' h) sound
  call-IsKept env (GoalCall.alert id) s s' h sound =
      let same : (process_goal_alerts env id s).1 ≡ s' = ground arith in
      edit-IsKept s s' (rw (← same) (process_goal_alerts-IsEdit env id s)) sound

  -- Calls that are tried one after the other; one that fails changes nothing.
  unfoldable pub try_calls : List (Env × GoalCall) → State → State
  try_calls [] s = s
  try_calls ((env, call) ∷ calls) s = try_calls calls (ok_or (make_call env call s) s)

  -- In every sequence of calls from a state with the invariant, failed calls among them, the
  -- invariant is kept, and every goal stays, with its number, owner, target, dates and penalty.
  pub try_calls-IsKept :
      (calls : List (Env × GoalCall)) (s : State) → IsSound s → IsKept s (try_calls calls s)
  unfolding try_calls
  try_calls-IsKept [] s sound = (sound, λ k goal stored. (goal, stored, SameTerms-refl goal))
  try_calls-IsKept ((env, call) ∷ calls) s sound =
      let run = make_call env call s in
      let (sound', keeps) =
        ok_or-keeps (IsKept s) run s (sound, λ k goal stored. (goal, stored, SameTerms-refl goal))
          (λ s' h. call-IsKept env call s s' h sound) in
      let (last, keeps') = try_calls-IsKept calls (ok_or run s) sound' in
      (last, keeps_trans s (ok_or run s) (try_calls calls (ok_or run s)) keeps keeps')

  -- In every state that calls make of one with the invariant, the search for a path of prerequisites
  -- ends, given a unit of fuel and one more for each stored prerequisite; it answers true if following
  -- prerequisites leads from the start to the target, and false if it does not.
  pub try_calls-search :
      (calls : List (Env × GoalCall)) (s : State) (from to enough : ℕ)
      → IsSound s
      → (let s' = try_calls calls s in enough_fuel (suc (last_goal s')) s' ≤ enough)
      → (let s' = try_calls calls s in
          ((has_dependency_path enough s' from to ≡ some true) × Reaches s'.goal_prereqs to from)
          ⊎ ((has_dependency_path enough s' from to ≡ some false)
              × (¬ Reaches s'.goal_prereqs to from)))
  try_calls-search calls s from to enough sound fueled =
      let s' = try_calls calls s in
      let (sound', _) = try_calls-IsKept calls s sound in
      has_dependency_path_lem (suc (last_goal s')) enough s' from to (sound-StoredBelow s' sound')
        fueled
