-- ===== src/SavingsGoals/Frozen.antt =====
-- contracts/savings-goals/src/lib.rs: a goal that is neither active nor complete.
use stellarspend_contracts.Common.{ℕ, ◌≡◌, ◌⊎◌, ◌≢◌, true, false, some, arith, insert_self}
use stellarspend_contracts.Common.Int.{ℤ, ◌<ℤ◌, leb_ℤ}
use stellarspend_contracts.Soroban.{Address, Env, ok}
use stellarspend_contracts.SavingsGoals.Types.{SavingsGoal, State, Bytes}
use stellarspend_contracts.SavingsGoals.Funds.{
  contribute_to_goal, withdraw_from_goal, partial_withdraw, reverse_contribution, reduced,
}
use stellarspend_contracts.SavingsGoals.Merging.{merge_goals}
use stellarspend_contracts.SavingsGoals.Contributions.{contribute_ok, reverse_ok}
use stellarspend_contracts.SavingsGoals.Withdrawals.{withdraw_ok, partial_withdraw_ok}
use stellarspend_contracts.SavingsGoals.Merges.{merge_ok}

-- Nobody can contribute to a goal, withdraw from it or merge it.
pub record IsFrozen (goal_id : ℕ) (s : State) : Type 0 where
  pub contributing :
      (env : Env) (caller : Address) (amount : ℤ) (token : Bytes) (r : ℕ × State)
      → contribute_to_goal env caller goal_id amount token s ≢ ok r
  pub withdrawing :
      (env : Env) (caller : Address) (amount : ℤ) (r : ℤ × State)
      → withdraw_from_goal env caller goal_id amount s ≢ ok r
  pub withdrawing_partly :
      (env : Env) (caller : Address) (amount : ℤ) (s' : State)
      → partial_withdraw env caller goal_id amount s ≢ ok s'
  pub merging :
      (env : Env) (caller : Address) (other : ℕ) (s' : State)
      → merge_goals env caller goal_id other s ≢ ok s'
  pub merging_into :
      (env : Env) (caller : Address) (other : ℕ) (s' : State)
      → merge_goals env caller other goal_id s ≢ ok s'

-- A goal that is neither active nor complete is frozen.
IsFrozen-of :
    (goal_id : ℕ) (goal : SavingsGoal) (s : State)
    → s.goals goal_id ≡ some goal
    → goal.is_active ≡ false
    → goal.is_complete ≡ false
    → IsFrozen goal_id s
IsFrozen-of goal_id goal s stored inactive incomplete = record {
  contributing = λ env caller amount token r h.
      let c = contribute_ok env caller goal_id amount token s r.0 r.1 h in
      let same : c.goal ≡ goal = cc (c.stored, stored) in
      let active : goal.is_active ≡ true = rw (← same) c.active in ground arith;
  withdrawing = λ env caller amount r h.
      let w = withdraw_ok env caller goal_id amount s r.0 r.1 h in
      let same : w.goal ≡ goal = cc (w.stored, stored) in
      let live : (goal.is_active ≡ true) ⊎ (goal.is_complete ≡ true) =
        rw (← same) w.withdrawable.live in
      ground arith;
  withdrawing_partly = λ env caller amount s' h.
      let w = partial_withdraw_ok env caller goal_id amount s s' h in
      let same : w.goal ≡ goal = cc (w.stored, stored) in
      let live : (goal.is_active ≡ true) ⊎ (goal.is_complete ≡ true) =
        rw (← same) w.withdrawable.live in
      ground arith;
  merging = λ env caller other s' h.
      let m = merge_ok env caller goal_id other s s' h in
      let same : m.source ≡ goal = cc (m.source_stored, stored) in
      let active' : goal.is_active ≡ true = rw (← same) m.source_active in ground arith;
  merging_into = λ env caller other s' h.
      let m = merge_ok env caller other goal_id s s' h in
      let same : m.target ≡ goal = cc (m.target_stored, stored) in
      let active' : goal.is_active ≡ true = rw (← same) m.target_active in ground arith;
}

-- After a successful withdrawal from a stored goal that was not active, which leaves less than the
-- target, every contribution to the goal, withdrawal from it and merge of it fails, for every caller.
pub withdraw_from_closed-IsFrozen :
    (env : Env) (caller : Address) (goal_id : ℕ) (amount : ℤ) (s : State) (left : ℤ) (s' : State)
    (goal : SavingsGoal)
    → withdraw_from_goal env caller goal_id amount s ≡ ok (left, s')
    → s.goals goal_id ≡ some goal
    → goal.is_active ≡ false
    → left <ℤ goal.target_amount
    → IsFrozen goal_id s'
withdraw_from_closed-IsFrozen env caller goal_id amount s left s' goal h stored inactive short =
    let w = withdraw_ok env caller goal_id amount s left s' h in
    let same : w.goal ≡ goal = cc (w.stored, stored) in
    let goal' = record w.goal {
      current_amount = left;
      is_complete = leb_ℤ w.goal.target_amount left;
    } in
    IsFrozen-of goal_id goal' s' (rw w.after (insert_self goal_id goal' s.goals)) (rw same inactive)
      (rw same (ground arith))

-- So does the reversal of a contribution to a goal that was closed.
pub reverse_from_closed-IsFrozen :
    (env : Env) (caller : Address) (goal_id contrib_id : ℕ) (s : State) (left : ℤ) (s' : State)
    (goal : SavingsGoal)
    → reverse_contribution env caller goal_id contrib_id s ≡ ok (left, s')
    → s.goals goal_id ≡ some goal
    → goal.is_active ≡ false
    → left <ℤ goal.target_amount
    → IsFrozen goal_id s'
reverse_from_closed-IsFrozen env caller goal_id contrib_id s left s' goal h stored inactive short =
    let r = reverse_ok env caller goal_id contrib_id s left s' h in
    let same : r.goal ≡ goal = cc (r.stored, stored) in
    let goal' = reduced env r.goal r.contribution in
    let short' : goal'.current_amount <ℤ goal.target_amount = rw (← r.result) short in
    IsFrozen-of goal_id goal' s' (rw r.after (insert_self goal_id goal' s.goals)) (rw same inactive)
      (rw same (ground arith))
