-- ===== src/SavingsGoals/Funds.antt =====
-- contracts/savings-goals/src/lib.rs: contributions and withdrawals.
use stellarspend_contracts.Common.{
  ℕ, Bool, true, false, not, ◌&&◌, none, some, List, [], ◌∷◌, ◌==◌, ltb, leb, Map, insert,
  insert_pair, unwrap_or, if◌then◌else◌,
}
use stellarspend_contracts.Common.Int.{
  ℤ, pos, ltb_ℤ, leb_ℤ, div_ℤ, i128_max, checked_add, checked_sub, saturating_sub,
  saturating_add_u64,
}
use stellarspend_contracts.Soroban.{
  Address, Env, contract_error, overflowed, Result, ok, ◌>>=◌, ◌>>◌, throw_if, or_throw,
  require_auth, add_u64, mul_i128,
}
use stellarspend_contracts.SavingsGoals.Types.{
  Bytes, SavingsGoal, ContributionRecord, GoalEvent, SavingsGoalError, State, publish, set_goal,
  reversal_period_secs, unauthorized, invalid_batch, invalid_amount, insufficient_balance,
  goal_not_active, goal_not_found, goal_locked, goal_expired, dependency_not_met, reversal_expired,
  contribution_not_found, duplicate_contribution_request,
}
use stellarspend_contracts.SavingsGoals.Validation.{is_set}
use stellarspend_contracts.SavingsGoals.Milestones.{check_and_emit_milestones}

-- The loop over the prerequisites: each must exist and be complete.
unfoldable pub check_prereqs : State → List ℕ → Result SavingsGoalError (Unit {0})
check_prereqs s [] = ok tt
check_prereqs s (pid ∷ pids) = do
  pgoal ← or_throw (s.goals pid) (contract_error goal_not_found)
  throw_if (not pgoal.is_complete) (contract_error dependency_not_met)
  check_prereqs s pids

-- `goal.expires_at > 0 && current_time >= goal.expires_at`. The write in this branch is undone by
-- the panic that follows it.
abbrev pub is_expired : Env → SavingsGoal → Bool
is_expired env goal = ltb 0 goal.expires_at && leb goal.expires_at env.timestamp

-- The goal after a contribution, which is cut at the target.
unfoldable pub contributed : SavingsGoal → ℤ → SavingsGoal
contributed goal amount =
    let new_amount = unwrap_or (checked_add goal.current_amount amount) (pos i128_max) in
    let current_amount =
      if ltb_ℤ goal.target_amount new_amount then goal.target_amount else new_amount in
    record goal {
      current_amount = current_amount;
      is_complete = leb_ℤ goal.target_amount current_amount;
    }

unfoldable pub actual_contribution : SavingsGoal → ℤ → ℤ
actual_contribution goal amount =
    let new_amount = unwrap_or (checked_add goal.current_amount amount) (pos i128_max) in
    if ltb_ℤ goal.target_amount new_amount
    then saturating_sub goal.target_amount goal.current_amount
    else amount

-- A write under a token of a contributor for a goal.
abbrev pub insert_token : Address → ℕ → Bytes → ℕ → (Address → ℕ → Map ℕ) → Address → ℕ → Map ℕ
insert_token caller goal_id token id m a =
    if caller == a then insert_pair goal_id token id (m a) else m a

module _ (env : Env) where
  abbrev pub new_contribution : ℤ → Bytes → SavingsGoal → ContributionRecord
  new_contribution amount idempotency_token goal = record {
    amount = actual_contribution goal amount;
    contributed_at = env.timestamp;
    idempotency_token = idempotency_token;
    reversed = false;
  }

  -- The writes of a contribution.
  abbrev pub book_contribution :
      Address → ℕ → ℤ → Bytes → SavingsGoal → (contrib_id : ℕ) → State → State
  book_contribution caller goal_id amount idempotency_token goal contrib_id s = record s {
    goals = insert goal_id (contributed goal amount) s.goals;
    contributions =
        insert_pair goal_id contrib_id (new_contribution amount idempotency_token goal)
          s.contributions;
    last_contrib_id = insert goal_id contrib_id s.last_contrib_id;
    contribution_idempotency =
        insert_token caller goal_id idempotency_token contrib_id s.contribution_idempotency;
  }

  -- The part of a contribution behind its checks.
  unfoldable pub store_contribution :
      Address → ℕ → ℤ → Bytes → SavingsGoal → State → Result SavingsGoalError (ℕ × State)
  store_contribution caller goal_id amount idempotency_token goal s = do
    contrib_id ← add_u64 (unwrap_or (s.last_contrib_id goal_id) 0) 1
    s₁ ←
        check_and_emit_milestones env goal_id
          (book_contribution caller goal_id amount idempotency_token goal contrib_id s)
    ok (
      contrib_id,
      publish
          (GoalEvent.goal_contributed goal_id caller (actual_contribution goal amount)
            (contributed goal amount).current_amount)
          s₁,
    )

  unfoldable pub contribute_to_goal :
      Address → ℕ → ℤ → Bytes → State → Result SavingsGoalError (ℕ × State)
  contribute_to_goal caller goal_id amount idempotency_token s = do
    require_auth env caller
    throw_if (leb_ℤ amount (pos 0)) (contract_error invalid_amount)
    throw_if (idempotency_token == 0) (contract_error duplicate_contribution_request)
    goal ← or_throw (s.goals goal_id) (contract_error goal_not_found)
    throw_if (not (goal.user == caller)) (contract_error unauthorized)
    throw_if (is_set (s.contribution_idempotency caller goal_id idempotency_token))
        (contract_error duplicate_contribution_request)
    throw_if (is_expired env goal) (contract_error goal_expired)
    throw_if (not goal.is_active) (contract_error goal_not_active)
    check_prereqs s (unwrap_or (s.goal_prereqs goal_id) [])
    store_contribution caller goal_id amount idempotency_token goal s

  -- The goal after a reversal.
  abbrev pub reduced : SavingsGoal → ContributionRecord → SavingsGoal
  reduced goal contribution =
      let current_amount = saturating_sub goal.current_amount contribution.amount in
      record goal {
        current_amount = current_amount;
        is_complete = leb_ℤ goal.target_amount current_amount;
      }

  unfoldable pub reverse_contribution :
      Address → (goal_id contrib_id : ℕ) → State → Result SavingsGoalError (ℤ × State)
  reverse_contribution caller goal_id contrib_id s = do
    require_auth env caller
    goal ← or_throw (s.goals goal_id) (contract_error goal_not_found)
    throw_if (not (goal.user == caller)) (contract_error unauthorized)
    contribution ←
        or_throw (s.contributions goal_id contrib_id) (contract_error contribution_not_found)
    throw_if contribution.reversed (contract_error contribution_not_found)
    throw_if
        (ltb (saturating_add_u64 contribution.contributed_at reversal_period_secs) env.timestamp)
        (contract_error reversal_expired)
    let goal' = reduced goal contribution
    ok (
      goal'.current_amount,
      record s {
        contributions =
            insert_pair goal_id contrib_id (record contribution { reversed = true })
              s.contributions;
        goals = insert goal_id goal' s.goals;
      },
    )

  -- `goal.unlock_at > 0 && now < goal.unlock_at`
  abbrev pub is_locked : SavingsGoal → Bool
  is_locked goal = ltb 0 goal.unlock_at && ltb env.timestamp goal.unlock_at

  unfoldable pub is_goal_locked : State → ℕ → Bool
  is_goal_locked s goal_id = elim (s.goals goal_id) [ none ↦ false | some goal ↦ is_locked goal ]

  -- The amount with the penalty, which a complete goal does not pay.
  unfoldable pub gross_of : SavingsGoal → ℤ → Result SavingsGoalError ℤ
  gross_of goal amount = do
    penalty ←
        if goal.is_complete
        then ok (pos 0)
        else (do product ← mul_i128 amount (pos goal.penalty_bps); ok (div_ℤ product 10_000))
    ok (unwrap_or (checked_add amount penalty) (pos i128_max))

  -- The guards that the two withdrawals share, behind the look-up of the goal, and the gross amount.
  unfoldable pub check_withdrawal : Address → ℤ → SavingsGoal → Result SavingsGoalError ℤ
  check_withdrawal caller amount goal = do
    throw_if (not (goal.user == caller)) (contract_error unauthorized)
    throw_if (not goal.is_active && not goal.is_complete) (contract_error goal_not_active)
    throw_if (is_locked goal) (contract_error goal_locked)
    gross_amount ← gross_of goal amount
    throw_if (ltb_ℤ goal.current_amount gross_amount) (contract_error insufficient_balance)
    ok gross_amount

  unfoldable pub withdraw_from_goal : Address → ℕ → ℤ → State → Result SavingsGoalError (ℤ × State)
  withdraw_from_goal caller goal_id amount s = do
    require_auth env caller
    throw_if (leb_ℤ amount (pos 0)) (contract_error invalid_amount)
    goal ← or_throw (s.goals goal_id) (contract_error goal_not_found)
    gross_amount ← check_withdrawal caller amount goal
    current_amount ← or_throw (checked_sub goal.current_amount gross_amount) overflowed
    let goal' = record goal {
      current_amount = current_amount;
      is_complete = leb_ℤ goal.target_amount current_amount;
    }
    ok (
      current_amount,
      publish (GoalEvent.goal_withdrawn goal_id caller amount current_amount)
          (set_goal goal_id goal' s),
    )

  -- The goal after a partial withdrawal: one that was complete and is no longer is active again.
  abbrev pub partly_withdrawn : SavingsGoal → ℤ → SavingsGoal
  partly_withdrawn goal gross_amount =
      let current_amount = unwrap_or (checked_sub goal.current_amount gross_amount) (pos 0) in
      let is_complete = leb_ℤ goal.target_amount current_amount in
      record goal {
        current_amount = current_amount;
        is_complete = is_complete;
        is_active = if goal.is_complete && not is_complete then true else goal.is_active;
      }

  unfoldable pub partial_withdraw : Address → ℕ → ℤ → State → Result SavingsGoalError State
  partial_withdraw caller goal_id amount s = do
    require_auth env caller
    throw_if (leb_ℤ amount (pos 0)) (contract_error invalid_batch)
    goal ← or_throw (s.goals goal_id) (contract_error invalid_batch)
    gross_amount ← check_withdrawal caller amount goal
    let goal' = partly_withdrawn goal gross_amount
    s₁ ← check_and_emit_milestones env goal_id (set_goal goal_id goal' s)
    ok (publish (GoalEvent.partial_withdrawal goal_id caller amount goal'.current_amount) s₁)
