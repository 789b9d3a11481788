-- ===== src/SavingsGoals/Contributions.antt =====
-- Successful contributions and reversals of contracts/savings-goals/src/lib.rs.
use stellarspend_contracts.Common.{
  ℕ, ◌+◌, ◌≡◌, ◌≤◌, ◌≢◌, inl, inr, ap, true, false, some, none, [], Map, arith, Option-cases,
  insert, insert_pair, unwrap_or, insert_self,
}
use stellarspend_contracts.Common.Int.{ℤ, pos, ◌<ℤ◌, checked_add_u64, saturating_add_u64}
use stellarspend_contracts.Soroban.{Address, Env, ok, Result-cases}
use stellarspend_contracts.SavingsGoals.Types.{
  SavingsGoal, ContributionRecord, State, GoalEvent, Bytes, publish, reversal_period_secs,
}
use stellarspend_contracts.SavingsGoals.Milestones.{check_and_emit_milestones}
use stellarspend_contracts.SavingsGoals.Funds.{
  check_prereqs, contributed, actual_contribution, book_contribution, new_contribution,
  store_contribution, contribute_to_goal, reverse_contribution, reduced,
}
use stellarspend_contracts.SavingsGoals.Emission.{IsEmitted, IsChecked, check_and_emit_ok}

module _ (env : Env) (caller : Address) (goal_id : ℕ) (amount : ℤ) (token : Bytes) where
  -- A contribution that succeeds: its goal, its number, and what it writes.
  pub record IsContribution (s : State) (contrib_id : ℕ) (s' : State) : Type 0 where
    pub goal : SavingsGoal
    pub stored : s.goals goal_id ≡ some goal
    pub owner : goal.user ≡ caller
    pub active : goal.is_active ≡ true
    pub positive : pos 0 <ℤ amount
    pub fresh : s.contribution_idempotency caller goal_id token ≡ none
    pub numbered : contrib_id ≡ unwrap_or (s.last_contrib_id goal_id) 0 + 1
    pub checked :
        (s₁ : State) × IsEmitted goal_id
          (contributed goal amount)
          (book_contribution env caller goal_id amount token goal contrib_id s)
          s₁
        × (s'
            ≡ publish
                (GoalEvent.goal_contributed goal_id caller
                  (actual_contribution goal amount)
                  (contributed goal amount).current_amount)
                s₁)

  store_ok :
      (goal : SavingsGoal) (s : State) (contrib_id : ℕ) (s' : State)
      → store_contribution env caller goal_id amount token goal s ≡ ok (contrib_id, s')
      → (contrib_id ≡ unwrap_or (s.last_contrib_id goal_id) 0 + 1)
        × ((s₁ : State) × IsEmitted goal_id
              (contributed goal amount)
              (book_contribution env caller goal_id amount token goal contrib_id s)
              s₁
            × (s'
                ≡ publish
                    (GoalEvent.goal_contributed goal_id caller
                      (actual_contribution goal amount)
                      (contributed goal amount).current_amount)
                    s₁))
  unfolding store_contribution checked_add_u64
  store_ok goal s contrib_id s' h =
      let next = unwrap_or (s.last_contrib_id goal_id) 0 + 1 in
      let booked = book_contribution env caller goal_id amount token goal next s in
      elim (Result-cases (check_and_emit_milestones env goal_id booked)) [
        | inl (_, over) ↦ absurd (ground arith)
        | inr (s₁, emits) ↦
            let number : contrib_id ≡ next = ground arith in
            let emitted =
              check_and_emit_ok env goal_id (contributed goal amount) booked s₁
                (insert_self goal_id (contributed goal amount) s.goals) emits in
            (number, (s₁, rw number emitted, ground arith))
      ]

  pub contribute_ok :
      (s : State) (contrib_id : ℕ) (s' : State)
      → contribute_to_goal env caller goal_id amount token s ≡ ok (contrib_id, s')
      → IsContribution s contrib_id s'
  unfolding contribute_to_goal
  contribute_ok s contrib_id s' h = elim (Option-cases (s.goals goal_id)) [
    | inl missing ↦ absurd (ground arith)
    | inr (goal, stored) ↦ elim (Option-cases (s.contribution_idempotency caller goal_id token)) [
      | inr (_, used) ↦ absurd (ground arith)
      | inl fresh ↦ elim (Result-cases (check_prereqs s (unwrap_or (s.goal_prereqs goal_id) []))) [
        | inl (_, unmet) ↦ absurd (ground arith)
        | inr (tt, met) ↦
            let stores : store_contribution env caller goal_id amount token goal s
                ≡ ok (contrib_id, s') =
              ground arith in
            let (numbered, checked) = store_ok goal s contrib_id s' stores in
            record {
              goal = goal;
              stored = stored;
              owner = ground arith;
              active = ground arith;
              positive = ground arith;
              fresh = fresh;
              numbered = numbered;
              checked = checked;
            }
      ]
    ]
  ]

  -- The goal and the record that a contribution leaves.
  pub contribution_leaves :
      (s : State) (contrib_id : ℕ) (s' : State)
      → (c : IsContribution s contrib_id s')
      → (goal' : SavingsGoal) × (s'.goals goal_id ≡ some goal')
        × IsChecked (contributed c.goal amount) goal'
        × (s'.contributions goal_id contrib_id ≡ some (new_contribution env amount token c.goal))
  contribution_leaves s contrib_id s' c =
      let (u, emitted, published) = c.checked in
      let (goal', is_checked, goal_stored) = emitted.stored in
      let kept = emitted.books.contributions in
      let self = ap (λ (m : ℕ → Map ContributionRecord). m goal_id contrib_id) kept in
      (goal', rw published goal_stored, is_checked, ground arith)

-- A reversal that succeeds.
pub record IsReversal (env : Env) (caller : Address) (goal_id contrib_id : ℕ) (s : State) (left : ℤ)
    (s' : State) : Type 0 where
  pub goal : SavingsGoal
  pub stored : s.goals goal_id ≡ some goal
  pub owner : goal.user ≡ caller
  pub contribution : ContributionRecord
  pub found : s.contributions goal_id contrib_id ≡ some contribution
  pub unreversed : contribution.reversed ≡ false
  pub in_time : env.timestamp ≤ saturating_add_u64 contribution.contributed_at reversal_period_secs
  pub result : left ≡ (reduced env goal contribution).current_amount
  pub after : s' ≡ record s {
    contributions =
        insert_pair goal_id contrib_id (record contribution { reversed = true }) s.contributions;
    goals = insert goal_id (reduced env goal contribution) s.goals;
  }

pub reverse_ok :
    (env : Env) (caller : Address) (goal_id contrib_id : ℕ) (s : State) (left : ℤ) (s' : State)
    → reverse_contribution env caller goal_id contrib_id s ≡ ok (left, s')
    → IsReversal env caller goal_id contrib_id s left s'
unfolding reverse_contribution
reverse_ok env caller goal_id contrib_id s left s' h = elim (Option-cases (s.goals goal_id)) [
  | inl missing ↦ absurd (ground arith)
  | inr (goal, stored) ↦ elim (Option-cases (s.contributions goal_id contrib_id)) [
    | inl unknown ↦ absurd (ground arith)
    | inr (contribution, found) ↦ record {
      goal = goal;
      stored = stored;
      owner = ground arith;
      contribution = contribution;
      found = found;
      unreversed = ground arith;
      in_time = ground arith;
      result = ground arith;
      after = ground arith;
    }
  ]
]

-- The state behind a reversal.
abbrev pub reversed_state :
    Env → (goal_id contrib_id : ℕ) → SavingsGoal → ContributionRecord → State → State
reversed_state env goal_id contrib_id goal contribution s = record s {
  contributions =
      insert_pair goal_id contrib_id (record contribution { reversed = true }) s.contributions;
  goals = insert goal_id (reduced env goal contribution) s.goals;
}

-- The balance plays no part in whether a reversal is accepted.
pub reverse-accepts :
    (env : Env) (caller : Address) (goal_id contrib_id : ℕ) (s : State) (goal : SavingsGoal)
    (contribution : ContributionRecord)
    → env.authorized caller ≡ true
    → s.goals goal_id ≡ some goal
    → goal.user ≡ caller
    → s.contributions goal_id contrib_id ≡ some contribution
    → contribution.reversed ≡ false
    → env.timestamp ≤ saturating_add_u64 contribution.contributed_at reversal_period_secs
    → reverse_contribution env caller goal_id contrib_id s
      ≡ ok (
        (reduced env goal contribution).current_amount,
        reversed_state env goal_id contrib_id goal contribution s,
      )
unfolding reverse_contribution
reverse-accepts env caller goal_id contrib_id s goal contribution auth stored owner found unreversed
      in_time =
    ground arith

-- A contribution is reversed at most once.
pub reverse-refuses :
    (env : Env) (caller : Address) (goal_id contrib_id : ℕ) (s : State)
    (contribution : ContributionRecord) (r : ℤ × State)
    → s.contributions goal_id contrib_id ≡ some contribution
    → contribution.reversed ≡ true
    → reverse_contribution env caller goal_id contrib_id s ≢ ok r
unfolding reverse_contribution
reverse-refuses env caller goal_id contrib_id s contribution r found done h =
    elim (Option-cases (s.goals goal_id)) [
      | inl missing ↦ ground arith
      | inr (goal, stored) ↦ ground arith
    ]
