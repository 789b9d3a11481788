-- ===== src/SavingsGoals/Withdrawals.antt =====
-- Successful withdrawals of contracts/savings-goals/src/lib.rs.
use stellarspend_contracts.Common.{
  ℕ, ◌≡◌, ◌⊎◌, inl, inr, ◌∙◌, true, false, some, arith, Bool-cases, Option-cases, unwrap_or,
  insert_self, if◌then◌else◌,
}
use stellarspend_contracts.Common.Int.{
  ℤ, pos, ◌<ℤ◌, ◌≤ℤ◌, ◌-ℤ◌, ◌*ℤ◌, leb_ℤ, div_ℤ, checked_sub, checked_add, checked_mul, i128_max,
  int_laws,
}
use stellarspend_contracts.Soroban.{Address, Env, ok, Result-cases}
use stellarspend_contracts.SavingsGoals.Types.{SavingsGoal, State, GoalEvent, publish, set_goal}
use stellarspend_contracts.SavingsGoals.Milestones.{check_and_emit_milestones}
use stellarspend_contracts.SavingsGoals.Funds.{
  is_locked, gross_of, check_withdrawal, withdraw_from_goal, partial_withdraw, partly_withdrawn,
}
use stellarspend_contracts.SavingsGoals.Emission.{IsEmitted, check_and_emit_ok}

-- The penalty of a goal that is not complete, in basis points of the amount.
abbrev pub penalty_of : SavingsGoal → ℤ → ℤ
penalty_of goal amount =
    if goal.is_complete then pos 0 else div_ℤ (amount *ℤ pos goal.penalty_bps) 10_000

gross_of_ok :
    (env : Env) (goal : SavingsGoal) (amount gross : ℤ)
    → gross_of env goal amount ≡ ok gross
    → gross ≡ unwrap_or (checked_add amount (penalty_of goal amount)) (pos i128_max)
unfolding gross_of checked_mul
gross_of_ok env goal amount gross h = ground arith

-- What the two withdrawals demand of a goal.
pub record IsWithdrawable (env : Env) (caller : Address) (amount gross : ℤ) (goal : SavingsGoal)
    : Type 0 where
  pub owner : goal.user ≡ caller
  pub live : (goal.is_active ≡ true) ⊎ (goal.is_complete ≡ true)
  pub unlocked : is_locked env goal ≡ false
  pub gross_amount : gross ≡ unwrap_or (checked_add amount (penalty_of goal amount)) (pos i128_max)
  pub covered : gross ≤ℤ goal.current_amount

pub check_withdrawal_ok :
    (env : Env) (caller : Address) (amount : ℤ) (goal : SavingsGoal) (gross : ℤ)
    → check_withdrawal env caller amount goal ≡ ok gross
    → IsWithdrawable env caller amount gross goal
unfolding check_withdrawal
check_withdrawal_ok env caller amount goal gross h =
    elim (Result-cases (gross_of env goal amount)) [
      | inl (_, over) ↦ absurd (ground arith)
      | inr (g, found) ↦
          let same : gross ≡ g = ground arith in
          record {
            owner = ground arith;
            live = elim (Bool-cases goal.is_active) [
              | inl active ↦ inl active
              | inr dead ↦ inr (ground arith)
            ];
            unlocked = ground arith;
            gross_amount = same ∙ gross_of_ok env goal amount g found;
            covered = ground arith;
          }
    ]

-- A withdrawal that succeeds.
pub record IsWithdrawal (env : Env) (caller : Address) (goal_id : ℕ) (amount : ℤ) (s : State)
    (left : ℤ) (s' : State) : Type 0 where
  pub authorized : env.authorized caller ≡ true
  pub goal : SavingsGoal
  pub gross : ℤ
  pub stored : s.goals goal_id ≡ some goal
  pub positive : pos 0 <ℤ amount
  pub withdrawable : IsWithdrawable env caller amount gross goal
  pub rest : left ≡ goal.current_amount -ℤ gross
  pub not_negative : pos 0 ≤ℤ left
  pub after :
      s'
      ≡ publish (GoalEvent.goal_withdrawn goal_id caller amount left) (
          set_goal goal_id
            (record goal { current_amount = left; is_complete = leb_ℤ goal.target_amount left })
            s)

sub_covered : (a b : ℤ) → b ≤ℤ a → pos 0 ≤ℤ a -ℤ b
sub_covered a b h = omega int_laws

-- A withdrawal that succeeds is authorized by its caller, the owner of a goal that is active or complete, and not
-- locked; it takes the amount and the penalty from the balance, leaves no negative balance, and
-- changes nothing but that goal and the events. A complete goal pays no penalty.
pub withdraw_ok :
    (env : Env) (caller : Address) (goal_id : ℕ) (amount : ℤ) (s : State) (left : ℤ) (s' : State)
    → withdraw_from_goal env caller goal_id amount s ≡ ok (left, s')
    → IsWithdrawal env caller goal_id amount s left s'
unfolding withdraw_from_goal checked_sub
withdraw_ok env caller goal_id amount s left s' h = elim (Option-cases (s.goals goal_id)) [
  | inl missing ↦ absurd (ground arith)
  | inr (goal, stored) ↦ elim (Result-cases (check_withdrawal env caller amount goal)) [
    | inl (_, refused) ↦ absurd (ground arith)
    | inr (gross, checked) ↦
        let w = check_withdrawal_ok env caller amount goal gross checked in
        let rest : left ≡ goal.current_amount -ℤ gross = ground arith in
        record {
          authorized = ground arith;
          goal = goal;
          gross = gross;
          stored = stored;
          positive = ground arith;
          withdrawable = w;
          rest = rest;
          not_negative = rw rest (sub_covered goal.current_amount gross w.covered);
          after = ground arith;
        }
  ]
]

-- A partial withdrawal that succeeds.
pub record IsPartialWithdrawal (env : Env) (caller : Address) (goal_id : ℕ) (amount : ℤ)
    (s s' : State) : Type 0 where
  pub goal : SavingsGoal
  pub gross : ℤ
  pub stored : s.goals goal_id ≡ some goal
  pub positive : pos 0 <ℤ amount
  pub withdrawable : IsWithdrawable env caller amount gross goal
  pub checked :
      (s₁ : State) × IsEmitted goal_id
        (partly_withdrawn env goal gross)
        (set_goal goal_id (partly_withdrawn env goal gross) s)
        s₁
      × (s'
          ≡ publish
              (GoalEvent.partial_withdrawal goal_id caller amount
                (partly_withdrawn env goal gross).current_amount)
              s₁)

pub partial_withdraw_ok :
    (env : Env) (caller : Address) (goal_id : ℕ) (amount : ℤ) (s s' : State)
    → partial_withdraw env caller goal_id amount s ≡ ok s'
    → IsPartialWithdrawal env caller goal_id amount s s'
unfolding partial_withdraw
partial_withdraw_ok env caller goal_id amount s s' h = elim (Option-cases (s.goals goal_id)) [
  | inl missing ↦ absurd (ground arith)
  | inr (goal, stored) ↦ elim (Result-cases (check_withdrawal env caller amount goal)) [
    | inl (_, refused) ↦ absurd (ground arith)
    | inr (gross, checked) ↦
        let goal' = partly_withdrawn env goal gross in
        elim (Result-cases (check_and_emit_milestones env goal_id (set_goal goal_id goal' s))) [
          | inl (_, over) ↦ absurd (ground arith)
          | inr (s₁, emits) ↦ record {
            goal = goal;
            gross = gross;
            stored = stored;
            positive = ground arith;
            withdrawable = check_withdrawal_ok env caller amount goal gross checked;
            checked = (
              s₁,
              check_and_emit_ok env goal_id goal' (set_goal goal_id goal' s) s₁
                  (insert_self goal_id goal' s.goals) emits,
              ground arith,
            );
          }
        ]
  ]
]
