-- ===== src/SavingsGoals/Reversals.antt =====
-- contracts/savings-goals/src/lib.rs: a contribution that is reversed.
use stellarspend_contracts.Common.{
  ℕ, ◌+◌, ◌≡◌, ◌≤◌, ◌⊎◌, inl, inr, refl, subst, ◌∙◌, true, some, arith, Bool-cases, unwrap_or,
  insert_self,
}
use stellarspend_contracts.Common.Int.{
  ℤ, pos, ◌≤ℤ◌, ◌+ℤ◌, ◌-ℤ◌, ltb_ℤ, saturating_add_u64, saturating_sub, saturate, checked_add,
  fits_i128, i128_max, int_laws, pos_part, neg_part,
}
use stellarspend_contracts.Soroban.{Address, Env, ok}
use stellarspend_contracts.SavingsGoals.Types.{
  SavingsGoal, State, Bytes, reversal_period_secs, max_goal_amount,
}
use stellarspend_contracts.SavingsGoals.Funds.{
  contributed, actual_contribution, new_contribution, contribute_to_goal, reverse_contribution,
  reduced,
}
use stellarspend_contracts.SavingsGoals.Emission.{checked_keeps}
use stellarspend_contracts.SavingsGoals.Contributions.{
  contribute_ok, reverse-accepts, reversed_state, contribution_leaves,
}

-- A number that `i128` holds is not changed by the cut.
pub saturate_id :
    (a : ℤ)
    → pos_part a ≤ i128_max + neg_part a
    → neg_part a ≤ i128_max + pos_part a
    → saturate a ≡ a
unfolding saturate
saturate_id a above below = ground arith

back_twice : (t c : ℤ) → t -ℤ (t -ℤ c) ≡ c
back_twice t c = omega int_laws

back_once : (c a : ℤ) → c +ℤ a -ℤ a ≡ c
back_once c a = omega int_laws

-- The cases of the sum that is stored.
pub sum_cases :
    (c a : ℤ)
    → (unwrap_or (checked_add c a) (pos i128_max) ≡ pos i128_max)
      ⊎ (unwrap_or (checked_add c a) (pos i128_max) ≡ c +ℤ a)
unfolding checked_add
sum_cases c a = elim (Bool-cases (fits_i128 (c +ℤ a))) [
  | inl fits ↦ inr (ground arith)
  | inr over ↦ inl (ground arith)
]

capped_back :
    (t c : ℤ)
    → pos 0 ≤ℤ c
    → c ≤ℤ pos i128_max
    → pos 0 ≤ℤ t
    → t ≤ℤ max_goal_amount
    → saturating_sub t (saturating_sub t c) ≡ c
capped_back t c low high target_low target_high =
    let inner : saturate (t -ℤ c) ≡ t -ℤ c =
      saturate_id (t -ℤ c) (omega int_laws) (omega int_laws) in
    rw (inner, back_twice t c) (saturate_id c (omega int_laws) (omega int_laws))

-- What a contribution added is what a reversal takes away.
restored :
    (goal : SavingsGoal) (amount : ℤ)
    → pos 0 ≤ℤ goal.current_amount
    → goal.current_amount ≤ℤ pos i128_max
    → pos 0 ≤ℤ goal.target_amount
    → goal.target_amount ≤ℤ max_goal_amount
    → saturating_sub (contributed goal amount).current_amount (actual_contribution goal amount)
      ≡ goal.current_amount
unfolding contributed actual_contribution
restored goal amount low high target_low target_high =
    let t = goal.target_amount in
    let c = goal.current_amount in
    let n = unwrap_or (checked_add c amount) (pos i128_max) in
    elim (Bool-cases (ltb_ℤ t n)) [
      | inl capped ↦ rw capped (capped_back t c low high target_low target_high)
      | inr whole ↦ elim (sum_cases c amount) [
        | inl top ↦ absurd (ground arith)
        | inr sum ↦
            rw (whole, sum, back_once c amount) (saturate_id c (omega int_laws) (omega int_laws))
      ]
    ]

owner_of_contributed :
    (goal : SavingsGoal) (amount : ℤ) → (contributed goal amount).user ≡ goal.user
unfolding contributed
owner_of_contributed goal amount = refl

module _ (env env₂ : Env) (caller : Address) (goal_id : ℕ) (amount : ℤ) (token : Bytes) where
  -- A contribution that succeeded, to a stored goal whose balance is between 0 and the largest i128
  -- and whose target is between 0 and the largest goal amount, can be reversed by its contributor
  -- until the reversal period is over; the reversal answers the balance from before the
  -- contribution, and stores it.
  pub contribute-reverse :
      (s : State) (contrib_id : ℕ) (s₁ : State) (goal : SavingsGoal)
      → contribute_to_goal env caller goal_id amount token s ≡ ok (contrib_id, s₁)
      → s.goals goal_id ≡ some goal
      → pos 0 ≤ℤ goal.current_amount
      → goal.current_amount ≤ℤ pos i128_max
      → pos 0 ≤ℤ goal.target_amount
      → goal.target_amount ≤ℤ max_goal_amount
      → env₂.authorized caller ≡ true
      → env₂.timestamp ≤ saturating_add_u64 env.timestamp reversal_period_secs
      → (s₂ : State) × (after : SavingsGoal) × (reverse_contribution env₂ caller goal_id contrib_id
            s₁
          ≡ ok (goal.current_amount, s₂))
        × (s₂.goals goal_id ≡ some after)
        × (after.current_amount ≡ goal.current_amount)
  contribute-reverse s contrib_id s₁ goal h stored low high target_low target_high auth in_time =
      let c = contribute_ok env caller goal_id amount token s contrib_id s₁ h in
      let (goal', goal_stored, is_checked, found) =
        contribution_leaves env caller goal_id amount token s contrib_id s₁ c in
      let (user, _, balance, _) = checked_keeps (contributed c.goal amount) goal' is_checked in
      let same : c.goal ≡ goal = cc (c.stored, stored) in
      let contribution = new_contribution env amount token c.goal in
      let left : (reduced env₂ goal' contribution).current_amount ≡ goal.current_amount =
        rw (balance, same) (restored goal amount low high target_low target_high) in
      let accepted =
        reverse-accepts env₂ caller goal_id contrib_id s₁ goal' contribution auth goal_stored
          (user ∙ (owner_of_contributed c.goal amount ∙ c.owner)) found refl in_time in
      let s₂ = reversed_state env₂ goal_id contrib_id goal' contribution s₁ in
      (
        s₂,
        reduced env₂ goal' contribution,
        subst (λ x. reverse_contribution env₂ caller goal_id contrib_id s₁ ≡ ok (x, s₂)) left
            accepted,
        insert_self goal_id (reduced env₂ goal' contribution) s₁.goals,
        left,
      )
