-- ===== src/SavingsGoals/Examples.antt =====
-- The theorems on contracts/savings-goals/src at a small contract.
use stellarspend_contracts.Common.{
  ◌≢◌, suc, ◌≡◌, ◌≤◌, ◌⊎◌, refl, sym, subst, none, some, List, [], ◌∷◌, true, false, arith,
}
use stellarspend_contracts.Common.Int.{
  pos, negsuc, ◌<ℤ◌, ◌+ℤ◌, ◌-ℤ◌, ◌*ℤ◌, div_ℤ, to_u32, fits_i128, checked_add, checked_sub,
  checked_mul, checked_add_u64, saturate, saturating_add_u64,
}
use stellarspend_contracts.Soroban.{Env, ok, ok_or}
use stellarspend_contracts.SavingsGoals.Types.{SavingsGoal, ContributionRecord, State}
use stellarspend_contracts.SavingsGoals.Validation.{
  validate_goal_request, validate_goal_name_unique,
}
use stellarspend_contracts.SavingsGoals.Milestones.{
  progress_of, refresh_complete, emit_milestone, emit_milestones, close_goal, issue_certificate,
  finish_milestones, check_goal, check_and_emit_milestones,
}
use stellarspend_contracts.SavingsGoals.Funds.{
  check_prereqs, contributed, actual_contribution, store_contribution, contribute_to_goal,
  reverse_contribution, gross_of, check_withdrawal, withdraw_from_goal,
}
use stellarspend_contracts.SavingsGoals.Merging.{merge_goals}
use stellarspend_contracts.SavingsGoals.Goals.{
  initialize, require_admin, new_goal, store_goal, create_goal, set_savings_goal, set_savings_goals,
  finish_goals, goal_answer, batch_set_savings_goals,
}
use stellarspend_contracts.SavingsGoals.Prerequisites.{
  push_unvisited, search, has_dependency_path, check_prerequisites, set_goal_prerequisites,
}
use stellarspend_contracts.SavingsGoals.Reaches.{Reaches}
use stellarspend_contracts.SavingsGoals.Fuel.{pending}
use stellarspend_contracts.SavingsGoals.Cycles.{enough_fuel}
use stellarspend_contracts.SavingsGoals.Reversals.{contribute-reverse}
use stellarspend_contracts.SavingsGoals.Withdrawals.{IsWithdrawal, withdraw_ok}
use stellarspend_contracts.SavingsGoals.Frozen.{IsFrozen, withdraw_from_closed-IsFrozen}
use stellarspend_contracts.SavingsGoals.Certificates.{IsCertified, overdrawn-IsCertified}
use stellarspend_contracts.SavingsGoals.Balances.{contribute_above_target, merge-conserves}
use stellarspend_contracts.SavingsGoals.Sound.{last_goal, IsSound, IsKept}
use stellarspend_contracts.SavingsGoals.Reachable.{
  GoalCall, make_call, try_calls, try_calls-IsKept, try_calls-search,
}
use stellarspend_contracts.SavingsGoals.Samples.{
  at_time, deployed, request, goal, holding, closed_goal, closed,
}

deployed-IsSound : IsSound deployed
deployed-IsSound = record {
  own_id = λ k g stored. absurd (ground arith);
  handed_out = λ k g stored. absurd (ground arith);
  prereqs_of_goals = λ k ids found. absurd (ground arith);
  acyclic = λ a next edge leads. ground arith;
  not_started = λ k g gone stored. ground arith;
}

-- The admin creates two goals, and the second one becomes a prerequisite of the first.
abbrev calls : List (Env × GoalCall)
calls =
    (at_time 100, GoalCall.start 9)
    ∷ (at_time 100, GoalCall.create 9 (request 5 ∷ request 6 ∷ []))
    ∷ (at_time 110, GoalCall.require 1 1 (2 ∷ []))
    ∷ (at_time 120, GoalCall.require 1 2 (1 ∷ []))
    ∷ (at_time 130, GoalCall.check 2)
    ∷ []

abbrev after_calls : State
after_calls = try_calls 10 calls deployed

try_calls-IsKept_example : IsKept deployed after_calls
try_calls-IsKept_example = try_calls-IsKept 10 calls deployed deployed-IsSound

-- The first require is accepted, and the second one is refused.
calls_prereqs : (after_calls.goal_prereqs 1 ≡ some (2 ∷ [])) × (after_calls.goal_prereqs 2 ≡ none)
unfolding try_calls make_call initialize batch_set_savings_goals require_admin new_goal store_goal
    create_goal set_savings_goal set_savings_goals finish_goals goal_answer validate_goal_request
    validate_goal_name_unique set_goal_prerequisites check_prerequisites has_dependency_path search
    push_unvisited checked_add_u64 saturating_add_u64 check_and_emit_milestones check_goal
    progress_of checked_mul fits_i128 ◌*ℤ◌ div_ℤ to_u32 refresh_complete emit_milestones
    emit_milestone finish_milestones close_goal issue_certificate
calls_prereqs = (refl, refl)

-- One stored prerequisite, and one unit more.
fuel_needed : enough_fuel (suc (last_goal after_calls)) after_calls ≡ 2
unfolding try_calls make_call initialize batch_set_savings_goals require_admin new_goal store_goal
    create_goal set_savings_goal set_savings_goals finish_goals goal_answer validate_goal_request
    validate_goal_name_unique set_goal_prerequisites check_prerequisites search push_unvisited
    checked_add_u64 saturating_add_u64 check_and_emit_milestones check_goal progress_of checked_mul
    fits_i128 ◌*ℤ◌ div_ℤ to_u32 refresh_complete emit_milestones emit_milestone finish_milestones
    close_goal issue_certificate pending has_dependency_path
fuel_needed = refl

try_calls-search_example :
    ((has_dependency_path 10 after_calls 1 2 ≡ some true) × Reaches after_calls.goal_prereqs 2 1)
    ⊎ ((has_dependency_path 10 after_calls 1 2 ≡ some false)
        × (¬ Reaches after_calls.goal_prereqs 2 1))
try_calls-search_example =
    try_calls-search 10 calls deployed 1 2 10 deployed-IsSound
      (subst (λ n. n ≤ 10) (sym fuel_needed) (omega arith))

-- The goal 1 holds 5,000,000 when 30,000,000 are contributed.
abbrev contributed_state : State
contributed_state =
    (ok_or (contribute_to_goal (at_time 100) 1 1 (pos 30_000_000) 77 (holding (pos 5_000_000)))
      (0, deployed)).1

contribute-reverse_example :
    (s₂ : State) × (after : SavingsGoal) × (reverse_contribution
        (at_time 50_000)
        1
        1
        1
        contributed_state
      ≡ ok (pos 5_000_000, s₂))
    × (s₂.goals 1 ≡ some after)
    × (after.current_amount ≡ pos 5_000_000)
unfolding contribute_to_goal store_contribution contributed actual_contribution checked_add
    checked_add_u64 saturating_add_u64 check_prereqs saturate check_and_emit_milestones check_goal
    progress_of checked_mul fits_i128 ◌*ℤ◌ ◌+ℤ◌ ◌-ℤ◌ div_ℤ to_u32 refresh_complete emit_milestones
    emit_milestone finish_milestones close_goal issue_certificate
contribute-reverse_example =
    contribute-reverse (at_time 100) (at_time 50_000) 1 1 (pos 30_000_000) 77
      (holding (pos 5_000_000)) 1 contributed_state (goal 1 (pos 5_000_000)) refl refl (omega arith)
      (omega arith) (omega arith) (omega arith) refl (omega arith)

abbrev withdrawn_state : State
withdrawn_state =
    (ok_or (withdraw_from_goal (at_time 100) 1 1 (pos 1_000_000) closed) (pos 0, deployed)).1

withdraw_from_closed-IsFrozen_example : IsFrozen 1 withdrawn_state
unfolding withdraw_from_goal check_withdrawal gross_of checked_add checked_sub fits_i128 ◌+ℤ◌ ◌-ℤ◌
withdraw_from_closed-IsFrozen_example =
    withdraw_from_closed-IsFrozen (at_time 100) 1 1 (pos 1_000_000) closed (pos 19_000_000)
      withdrawn_state closed_goal refl refl refl (omega arith)

-- An open goal pays a penalty of one percent.
abbrev penalized_state : State
penalized_state =
    (ok_or (withdraw_from_goal (at_time 100) 1 1 (pos 1_000_000) (holding (pos 5_000_000)))
      (pos 0, deployed)).1

withdraw_ok_example :
    IsWithdrawal
      (at_time 100)
      1
      1
      (pos 1_000_000)
      (holding (pos 5_000_000))
      (pos 3_990_000)
      penalized_state
unfolding withdraw_from_goal check_withdrawal gross_of checked_add checked_sub checked_mul fits_i128
    ◌+ℤ◌ ◌-ℤ◌ ◌*ℤ◌ div_ℤ
withdraw_ok_example =
    withdraw_ok (at_time 100) 1 1 (pos 1_000_000) (holding (pos 5_000_000)) (pos 3_990_000)
      penalized_state refl

-- The goal 1 owes 4,000,000.
abbrev checked_state : State
checked_state =
    ok_or (check_and_emit_milestones (at_time 100) 1 (holding (negsuc 3_999_999))) deployed

overdrawn-IsCertified_example :
    ((goal 1 (negsuc 3_999_999)).current_amount <ℤ pos 0) × IsCertified 1 checked_state
unfolding check_and_emit_milestones check_goal progress_of checked_mul fits_i128 ◌*ℤ◌ div_ℤ to_u32
    refresh_complete emit_milestones emit_milestone finish_milestones close_goal issue_certificate
overdrawn-IsCertified_example =
    overdrawn-IsCertified (at_time 100) 1 (goal 1 (negsuc 3_999_999)) (holding (negsuc 3_999_999))
      checked_state 3_999_999 19_999_999 refl refl refl refl (omega arith) (omega arith)
      (omega arith) refl

-- The goal 1 holds 25,000,000, which is more than its target.
abbrev lowered_state : State
lowered_state =
    (ok_or (contribute_to_goal (at_time 100) 1 1 (pos 1_000_000) 77 (holding (pos 25_000_000)))
      (0, deployed)).1

contribute_above_target_example :
    (goal' : SavingsGoal) × (record' : ContributionRecord) × (lowered_state.goals 1 ≡ some goal')
    × (goal'.current_amount ≡ pos 20_000_000)
    × (lowered_state.contributions 1 1 ≡ some record')
    × (record'.amount <ℤ pos 0)
unfolding contribute_to_goal store_contribution contributed actual_contribution checked_add
    checked_add_u64 check_prereqs saturate check_and_emit_milestones check_goal progress_of
    checked_mul fits_i128 ◌*ℤ◌ ◌+ℤ◌ ◌-ℤ◌ div_ℤ to_u32 refresh_complete emit_milestones
    emit_milestone finish_milestones close_goal issue_certificate
contribute_above_target_example =
    contribute_above_target (at_time 100) 1 1 (pos 1_000_000) 77 (holding (pos 25_000_000)) 1
      lowered_state (goal 1 (pos 25_000_000)) refl refl (omega arith) (omega arith) (omega arith)
      (omega arith)

abbrev merged_state : State
merged_state = ok_or (merge_goals (at_time 100) 1 1 2 (holding (pos 5_000_000))) deployed

merge-conserves_example :
    (source' : SavingsGoal) × (target' : SavingsGoal) × (merged_state.goals 1 ≡ some source')
    × (merged_state.goals 2 ≡ some target')
    × (source'.current_amount ≡ pos 0)
    × (source'.is_active ≡ false)
    × (source'.is_complete ≡ false)
    × (target'.current_amount ≡ pos 0 +ℤ pos 5_000_000)
unfolding merge_goals saturate check_and_emit_milestones check_goal progress_of checked_mul
    fits_i128 ◌*ℤ◌ ◌+ℤ◌ div_ℤ to_u32 refresh_complete emit_milestones emit_milestone
    finish_milestones close_goal issue_certificate
merge-conserves_example =
    merge-conserves (at_time 100) 1 1 2 (holding (pos 5_000_000)) merged_state
      (goal 1 (pos 5_000_000)) (goal 2 (pos 0)) refl refl refl (omega arith) (omega arith)

-- A contribution of 4,000,000 is withdrawn, with its penalty, but for 970,000, and then reversed, which
-- leaves a debt of 3,030,000; the next contribution, of 1, closes the goal and certifies it.
abbrev overdrawing : List (Env × GoalCall)
overdrawing =
    (at_time 100, GoalCall.contribute 1 1 (pos 4_000_000) 77)
    ∷ (at_time 200, GoalCall.withdraw 1 1 (pos 3_000_000))
    ∷ (at_time 300, GoalCall.reverse 1 1 1)
    ∷ []

abbrev overdrawn_state : State
overdrawn_state = try_calls 10 overdrawing (holding (pos 0))

overdrawing_balance : overdrawn_state.goals 1 ≡ some (goal 1 (negsuc 3_029_999))
unfolding try_calls make_call contribute_to_goal store_contribution contributed actual_contribution
    checked_add checked_add_u64 saturating_add_u64 check_prereqs saturate check_and_emit_milestones
    check_goal progress_of checked_mul checked_sub fits_i128 ◌*ℤ◌ ◌+ℤ◌ ◌-ℤ◌ div_ℤ to_u32
    refresh_complete emit_milestones emit_milestone finish_milestones close_goal issue_certificate
    withdraw_from_goal check_withdrawal gross_of reverse_contribution
overdrawing_balance = refl

overdrawing_certified :
    (try_calls 10
        ((at_time 400, GoalCall.contribute 1 1 (pos 1) 78) ∷ [])
        overdrawn_state).certificates
      1
    ≢ none
unfolding try_calls make_call contribute_to_goal store_contribution contributed actual_contribution
    checked_add checked_add_u64 saturating_add_u64 check_prereqs saturate check_and_emit_milestones
    check_goal progress_of checked_mul checked_sub fits_i128 ◌*ℤ◌ ◌+ℤ◌ ◌-ℤ◌ div_ℤ to_u32
    refresh_complete emit_milestones emit_milestone finish_milestones close_goal issue_certificate
    withdraw_from_goal check_withdrawal gross_of reverse_contribution
overdrawing_certified h = ground arith
