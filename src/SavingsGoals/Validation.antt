-- ===== src/SavingsGoals/Validation.antt =====
-- contracts/savings-goals/src/validation.rs. The code of the error is `some`, and `Ok` is `none`.
use stellarspend_contracts.Common.{
  ℕ, Bool, true, false, not, ◌&&◌, Option, none, some, leb, ltb, if◌then◌else◌,
}
use stellarspend_contracts.Common.Int.{ℤ, pos, leb_ℤ, ltb_ℤ, saturating_add_u64}
use stellarspend_contracts.Soroban.{Address, Symbol, Env}
use stellarspend_contracts.SavingsGoals.Types.{
  SavingsGoalRequest, State, min_goal_amount, max_goal_amount,
}
use stellarspend_contracts.SavingsGoals.ErrorCode

abbrev pub is_set {ℓ} : {A : Type ℓ} → Option A → Bool
is_set none = false
is_set (some a) = true

unfoldable pub validate_goal_name_unique : State → Address → Symbol → Option ℕ
validate_goal_name_unique s user goal_name =
    if is_set (s.goal_by_name user goal_name) then some ErrorCode.duplicate_goal_name else none

-- Every address is valid by construction.
abbrev is_valid_address : Address → Bool
is_valid_address address = true

abbrev pub is_valid_amount : ℤ → Bool
is_valid_amount amount = leb_ℤ min_goal_amount amount && leb_ℤ amount max_goal_amount

-- The deadline is a ledger sequence number, after the current one and at most 31,536,000 later.
abbrev pub is_valid_deadline : Env → ℕ → Bool
is_valid_deadline env deadline =
    if leb deadline env.sequence
    then false
    else if ltb (saturating_add_u64 env.sequence 31_536_000) deadline
    then false
    else true

abbrev pub is_valid_initial_contribution : (initial_contribution target_amount : ℤ) → Bool
is_valid_initial_contribution initial_contribution target_amount =
    if ltb_ℤ initial_contribution (pos 0)
    then false
    else if ltb_ℤ target_amount initial_contribution
    then false
    else true

unfoldable pub validate_goal_request : Env → SavingsGoalRequest → Option ℕ
validate_goal_request env request =
    if not (is_valid_address request.user)
    then some ErrorCode.invalid_user_address
    else if not (is_valid_amount request.target_amount)
    then some ErrorCode.invalid_amount
    else if not (is_valid_deadline env request.deadline)
    then some ErrorCode.invalid_deadline
    else if not (is_valid_initial_contribution request.initial_contribution request.target_amount)
    then some ErrorCode.invalid_initial_contribution
    else none
