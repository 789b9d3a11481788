-- ===== src/SavingsGoals/ErrorCode.antt =====
-- The codes of contracts/savings-goals/src/types.rs that the contract answers in its results.
use Prim.Native.Nat.{ℕ}

abbrev pub invalid_amount : ℕ
invalid_amount = 0

abbrev pub invalid_deadline : ℕ
invalid_deadline = 1

abbrev pub invalid_initial_contribution : ℕ
invalid_initial_contribution = 2

abbrev pub invalid_user_address : ℕ
invalid_user_address = 4

abbrev pub goal_not_found : ℕ
goal_not_found = 5

abbrev pub invalid_milestone_percentage : ℕ
invalid_milestone_percentage = 6

abbrev pub unauthorized_user : ℕ
unauthorized_user = 8

abbrev pub milestone_already_achieved : ℕ
milestone_already_achieved = 9

abbrev pub milestone_not_yet_achieved : ℕ
milestone_not_yet_achieved = 10

abbrev pub duplicate_goal_name : ℕ
duplicate_goal_name = 11
