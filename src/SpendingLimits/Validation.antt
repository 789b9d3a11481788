-- ===== src/SpendingLimits/Validation.antt =====
-- contracts/spending-limits/src/validation.rs.
use stellarspend_contracts.Common.{
  ℕ, Bool, true, not, ◌&&◌, ◌||◌, Option, none, some, leb, if◌then◌else◌,
}
use stellarspend_contracts.Common.Int.{ℤ, leb_ℤ, ltb_ℤ}
use stellarspend_contracts.Soroban.{Address}
use stellarspend_contracts.SpendingLimits.Types.{
  SpendingLimitRequest, min_spending_limit, max_spending_limit, min_reset_window_seconds,
  max_reset_window_seconds, invalid_limit_code, invalid_user_address_code,
}

abbrev pub is_valid_limit : ℤ → Bool
is_valid_limit limit = leb_ℤ min_spending_limit limit && leb_ℤ limit max_spending_limit

abbrev is_valid_reset_window : ℕ → Bool
is_valid_reset_window window =
    leb min_reset_window_seconds window && leb window max_reset_window_seconds

-- Every address is valid by construction.
abbrev is_valid_address : Address → Bool
is_valid_address address = true

-- `Result<(), u32>`: the code of the error, if there is one.
unfoldable pub validate_limit_request : SpendingLimitRequest → Option ℕ
validate_limit_request request =
    if not (is_valid_address request.user)
    then some invalid_user_address_code
    else if not (is_valid_limit request.monthly_limit)
    then some invalid_limit_code
    else if not (is_valid_limit request.daily_limit)
    then some invalid_limit_code
    else if not (is_valid_limit request.hourly_limit)
    then some invalid_limit_code
    else if ltb_ℤ request.daily_limit request.hourly_limit
        || ltb_ℤ request.monthly_limit request.daily_limit
    then some invalid_limit_code
    else if not (is_valid_reset_window request.reset_window_seconds)
    then some invalid_limit_code
    else none
