-- ===== src/SpendingLimits/Requests.antt =====
-- What contracts/spending-limits/src/validation.rs accepts, and what the batch stores.
use stellarspend_contracts.Common.{ℕ, ◌≤◌, ◌≡◌, ◌↔◌, none, some, arith}
use stellarspend_contracts.Common.Int.{◌≤ℤ◌}
use stellarspend_contracts.SpendingLimits.Types.{
  SpendingLimitRequest, min_spending_limit, max_spending_limit, min_reset_window_seconds,
  max_reset_window_seconds, invalid_limit_code,
}
use stellarspend_contracts.SpendingLimits.Validation.{validate_limit_request}

-- The limits of a request are in order and in range, and so is its window.
pub record IsProper (r : SpendingLimitRequest) : Type 0 where
  pub least : min_spending_limit ≤ℤ r.hourly_limit
  pub hourly : r.hourly_limit ≤ℤ r.daily_limit
  pub daily : r.daily_limit ≤ℤ r.monthly_limit
  pub most : r.monthly_limit ≤ℤ max_spending_limit
  pub window_least : min_reset_window_seconds ≤ r.reset_window_seconds
  pub window_most : r.reset_window_seconds ≤ max_reset_window_seconds

proper : (r : SpendingLimitRequest) → validate_limit_request r ≡ none → IsProper r
unfolding validate_limit_request
proper r h = record {
  least = ground arith;
  hourly = ground arith;
  daily = ground arith;
  most = ground arith;
  window_least = ground arith;
  window_most = ground arith;
}

accepted : (r : SpendingLimitRequest) → IsProper r → validate_limit_request r ≡ none
unfolding validate_limit_request
accepted r p =
    let a = p.least in
    let b = p.hourly in
    let c = p.daily in
    let d = p.most in let e = p.window_least in let f = p.window_most in ground arith

-- The validator accepts a request exactly if min ≤ hourly ≤ daily ≤ monthly ≤ max and the window is in range.
pub validate_limit_request-none :
    (r : SpendingLimitRequest) → (validate_limit_request r ≡ none) ↔ IsProper r
validate_limit_request-none r = (proper r, accepted r)

-- It answers no code but that of an invalid limit.
pub validate_limit_request-some :
    (r : SpendingLimitRequest) (code : ℕ)
    → validate_limit_request r ≡ some code
    → code ≡ invalid_limit_code
unfolding validate_limit_request
validate_limit_request-some r code h = ground arith
