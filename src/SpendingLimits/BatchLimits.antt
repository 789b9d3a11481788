-- ===== src/SpendingLimits/BatchLimits.antt =====
-- What a batch of contracts/spending-limits/src/lib.rs stores and counts.
use stellarspend_contracts.Common.{
  ℕ, ◌+◌, ◌≤◌, ◌≡◌, Option, none, some, List, [], ◌∷◌, ◌==◌, length, if◌then◌else◌,
}
use stellarspend_contracts.Soroban.{Address, Env}
use stellarspend_contracts.SpendingLimits.Types.{
  SpendingLimitRequest, SpendingLimit, State, BatchLimitResult, max_batch_size,
}
use stellarspend_contracts.SpendingLimits.Validation.{validate_limit_request}
use stellarspend_contracts.SpendingLimits.BatchUpdate.{Tally, new_limit}

-- The limit that a request leaves, for a verdict of the validator.
abbrev pub limit_for :
    Env → SpendingLimitRequest → Option ℕ → Option SpendingLimit → Option SpendingLimit
limit_for env request none old = some (new_limit env request)
limit_for env request (some code) old = old

-- The limit of a user behind the requests: that of the user's last valid request, or the old one.
unfoldable pub last_limit :
    Env → Address → List SpendingLimitRequest → Option SpendingLimit → Option SpendingLimit
last_limit env user [] old = old
last_limit env user (r ∷ rs) old =
    last_limit env user rs
      (if r.user == user then limit_for env r (validate_limit_request r) old else old)

-- How many requests are valid.
unfoldable pub count_valid : List SpendingLimitRequest → ℕ
count_valid [] = 0
count_valid (r ∷ rs) =
    let rest = count_valid rs in
    elim (validate_limit_request r) [ none ↦ 1 + rest | some code ↦ rest ]

-- The totals of past spends are the same.
abbrev pub IsSameTotals : State → State → Type 0
IsSameTotals s u =
    (u.hourly_spending ≡ s.hourly_spending)
    × (u.daily_spending ≡ s.daily_spending)
    × (u.monthly_spending ≡ s.monthly_spending)

-- What the loop adds to the counters.
record IsCounted (t t' : Tally) (valid all : ℕ) : Type 0 where
  successes : t'.successful_count ≡ t.successful_count + valid
  failures : t'.successful_count + t'.failed_count ≡ t.successful_count + t.failed_count + all
  answers : length t'.results ≡ length t.results + all

-- What an accepted batch did.
pub record IsApplied (env : Env) (requests : List SpendingLimitRequest) (s s' : State)
    (result : BatchLimitResult) : Type 0 where
  pub not_empty : 1 ≤ length requests
  pub not_too_large : length requests ≤ max_batch_size
  pub answers : length result.results ≡ length requests
  pub successes : result.successful ≡ count_valid requests
  pub all_counted : result.successful + result.failed ≡ length requests
  pub limits : (user : Address) → s'.limits user ≡ last_limit env user requests (s.limits user)
  pub totals : IsSameTotals s s'
