-- ===== src/SpendingLimits/BatchUpdate.antt =====
-- contracts/spending-limits/src/lib.rs: `batch_update_spending_limits`.
-- The counters of one batch are `u32` and at most the batch size, so their sums stay in range.
use stellarspend_contracts.Common.{
  ℕ, ◌+◌, Option, none, some, List, [], ◌∷◌, true, ◌==◌, ltb, length, push_back, unwrap_or, insert,
  if◌then◌else◌,
}
use stellarspend_contracts.Common.Int.{
  ℤ, pos, leb_ℤ, div_ℤ, checked_add, checked_add_u64, i128_max, u64_max,
}
use stellarspend_contracts.Soroban.{
  Address, Env, Result, ok, contract_error, panicked, ◌>>=◌, ◌>>◌, throw_if, or_throw, require_auth,
  add_u64,
}
use stellarspend_contracts.SpendingLimits.Types.{
  SpendingLimitRequest, SpendingLimit, LimitUpdateResult, BatchLimitMetrics, BatchLimitResult,
  SpendingLimitError, LimitEvent, State, publish, max_batch_size, empty_batch, batch_too_large,
}
use stellarspend_contracts.SpendingLimits.Validation.{validate_limit_request}
use stellarspend_contracts.SpendingLimits.Administration.{require_admin}

-- The variables that the loop accumulates.
pub record Tally : Type 0 where
  pub results : List LimitUpdateResult
  pub successful_count : ℕ
  pub failed_count : ℕ
  pub total_limits_value : ℤ

abbrev pub no_tally : Tally
no_tally = record {
  results = [];
  successful_count = 0;
  failed_count = 0;
  total_limits_value = pos 0;
}

-- 1,000,000 XLM in stroops.
abbrev high_value : ℤ
high_value = pos 10_000_000_000_000_000

-- The limit that a valid request sets.
abbrev pub new_limit : Env → SpendingLimitRequest → SpendingLimit
new_limit env request = record {
  user = request.user;
  monthly_limit = request.monthly_limit;
  daily_limit = request.daily_limit;
  hourly_limit = request.hourly_limit;
  reset_window_seconds = request.reset_window_seconds;
  current_spending = pos 0;
  category = request.category;
  updated_at = env.sequence;
  is_active = true;
  strategy = request.strategy;
}

-- `Some(code)` is a request that the validator refused.
unfoldable pub apply_request :
    Env → (batch_id : ℕ) → SpendingLimitRequest → Option ℕ → Tally × State → Tally × State
apply_request env batch_id request none (t, s) =
    let limit = new_limit env request in
    let s₁ =
      publish (LimitEvent.limit_updated batch_id request.user request.monthly_limit)
        (record s { limits = insert request.user limit s.limits }) in
    (
      record {
        results = push_back t.results (LimitUpdateResult.success limit);
        successful_count = t.successful_count + 1;
        failed_count = t.failed_count;
        total_limits_value =
            unwrap_or (checked_add t.total_limits_value request.monthly_limit) (pos i128_max);
      },
      if leb_ℤ high_value request.monthly_limit
          then publish (LimitEvent.high_value_limit batch_id request.user request.monthly_limit) s₁
          else s₁,
    )
apply_request env batch_id request (some error_code) (t, s) = (
  record t {
    results = push_back t.results (LimitUpdateResult.failure request.user error_code);
    failed_count = t.failed_count + 1;
  },
  publish (LimitEvent.limit_update_failed batch_id request.user error_code) s,
)

-- The loop over the requests.
unfoldable pub apply_requests :
    Env → (batch_id : ℕ) → List SpendingLimitRequest → Tally × State → Tally × State
apply_requests env batch_id [] r = r
apply_requests env batch_id (request ∷ requests) r =
    apply_requests env batch_id requests
      (apply_request env batch_id request (validate_limit_request request) r)

-- `if successful_count > 0 { total / successful_count } else { 0 }`
abbrev average : ℤ → ℕ → ℤ
average total count = if ltb 0 count then div_ℤ total count else pos 0

unfoldable pub batch_update_spending_limits :
    Env
    → Address
    → List SpendingLimitRequest
    → State
    → Result SpendingLimitError (BatchLimitResult × State)
batch_update_spending_limits env caller requests s = do
  require_auth env caller
  require_admin caller s
  let request_count = length requests
  throw_if (request_count == 0) (contract_error empty_batch)
  throw_if (ltb max_batch_size request_count) (contract_error batch_too_large)
  config ← or_throw s.config panicked
  batch_id ← add_u64 config.last_batch_id 1
  let (t, s₁) =
      apply_requests env batch_id requests
        (no_tally, publish (LimitEvent.batch_started batch_id request_count) s)
  let config' = record config {
    last_batch_id = batch_id;
    total_limits_updated =
        unwrap_or (checked_add_u64 config.total_limits_updated t.successful_count) u64_max;
    total_batches_processed = unwrap_or (checked_add_u64 config.total_batches_processed 1) u64_max;
  }
  let s₂ =
      publish
        (LimitEvent.batch_completed batch_id t.successful_count t.failed_count t.total_limits_value)
        (record s₁ { config = some config' })
  let metrics : BatchLimitMetrics = record {
    total_requests = request_count;
    successful_updates = t.successful_count;
    failed_updates = t.failed_count;
    total_limits_value = t.total_limits_value;
    avg_limit_amount = average t.total_limits_value t.successful_count;
    processed_at = env.sequence;
  }
  let result : BatchLimitResult = record {
    batch_id = batch_id;
    total_requests = request_count;
    successful = t.successful_count;
    failed = t.failed_count;
    results = t.results;
    metrics = metrics;
  }
  ok (result, s₂)
