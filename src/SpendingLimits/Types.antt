-- ===== src/SpendingLimits/Types.antt =====
-- contracts/spending-limits/src/types.rs, and the errors of contracts/spending-limits/src/lib.rs.
use stellarspend_contracts.Common.{ℕ, Bool, Option, List, Map, push_back}
use stellarspend_contracts.Common.Int.{ℤ, pos}
use stellarspend_contracts.Soroban.{Address, Symbol}

abbrev pub max_batch_size : ℕ
max_batch_size = 100

abbrev pub min_spending_limit : ℤ
min_spending_limit = pos 10_000_000

abbrev pub max_spending_limit : ℤ
max_spending_limit = pos 1_000_000_000_000_000_000

abbrev pub min_reset_window_seconds : ℕ
min_reset_window_seconds = 3_600

abbrev pub max_reset_window_seconds : ℕ
max_reset_window_seconds = 7_776_000

pub data LimitStrategy : Type 0 where
  static adaptive : LimitStrategy

pub record EscalationConfig : Type 0 where
  pub small_threshold : ℤ
  pub medium_threshold : ℤ
  pub enabled : Bool

pub record SpendingLimitRequest : Type 0 where
  pub user : Address
  pub monthly_limit : ℤ
  pub daily_limit : ℤ
  pub hourly_limit : ℤ
  pub reset_window_seconds : ℕ
  pub category : Option Symbol
  pub strategy : LimitStrategy

pub record SpendingLimit : Type 0 where
  pub user : Address
  pub monthly_limit : ℤ
  pub daily_limit : ℤ
  pub hourly_limit : ℤ
  pub reset_window_seconds : ℕ
  pub current_spending : ℤ
  pub category : Option Symbol
  pub updated_at : ℕ
  pub is_active : Bool
  pub strategy : LimitStrategy

pub record LimitsConfig : Type 0 where
  pub admin : Address
  pub last_batch_id : ℕ
  pub total_limits_updated : ℕ
  pub total_batches_processed : ℕ

pub data LimitUpdateResult : Type 0 where
  success : SpendingLimit → LimitUpdateResult
  failure : Address → ℕ → LimitUpdateResult

pub record BatchLimitMetrics : Type 0 where
  pub total_requests : ℕ
  pub successful_updates : ℕ
  pub failed_updates : ℕ
  pub total_limits_value : ℤ
  pub avg_limit_amount : ℤ
  pub processed_at : ℕ

pub record BatchLimitResult : Type 0 where
  pub batch_id : ℕ
  pub total_requests : ℕ
  pub successful : ℕ
  pub failed : ℕ
  pub results : List LimitUpdateResult
  pub metrics : BatchLimitMetrics

pub record ExceptionRule : Type 0 where
  pub user : Address
  pub category : Symbol
  pub created_at : ℕ
  pub is_active : Bool

pub data SpendingLimitError : Type 0 where
  not_initialized unauthorized invalid_batch empty_batch batch_too_large : SpendingLimitError
  daily_limit_exceeded hourly_limit_exceeded monthly_limit_exceeded : SpendingLimitError
  invalid_amount category_not_approved : SpendingLimitError

-- The constants of the module `ErrorCode` that the validator answers.
abbrev pub invalid_limit_code : ℕ
invalid_limit_code = 0

abbrev pub invalid_user_address_code : ℕ
invalid_user_address_code = 1

-- What the emitters of `LimitEvents` publish, and the event of an emergency override. The event
-- `limit_exceeded` is left out: the call that publishes it panics next, which undoes it.
pub data LimitEvent : Type 0 where
  batch_started : ℕ → ℕ → LimitEvent
  limit_updated : ℕ → Address → ℤ → LimitEvent
  limit_adjusted : Address → ℤ → ℤ → LimitEvent
  high_value_limit : ℕ → Address → ℤ → LimitEvent
  limit_update_failed : ℕ → Address → ℕ → LimitEvent
  batch_completed : ℕ → ℕ → ℕ → ℤ → LimitEvent
  escalation_configured : ℤ → ℤ → Bool → LimitEvent
  escalation_approved : Address → Address → ℤ → LimitEvent
  spending_limit_overridden : Address → Address → ℤ → ℤ → LimitEvent
  exception_added : Address → Symbol → LimitEvent
  exception_removed : Address → Symbol → LimitEvent
  exception_bypassed : Address → ℤ → Symbol → LimitEvent
  approved_category_added : Symbol → LimitEvent
  approved_category_removed : Symbol → LimitEvent
  emergency_overridden : Address → Address → ℤ → ℕ → LimitEvent

-- The storage, a field for each `DataKey` that the contract uses, with the whitelist that it shares
-- with the cross-contract module.
pub record State : Type 0 where
  pub config : Option LimitsConfig
  pub limits : Map SpendingLimit
  pub hourly_spending : Address → Map ℤ
  pub daily_spending : Address → Map ℤ
  pub monthly_spending : Address → Map ℤ
  pub exception_rules : Address → Map ExceptionRule
  pub approved_categories : Option (List Symbol)
  pub escalation : Option EscalationConfig
  pub whitelist : Map Bool
  pub events : List LimitEvent

-- `env.events().publish`
abbrev pub publish : LimitEvent → State → State
publish ev s = record s { events = push_back s.events ev }
