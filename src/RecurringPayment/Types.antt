-- ===== src/RecurringPayment/Types.antt =====
-- contracts/recurring-payment/src/types.rs.
use stellarspend_contracts.Common.{ℕ, Bool, Option, List, Map, push_back}
use stellarspend_contracts.Common.Int.{ℤ}
use stellarspend_contracts.Soroban.{Address, Symbol}

pub record RecurringPayment : Type 0 where
  pub sender : Address
  pub recipient : Address
  pub token : Address
  pub amount : ℤ
  pub interval : ℕ
  pub next_execution : ℕ
  pub active : Bool
  pub paused : Bool
  pub execution_count : ℕ
  pub missed_count : ℕ
  pub last_missed_at : ℕ

pub record IncomeStream : Type 0 where
  pub stream_id : ℕ
  pub recipient : Address
  pub source : Symbol
  pub amount : ℤ
  pub interval_seconds : ℕ
  pub next_payout : ℕ
  pub target_goal_id : ℕ
  pub active : Bool

-- The contract has no error codes: its calls panic.
pub data NoError : Type 0 where
  no_error : NoError

pub data RecurringEvent : Type 0 where
  created : ℕ → Address → RecurringEvent
  missed : ℕ → (missed_count last_missed_at : ℕ) → RecurringEvent
  executed : ℕ → ℤ → ℕ → RecurringEvent
  canceled was_paused resumed : ℕ → Address → RecurringEvent
  income_created : ℕ → Address → Symbol → ℤ → RecurringEvent
  income_processed : ℕ → Address → ℤ → ℕ → RecurringEvent
  income_canceled : ℕ → Address → RecurringEvent

-- The storage, a field for each `DataKey`, with the ledger of the tokens.
pub record State (Ledger : Type 0) : Type 0 where
  pub payments : Map RecurringPayment
  pub payment_count : Option ℕ
  pub income_streams : Map IncomeStream
  pub income_stream_count : Option ℕ
  pub user_income_streams : Address → Option (List ℕ)
  pub ledger : Ledger
  pub events : List RecurringEvent

-- `env.events().publish`
abbrev pub publish : {L : Type 0} → RecurringEvent → State L → State L
publish ev s = record s { events = push_back s.events ev }
