-- ===== src/BatchTransfer/Types.antt =====
-- contracts/batch-transfer/src/types.rs, and the errors of contracts/batch-transfer/src/lib.rs.
use stellarspend_contracts.Common.{ℕ, Option, List, push_back}
use stellarspend_contracts.Common.Int.{ℤ}
use stellarspend_contracts.Soroban.{Address}

abbrev pub max_batch_size : ℕ
max_batch_size = 100

pub record TransferRequest : Type 0 where
  pub recipient : Address
  pub amount : ℤ

pub record BurnRequest : Type 0 where
  pub owner : Address
  pub amount : ℤ

-- A transfer to an address, or a burn of an owner's funds, with the code of a failure.
pub data TransferResult : Type 0 where
  success : Address → ℤ → TransferResult
  failure : Address → ℤ → ℕ → TransferResult

pub data BurnResult : Type 0 where
  success : Address → ℤ → BurnResult
  failure : Address → ℤ → ℕ → BurnResult

pub record BatchTransferResult : Type 0 where
  pub total_requests : ℕ
  pub successful : ℕ
  pub failed : ℕ
  pub total_transferred : ℤ
  pub results : List TransferResult

pub record BatchBurnResult : Type 0 where
  pub total_requests : ℕ
  pub successful : ℕ
  pub failed : ℕ
  pub total_burned : ℤ
  pub results : List BurnResult

pub data BatchTransferError : Type 0 where
  not_initialized unauthorized invalid_batch empty_batch batch_too_large : BatchTransferError
  invalid_token duplicate_recipient : BatchTransferError

pub data TransferEvent : Type 0 where
  batch_started : ℕ → ℕ → TransferEvent
  transfer_success burn_success : ℕ → Address → ℤ → TransferEvent
  transfer_failure burn_failure : ℕ → Address → ℤ → ℕ → TransferEvent
  batch_completed burn_batch_completed : ℕ → ℕ → ℕ → ℤ → TransferEvent

-- The storage, a field for each `DataKey`, with the ledger of the tokens.
pub record State (Ledger : Type 0) : Type 0 where
  pub admin : Option Address
  pub total_batches : Option ℕ
  pub total_transfers_processed : Option ℕ
  pub total_volume_transferred : Option ℤ
  pub ledger : Ledger
  pub events : List TransferEvent

-- `env.events().publish`
abbrev pub publish : {L : Type 0} → TransferEvent → State L → State L
publish ev s = record s { events = push_back s.events ev }
