-- ===== src/Escrow/Types.antt =====
-- contracts/escrow/src/types.rs, and the errors of contracts/escrow/src/lib.rs: records, requests,
-- results, storage and events.
use stellarspend_contracts.Common.{ℕ, Option, List, Map, push_back}
use stellarspend_contracts.Common.Int.{ℤ}
use stellarspend_contracts.Soroban.{Address}

-- MAX_BATCH_SIZE
abbrev pub max_batch_size : ℕ
max_batch_size = 100

pub data EscrowStatus : Type 0 where
  active released reversed : EscrowStatus

pub record Escrow : Type 0 where
  pub escrow_id : ℕ
  pub depositor : Address
  pub recipient : Address
  pub arbiter : Option Address
  pub token : Address
  pub amount : ℤ
  pub status : EscrowStatus
  pub created_at : ℕ
  pub deadline : ℕ

pub record ReversalRequest : Type 0 where
  pub escrow_id : ℕ

pub record ReleaseRequest : Type 0 where
  pub escrow_id : ℕ

pub data ReversalResult : Type 0 where
  success : ℕ → Address → ℤ → ReversalResult
  failure : ℕ → ℕ → ReversalResult

pub record BatchReversalResult : Type 0 where
  pub batch_id : ℕ
  pub total_requests : ℕ
  pub successful : ℕ
  pub failed : ℕ
  pub total_reversed : ℤ
  pub results : List ReversalResult

pub data ReleaseResult : Type 0 where
  success : ℕ → Address → ℤ → ReleaseResult
  failure : ℕ → ℕ → ReleaseResult

pub record BatchReleaseResult : Type 0 where
  pub batch_id : ℕ
  pub total_requests : ℕ
  pub successful : ℕ
  pub failed : ℕ
  pub total_released : ℤ
  pub results : List ReleaseResult

pub data EscrowError : Type 0 where
  not_initialized unauthorized empty_batch batch_too_large invalid_amount : EscrowError
  escrow_not_found already_initialized : EscrowError

-- What the emitters of `EscrowEvents` publish.
pub data EscrowEvent : Type 0 where
  escrow_created : ℕ → Address → Address → Option Address → ℤ → EscrowEvent
  batch_reversal_started : ℕ → ℕ → EscrowEvent
  reversal_success : ℕ → ℕ → Address → ℤ → EscrowEvent
  reversal_failure : ℕ → ℕ → ℕ → EscrowEvent
  batch_reversal_completed : ℕ → ℕ → ℕ → ℤ → EscrowEvent
  escrow_released : ℕ → Address → ℤ → EscrowEvent
  batch_release_started : ℕ → ℕ → EscrowEvent
  release_success : ℕ → ℕ → Address → ℤ → EscrowEvent
  release_failure : ℕ → ℕ → ℕ → EscrowEvent
  batch_release_completed : ℕ → ℕ → ℕ → ℤ → EscrowEvent

-- The storage, a field for each `DataKey` (`none` is a key that was never set), with the ledger of
-- the token contracts and the events published so far.
pub record State (L : Type 0) : Type 0 where
  pub admin : Option Address
  pub token : Option Address
  pub escrows : Map Escrow
  pub user_escrows : Map (List ℕ)
  pub escrow_counter : Option ℕ
  pub total_reversal_batches : Option ℕ
  pub total_escrows_reversed : Option ℕ
  pub total_amount_reversed : Option ℤ
  pub total_release_batches : Option ℕ
  pub total_escrows_released : Option ℕ
  pub total_amount_released : Option ℤ
  pub ledger : L
  pub events : List EscrowEvent

-- `env.events().publish`
abbrev pub publish : {L : Type 0} → EscrowEvent → State L → State L
publish ev s = record s { events = push_back s.events ev }
