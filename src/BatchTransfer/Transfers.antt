-- ===== src/BatchTransfer/Transfers.antt =====
-- contracts/batch-transfer/src/lib.rs: the start, the admin and `batch_transfer`.
-- The counters of one batch are `u32` and at most the batch size. The sum `total_needed` of the first
-- pass is never read and left out.
use stellarspend_contracts.Common.{
  ℕ, ◌+◌, Bool, true, false, not, Option, none, some, List, [], ◌∷◌, ◌==◌, length, map, push_back,
  unwrap_or, if◌then◌else◌,
}
use stellarspend_contracts.Common.Int.{ℤ, pos, ◌-ℤ◌, ltb_ℤ, checked_add, i128_max}
use stellarspend_contracts.Soroban.{
  Address, Env, Token, Result, ok, contract_error, panicked, token_failed, ◌>>=◌, ◌>>◌, throw_if,
  or_throw, require_auth, add_u64,
}
use stellarspend_contracts.BatchTransfer.Types.{
  TransferRequest, TransferResult, BatchTransferResult, BatchTransferError, TransferEvent, State,
  publish, max_batch_size, unauthorized, empty_batch, batch_too_large, duplicate_recipient,
}
use stellarspend_contracts.BatchTransfer.Validation.{
  validate_unique_recipients, validate_batch_not_empty, validate_batch_size, check_request,
}

abbrev is_set {ℓ} : {A : Type ℓ} → Option A → Bool
is_set none = false
is_set (some a) = true

-- The variables of the second pass.
pub record Tally : Type 0 where
  pub results : List TransferResult
  pub successful_count : ℕ
  pub failed_count : ℕ
  pub total_transferred : ℤ
  pub available_balance : ℤ

-- The first pass: each request with its error, if it has one.
abbrev pub validate_requests : List TransferRequest → List (TransferRequest × Option ℕ)
validate_requests transfers = map (λ r. (r, check_request r.recipient r.amount)) transfers

module _ (tok : Token) (env : Env) where
  unfoldable pub initialize :
      Address → State tok.Ledger → Result BatchTransferError (State tok.Ledger)
  initialize admin s = do
    throw_if (is_set s.admin) panicked
    ok (record s {
      admin = some admin;
      total_batches = some 0;
      total_transfers_processed = some 0;
      total_volume_transferred = some (pos 0);
    })

  unfoldable pub require_admin : Address → State tok.Ledger → Result BatchTransferError (Unit {0})
  require_admin caller s = do
    admin ← or_throw s.admin panicked
    throw_if (not (caller == admin)) (contract_error unauthorized)

  unfoldable pub set_admin :
      (current_admin new_admin : Address)
      → State tok.Ledger
      → Result BatchTransferError (State tok.Ledger)
  set_admin current_admin new_admin s = do
    require_auth env current_admin
    require_admin current_admin s
    ok (record s { admin = some new_admin })

  -- A request that is not carried out.
  abbrev pub fail_request :
      ℕ → TransferRequest → ℕ → Tally × State tok.Ledger → Tally × State tok.Ledger
  fail_request batch_id request code (t, s) = (
    record t {
      results = push_back t.results (TransferResult.failure request.recipient request.amount code);
      failed_count = t.failed_count + 1;
    },
    publish (TransferEvent.transfer_failure batch_id request.recipient request.amount code) s,
  )

  -- One round of the second pass.
  unfoldable pub transfer_one :
      (token caller : Address)
      → ℕ
      → TransferRequest × Option ℕ
      → Tally × State tok.Ledger
      → Result BatchTransferError (Tally × State tok.Ledger)
  transfer_one token caller batch_id (request, some code) x =
      ok (fail_request batch_id request code x)
  transfer_one token caller batch_id (request, none) (t, s) =
      if ltb_ℤ t.available_balance request.amount
      then ok (fail_request batch_id request 2 (t, s))
      else (do
        ledger ←
            or_throw (tok.transfer token caller request.recipient request.amount s.ledger)
              token_failed
        ok (
          record {
            results = push_back t.results (TransferResult.success request.recipient request.amount);
            successful_count = t.successful_count + 1;
            failed_count = t.failed_count;
            total_transferred =
                unwrap_or (checked_add t.total_transferred request.amount) t.total_transferred;
            available_balance = t.available_balance -ℤ request.amount;
          },
          publish (TransferEvent.transfer_success batch_id request.recipient request.amount)
              (record s { ledger = ledger }),
        ))

  unfoldable pub transfer_all :
      (token caller : Address)
      → ℕ
      → List (TransferRequest × Option ℕ)
      → Tally × State tok.Ledger
      → Result BatchTransferError (Tally × State tok.Ledger)
  transfer_all token caller batch_id [] x = ok x
  transfer_all token caller batch_id (r ∷ rs) x =
      transfer_one token caller batch_id r x >>= transfer_all token caller batch_id rs

  unfoldable pub batch_transfer :
      (caller token : Address)
      → List TransferRequest
      → State tok.Ledger
      → Result BatchTransferError (BatchTransferResult × State tok.Ledger)
  batch_transfer caller token transfers s = do
    require_auth env caller
    require_admin caller s
    throw_if (not (validate_batch_not_empty transfers)) (contract_error empty_batch)
    let request_count = length transfers
    throw_if (not (validate_batch_size request_count max_batch_size))
        (contract_error batch_too_large)
    throw_if (not (validate_unique_recipients transfers)) (contract_error duplicate_recipient)
    batch_id ← add_u64 (unwrap_or s.total_batches 0) 1
    let start : Tally = record {
      results = [];
      successful_count = 0;
      failed_count = 0;
      total_transferred = pos 0;
      available_balance = tok.balance token caller s.ledger;
    }
    r ←
        transfer_all token caller batch_id (validate_requests transfers)
          (start, publish (TransferEvent.batch_started batch_id request_count) s)
    batches ← add_u64 (unwrap_or r.1.total_batches 0) 1
    processed ← add_u64 (unwrap_or r.1.total_transfers_processed 0) request_count
    let t = r.0
    let s₁ = record r.1 {
      total_batches = some batches;
      total_transfers_processed = some processed;
      total_volume_transferred = some (
          unwrap_or
            (checked_add t.total_transferred (unwrap_or r.1.total_volume_transferred (pos 0)))
            (pos i128_max));
    }
    let result : BatchTransferResult = record {
      total_requests = request_count;
      successful = t.successful_count;
      failed = t.failed_count;
      total_transferred = t.total_transferred;
      results = t.results;
    }
    ok (
      result,
      publish
          (TransferEvent.batch_completed batch_id t.successful_count t.failed_count
            t.total_transferred)
          s₁,
    )
