-- ===== src/BatchTransfer/Burns.antt =====
-- contracts/batch-transfer/src/lib.rs: `batch_burn`.
-- The counters of one batch are `u32` and at most the batch size.
use stellarspend_contracts.Common.{
  ℕ, ◌+◌, not, Option, none, some, List, [], ◌∷◌, length, push_back, unwrap_or, if◌then◌else◌,
}
use stellarspend_contracts.Common.Int.{ℤ, pos, ltb_ℤ, checked_add}
use stellarspend_contracts.Soroban.{
  Address, Env, Token, Result, ok, contract_error, token_failed, ◌>>=◌, ◌>>◌, throw_if, or_throw,
  require_auth, add_u64,
}
use stellarspend_contracts.BatchTransfer.Types.{
  BurnRequest, BurnResult, BatchBurnResult, BatchTransferError, TransferEvent, State, publish,
  max_batch_size, empty_batch, batch_too_large,
}
use stellarspend_contracts.BatchTransfer.Validation.{
  validate_batch_not_empty, validate_batch_size, check_request,
}
use stellarspend_contracts.BatchTransfer.Transfers.{require_admin}

-- The variables of the loop.
pub record BurnTally : Type 0 where
  pub results : List BurnResult
  pub successful_count : ℕ
  pub failed_count : ℕ
  pub total_burned : ℤ

module _ (tok : Token) (env : Env) where
  -- A request that is not carried out.
  abbrev pub fail_burn :
      ℕ → BurnRequest → ℕ → BurnTally × State tok.Ledger → BurnTally × State tok.Ledger
  fail_burn batch_id request code (t, s) = (
    record t {
      results = push_back t.results (BurnResult.failure request.owner request.amount code);
      failed_count = t.failed_count + 1;
    },
    publish (TransferEvent.burn_failure batch_id request.owner request.amount code) s,
  )

  -- One round of the loop, with the verdict on the request.
  unfoldable pub burn_one :
      (token : Address)
      → ℕ
      → BurnRequest
      → Option ℕ
      → BurnTally × State tok.Ledger
      → Result BatchTransferError (BurnTally × State tok.Ledger)
  burn_one token batch_id request (some code) x = ok (fail_burn batch_id request code x)
  burn_one token batch_id request none (t, s) =
      if ltb_ℤ (tok.balance token request.owner s.ledger) request.amount
      then ok (fail_burn batch_id request 2 (t, s))
      else (do
        require_auth env request.owner
        ledger ← or_throw (tok.burn token request.owner request.amount s.ledger) token_failed
        ok (
          record {
            results = push_back t.results (BurnResult.success request.owner request.amount);
            successful_count = t.successful_count + 1;
            failed_count = t.failed_count;
            total_burned = unwrap_or (checked_add t.total_burned request.amount) t.total_burned;
          },
          publish (TransferEvent.burn_success batch_id request.owner request.amount)
              (record s { ledger = ledger }),
        ))

  unfoldable pub burn_all :
      (token : Address)
      → ℕ
      → List BurnRequest
      → BurnTally × State tok.Ledger
      → Result BatchTransferError (BurnTally × State tok.Ledger)
  burn_all token batch_id [] x = ok x
  burn_all token batch_id (r ∷ rs) x =
      burn_one token batch_id r (check_request r.owner r.amount) x >>= burn_all token batch_id rs

  unfoldable pub batch_burn :
      (caller token : Address)
      → List BurnRequest
      → State tok.Ledger
      → Result BatchTransferError (BatchBurnResult × State tok.Ledger)
  batch_burn caller token burns s = do
    require_auth env caller
    require_admin tok env caller s
    throw_if (not (validate_batch_not_empty burns)) (contract_error empty_batch)
    let request_count = length burns
    throw_if (not (validate_batch_size request_count max_batch_size))
        (contract_error batch_too_large)
    batch_id ← add_u64 (unwrap_or s.total_batches 0) 1
    let start : BurnTally = record {
      results = [];
      successful_count = 0;
      failed_count = 0;
      total_burned = pos 0;
    }
    r ←
        burn_all token batch_id burns
          (start, publish (TransferEvent.batch_started batch_id request_count) s)
    let t = r.0
    let result : BatchBurnResult = record {
      total_requests = request_count;
      successful = t.successful_count;
      failed = t.failed_count;
      total_burned = t.total_burned;
      results = t.results;
    }
    ok (
      result,
      publish
          (TransferEvent.burn_batch_completed batch_id t.successful_count t.failed_count
            t.total_burned)
          r.1,
    )
