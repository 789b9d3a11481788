-- ===== src/BatchTransfer/BurnCounts.antt =====
-- `batch_burn` of contracts/batch-transfer/src/lib.rs as a whole: what is burnt, and what is counted.
use stellarspend_contracts.Common.{◌≤◌, ◌≡◌, true, some, List, length}
use stellarspend_contracts.Soroban.{Address, Env, Token}
use stellarspend_contracts.BatchTransfer.Types.{BurnRequest, BatchBurnResult, State, max_batch_size}
use stellarspend_contracts.BatchTransfer.BurnRuns.{Burns, successes, failures, total_burnt}

-- What an accepted batch of burns did.
pub record IsBurntBatch (tok : Token) (env : Env) (token caller : Address)
    (burns : List BurnRequest) (s s' : State tok.Ledger) (result : BatchBurnResult) : Type 0 where
  pub authorized : env.authorized caller ≡ true
  pub is_admin : s.admin ≡ some caller
  pub not_empty : 1 ≤ length burns
  pub not_too_large : length burns ≤ max_batch_size
  pub burnt : Burns tok env token burns s.ledger result.results s'.ledger
  pub requests : result.total_requests ≡ length burns
  pub successful : result.successful ≡ successes result.results
  pub failed : result.failed ≡ failures result.results
  pub total : result.total_burned ≡ total_burnt result.results
  pub admin : s'.admin ≡ s.admin
  pub batches : s'.total_batches ≡ s.total_batches
  pub transfers : s'.total_transfers_processed ≡ s.total_transfers_processed
  pub volume : s'.total_volume_transferred ≡ s.total_volume_transferred
