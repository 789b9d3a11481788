-- ===== src/BatchTransfer/Examples.antt =====
-- The theorems on contracts/batch-transfer/src at a small contract: the admin 9, who holds 250.
use stellarspend_contracts.Common.{◌≡◌, true, none, List, [], ◌∷◌, ◌==◌, if◌then◌else◌}
use stellarspend_contracts.Common.Int.{pos}
use stellarspend_contracts.Soroban.{Env, ok_or}
use stellarspend_contracts.Soroban.SimpleToken.{Table, simple_token}
use stellarspend_contracts.BatchTransfer.Types.{
  TransferRequest, BurnRequest, BatchTransferResult, BatchBurnResult, State,
}
use stellarspend_contracts.BatchTransfer.Validation.{validate_unique_recipients}
use stellarspend_contracts.BatchTransfer.Transfers.{initialize, batch_transfer}
use stellarspend_contracts.BatchTransfer.Burns.{batch_burn}
use stellarspend_contracts.BatchTransfer.Recipients.{
  recipients, all_distinct, validate_unique_recipients-all_distinct,
}

abbrev env : Env
env = record { timestamp = 1000; sequence = 7; contract = 100; authorized = λ a. true }

abbrev ledger : Table
ledger k a = if a == 9 then pos 250 else pos 0

abbrev deployed : State Table
deployed = record {
  admin = none;
  total_batches = none;
  total_transfers_processed = none;
  total_volume_transferred = none;
  ledger = ledger;
  events = [];
}

abbrev started : State Table
started = ok_or (initialize simple_token env 9 deployed) deployed

-- One transfer that is made, one without an amount, and one that is not covered.
abbrev transfers : List TransferRequest
transfers =
    record { recipient = 2; amount = pos 100 }
    ∷ record { recipient = 3; amount = pos 0 }
    ∷ record { recipient = 4; amount = pos 1_000 }
    ∷ []

abbrev no_transfers : BatchTransferResult
no_transfers = record {
  total_requests = 0;
  successful = 0;
  failed = 0;
  total_transferred = pos 0;
  results = [];
}

abbrev sent_batch : BatchTransferResult × State Table
sent_batch = ok_or (batch_transfer simple_token env 9 50 transfers started) (no_transfers, started)

validate_unique_recipients-all_distinct_example :
    validate_unique_recipients transfers ≡ all_distinct (recipients transfers)
validate_unique_recipients-all_distinct_example = validate_unique_recipients-all_distinct transfers

abbrev burns : List BurnRequest
burns = record { owner = 9; amount = pos 50 } ∷ record { owner = 3; amount = pos 1 } ∷ []

abbrev no_burns : BatchBurnResult
no_burns = record {
  total_requests = 0;
  successful = 0;
  failed = 0;
  total_burned = pos 0;
  results = [];
}

abbrev burnt_batch : BatchBurnResult × State Table
burnt_batch = ok_or (batch_burn simple_token env 9 50 burns started) (no_burns, started)
