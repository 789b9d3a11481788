-- ===== src/BatchTransfer/Batches.antt =====
-- `batch_transfer` of contracts/batch-transfer/src/lib.rs as a whole.
use stellarspend_contracts.Common.{
  ◌+◌, ◌≤◌, ◌≡◌, ◌≢◌, inl, inr, some, true, List, [], ◌∷◌, length, arith, Option-cases,
}
use stellarspend_contracts.Common.Int.{pos, ◌+ℤ◌}
use stellarspend_contracts.Soroban.{Address, Env, Token, Result, ok, ◌>>◌, require_auth}
use stellarspend_contracts.BatchTransfer.Types.{
  TransferRequest, BatchTransferResult, BatchTransferError, State, max_batch_size,
}
use stellarspend_contracts.BatchTransfer.Transfers.{Tally, require_admin}
use stellarspend_contracts.BatchTransfer.Recipients.{recipients, all_distinct}
use stellarspend_contracts.BatchTransfer.Accounting.{total_sent, failed}

-- No request names the address.
unfoldable pub IsElsewhere : Address → List TransferRequest → Type 0
IsElsewhere a [] = Unit
IsElsewhere a (r ∷ rs) = (a ≢ r.recipient) × IsElsewhere a rs

-- What an accepted batch did.
pub record IsSent (tok : Token) (token caller : Address) (transfers : List TransferRequest)
    (s s' : State tok.Ledger) (result : BatchTransferResult) : Type 0 where
  pub is_admin : s.admin ≡ some caller
  pub not_empty : 1 ≤ length transfers
  pub not_too_large : length transfers ≤ max_batch_size
  pub distinct : all_distinct (recipients transfers) ≡ true
  pub answers : length result.results ≡ length transfers
  pub counts : result.successful + result.failed ≡ length transfers
  pub total : result.total_transferred ≡ total_sent result.results
  pub balance :
      result.total_transferred +ℤ tok.balance token caller s'.ledger
      ≡ tok.balance token caller s.ledger

pub checks_ok :
    (tok : Token) (env : Env) {A : Type 0} (caller : Address) (s : State tok.Ledger)
    (rest : Result BatchTransferError A) (r : A)
    → (require_auth env caller >> (require_admin tok env caller s >> rest)) ≡ ok r
    → (s.admin ≡ some caller) × (rest ≡ ok r)
unfolding require_admin
checks_ok tok env caller s rest r h = elim (Option-cases s.admin) [
  | inl unset ↦ absurd (ground arith)
  | inr (a, e) ↦ let same : caller ≡ a = ground arith in (rw (same) e, ground arith)
]

-- The variables before the second pass.
abbrev first_tally : (tok : Token) → (token caller : Address) → State tok.Ledger → Tally
first_tally tok token caller s = record {
  results = [];
  successful_count = 0;
  failed_count = 0;
  total_transferred = pos 0;
  available_balance = tok.balance token caller s.ledger;
}
