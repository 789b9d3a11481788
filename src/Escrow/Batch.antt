-- ===== src/Escrow/Batch.antt =====
-- contracts/escrow/src/lib.rs: `batch_reverse_escrows` and `batch_release_escrows`. Each validates
-- all its requests first, and settles the valid ones in a second pass.
-- The counters of one batch are `u32` and at most the batch size, so their sums stay in range.
use stellarspend_contracts.Common.{
  ℕ, ◌+◌, Bool, true, false, Option, some, List, [], ◌∷◌, ltb, ◌==◌, length, push_back, unwrap_or,
}
use stellarspend_contracts.Common.Int.{ℤ, pos, checked_add, i128_max}
use stellarspend_contracts.Soroban.{
  Address, Env, Token, contract_error, panicked, Result, ok, ◌>>=◌, ◌>>◌, throw_if, or_throw,
  require_auth, add_u64,
}
use stellarspend_contracts.Escrow.Types.{
  Escrow, EscrowEvent, EscrowError, State, publish, ReversalRequest, ReleaseRequest, ReversalResult,
  ReleaseResult, BatchReversalResult, BatchReleaseResult, max_batch_size, released, reversed,
  not_initialized, empty_batch, batch_too_large,
}
use stellarspend_contracts.Escrow.Validation.{
  Validation, valid, invalid, to_error_code, validate_reversal, validate_release,
}
use stellarspend_contracts.Escrow.Lifecycle.{require_admin, settle}

-- An entry of `validated_requests`: the request's id, the record as the first pass read it, whether
-- it is valid, and the error code (0 if valid).
pub record Validated : Type 0 where
  pub id : ℕ
  pub escrow_opt : Option Escrow
  pub is_valid : Bool
  pub error_code : ℕ

abbrev pub to_validated : ℕ → Option Escrow → Validation → Validated
to_validated i e valid = record { id = i; escrow_opt = e; is_valid = true; error_code = 0 }
to_validated i e (invalid x) = record {
  id = i;
  escrow_opt = e;
  is_valid = false;
  error_code = to_error_code x;
}

-- The variables that a second pass accumulates; `R` is the type of a result.
pub record Tally (R : Type 0) : Type 0 where
  pub results : List R
  pub successful_count : ℕ
  pub failed_count : ℕ
  pub total : ℤ

abbrev pub no_tally : {R : Type 0} → Tally R
no_tally = record { results = []; successful_count = 0; failed_count = 0; total = pos 0 }

abbrev pub record_failure : {R : Type 0} → R → Tally R → Tally R
record_failure r t = record t { results = push_back t.results r; failed_count = t.failed_count + 1 }

-- `total.checked_add(amount).unwrap_or(total)`
abbrev pub record_success : {R : Type 0} → R → ℤ → Tally R → Tally R
record_success r amount t = record t {
  results = push_back t.results r;
  successful_count = t.successful_count + 1;
  total = unwrap_or (checked_add t.total amount) t.total;
}

-- `for (..) in validated_requests.iter()`: the second pass of a batch, a round for each entry.
unfoldable pub second_pass :
    {L R : Type 0}
    → (Validated → Tally R → State L → Result EscrowError (Tally R × State L))
    → List Validated
    → Tally R
    → State L
    → Result EscrowError (Tally R × State L)
second_pass round [] t s = ok (t, s)
second_pass round (v ∷ vs) t s = do r ← round v t s; second_pass round vs r.0 r.1

module _ (tok : Token) (env : Env) where
  unfoldable pub validate_reversals :
      Address → Address → State tok.Ledger → List ReversalRequest → List Validated
  validate_reversals caller admin s [] = []
  validate_reversals caller admin s (request ∷ requests) =
      let e = s.escrows request.escrow_id in
      to_validated request.escrow_id e (validate_reversal e caller admin true env.sequence)
      ∷ validate_reversals caller admin s requests

  unfoldable pub validate_releases :
      Address → Address → State tok.Ledger → List ReleaseRequest → List Validated
  validate_releases caller admin s [] = []
  validate_releases caller admin s (request ∷ requests) =
      let e = s.escrows request.escrow_id in
      to_validated request.escrow_id e (validate_release e caller admin)
      ∷ validate_releases caller admin s requests

  -- One round of the second pass of `batch_reverse_escrows`.
  unfoldable pub reverse_one :
      (batch_id : ℕ)
      → (token : Address) → Validated
      → Tally ReversalResult
      → State tok.Ledger
      → Result EscrowError (Tally ReversalResult × State tok.Ledger)
  reverse_one batch_id token v t s = elim v.is_valid [
    | false ↦ ok (
      record_failure (ReversalResult.failure v.id v.error_code) t,
      publish (EscrowEvent.reversal_failure batch_id v.id v.error_code) s,
    )
    | true ↦ do
      escrow ← or_throw v.escrow_opt panicked
      s₁ ← settle tok env token escrow.escrow_id escrow escrow.depositor reversed s
      ok (
        record_success (ReversalResult.success escrow.escrow_id escrow.depositor escrow.amount)
            escrow.amount t,
        publish
            (EscrowEvent.reversal_success batch_id escrow.escrow_id escrow.depositor escrow.amount)
            s₁,
      )
  ]

  -- One round of the second pass of `batch_release_escrows`.
  unfoldable pub release_one :
      (batch_id : ℕ)
      → (token : Address) → Validated
      → Tally ReleaseResult
      → State tok.Ledger
      → Result EscrowError (Tally ReleaseResult × State tok.Ledger)
  release_one batch_id token v t s = elim v.is_valid [
    | false ↦ ok (
      record_failure (ReleaseResult.failure v.id v.error_code) t,
      publish (EscrowEvent.release_failure batch_id v.id v.error_code) s,
    )
    | true ↦ do
      escrow ← or_throw v.escrow_opt panicked
      s₁ ← settle tok env token escrow.escrow_id escrow escrow.recipient released s
      ok (
        record_success (ReleaseResult.success escrow.escrow_id escrow.recipient escrow.amount)
            escrow.amount t,
        publish
            (EscrowEvent.release_success batch_id escrow.escrow_id escrow.recipient escrow.amount)
            s₁,
      )
  ]

  -- The check of the batch's size, which both batches make first.
  unfoldable pub check_batch_size : ℕ → Result EscrowError (Unit {0})
  check_batch_size request_count = do
    throw_if (request_count == 0) (contract_error empty_batch)
    throw_if (ltb max_batch_size request_count) (contract_error batch_too_large)

  -- The statistics that `batch_reverse_escrows` writes at its end.
  unfoldable pub add_reversal_statistics :
      Tally ReversalResult → State tok.Ledger → Result EscrowError (State tok.Ledger)
  add_reversal_statistics t s = do
    batches ← add_u64 (unwrap_or s.total_reversal_batches 0) 1
    settled ← add_u64 (unwrap_or s.total_escrows_reversed 0) t.successful_count
    ok (record s {
      total_reversal_batches = some batches;
      total_escrows_reversed = some settled;
      total_amount_reversed = some (
          unwrap_or (checked_add (unwrap_or s.total_amount_reversed (pos 0)) t.total)
            (pos i128_max));
    })

  -- The statistics that `batch_release_escrows` writes at its end.
  unfoldable pub add_release_statistics :
      Tally ReleaseResult → State tok.Ledger → Result EscrowError (State tok.Ledger)
  add_release_statistics t s = do
    batches ← add_u64 (unwrap_or s.total_release_batches 0) 1
    settled ← add_u64 (unwrap_or s.total_escrows_released 0) t.successful_count
    ok (record s {
      total_release_batches = some batches;
      total_escrows_released = some settled;
      total_amount_released = some (
          unwrap_or (checked_add (unwrap_or s.total_amount_released (pos 0)) t.total)
            (pos i128_max));
    })

  unfoldable pub batch_reverse_escrows :
      Address
      → List ReversalRequest
      → State tok.Ledger
      → Result EscrowError (BatchReversalResult × State tok.Ledger)
  batch_reverse_escrows caller requests s = do
    require_auth env caller
    require_admin tok env caller s
    let request_count = length requests
    check_batch_size request_count
    batch_id ← add_u64 (unwrap_or s.total_reversal_batches 0) 1
    admin ← or_throw s.admin (contract_error not_initialized)
    token ← or_throw s.token (contract_error not_initialized)
    let s₁ = publish (EscrowEvent.batch_reversal_started batch_id request_count) s
    let validated = validate_reversals caller admin s₁ requests
    r ← second_pass (reverse_one batch_id token) validated no_tally s₁
    let t = r.0
    s₂ ← add_reversal_statistics t r.1
    let s₃ =
        publish
          (EscrowEvent.batch_reversal_completed batch_id t.successful_count t.failed_count t.total)
          s₂
    let result : BatchReversalResult = record {
      batch_id = batch_id;
      total_requests = request_count;
      successful = t.successful_count;
      failed = t.failed_count;
      total_reversed = t.total;
      results = t.results;
    }
    ok (result, s₃)

  unfoldable pub batch_release_escrows :
      Address
      → List ReleaseRequest
      → State tok.Ledger
      → Result EscrowError (BatchReleaseResult × State tok.Ledger)
  batch_release_escrows caller requests s = do
    require_auth env caller
    let request_count = length requests
    check_batch_size request_count
    batch_id ← add_u64 (unwrap_or s.total_release_batches 0) 1
    admin ← or_throw s.admin (contract_error not_initialized)
    token ← or_throw s.token (contract_error not_initialized)
    let s₁ = publish (EscrowEvent.batch_release_started batch_id request_count) s
    let validated = validate_releases caller admin s₁ requests
    r ← second_pass (release_one batch_id token) validated no_tally s₁
    let t = r.0
    s₂ ← add_release_statistics t r.1
    let s₃ =
        publish
          (EscrowEvent.batch_release_completed batch_id t.successful_count t.failed_count t.total)
          s₂
    let result : BatchReleaseResult = record {
      batch_id = batch_id;
      total_requests = request_count;
      successful = t.successful_count;
      failed = t.failed_count;
      total_released = t.total;
      results = t.results;
    }
    ok (result, s₃)
