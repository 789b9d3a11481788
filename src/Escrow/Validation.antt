-- ===== src/Escrow/Validation.antt =====
-- contracts/escrow/src/validation.rs: who may reverse or release an escrow, and when.
use stellarspend_contracts.Common.{
  ℕ, Bool, false, not, ◌&&◌, Option, none, some, ◌==◌, ltb, if◌then◌else◌,
}
use stellarspend_contracts.Soroban.{Address}
use stellarspend_contracts.Escrow.Types.{EscrowStatus, Escrow, active, released, reversed}

pub data ValidationError : Type 0 where
  escrow_not_found already_released already_reversed unauthorized : ValidationError
  deadline_not_reached : ValidationError

-- The constants of `ErrorCode`, by the errors that they stand for.
abbrev pub to_error_code : ValidationError → ℕ
to_error_code escrow_not_found = 0
to_error_code already_released = 1
to_error_code already_reversed = 2
to_error_code unauthorized = 3
to_error_code deadline_not_reached = 4

-- `Result<(), ValidationError>`
pub data Validation : Type 0 where
  valid : Validation
  invalid : ValidationError → Validation

-- `if let Some(arb) = &escrow.arbiter { caller == arb } else { false }`
abbrev pub is_arbiter : Option Address → Address → Bool
is_arbiter none caller = false
is_arbiter (some arb) caller = caller == arb

-- The `match escrow.status` of both functions: an early return, or the rest.
abbrev check_status : EscrowStatus → Validation → Validation
check_status released rest = invalid already_released
check_status reversed rest = invalid already_reversed
check_status active rest = rest

unfoldable pub validate_reversal : Option Escrow → Address → Address → Bool → ℕ → Validation
validate_reversal none caller admin check_deadline current_ledger = invalid escrow_not_found
validate_reversal (some escrow) caller admin check_deadline current_ledger =
    let is_admin = caller == admin in
    let is_depositor = caller == escrow.depositor in
    let arbiter = is_arbiter escrow.arbiter caller in
    check_status escrow.status (
      if not is_admin && not is_depositor && not arbiter
      then invalid unauthorized
      else if check_deadline && not is_admin && not arbiter && ltb current_ledger escrow.deadline
      then invalid deadline_not_reached
      else valid)

unfoldable pub validate_release : Option Escrow → Address → Address → Validation
validate_release none caller admin = invalid escrow_not_found
validate_release (some escrow) caller admin =
    let is_admin = caller == admin in
    let is_depositor = caller == escrow.depositor in
    let arbiter = is_arbiter escrow.arbiter caller in
    check_status escrow.status
      (if not is_admin && not is_depositor && not arbiter then invalid unauthorized else valid)
