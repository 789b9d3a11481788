-- ===== src/Escrow/Lifecycle.antt =====
-- contracts/escrow/src/lib.rs: `initialize`, `create_escrow`, `release_escrow`, `set_admin` and the
-- queries.
use stellarspend_contracts.Common.{
  ℕ, Bool, true, false, not, ◌&&◌, Option, none, some, List, [], ◌==◌, insert, unwrap_or, push_back,
}
use stellarspend_contracts.Common.Int.{ℤ, pos, leb_ℤ, checked_add_u64}
use stellarspend_contracts.Soroban.{
  Address, Env, Token, contract_error, panicked, token_failed, Result, ok, ◌>>=◌, ◌>>◌, throw_if,
  or_throw, require_auth,
}
use stellarspend_contracts.Escrow.Types.{
  EscrowStatus, Escrow, State, EscrowError, publish, active, released, not_initialized,
  unauthorized, invalid_amount, escrow_not_found, already_initialized, escrow_created,
  escrow_released,
}
use stellarspend_contracts.Escrow.Validation.{is_arbiter}

abbrev is_set : {A : Type 0} → Option A → Bool
is_set none = false
is_set (some a) = true

abbrev pub is_active : EscrowStatus → Bool
is_active active = true
is_active _ = false

module _ (tok : Token) (env : Env) where
  unfoldable pub initialize :
      (admin token : Address) → State tok.Ledger → Result EscrowError (State tok.Ledger)
  initialize admin token s = do
    throw_if (is_set s.admin) (contract_error already_initialized)
    ok (record s {
      admin = some admin;
      token = some token;
      escrow_counter = some 0;
      total_reversal_batches = some 0;
      total_escrows_reversed = some 0;
      total_amount_reversed = some (pos 0);
      total_release_batches = some 0;
      total_escrows_released = some 0;
      total_amount_released = some (pos 0);
    })

  -- `token_client.transfer(&from, &to, &amount)`
  unfoldable pub transfer_token :
      (token from to : Address) → ℤ → State tok.Ledger → Result EscrowError (State tok.Ledger)
  transfer_token token from to amount s = do
    ledger ← or_throw (tok.transfer token from to amount s.ledger) token_failed
    ok (record s { ledger = ledger })

  unfoldable pub create_escrow :
      (depositor recipient : Address)
      → Option Address
      → ℤ
      → ℕ
      → State tok.Ledger
      → Result EscrowError (ℕ × State tok.Ledger)
  create_escrow depositor recipient arbiter amount deadline s = do
    require_auth env depositor
    throw_if (leb_ℤ amount (pos 0)) (contract_error invalid_amount)
    token ← or_throw s.token (contract_error not_initialized)
    s₁ ← transfer_token token depositor env.contract amount s
    escrow_id ←
        or_throw (checked_add_u64 (unwrap_or s₁.escrow_counter 0) 1) (contract_error invalid_amount)
    let escrow : Escrow = record {
      escrow_id = escrow_id;
      depositor = depositor;
      recipient = recipient;
      arbiter = arbiter;
      token = token;
      amount = amount;
      status = active;
      created_at = env.sequence;
      deadline = deadline;
    }
    let ids = push_back (unwrap_or (s₁.user_escrows depositor) []) escrow_id
    let s₂ = record s₁ {
      escrow_counter = some escrow_id;
      escrows = insert escrow_id escrow s₁.escrows;
      user_escrows = insert depositor ids s₁.user_escrows;
    }
    ok (escrow_id, publish (escrow_created escrow_id depositor recipient arbiter amount) s₂)

  -- The transfer out of the contract and the write of the settled record, which `release_escrow` and
  -- both batches make.
  unfoldable pub settle :
      (token : Address)
      → (key : ℕ) → Escrow
      → (payee : Address) → EscrowStatus
      → State tok.Ledger
      → Result EscrowError (State tok.Ledger)
  settle token key escrow payee status s = do
    s₁ ← transfer_token token env.contract payee escrow.amount s
    ok (record s₁ { escrows = insert key (record escrow { status = status }) s₁.escrows })

  unfoldable pub release_escrow :
      Address → ℕ → State tok.Ledger → Result EscrowError (State tok.Ledger)
  release_escrow caller escrow_id s = do
    require_auth env caller
    admin ← or_throw s.admin (contract_error not_initialized)
    escrow ← or_throw (s.escrows escrow_id) (contract_error escrow_not_found)
    throw_if
        (not (caller == admin)
          && not (caller == escrow.depositor)
          && not (is_arbiter escrow.arbiter caller))
        (contract_error unauthorized)
    throw_if (not (is_active escrow.status)) (contract_error unauthorized)
    s₁ ← settle escrow.token escrow_id escrow escrow.recipient released s
    ok (publish (escrow_released escrow_id escrow.recipient escrow.amount) s₁)

  -- The private helper: `expect`, then the comparison.
  unfoldable pub require_admin : Address → State tok.Ledger → Result EscrowError (Unit {0})
  require_admin caller s = do
    admin ← or_throw s.admin panicked
    throw_if (not (caller == admin)) (contract_error unauthorized)

  unfoldable pub set_admin :
      (current_admin new_admin : Address) → State tok.Ledger → Result EscrowError (State tok.Ledger)
  set_admin current_admin new_admin s = do
    require_auth env current_admin
    require_admin current_admin s
    ok (record s { admin = some new_admin })

module _ {L : Type 0} where
  pub get_escrow : State L → ℕ → Option Escrow
  get_escrow s escrow_id = s.escrows escrow_id

  pub get_user_escrows : State L → Address → List ℕ
  get_user_escrows s user = unwrap_or (s.user_escrows user) []

  pub get_admin : State L → Result EscrowError Address
  get_admin s = or_throw s.admin (contract_error not_initialized)

  abbrev pub get_escrow_counter : State L → ℕ
  get_escrow_counter s = unwrap_or s.escrow_counter 0
