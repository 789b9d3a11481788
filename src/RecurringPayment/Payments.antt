-- ===== src/RecurringPayment/Payments.antt =====
-- contracts/recurring-payment/src/lib.rs: the payment schedules.
use stellarspend_contracts.Common.{
  ℕ, ◌-◌, true, false, not, some, ◌==◌, ltb, leb, unwrap_or, insert, if◌then◌else◌,
}
use stellarspend_contracts.Common.Int.{ℤ, pos, leb_ℤ, ltb_ℤ, saturating_add_u64, saturating_add_u32}
use stellarspend_contracts.Soroban.{
  Address, Env, Token, Result, ok, panicked, token_failed, ◌>>=◌, ◌>>◌, throw_if, or_throw,
  require_auth, add_u64, mul_u64, div_u64, add_u32,
}
use stellarspend_contracts.RecurringPayment.Types.{
  RecurringPayment, RecurringEvent, NoError, State, publish,
}

-- `if next <= now { .. }`: from a due date on the schedule to the first one after `now`.
unfoldable pub catch_up : (now interval next : ℕ) → Result NoError ℕ
catch_up now interval next =
    if leb next now
    then (do
      intervals_passed ← div_u64 (now - next) interval
      steps ← add_u64 intervals_passed 1
      delta ← mul_u64 steps interval
      add_u64 next delta)
    else ok next

module _ (tok : Token) (env : Env) where
  unfoldable pub create_payment :
      (sender recipient token : Address)
      → ℤ
      → (interval start_time : ℕ) → State tok.Ledger
      → Result NoError (ℕ × State tok.Ledger)
  create_payment sender recipient token amount interval start_time s = do
    require_auth env sender
    throw_if (leb_ℤ amount (pos 0)) panicked
    throw_if (interval == 0) panicked
    count ← add_u64 (unwrap_or s.payment_count 0) 1
    let payment : RecurringPayment = record {
      sender = sender;
      recipient = recipient;
      token = token;
      amount = amount;
      interval = interval;
      next_execution = start_time;
      active = true;
      paused = false;
      execution_count = 0;
      missed_count = 0;
      last_missed_at = 0;
    }
    ok (
      count,
      publish (RecurringEvent.created count sender)
          (record s { payments = insert count payment s.payments; payment_count = some count }),
    )

  -- The branch of a balance that is too small.
  unfoldable pub miss_payment :
      ℕ → RecurringPayment → State tok.Ledger → Result NoError (State tok.Ledger)
  miss_payment payment_id payment s = do
    next ←
        catch_up env.timestamp payment.interval
          (saturating_add_u64 payment.next_execution payment.interval)
    let missed_count = saturating_add_u32 payment.missed_count 1
    let payment' = record payment {
      missed_count = missed_count;
      last_missed_at = env.timestamp;
      next_execution = next;
    }
    ok (
        publish (RecurringEvent.missed payment_id missed_count env.timestamp)
          (record s { payments = insert payment_id payment' s.payments }))

  -- The branch of a balance that is enough.
  unfoldable pub make_payment :
      ℕ → RecurringPayment → State tok.Ledger → Result NoError (State tok.Ledger)
  make_payment payment_id payment s = do
    ledger ←
        or_throw
          (tok.transfer payment.token payment.sender payment.recipient payment.amount s.ledger)
          token_failed
    due ← add_u64 payment.next_execution payment.interval
    next ← catch_up env.timestamp payment.interval due
    executions ← add_u32 payment.execution_count 1
    let payment' = record payment {
      missed_count = 0;
      last_missed_at = 0;
      next_execution = next;
      execution_count = executions;
    }
    ok (
        publish (RecurringEvent.executed payment_id payment.amount next)
          (record s { payments = insert payment_id payment' s.payments; ledger = ledger }))

  unfoldable pub execute_payment : ℕ → State tok.Ledger → Result NoError (State tok.Ledger)
  execute_payment payment_id s = do
    payment ← or_throw (s.payments payment_id) panicked
    throw_if (not payment.active) panicked
    throw_if payment.paused panicked
    throw_if (ltb env.timestamp payment.next_execution) panicked
    require_auth env payment.sender
    if ltb_ℤ (tok.balance payment.token payment.sender s.ledger) payment.amount
        then miss_payment payment_id payment s
        else make_payment payment_id payment s

  unfoldable pub cancel_payment : ℕ → State tok.Ledger → Result NoError (State tok.Ledger)
  cancel_payment payment_id s = do
    payment ← or_throw (s.payments payment_id) panicked
    require_auth env payment.sender
    throw_if (not payment.active) panicked
    ok (
        publish (RecurringEvent.canceled payment_id payment.sender) (record s {
          payments = insert payment_id (record payment { active = false }) s.payments;
        }))

  unfoldable pub pause_payment : ℕ → State tok.Ledger → Result NoError (State tok.Ledger)
  pause_payment payment_id s = do
    payment ← or_throw (s.payments payment_id) panicked
    require_auth env payment.sender
    throw_if (not payment.active) panicked
    throw_if payment.paused panicked
    ok (
        publish (RecurringEvent.was_paused payment_id payment.sender)
          (record s { payments = insert payment_id (record payment { paused = true }) s.payments }))

  unfoldable pub resume_payment : ℕ → State tok.Ledger → Result NoError (State tok.Ledger)
  resume_payment payment_id s = do
    payment ← or_throw (s.payments payment_id) panicked
    require_auth env payment.sender
    throw_if (not payment.active) panicked
    throw_if (not payment.paused) panicked
    ok (
        publish (RecurringEvent.resumed payment_id payment.sender) (record s {
          payments = insert payment_id (record payment { paused = false }) s.payments;
        }))
