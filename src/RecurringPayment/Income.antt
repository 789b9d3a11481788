-- ===== src/RecurringPayment/Income.antt =====
-- contracts/recurring-payment/src/lib.rs: the income streams, which move no funds.
use stellarspend_contracts.Common.{
  ℕ, ◌-◌, true, false, not, some, List, [], ◌==◌, ltb, leb, unwrap_or, insert, push_back,
  if◌then◌else◌,
}
use stellarspend_contracts.Common.Int.{ℤ, pos, leb_ℤ, checked_mul, i128_max}
use stellarspend_contracts.Soroban.{
  Address, Symbol, Env, Result, ok, panicked, ◌>>=◌, ◌>>◌, throw_if, or_throw, require_auth,
  add_u64, mul_u64, div_u64,
}
use stellarspend_contracts.RecurringPayment.Types.{
  IncomeStream, RecurringEvent, NoError, State, publish,
}

module _ {L : Type 0} (env : Env) where
  unfoldable pub create_income_stream :
      (recipient : Address)
      → (source : Symbol) → ℤ
      → (interval_seconds target_goal_id : ℕ) → State L
      → Result NoError (ℕ × State L)
  create_income_stream recipient source amount interval_seconds target_goal_id s = do
    require_auth env recipient
    throw_if (leb_ℤ amount (pos 0)) panicked
    throw_if (interval_seconds == 0) panicked
    count ← add_u64 (unwrap_or s.income_stream_count 0) 1
    next_payout ← add_u64 env.timestamp interval_seconds
    let stream : IncomeStream = record {
      stream_id = count;
      recipient = recipient;
      source = source;
      amount = amount;
      interval_seconds = interval_seconds;
      next_payout = next_payout;
      target_goal_id = target_goal_id;
      active = true;
    }
    let user_streams = unwrap_or (s.user_income_streams recipient) []
    ok (
      count,
      publish (RecurringEvent.income_created count recipient source amount) (record s {
        income_streams = insert count stream s.income_streams;
        income_stream_count = some count;
        user_income_streams = insert recipient (push_back user_streams count) s.user_income_streams;
      }),
    )

  unfoldable pub process_income : ℕ → State L → Result NoError (State L)
  process_income stream_id s = do
    stream ← or_throw (s.income_streams stream_id) panicked
    throw_if (not stream.active) panicked
    throw_if (ltb env.timestamp stream.next_payout) panicked
    passed ← div_u64 (env.timestamp - stream.next_payout) stream.interval_seconds
    cycles_due ← add_u64 1 passed
    let total_payout = unwrap_or (checked_mul stream.amount (pos cycles_due)) (pos i128_max)
    delta ← mul_u64 cycles_due stream.interval_seconds
    next ← add_u64 stream.next_payout delta
    next_payout ←
        if leb next env.timestamp then add_u64 env.timestamp stream.interval_seconds else ok next
    ok (
        publish (RecurringEvent.income_processed stream_id stream.recipient total_payout cycles_due)
          (record s {
            income_streams =
                insert stream_id (record stream { next_payout = next_payout }) s.income_streams;
          }))

  unfoldable pub cancel_income_stream : ℕ → State L → Result NoError (State L)
  cancel_income_stream stream_id s = do
    stream ← or_throw (s.income_streams stream_id) panicked
    require_auth env stream.recipient
    throw_if (not stream.active) panicked
    ok (
        publish (RecurringEvent.income_canceled stream_id stream.recipient) (record s {
          income_streams = insert stream_id (record stream { active = false }) s.income_streams;
        }))

abbrev pub get_user_income_streams : {L : Type 0} → State L → Address → List ℕ
get_user_income_streams s user = unwrap_or (s.user_income_streams user) []
