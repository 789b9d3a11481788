-- ===== src/RecurringPayment/Payouts.antt =====
-- What an accepted `process_income` of contracts/recurring-payment/src/lib.rs does.
use stellarspend_contracts.Common.{
  ℕ, ◌+◌, ◌-◌, ◌*◌, ◌/◌, ◌≤◌, ◌<◌, ◌≡◌, refl, inl, inr, some, true, arith, unwrap_or, insert,
  Option-cases,
}
use stellarspend_contracts.Common.Int.{
  ℤ, pos, checked_add_u64, checked_mul_u64, checked_mul, i128_max,
}
use stellarspend_contracts.Soroban.{Env, ok}
use stellarspend_contracts.RecurringPayment.Types.{IncomeStream, RecurringEvent, State, publish}
use stellarspend_contracts.RecurringPayment.Income.{process_income}

-- The number of due dates up to `now` of a schedule with the interval i that starts at `due`.
pub record IsCycles (now i due cycles : ℕ) : Type 0 where
  pub some_due : 1 ≤ cycles
  pub last_due : due + cycles * i ≤ now + i
  pub next_later : now < due + cycles * i

IsCycles-of :
    (now i due passed : ℕ)
    → due ≤ now
    → 0 < i
    → passed ≡ (now - due) / i
    → IsCycles now i due (1 + passed)
IsCycles-of now i due passed p q e = record {
  some_due = omega arith;
  last_due = rw (e) (grind arith);
  next_later = rw (e) (grind arith);
}

-- The total that the event names.
abbrev pub total_payout : IncomeStream → ℕ → ℤ
total_payout stream cycles = unwrap_or (checked_mul stream.amount (pos cycles)) (pos i128_max)

module _ {L : Type 0} (env : Env) where
  -- An accepted call finds an active stream that is due. It counts the due dates up to now, moves the
  -- next payout to the first one after now, and publishes the amount for all of them, but moves no
  -- funds and changes nothing else.
  pub process_income_ok :
      (id : ℕ) (s s' : State L)
      → process_income env id s ≡ ok s'
      → (stream : IncomeStream) × (cycles : ℕ) × (s.income_streams id ≡ some stream)
        × (stream.active ≡ true)
        × IsCycles env.timestamp stream.interval_seconds stream.next_payout cycles
        × (s'
            ≡ publish
                (RecurringEvent.income_processed id stream.recipient
                  (total_payout stream cycles)
                  cycles)
                (record s {
                  income_streams =
                      insert id
                        (record stream {
                          next_payout = stream.next_payout + cycles * stream.interval_seconds;
                        })
                        s.income_streams;
                }))
  unfolding process_income checked_add_u64 checked_mul_u64
  process_income_ok id s s' h = elim (Option-cases (s.income_streams id)) [
    | inl unset ↦ absurd (ground arith)
    | inr (stream, e) ↦
        let i = stream.interval_seconds in
        let due : stream.next_payout ≤ env.timestamp = ground arith in
        let positive : 0 < i = ground arith in
        let passed = (env.timestamp - stream.next_payout) / i in
        let counted = IsCycles-of env.timestamp i stream.next_payout passed due positive refl in
        let later = counted.next_later in
        (stream, 1 + passed, e, ground arith, counted, ground arith)
  ]
