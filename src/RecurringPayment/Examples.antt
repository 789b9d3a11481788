-- ===== src/RecurringPayment/Examples.antt =====
-- The theorems on contracts/recurring-payment/src at a small contract: account 1 pays 100 to
-- account 2 every 10 seconds, and account 2 has an income stream.
use stellarspend_contracts.Common.{
  ℕ, ◌+◌, ◌*◌, ◌≤◌, ◌≡◌, ◌⊎◌, refl, none, some, List, [], ◌∷◌, true, false, arith, ◌==◌, insert,
  if◌then◌else◌,
}
use stellarspend_contracts.Common.Int.{
  pos, ◌+ℤ◌, ◌-ℤ◌, ◌*ℤ◌, checked_add_u64, checked_mul_u64, checked_add_u32, checked_mul, fits_i128,
}
use stellarspend_contracts.Soroban.{Env, ok, ok_or}
use stellarspend_contracts.Soroban.SimpleToken.{Table, simple_token, transfer, moved}
use stellarspend_contracts.RecurringPayment.Types.{
  RecurringPayment, RecurringEvent, IncomeStream, State, publish,
}
use stellarspend_contracts.RecurringPayment.Payments.{
  catch_up, create_payment, make_payment, execute_payment,
}
use stellarspend_contracts.RecurringPayment.Income.{create_income_stream, process_income}
use stellarspend_contracts.RecurringPayment.Executions.{
  IsSameTerms, IsMissed, IsPaid, IsOnly, execute_payment_ok,
}
use stellarspend_contracts.RecurringPayment.Cancellation.{
  PaymentCall, IsStored, try_calls, try_calls-keeps_canceled,
}
use stellarspend_contracts.RecurringPayment.Acceptance.{execute_payment-accepts}
use stellarspend_contracts.RecurringPayment.Pace.{IsUntil, try_executions, try_executions-bounds}
use stellarspend_contracts.RecurringPayment.Payouts.{IsCycles, total_payout, process_income_ok}

abbrev at_time : ℕ → Env
at_time t = record { timestamp = t; sequence = 7; contract = 100; authorized = λ a. true }

-- Account 1 holds 250 of the token 50.
abbrev ledger : Table
ledger k a = if a == 1 then pos 250 else pos 0

abbrev deployed : State Table
deployed = record {
  payments = λ k. none;
  payment_count = none;
  income_streams = λ k. none;
  income_stream_count = none;
  user_income_streams = λ a. none;
  ledger = ledger;
  events = [];
}

abbrev payment : RecurringPayment
payment = record {
  sender = 1;
  recipient = 2;
  token = 50;
  amount = pos 100;
  interval = 10;
  next_execution = 20;
  active = true;
  paused = false;
  execution_count = 0;
  missed_count = 0;
  last_missed_at = 0;
}

abbrev scheduled : State Table
scheduled =
    (ok_or (create_payment simple_token (at_time 5) 1 2 50 (pos 100) 10 20 deployed)
      (0, deployed)).1

-- The payment is made late, at 47; the next date is 50.
abbrev paid_late : State Table
paid_late = ok_or (execute_payment simple_token (at_time 47) 1 scheduled) scheduled

execute_payment_ok_example :
    (p q : RecurringPayment) × (scheduled.payments 1 ≡ some p)
    × ((at_time 47).authorized p.sender ≡ true)
    × (p.active ≡ true)
    × (p.paused ≡ false)
    × (p.next_execution ≤ 47)
    × IsSameTerms p q
    × (IsMissed simple_token (at_time 47) scheduled paid_late p q
        ⊎ IsPaid simple_token (at_time 47) scheduled paid_late p q)
    × IsOnly simple_token (at_time 47) 1 q scheduled paid_late
unfolding create_payment execute_payment make_payment catch_up transfer checked_add_u64
    checked_mul_u64 checked_add_u32 ◌+ℤ◌ ◌-ℤ◌
execute_payment_ok_example = execute_payment_ok simple_token (at_time 47) 1 scheduled paid_late refl

-- Attempts at 20, again at 20, and at 31.
abbrev attempts : List Env
attempts = at_time 20 ∷ at_time 20 ∷ at_time 31 ∷ []

try_executions-bounds_example :
    (q : RecurringPayment) × ((try_executions simple_token 1 attempts scheduled).payments 1
      ≡ some q)
    × (q.amount ≡ pos 100)
    × (q.execution_count * 10 + 20 ≤ 31 + 10 + 0 * 10)
unfolding create_payment checked_add_u64 IsUntil
try_executions-bounds_example =
    try_executions-bounds simple_token 1 31 payment attempts scheduled refl (omega arith)
      (omega arith, (omega arith, (omega arith, tt)))

abbrev canceled : State Table
canceled = record deployed {
  payments = insert 1 (record payment { active = false }) deployed.payments;
  payment_count = some 1;
}

abbrev later_calls : List (Env × PaymentCall)
later_calls =
    (at_time 30, PaymentCall.create 3 4 50 (pos 5) 10 40)
    ∷ (at_time 30, PaymentCall.execute 1)
    ∷ (at_time 31, PaymentCall.resume 1)
    ∷ []

try_calls-keeps_canceled_example :
    IsStored simple_token 1
      (record payment { active = false })
      (try_calls simple_token later_calls canceled)
try_calls-keeps_canceled_example =
    try_calls-keeps_canceled simple_token later_calls 1 (record payment { active = false }) canceled
      refl (record { own = refl; given_out = omega arith })

abbrev streaming : State Table
streaming = (ok_or (create_income_stream (at_time 5) 2 8 (pos 100) 10 0 deployed) (0, deployed)).1

abbrev processed : State Table
processed = ok_or (process_income (at_time 47) 1 streaming) streaming

-- Four payouts are due by 47: at 15, 25, 35 and 45.
process_income_ok_example :
    (stream : IncomeStream) × (cycles : ℕ) × (streaming.income_streams 1 ≡ some stream)
    × (stream.active ≡ true)
    × IsCycles 47 stream.interval_seconds stream.next_payout cycles
    × (processed
        ≡ publish
            (RecurringEvent.income_processed 1 stream.recipient (total_payout stream cycles) cycles)
            (record streaming {
              income_streams =
                  insert 1
                    (record stream {
                      next_payout = stream.next_payout + cycles * stream.interval_seconds;
                    })
                    streaming.income_streams;
            }))
unfolding create_income_stream process_income checked_add_u64 checked_mul_u64 checked_mul fits_i128
    ◌*ℤ◌
process_income_ok_example = process_income_ok (at_time 47) 1 streaming processed refl

execute_payment-accepts_example :
    (s' : State Table) × (execute_payment simple_token (at_time 47) 1 scheduled ≡ ok s')
unfolding create_payment checked_add_u64 transfer
execute_payment-accepts_example =
    execute_payment-accepts simple_token (at_time 47) 1 payment scheduled
      (record {
        found = refl;
        active = refl;
        not_paused = refl;
        due = omega arith;
        auth = refl;
        positive = omega arith;
        room = omega arith;
        counter = omega arith;
      })
      (λ rich. (moved 50 1 2 (pos 100) ledger, refl))
