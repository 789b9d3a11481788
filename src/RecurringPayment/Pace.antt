-- ===== src/RecurringPayment/Pace.antt =====
-- How often contracts/recurring-payment/src/lib.rs charges a sender.
use stellarspend_contracts.Common.{
  ℕ, ◌+◌, ◌*◌, ◌≤◌, ◌<◌, ◌≡◌, refl, sym, ap, ◌∙◌, inl, inr, some, List, [], ◌∷◌, arith,
}
use stellarspend_contracts.Soroban.{Env, Token, ok, ok_or, ok_or-keeps}
use stellarspend_contracts.RecurringPayment.Types.{RecurringPayment, State}
use stellarspend_contracts.RecurringPayment.Payments.{execute_payment}
use stellarspend_contracts.RecurringPayment.Executions.{execute_payment_ok}

-- The executions of one payment that are tried; one that fails changes nothing.
unfoldable pub try_executions : (tok : Token) → ℕ → List Env → State tok.Ledger → State tok.Ledger
try_executions tok id [] s = s
try_executions tok id (env ∷ envs) s =
    try_executions tok id envs (ok_or (execute_payment tok env id s) s)

-- Every time of the attempts is at most T.
unfoldable pub IsUntil : ℕ → List Env → Type 0
IsUntil T [] = Unit
IsUntil T (env ∷ envs) = (env.timestamp ≤ T) × IsUntil T envs

-- Since the record p, each execution has moved the due date by an interval at least, and the date is
-- at most an interval behind T.
record IsPaced (T : ℕ) (p q : RecurringPayment) : Type 0 where
  interval : q.interval ≡ p.interval
  amount : q.amount ≡ p.amount
  steady :
      p.next_execution + q.execution_count * p.interval
      ≤ q.next_execution + p.execution_count * p.interval
  near : q.next_execution ≤ T + p.interval

module _ (tok : Token) (id T : ℕ) (p : RecurringPayment) where
  abbrev IsPacedState : State tok.Ledger → Type 0
  IsPacedState s = (q : RecurringPayment) × (s.payments id ≡ some q) × IsPaced T p q

  paid_step :
      (d e i k n n' next next' : ℕ)
      → d + n * i ≤ next + e * i
      → n' ≡ n + 1
      → next' ≡ next + i + k * i
      → d + n' * i ≤ next' + e * i
  paid_step d e i k n n' next next' h a b = rw (a, b) (omega arith)

  missed_step :
      (d e i n n' next next' : ℕ)
      → d + n * i ≤ next + e * i
      → n' ≡ n
      → next ≤ next'
      → d + n' * i ≤ next' + e * i
  missed_step d e i n n' next next' h a b = rw (a) (omega arith)

  later : (now a b : ℕ) → a ≤ now → now < b → a ≤ b
  later now a b p q = omega arith

  near_step : (now i j next : ℕ) → next ≤ now + j → j ≡ i → now ≤ T → next ≤ T + i
  near_step now i j next a b c = omega arith

  execute-IsPaced :
      (env : Env) (s s' : State tok.Ledger)
      → env.timestamp ≤ T
      → IsPacedState s
      → execute_payment tok env id s ≡ ok s'
      → IsPacedState s'
  execute-IsPaced env s s' time (q, e, pace) h =
      let (q₀, r, e₀, _, _, _, due, terms, how, only) = execute_payment_ok tok env id s s' h in
      let same : q₀ ≡ q = ground arith in
      let i_same : q₀.interval ≡ p.interval = ap (λ z. z.interval) same ∙ pace.interval in
      let old : p.next_execution + q₀.execution_count * p.interval
          ≤ q₀.next_execution + p.execution_count * p.interval =
        rw (same) pace.steady in
      elim how [
        | inl miss ↦ (
          r,
          only.own,
          record {
            interval = terms.interval ∙ i_same;
            amount = terms.amount ∙ ap (λ z. z.amount) same ∙ pace.amount;
            steady =
                missed_step p.next_execution p.execution_count p.interval q₀.execution_count
                  r.execution_count q₀.next_execution r.next_execution old miss.executions
                  (later env.timestamp q₀.next_execution r.next_execution due miss.next.later);
            near =
                near_step env.timestamp p.interval q₀.interval r.next_execution miss.next.soon
                  i_same time;
          },
        )
        | inr paid ↦ (
          r,
          only.own,
          record {
            interval = terms.interval ∙ i_same;
            amount = terms.amount ∙ ap (λ z. z.amount) same ∙ pace.amount;
            steady =
                paid_step p.next_execution p.execution_count p.interval paid.next.steps
                  q₀.execution_count r.execution_count q₀.next_execution r.next_execution old
                  paid.executions (rw (sym i_same) paid.next.on_schedule);
            near =
                near_step env.timestamp p.interval q₀.interval r.next_execution paid.next.soon
                  i_same time;
          },
        )
      ]

  try_executions-IsPaced :
      (envs : List Env) (s : State tok.Ledger)
      → IsUntil T envs
      → IsPacedState s
      → IsPacedState (try_executions tok id envs s)
  unfolding try_executions IsUntil
  try_executions-IsPaced [] s until paced = paced
  try_executions-IsPaced (env ∷ envs) s (time, until) paced =
      let call = execute_payment tok env id s in
      try_executions-IsPaced envs (ok_or call s) until
        (ok_or-keeps IsPacedState call s paced (λ s' h. execute-IsPaced env s s' time paced h))

  -- However often the execution of a payment is tried up to the time T, each at its own time, the
  -- payment is made at most once for each interval that starts from its due date up to T: the amount
  -- and the interval stay, and the new executions, times the interval, are at most the time from the
  -- due date to T and one interval more.
  pub try_executions-bounds :
      (envs : List Env) (s : State tok.Ledger)
      → s.payments id ≡ some p
      → p.next_execution ≤ T
      → IsUntil T envs
      → (q : RecurringPayment) × ((try_executions tok id envs s).payments id ≡ some q)
        × (q.amount ≡ p.amount)
        × (q.execution_count * p.interval + p.next_execution
            ≤ T + p.interval + p.execution_count * p.interval)
  try_executions-bounds envs s e due until =
      let start : IsPaced T p p = record {
        interval = refl;
        amount = refl;
        steady = omega arith;
        near = omega arith;
      } in
      let (q, stored, pace) = try_executions-IsPaced envs s until (p, e, start) in
      let steady = pace.steady in let near = pace.near in (q, stored, pace.amount, omega arith)
