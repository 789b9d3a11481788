-- ===== src/RecurringPayment/Executions.antt =====
-- What an accepted `execute_payment` of contracts/recurring-payment/src/lib.rs does.
use stellarspend_contracts.Common.{
  ℕ, ◌+◌, ◌≤◌, ◌≡◌, ◌≢◌, ◌⊎◌, refl, sym, ap, ◌∙◌, inl, inr, Option, some, true, false, arith,
  insert, insert_self, push_back, insert_ne, Bool-cases, Option-cases,
}
use stellarspend_contracts.Common.Int.{
  ltb_ℤ, ◌≤ℤ◌, ◌<ℤ◌, checked_add_u64, checked_add_u32, saturating_add_u64, saturating_add_u32,
}
use stellarspend_contracts.Soroban.{
  Env, Token, ok, Result-cases, >>=-succeeds, or_throw, token_failed, add_u64, add_u32,
}
use stellarspend_contracts.RecurringPayment.Types.{
  RecurringPayment, RecurringEvent, NoError, State, publish,
}
use stellarspend_contracts.RecurringPayment.Payments.{
  catch_up, miss_payment, make_payment, execute_payment,
}
use stellarspend_contracts.RecurringPayment.Schedule.{IsNext, catch_up_ok}

add_u64_ok : (a b c : ℕ) → add_u64 {E = NoError} a b ≡ ok c → c ≡ a + b
unfolding checked_add_u64
add_u64_ok a b c h = ground arith

add_u32_ok : (a b c : ℕ) → add_u32 {E = NoError} a b ≡ ok c → c ≡ a + b
unfolding checked_add_u32
add_u32_ok a b c h = ground arith

or_throw_ok :
    {A : Type 0} (o : Option A) (a : A) → or_throw {E = NoError} o token_failed ≡ ok a → o ≡ some a
or_throw_ok o a h = ground arith

-- Only the schedule and the counters of the record differ.
pub record IsSameTerms (p q : RecurringPayment) : Type 0 where
  pub sender : q.sender ≡ p.sender
  pub recipient : q.recipient ≡ p.recipient
  pub token : q.token ≡ p.token
  pub amount : q.amount ≡ p.amount
  pub interval : q.interval ≡ p.interval
  pub active : q.active ≡ p.active
  pub paused : q.paused ≡ p.paused

module _ (tok : Token) (env : Env) where
  -- The payment was missed: nothing is paid.
  pub record IsMissed (s s' : State tok.Ledger) (p q : RecurringPayment) : Type 0 where
    pub poor : tok.balance p.token p.sender s.ledger <ℤ p.amount
    pub unpaid : s'.ledger ≡ s.ledger
    pub executions : q.execution_count ≡ p.execution_count
    pub misses : q.missed_count ≡ saturating_add_u32 p.missed_count 1
    pub missed_at : q.last_missed_at ≡ env.timestamp
    pub next :
        IsNext env.timestamp p.interval
          (saturating_add_u64 p.next_execution p.interval)
          q.next_execution

  -- The payment was made, once.
  pub record IsPaid (s s' : State tok.Ledger) (p q : RecurringPayment) : Type 0 where
    pub rich : p.amount ≤ℤ tok.balance p.token p.sender s.ledger
    pub paid : tok.transfer p.token p.sender p.recipient p.amount s.ledger ≡ some s'.ledger
    pub executions : q.execution_count ≡ p.execution_count + 1
    pub misses : q.missed_count ≡ 0
    pub missed_at : q.last_missed_at ≡ 0
    pub next : IsNext env.timestamp p.interval (p.next_execution + p.interval) q.next_execution

  -- One event is published, and the rest of the storage is as it was.
  pub record IsOnly (id : ℕ) (q : RecurringPayment) (s s' : State tok.Ledger) : Type 0 where
    pub own : s'.payments id ≡ some q
    pub others : (k : ℕ) → id ≢ k → s'.payments k ≡ s.payments k
    pub count : s'.payment_count ≡ s.payment_count
    pub streams : s'.income_streams ≡ s.income_streams
    pub stream_count : s'.income_stream_count ≡ s.income_stream_count
    pub user_streams : s'.user_income_streams ≡ s.user_income_streams
    pub event : RecurringEvent
    pub published : s'.events ≡ push_back s.events event

  -- One record is stored, and what the token contract left.
  pub stored-IsOnly :
      (id : ℕ) (q : RecurringPayment) (ev : RecurringEvent) (l : tok.Ledger)
      (s s' : State tok.Ledger)
      → s' ≡ publish ev (record s { payments = insert id q s.payments; ledger = l })
      → IsOnly id q s s'
  stored-IsOnly id q ev l s s' e = record {
    own = rw (e) (insert_self id q s.payments);
    others = λ k apart. rw (e) (insert_ne id k q s.payments apart);
    count = ap (λ z. z.payment_count) e;
    streams = ap (λ z. z.income_streams) e;
    stream_count = ap (λ z. z.income_stream_count) e;
    user_streams = ap (λ z. z.user_income_streams) e;
    event = ev;
    published = ap (λ z. z.events) e;
  }

  saturated : (a b now : ℕ) → a ≤ now → saturating_add_u64 a b ≤ now + b
  unfolding saturating_add_u64
  saturated a b now h = ground arith

  miss_payment_ok :
      (id : ℕ) (p : RecurringPayment) (s s' : State tok.Ledger)
      → p.next_execution ≤ env.timestamp
      → tok.balance p.token p.sender s.ledger <ℤ p.amount
      → miss_payment tok env id p s ≡ ok s'
      → (q : RecurringPayment) × IsSameTerms p q × IsMissed s s' p q × IsOnly id q s s'
  unfolding miss_payment
  miss_payment_ok id p s s' due poor h =
      elim (Result-cases
        (catch_up env.timestamp p.interval (saturating_add_u64 p.next_execution p.interval))) [
          | inl (_, over) ↦ absurd (ground arith)
          | inr (next, e) ↦
              let q = record p {
                missed_count = saturating_add_u32 p.missed_count 1;
                last_missed_at = env.timestamp;
                next_execution = next;
              } in
              let near = saturated p.next_execution p.interval env.timestamp due in
              let ev =
                RecurringEvent.missed id (saturating_add_u32 p.missed_count 1) env.timestamp in
              let after : s' ≡ publish ev (record s { payments = insert id q s.payments }) =
                ground arith in
              (
                q,
                record {
                  sender = refl;
                  recipient = refl;
                  token = refl;
                  amount = refl;
                  interval = refl;
                  active = refl;
                  paused = refl;
                },
                record {
                  poor = poor;
                  unpaid = ap (λ z. z.ledger) after;
                  executions = refl;
                  misses = refl;
                  missed_at = refl;
                  next = catch_up_ok env.timestamp p.interval _ next near e;
                },
                stored-IsOnly id q ev s.ledger s s' after,
              )
        ]

  make_payment_ok :
      (id : ℕ) (p : RecurringPayment) (s s' : State tok.Ledger)
      → p.next_execution ≤ env.timestamp
      → p.amount ≤ℤ tok.balance p.token p.sender s.ledger
      → make_payment tok env id p s ≡ ok s'
      → (q : RecurringPayment) × IsSameTerms p q × IsPaid s s' p q × IsOnly id q s s'
  unfolding make_payment
  make_payment_ok id p s s' due rich h =
      let (l, moved, rest₀) =
        >>=-succeeds
          (or_throw (tok.transfer p.token p.sender p.recipient p.amount s.ledger) token_failed) _
          h in
      let (d, sum, rest₁) = >>=-succeeds (add_u64 p.next_execution p.interval) _ rest₀ in
      let (next, e, rest₂) = >>=-succeeds (catch_up env.timestamp p.interval d) _ rest₁ in
      let (n, count, done) = >>=-succeeds (add_u32 p.execution_count 1) _ rest₂ in
      let q = record p {
        missed_count = 0;
        last_missed_at = 0;
        next_execution = next;
        execution_count = n;
      } in
      let ev = RecurringEvent.executed id p.amount next in
      let after : s' ≡ publish ev (record s { payments = insert id q s.payments; ledger = l }) =
        ground arith in
      let due_at = add_u64_ok p.next_execution p.interval d sum in
      let near : d ≤ env.timestamp + p.interval = omega (arith, due_at) in
      (
        q,
        record {
          sender = refl;
          recipient = refl;
          token = refl;
          amount = refl;
          interval = refl;
          active = refl;
          paused = refl;
        },
        record {
          rich = rich;
          paid =
              or_throw_ok (tok.transfer p.token p.sender p.recipient p.amount s.ledger) l moved
              ∙ ap (λ z. some z.ledger) (sym after);
          executions = add_u32_ok p.execution_count 1 n count;
          misses = refl;
          missed_at = refl;
          next = rw (sym due_at) (catch_up_ok env.timestamp p.interval d next near e);
        },
        stored-IsOnly id q ev l s s' after,
      )

  -- An accepted execution is authorized by the sender, of a payment that is active, not paused and
  -- due. If the sender's balance is below the amount, nothing is paid and the miss is recorded;
  -- otherwise the amount moves once, and the execution is counted. In both cases the next date is
  -- after now, on the schedule and at most an interval away; the other fields of the payment keep
  -- their values, one event is published, and nothing else in the storage changes.
  pub execute_payment_ok :
      (id : ℕ) (s s' : State tok.Ledger)
      → execute_payment tok env id s ≡ ok s'
      → (p q : RecurringPayment) × (s.payments id ≡ some p)
        × (env.authorized p.sender ≡ true)
        × (p.active ≡ true)
        × (p.paused ≡ false)
        × (p.next_execution ≤ env.timestamp)
        × IsSameTerms p q
        × (IsMissed s s' p q ⊎ IsPaid s s' p q)
        × IsOnly id q s s'
  unfolding execute_payment
  execute_payment_ok id s s' h = elim (Option-cases (s.payments id)) [
    | inl unset ↦ absurd (ground arith)
    | inr (p, e) ↦
        let due : p.next_execution ≤ env.timestamp = ground arith in
        elim (Bool-cases (ltb_ℤ (tok.balance p.token p.sender s.ledger) p.amount)) [
          | inl poor ↦
              let (q, terms, how, only) =
                miss_payment_ok id p s s' due (ground arith) (ground arith) in
              (p, q, e, ground arith, ground arith, ground arith, due, terms, inl how, only)
          | inr rich ↦
              let (q, terms, how, only) =
                make_payment_ok id p s s' due (ground arith) (ground arith) in
              (p, q, e, ground arith, ground arith, ground arith, due, terms, inr how, only)
        ]
  ]
