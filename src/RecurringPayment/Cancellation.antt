-- ===== src/RecurringPayment/Cancellation.antt =====
-- The life of a payment schedule of contracts/recurring-payment/src/lib.rs.
use native.Mathlib.Decide.{ℕ_discrete}
use stellarspend_contracts.Common.{
  ℕ, ◌+◌, ◌≤◌, ◌≡◌, ◌≢◌, ap, ◌∙◌, inl, inr, some, List, [], ◌∷◌, true, false, arith, unwrap_or,
  insert, insert_ne, Option-cases,
}
use stellarspend_contracts.Common.Int.{ℤ, checked_add_u64}
use stellarspend_contracts.Soroban.{Address, Env, Token, Result, ok, ok_or, ok_or-keeps, ◌>>=◌}
use stellarspend_contracts.RecurringPayment.Types.{
  RecurringPayment, RecurringEvent, NoError, State, publish,
}
use stellarspend_contracts.RecurringPayment.Payments.{
  create_payment, execute_payment, cancel_payment, pause_payment, resume_payment,
}
use stellarspend_contracts.RecurringPayment.Executions.{IsOnly, stored-IsOnly, execute_payment_ok}

pub data PaymentCall : Type 0 where
  create : (sender recipient token : Address) → ℤ → (interval start_time : ℕ) → PaymentCall
  execute cancel pause resume : ℕ → PaymentCall

-- The record p is stored under an id that was given out.
pub record IsStored (tok : Token) (id : ℕ) (p : RecurringPayment) (s : State tok.Ledger)
    : Type 0 where
  pub own : s.payments id ≡ some p
  pub given_out : id ≤ unwrap_or s.payment_count 0

module _ (tok : Token) (env : Env) where
  unfoldable pub make_call : PaymentCall → State tok.Ledger → Result NoError (State tok.Ledger)
  make_call (PaymentCall.create sender recipient token amount interval start_time) s = do
    r ← create_payment tok env sender recipient token amount interval start_time s
    ok r.1
  make_call (PaymentCall.execute id) s = execute_payment tok env id s
  make_call (PaymentCall.cancel id) s = cancel_payment tok env id s
  make_call (PaymentCall.pause id) s = pause_payment tok env id s
  make_call (PaymentCall.resume id) s = resume_payment tok env id s

  -- The call changed the record of one active payment, which it stored as q.
  pub record IsEdit (id : ℕ) (p q : RecurringPayment) (s s' : State tok.Ledger) : Type 0 where
    pub found : s.payments id ≡ some p
    pub auth : env.authorized p.sender ≡ true
    pub was_active : p.active ≡ true
    pub only : IsOnly tok env id q s s'

  -- A cancellation comes from the sender, of an active payment, and moves nothing.
  pub cancel_payment_ok :
      (id : ℕ) (s s' : State tok.Ledger)
      → cancel_payment tok env id s ≡ ok s'
      → (p : RecurringPayment) × IsEdit id p (record p { active = false }) s s'
        × (s'.ledger ≡ s.ledger)
  unfolding cancel_payment
  cancel_payment_ok id s s' h = elim (Option-cases (s.payments id)) [
    | inl unset ↦ absurd (ground arith)
    | inr (p, e) ↦
        let q = record p { active = false } in
        let ev = RecurringEvent.canceled id p.sender in
        let after : s' ≡ publish ev (record s { payments = insert id q s.payments }) =
          ground arith in
        (
          p,
          record {
            found = e;
            auth = ground arith;
            was_active = ground arith;
            only = stored-IsOnly tok env id q ev s.ledger s s' after;
          },
          ap (λ z. z.ledger) after,
        )
  ]

  pause_payment_ok :
      (id : ℕ) (s s' : State tok.Ledger)
      → pause_payment tok env id s ≡ ok s'
      → (p : RecurringPayment) × IsEdit id p (record p { paused = true }) s s'
  unfolding pause_payment
  pause_payment_ok id s s' h = elim (Option-cases (s.payments id)) [
    | inl unset ↦ absurd (ground arith)
    | inr (p, e) ↦
        let q = record p { paused = true } in
        let ev = RecurringEvent.was_paused id p.sender in
        let after : s' ≡ publish ev (record s { payments = insert id q s.payments }) =
          ground arith in
        (
          p,
          record {
            found = e;
            auth = ground arith;
            was_active = ground arith;
            only = stored-IsOnly tok env id q ev s.ledger s s' after;
          },
        )
  ]

  resume_payment_ok :
      (id : ℕ) (s s' : State tok.Ledger)
      → resume_payment tok env id s ≡ ok s'
      → (p : RecurringPayment) × IsEdit id p (record p { paused = false }) s s'
  unfolding resume_payment
  resume_payment_ok id s s' h = elim (Option-cases (s.payments id)) [
    | inl unset ↦ absurd (ground arith)
    | inr (p, e) ↦
        let q = record p { paused = false } in
        let ev = RecurringEvent.resumed id p.sender in
        let after : s' ≡ publish ev (record s { payments = insert id q s.payments }) =
          ground arith in
        (
          p,
          record {
            found = e;
            auth = ground arith;
            was_active = ground arith;
            only = stored-IsOnly tok env id q ev s.ledger s s' after;
          },
        )
  ]

  create_payment_ok :
      (sender recipient token : Address) (amount : ℤ) (interval start_time : ℕ)
      (s s' : State tok.Ledger)
      → make_call (PaymentCall.create sender recipient token amount interval start_time) s ≡ ok s'
      → (q : RecurringPayment) × (s'.payments
          ≡ insert (unwrap_or s.payment_count 0 + 1) q s.payments)
        × (unwrap_or s'.payment_count 0 ≡ unwrap_or s.payment_count 0 + 1)
  unfolding make_call create_payment checked_add_u64
  create_payment_ok sender recipient token amount interval start_time s s' h =
      let q : RecurringPayment = record {
        sender = sender;
        recipient = recipient;
        token = token;
        amount = amount;
        interval = interval;
        next_execution = start_time;
        active = true;
        paused = false;
        execution_count = 0;
        missed_count = 0;
        last_missed_at = 0;
      } in
      (q, ground arith, ground arith)

  edit_keeps :
      (k id : ℕ) (p q r : RecurringPayment) (s s' : State tok.Ledger)
      → IsStored tok id p s
      → p.active ≡ false
      → s.payments k ≡ some q
      → q.active ≡ true
      → IsOnly tok env k r s s'
      → IsStored tok id p s'
  edit_keeps k id p q r s s' stored dead found live only = elim (ℕ_discrete k id) [
    | yes same ↦ let there = stored.own in absurd (ground arith)
    | no apart ↦ record {
      own = only.others id apart ∙ stored.own;
      given_out = rw (only.count) stored.given_out;
    }
  ]

  call_keeps :
      (call : PaymentCall) (id : ℕ) (p : RecurringPayment) (s s' : State tok.Ledger)
      → p.active ≡ false
      → IsStored tok id p s
      → make_call call s ≡ ok s'
      → IsStored tok id p s'
  unfolding make_call
  call_keeps (PaymentCall.create sender recipient token amount interval start) id p s s' dead st h =
      let (q, stored, count) =
        create_payment_ok sender recipient token amount interval start s s' h in
      let n = unwrap_or s.payment_count 0 in
      let low = st.given_out in
      let apart : n + 1 ≢ id = λ e. absurd (omega arith) in
      record {
        own = ap (λ m. m id) stored ∙ insert_ne (n + 1) id q s.payments apart ∙ st.own;
        given_out = rw (count) (omega arith);
      }
  call_keeps (PaymentCall.execute k) id p s s' dead stored h =
      let (q, r, found, _, live, _, _, _, _, only) = execute_payment_ok tok env k s s' h in
      edit_keeps k id p q r s s' stored dead found live only
  call_keeps (PaymentCall.cancel k) id p s s' dead stored h =
      let (q, edit, _) = cancel_payment_ok k s s' h in
      edit_keeps k id p q _ s s' stored dead edit.found edit.was_active edit.only
  call_keeps (PaymentCall.pause k) id p s s' dead stored h =
      let (q, edit) = pause_payment_ok k s s' h in
      edit_keeps k id p q _ s s' stored dead edit.found edit.was_active edit.only
  call_keeps (PaymentCall.resume k) id p s s' dead stored h =
      let (q, edit) = resume_payment_ok k s s' h in
      edit_keeps k id p q _ s s' stored dead edit.found edit.was_active edit.only

-- Calls that are tried one after the other, each with its own environment.
unfoldable pub try_calls :
    (tok : Token) → List (Env × PaymentCall) → State tok.Ledger → State tok.Ledger
try_calls tok [] s = s
try_calls tok ((env, call) ∷ calls) s = try_calls tok calls (ok_or (make_call tok env call s) s)

-- A canceled payment, under an id that was given out, stays exactly as it is through every sequence
-- of calls that create, execute, cancel, pause and resume payments: it is never executed again.
pub try_calls-keeps_canceled :
    (tok : Token) (calls : List (Env × PaymentCall)) (id : ℕ) (p : RecurringPayment)
    (s : State tok.Ledger)
    → p.active ≡ false
    → IsStored tok id p s
    → IsStored tok id p (try_calls tok calls s)
unfolding try_calls
try_calls-keeps_canceled tok [] id p s dead stored = stored
try_calls-keeps_canceled tok ((env, call) ∷ calls) id p s dead stored =
    let run = make_call tok env call s in
    try_calls-keeps_canceled tok calls id p (ok_or run s) dead (
      ok_or-keeps (IsStored tok id p) run s stored
        (λ s' h. call_keeps tok env call id p s s' dead stored h))
