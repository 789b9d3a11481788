-- ===== src/RecurringPayment/Acceptance.antt =====
-- Which executions contracts/recurring-payment/src/lib.rs accepts.
use stellarspend_contracts.Common.{
  ℕ, ◌+◌, ◌-◌, ◌*◌, ◌/◌, ◌≤◌, ◌<◌, ◌≡◌, inl, inr, some, true, false, arith, leb, Bool-cases,
}
use stellarspend_contracts.Common.Int.{
  ltb_ℤ, ◌≤ℤ◌, checked_add_u64, checked_mul_u64, checked_add_u32, saturating_add_u64, u64_max,
  u32_max,
}
use stellarspend_contracts.Soroban.{Env, Token, ok, Result-cases}
use stellarspend_contracts.RecurringPayment.Types.{RecurringPayment, State}
use stellarspend_contracts.RecurringPayment.Payments.{
  catch_up, miss_payment, make_payment, execute_payment,
}
use stellarspend_contracts.RecurringPayment.Schedule.{next_after}

le_product : (k i : ℕ) → 0 < i → k ≤ k * i
le_product k i p = grind arith

catch_up-accepts :
    (now i due : ℕ) → 0 < i → now + i ≤ u64_max → (next : ℕ) × (catch_up now i due ≡ ok next)
unfolding catch_up checked_add_u64 checked_mul_u64
catch_up-accepts now i due positive room = elim (Bool-cases (leb due now)) [
  | inr early ↦ (due, ground arith)
  | inl late ↦
      let k = (now - due) / i + 1 in
      let (_, high) = next_after now i due positive (ground arith) in
      let small = le_product k i positive in
      let fits_steps : leb k u64_max ≡ true = ground arith in
      let fits_delta : leb (k * i) u64_max ≡ true = ground arith in
      let fits_next : leb (due + k * i) u64_max ≡ true = ground arith in (due + k * i, ground arith)
]

-- The payment is stored, active, not paused and due, its sender authorizes, and its counter and the
-- dates have room.
pub record IsReady (tok : Token) (env : Env) (id : ℕ) (p : RecurringPayment) (s : State tok.Ledger)
    : Type 0 where
  pub found : s.payments id ≡ some p
  pub active : p.active ≡ true
  pub not_paused : p.paused ≡ false
  pub due : p.next_execution ≤ env.timestamp
  pub auth : env.authorized p.sender ≡ true
  pub positive : 0 < p.interval
  pub room : env.timestamp + p.interval ≤ u64_max
  pub counter : p.execution_count + 1 ≤ u32_max

module _ (tok : Token) (env : Env) (id : ℕ) (p : RecurringPayment) (s : State tok.Ledger) where
  makes :
      (l : tok.Ledger)
      → IsReady tok env id p s
      → tok.transfer p.token p.sender p.recipient p.amount s.ledger ≡ some l
      → (s' : State tok.Ledger) × (make_payment tok env id p s ≡ ok s')
  unfolding make_payment checked_add_u64 checked_add_u32
  makes l ready moved =
      let due = ready.due in
      let room = ready.room in
      let counter = ready.counter in
      let (next, caught) =
        catch_up-accepts env.timestamp p.interval (p.next_execution + p.interval) ready.positive
          room in
      elim (Result-cases (make_payment tok env id p s)) [
        | inl (_, failing) ↦ absurd (ground arith)
        | inr accepted ↦ accepted
      ]

  misses : IsReady tok env id p s → (s' : State tok.Ledger) × (miss_payment tok env id p s ≡ ok s')
  unfolding miss_payment
  misses ready =
      let (next, caught) =
        catch_up-accepts env.timestamp p.interval (saturating_add_u64 p.next_execution p.interval)
          ready.positive ready.room in
      elim (Result-cases (miss_payment tok env id p s)) [
        | inl (_, failing) ↦ absurd (ground arith)
        | inr accepted ↦ accepted
      ]

  -- An execution that is ready is accepted, unless the token contract refuses a transfer that the
  -- sender's balance covers.
  pub execute_payment-accepts :
      IsReady tok env id p s
      → (p.amount ≤ℤ tok.balance p.token p.sender s.ledger
          → (l : tok.Ledger) × (tok.transfer p.token p.sender p.recipient p.amount s.ledger
              ≡ some l))
      → (s' : State tok.Ledger) × (execute_payment tok env id s ≡ ok s')
  unfolding execute_payment
  execute_payment-accepts ready covered =
      let found = ready.found in
      let active = ready.active in
      let not_paused = ready.not_paused in
      let due = ready.due in
      let auth = ready.auth in
      elim (Bool-cases (ltb_ℤ (tok.balance p.token p.sender s.ledger) p.amount)) [
        | inl poor ↦ let (s', missed) = misses ready in (s', ground arith)
        | inr rich ↦
            let (l, moved) = covered (ground arith) in
            let (s', made) = makes l ready moved in (s', ground arith)
      ]
