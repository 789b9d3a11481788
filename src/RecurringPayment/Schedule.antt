-- ===== src/RecurringPayment/Schedule.antt =====
-- The due dates of contracts/recurring-payment/src/lib.rs.
use stellarspend_contracts.Common.{
  ℕ, ◌+◌, ◌-◌, ◌*◌, ◌/◌, ◌≤◌, ◌<◌, ◌≡◌, inl, inr, true, arith, leb, Bool-cases,
}
use stellarspend_contracts.Common.Int.{checked_add_u64, checked_mul_u64}
use stellarspend_contracts.Soroban.{ok}
use stellarspend_contracts.RecurringPayment.Payments.{catch_up}

-- The first date of a schedule after `now`, from a date that is due.
pub next_after :
    (now i due : ℕ)
    → 0 < i
    → due ≤ now
    → (now < due + ((now - due) / i + 1) * i) × (due + ((now - due) / i + 1) * i ≤ now + i)
next_after now i due p q = (grind arith, grind arith)

-- The date that is caught up to is after `now`, on the schedule, and no later than needed.
pub record IsNext (now i due next : ℕ) : Type 0 where
  pub later : now < next
  pub steps : ℕ
  pub on_schedule : next ≡ due + steps * i
  pub soon : next ≤ now + i

catch_up_late :
    (now i due next : ℕ)
    → leb due now ≡ true
    → catch_up now i due ≡ ok next
    → (0 < i) × (next ≡ due + ((now - due) / i + 1) * i)
unfolding catch_up checked_add_u64 checked_mul_u64
catch_up_late now i due next late h = (ground arith, ground arith)

pub catch_up_ok :
    (now i due next : ℕ) → due ≤ now + i → catch_up now i due ≡ ok next → IsNext now i due next
unfolding catch_up
catch_up_ok now i due next near h = elim (Bool-cases (leb due now)) [
  | inl late ↦
      let (p, e) = catch_up_late now i due next late h in
      let (lo, hi) = next_after now i due p (ground arith) in
      record { later = rw (e) lo; steps = (now - due) / i + 1; on_schedule = e; soon = rw (e) hi }
  | inr early ↦
      let same : next ≡ due = ground arith in
      record {
        later = ground arith;
        steps = 0;
        on_schedule = omega (arith, same);
        soon = omega (arith, same);
      }
]
