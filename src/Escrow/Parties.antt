-- ===== src/Escrow/Parties.antt =====
-- Who may settle an escrow: the two validators of contracts/escrow/src/validation.rs against the
-- rule that they implement.
use stellarspend_contracts.Common.{
  ℕ, ◌≤◌, ◌<◌, ◌≡◌, refl, ◌↔◌, ◌⊎◌, true, false, Bool, Option, none, some, arith,
}
use stellarspend_contracts.Soroban.{Address}
use stellarspend_contracts.Escrow.Types.{Escrow, active, released, reversed}
use stellarspend_contracts.Escrow.Validation.{
  valid, invalid, escrow_not_found, already_released, already_reversed, unauthorized,
  deadline_not_reached, validate_reversal, validate_release,
}

-- The admin, the depositor or the arbiter.
abbrev pub IsParty : Escrow → Address → Address → Type 0
IsParty x caller admin = (caller ≡ admin) ⊎ (caller ≡ x.depositor) ⊎ (x.arbiter ≡ some caller)

-- The parties that need not wait for the deadline.
abbrev pub IsOverseer : Escrow → Address → Address → Type 0
IsOverseer x caller admin = (caller ≡ admin) ⊎ (x.arbiter ≡ some caller)

pub validate_release-some :
    (x : Escrow) (caller admin : Address)
    → (validate_release (some x) caller admin ≡ valid)
      ↔ ((x.status ≡ active) × IsParty x caller admin)
unfolding validate_release
validate_release-some x caller admin = (λ h. ground arith, λ h. ground arith)

pub validate_reversal-some :
    (x : Escrow) (caller admin : Address) (now : ℕ)
    → (validate_reversal (some x) caller admin true now ≡ valid) ↔ (
        (x.status ≡ active)
        × (IsOverseer x caller admin ⊎ ((caller ≡ x.depositor) × (x.deadline ≤ now))))
unfolding validate_reversal
validate_reversal-some x caller admin now = (λ h. ground arith, λ h. ground arith)

not_found :
    (o : Option Escrow) (caller admin : Address) (check_deadline : Bool) (now : ℕ)
    → (validate_reversal o caller admin check_deadline now ≡ invalid escrow_not_found) ↔ (o ≡ none)
unfolding validate_reversal
not_found none caller admin check_deadline now = (λ h. refl, λ e. refl)
not_found (some x) caller admin check_deadline now =
    (λ h. absurd (ground arith), λ e. absurd (ground arith))

-- The validator of a reversal answers each of its errors in exactly one situation, and accepts in
-- the remaining one: a record is missing; one is released; one is reversed; an active one is reversed
-- by a stranger; the depositor of an active one, who is neither admin nor arbiter, is before the
-- deadline and the deadline is checked.
pub validate_reversal_errors :
    (o : Option Escrow) (x : Escrow) (caller admin : Address) (check_deadline : Bool) (now : ℕ)
    → ((validate_reversal o caller admin check_deadline now ≡ invalid escrow_not_found)
        ↔ (o ≡ none))
      × ((validate_reversal (some x) caller admin check_deadline now ≡ invalid already_released)
          ↔ (x.status ≡ released))
      × ((validate_reversal (some x) caller admin check_deadline now ≡ invalid already_reversed)
          ↔ (x.status ≡ reversed))
      × ((validate_reversal (some x) caller admin check_deadline now ≡ invalid unauthorized)
          ↔ ((x.status ≡ active) × ¬ IsParty x caller admin))
      × ((validate_reversal (some x) caller admin check_deadline now ≡ invalid deadline_not_reached)
          ↔ ((x.status ≡ active)
              × (caller ≡ x.depositor)
              × ¬ IsOverseer x caller admin
              × (check_deadline ≡ true)
              × (now < x.deadline)))
      × ((validate_reversal (some x) caller admin check_deadline now ≡ valid) ↔ (
          (x.status ≡ active)
          × (IsOverseer x caller admin
              ⊎ ((caller ≡ x.depositor) × ((check_deadline ≡ false) ⊎ (x.deadline ≤ now))))))
unfolding validate_reversal
validate_reversal_errors o x caller admin check_deadline now = (
  not_found o caller admin check_deadline now,
  (λ h. ground arith, λ h. ground arith),
  (λ h. ground arith, λ h. ground arith),
  (λ h. ground arith, λ h. ground arith),
  (λ h. ground arith, λ h. ground arith),
  (λ h. ground arith, λ h. ground arith),
)
