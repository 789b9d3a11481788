-- ===== src/SpendingLimits/Charges.antt =====
-- What `enforce_spending_limit` of contracts/spending-limits/src/lib.rs charges.
use stellarspend_contracts.Common.{
  ◌≡◌, ◌⊎◌, inl, inr, Option, none, some, true, false, arith, Option-cases, Bool-cases,
}
use stellarspend_contracts.Common.Int.{ℤ, pos, negsuc, ◌+ℤ◌, ◌≤ℤ◌, div_ℤ, checked_add, fits_i128}
use stellarspend_contracts.SpendingLimits.Administration.{is_exempt, is_destination_whitelisted}
use stellarspend_contracts.Soroban.{Address, Symbol, Env, ok, Result-cases}
use stellarspend_contracts.SpendingLimits.Types.{
  SpendingLimit, LimitEvent, State, publish, max_spending_limit,
}
use stellarspend_contracts.SpendingLimits.Enforcement.{
  Totals, current_totals, new_totals, check_totals, raised_limit, adapt_limit, store_totals, charge,
  enforce_limit, enforce_spending_limit,
}

pub checked_add_ok : (a b : ℤ) {c : ℤ} → checked_add a b ≡ some c → c ≡ a +ℤ b
unfolding checked_add
checked_add_ok a b h = ground arith

-- An increase never lowers a limit that is in range, and leaves it in range.
pub raised_limit_bounds :
    (m : ℤ)
    → pos 0 ≤ℤ m
    → m ≤ℤ max_spending_limit
    → (m ≤ℤ raised_limit m) × (raised_limit m ≤ℤ max_spending_limit)
unfolding raised_limit div_ℤ checked_add ◌+ℤ◌ fits_i128
raised_limit_bounds (pos n) p q = ground arith
raised_limit_bounds (negsuc n) p q = absurd (omega arith)

-- The totals after a charge are the sums, and within the limits.
abbrev pub IsCharge : Totals → ℤ → SpendingLimit → Totals → Type 0
IsCharge old amount limit new =
    (new.hourly ≡ old.hourly +ℤ amount)
    × (new.daily ≡ old.daily +ℤ amount)
    × (new.monthly ≡ old.monthly +ℤ amount)
    × (new.hourly ≤ℤ limit.hourly_limit)
    × (new.daily ≤ℤ limit.daily_limit)
    × (new.monthly ≤ℤ limit.monthly_limit)

new_totals_ok :
    (amount : ℤ) (old new : Totals)
    → new_totals amount old ≡ ok new
    → (new.hourly ≡ old.hourly +ℤ amount)
      × (new.daily ≡ old.daily +ℤ amount)
      × (new.monthly ≡ old.monthly +ℤ amount)
unfolding new_totals checked_add
new_totals_ok amount old new h = (ground arith, ground arith, ground arith)

check_totals_ok :
    (limit : SpendingLimit) (new : Totals)
    → check_totals limit new ≡ ok tt
    → (new.hourly ≤ℤ limit.hourly_limit)
      × (new.daily ≤ℤ limit.daily_limit)
      × (new.monthly ≤ℤ limit.monthly_limit)
unfolding check_totals
check_totals_ok limit new h = (ground arith, ground arith, ground arith)

pub charge_ok :
    (env : Env) (user : Address) (amount : ℤ) (limit : SpendingLimit) (s s' : State)
    → charge env user amount limit s ≡ ok s'
    → (new : Totals) × (m : ℤ) × (u : State) × IsCharge (current_totals env user s) amount limit new
      × (adapt_limit user limit new.monthly s ≡ ok (m, u))
      × (s' ≡ store_totals env user limit m new u)
unfolding charge
charge_ok env user amount limit s s' h =
    elim (Result-cases (new_totals amount (current_totals env user s))) [
      | inl (_, over) ↦ absurd (ground arith)
      | inr (new, e) ↦ elim (Result-cases (check_totals limit new)) [
        | inl (_, over) ↦ absurd (ground arith)
        | inr (_, within) ↦ elim (Result-cases (adapt_limit user limit new.monthly s)) [
          | inl (_, over) ↦ absurd (ground arith)
          | inr ((m, u), adapted) ↦
              let (h₁, d₁, m₁) = new_totals_ok amount (current_totals env user s) new e in
              let (h₂, d₂, m₂) = check_totals_ok limit new within in
              (new, m, u, (h₁, d₁, m₁, h₂, d₂, m₂), adapted, ground arith)
        ]
      ]
    ]

-- Two states hold the same limits and totals.
pub record SameSpending (s u : State) : Type 0 where
  pub limits : u.limits ≡ s.limits
  pub hourly : u.hourly_spending ≡ s.hourly_spending
  pub daily : u.daily_spending ≡ s.daily_spending
  pub monthly : u.monthly_spending ≡ s.monthly_spending

pub adapt_limit_ok :
    (user : Address) (limit : SpendingLimit) (nm m : ℤ) (s u : State)
    → pos 0 ≤ℤ limit.monthly_limit
    → limit.monthly_limit ≤ℤ max_spending_limit
    → adapt_limit user limit nm s ≡ ok (m, u)
    → (limit.monthly_limit ≤ℤ m) × (m ≤ℤ max_spending_limit) × SameSpending s u
unfolding adapt_limit
adapt_limit_ok user limit nm m s u lo hi h =
    let bounds = raised_limit_bounds limit.monthly_limit lo hi in
    (ground arith, ground arith, ground arith)

-- No active limit is set for the user.
abbrev pub IsUnlimited : State → Address → Type 0
IsUnlimited s user =
    (s.limits user ≡ none)
    ⊎ ((l : SpendingLimit) × (s.limits user ≡ some l) × (l.is_active ≡ false))

-- The user's active limit is charged.
abbrev pub IsCharged : Env → Address → ℤ → State → State → Type 0
IsCharged env user amount s s' =
    (l : SpendingLimit) × (s.limits user ≡ some l)
    × (l.is_active ≡ true)
    × (charge env user amount l s ≡ ok s')

-- The spend falls under an exception.
abbrev pub IsBypass : Address → ℤ → Option Symbol → State → State → Type 0
IsBypass user amount category s s' =
    (cat : Symbol) × (category ≡ some cat)
    × (is_exempt s user cat ≡ true)
    × (s' ≡ publish (LimitEvent.exception_bypassed user amount cat) s)

enforce_limit_ok :
    (env : Env) (user : Address) (amount : ℤ) (s s' : State)
    → enforce_limit env user amount s ≡ ok s'
    → (is_destination_whitelisted s user ≡ true)
      × ((IsUnlimited s user × (s' ≡ s)) ⊎ IsCharged env user amount s s')
unfolding enforce_limit
enforce_limit_ok env user amount s s' h = elim (Option-cases (s.limits user)) [
  | inl free ↦ (ground arith, inl (inl free, ground arith))
  | inr (l, e) ↦ elim (Bool-cases l.is_active) [
    | inl live ↦ (ground arith, inr (l, e, live, ground arith))
    | inr dead ↦ (ground arith, inl (inr (l, e, dead), ground arith))
  ]
]

-- An accepted spend is of a positive amount. It either falls under an exception of its category, or
-- its user is whitelisted and has no active limit or is charged.
pub enforce_spending_limit_ok :
    (env : Env) (user : Address) (amount : ℤ) (category : Option Symbol) (s s' : State)
    → enforce_spending_limit env user amount category s ≡ ok s'
    → (pos 1 ≤ℤ amount)
      × (IsBypass user amount category s s'
          ⊎ ((is_destination_whitelisted s user ≡ true)
              × ((IsUnlimited s user × (s' ≡ s)) ⊎ IsCharged env user amount s s')))
unfolding enforce_spending_limit
enforce_spending_limit_ok env user amount category s s' h = elim (Option-cases category) [
  | inl none_given ↦ (ground arith, inr (enforce_limit_ok env user amount s s' (ground arith)))
  | inr (cat, e) ↦ elim (Bool-cases (is_exempt s user cat)) [
    | inl exempt ↦ (ground arith, inl (cat, e, exempt, ground arith))
    | inr subject ↦ (ground arith, inr (enforce_limit_ok env user amount s s' (ground arith)))
  ]
]
