-- ===== src/SpendingLimits/Acceptance.antt =====
-- Which spends `enforce_spending_limit` of contracts/spending-limits/src/lib.rs accepts.
use stellarspend_contracts.Common.{
  ◌≡◌, refl, sym, inl, inr, none, some, true, arith, ◌↔◌, if◌then◌else◌, ◌⊎◌,
}
use stellarspend_contracts.Common.Int.{
  ℤ, pos, negsuc, ◌+ℤ◌, ◌*ℤ◌, ◌≤ℤ◌, leb_ℤ, eqb_ℤ, div_ℤ, checked_add, checked_mul, fits_i128,
  int_laws,
}
use stellarspend_contracts.Soroban.{Address, Env, ok}
use stellarspend_contracts.SpendingLimits.Types.{
  SpendingLimit, LimitStrategy, LimitEvent, State, publish, max_spending_limit, static, adaptive,
}
use stellarspend_contracts.SpendingLimits.Administration.{is_destination_whitelisted}
use stellarspend_contracts.SpendingLimits.Enforcement.{
  Totals, current_totals, new_totals, check_totals, raised_limit, adapt_limit, store_totals, charge,
  enforce_limit, enforce_spending_limit,
}
use stellarspend_contracts.SpendingLimits.Charges.{charge_ok, enforce_spending_limit_ok}

LimitStrategy-cases : (x : LimitStrategy) → (x ≡ static) ⊎ (x ≡ adaptive)
LimitStrategy-cases static = inl refl
LimitStrategy-cases adaptive = inr refl

-- The totals with the spend added.
abbrev pub totals_with : ℤ → Totals → Totals
totals_with amount t = record {
  hourly = t.hourly +ℤ amount;
  daily = t.daily +ℤ amount;
  monthly = t.monthly +ℤ amount;
}

-- No total is negative.
pub record IsNonneg (t : Totals) : Type 0 where
  pub hourly : pos 0 ≤ℤ t.hourly
  pub daily : pos 0 ≤ℤ t.daily
  pub monthly : pos 0 ≤ℤ t.monthly

-- The totals are within the three limits, and these within the maximum.
pub record IsBelow (t : Totals) (l : SpendingLimit) : Type 0 where
  pub hourly : t.hourly ≤ℤ l.hourly_limit
  pub daily : t.daily ≤ℤ l.daily_limit
  pub monthly : t.monthly ≤ℤ l.monthly_limit

pub record IsOrdered (l : SpendingLimit) : Type 0 where
  pub hourly : l.hourly_limit ≤ℤ l.daily_limit
  pub daily : l.daily_limit ≤ℤ l.monthly_limit
  pub most : l.monthly_limit ≤ℤ max_spending_limit

in_range-fits_i128 : (c : ℤ) → pos 0 ≤ℤ c → c ≤ℤ max_spending_limit → fits_i128 c ≡ true
unfolding fits_i128
in_range-fits_i128 (pos n) low high = ground arith
in_range-fits_i128 (negsuc n) low high = absurd (omega arith)

-- A sum that is at least 0 and within the maximum does not overflow.
checked_add-some :
    (a b l : ℤ)
    → pos 0 ≤ℤ a
    → pos 1 ≤ℤ b
    → a +ℤ b ≤ℤ l
    → l ≤ℤ max_spending_limit
    → checked_add a b ≡ some (a +ℤ b)
unfolding checked_add
checked_add-some a b l low positive within high =
    let fits = in_range-fits_i128 (a +ℤ b) (omega int_laws) (omega int_laws) in ground arith

checked_mul-some :
    (m : ℤ)
    → pos 0 ≤ℤ m
    → m ≤ℤ max_spending_limit
    → (nine : ℤ) × (checked_mul m (pos 9) ≡ some nine)
unfolding checked_mul ◌*ℤ◌ fits_i128
checked_mul-some (pos n) low high = (pos n *ℤ pos 9, ground arith)
checked_mul-some (negsuc n) low high = absurd (omega arith)

adapt_limit-ok :
    (user : Address) (l : SpendingLimit) (nm : ℤ) (s : State)
    → pos 0 ≤ℤ l.monthly_limit
    → l.monthly_limit ≤ℤ max_spending_limit
    → (r : ℤ × State) × (adapt_limit user l nm s ≡ ok r)
unfolding adapt_limit
adapt_limit-ok user l nm s low high =
    let (nine, e) = checked_mul-some l.monthly_limit low high in
    elim (LimitStrategy-cases l.strategy) [
      | inl still ↦ ((l.monthly_limit, s), ground arith)
      | inr moves ↦
          let new = raised_limit l.monthly_limit in
          let noted = publish (LimitEvent.limit_adjusted user l.monthly_limit new) s in
          (
            if leb_ℤ (div_ℤ nine 10) nm
                then (new, if eqb_ℤ new l.monthly_limit then s else noted)
                else (l.monthly_limit, s),
            ground arith,
          )
    ]

new_totals-ok :
    (amount : ℤ) (t : Totals) (l : SpendingLimit)
    → pos 1 ≤ℤ amount
    → IsNonneg t
    → IsOrdered l
    → IsBelow (totals_with amount t) l
    → new_totals amount t ≡ ok (totals_with amount t)
unfolding new_totals
new_totals-ok amount t l positive low order below =
    let most = order.most in
    let daily = order.daily in
    let hourly = order.hourly in
    let h =
      checked_add-some t.hourly amount l.hourly_limit low.hourly positive below.hourly
        (omega arith) in
    let d =
      checked_add-some t.daily amount l.daily_limit low.daily positive below.daily (omega arith) in
    let m =
      checked_add-some t.monthly amount l.monthly_limit low.monthly positive below.monthly most in
    ground arith

check_totals-ok : (l : SpendingLimit) (new : Totals) → IsBelow new l → check_totals l new ≡ ok tt
unfolding check_totals
check_totals-ok l new below =
    let h = below.hourly in let d = below.daily in let m = below.monthly in ground arith

sum_nonneg : (a b l : ℤ) → pos 0 ≤ℤ a → pos 1 ≤ℤ b → a +ℤ b ≤ℤ l → pos 0 ≤ℤ l
sum_nonneg a b l low positive within = omega int_laws

charge-accepts :
    (env : Env) (user : Address) (amount : ℤ) (l : SpendingLimit) (s : State)
    → pos 1 ≤ℤ amount
    → IsOrdered l
    → IsNonneg (current_totals env user s)
    → IsBelow (totals_with amount (current_totals env user s)) l
    → (s' : State) × (charge env user amount l s ≡ ok s')
unfolding charge
charge-accepts env user amount l s positive order low below =
    let t = current_totals env user s in
    let summed = new_totals-ok amount t l positive low order below in
    let checked = check_totals-ok l (totals_with amount t) below in
    let nonneg = sum_nonneg t.monthly amount l.monthly_limit low.monthly positive below.monthly in
    let (r, adapted) = adapt_limit-ok user l (totals_with amount t).monthly s nonneg order.most in
    (store_totals env user l r.0 (totals_with amount t) r.1, ground arith)

accepted-IsBelow :
    (env : Env) (user : Address) (amount : ℤ) (l : SpendingLimit) (s s' : State)
    → s.limits user ≡ some l
    → l.is_active ≡ true
    → enforce_spending_limit env user amount none s ≡ ok s'
    → IsBelow (totals_with amount (current_totals env user s)) l
accepted-IsBelow env user amount l s s' el active h =
    let (_, how) = enforce_spending_limit_ok env user amount none s s' h in
    elim how [
      | inl (cat, given, _, _) ↦ absurd (ground arith)
      | inr (_, inl (inl unset, _)) ↦ absurd (ground arith)
      | inr (_, inl (inr (k, ek, dead), _)) ↦ absurd (ground arith)
      | inr (_, inr (k, ek, _, charged)) ↦
          let same : k ≡ l = ground arith in
          let (new, _, _, (a, b, c, x, y, z), _, _) = charge_ok env user amount k s s' charged in
          record {
            hourly = rw (sym a, sym same) x;
            daily = rw (sym b, sym same) y;
            monthly = rw (sym c, sym same) z;
          }
    ]

-- For a whitelisted user with an active limit, whose limits are in order and within the maximum and
-- whose totals are not negative, a spend of a positive amount without a category is accepted
-- exactly if it keeps the totals of the hour, the day and the month within the limits.
pub enforce_spending_limit-accepts :
    (env : Env) (user : Address) (amount : ℤ) (l : SpendingLimit) (s : State)
    → pos 1 ≤ℤ amount
    → is_destination_whitelisted s user ≡ true
    → s.limits user ≡ some l
    → l.is_active ≡ true
    → IsOrdered l
    → IsNonneg (current_totals env user s)
    → ((s' : State) × (enforce_spending_limit env user amount none s ≡ ok s'))
      ↔ IsBelow (totals_with amount (current_totals env user s)) l
unfolding enforce_spending_limit enforce_limit
enforce_spending_limit-accepts env user amount l s positive listed el active order low = (
  λ (s', h). accepted-IsBelow env user amount l s s' el active h,
  λ below.
      let (s', charged) = charge-accepts env user amount l s positive order low below in
      (s', ground arith),
)
