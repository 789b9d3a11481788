-- ===== src/SpendingLimits/Overrides.antt =====
-- What the admin's special calls of contracts/spending-limits/src/lib.rs do to later spends.
use stellarspend_contracts.Common.{
  ◌≡◌, inl, inr, some, true, false, arith, insert, insert_self, Option-cases, unwrap_or,
}
use stellarspend_contracts.Common.Int.{
  ℤ, pos, negsuc, ◌+ℤ◌, ◌*ℤ◌, ◌≤ℤ◌, ◌<ℤ◌, div_ℤ, checked_add, checked_mul, fits_i128, i128_max,
}
use stellarspend_contracts.Soroban.{Address, Symbol, Env, ok}
use stellarspend_contracts.SpendingLimits.Types.{
  SpendingLimit, LimitEvent, State, publish, max_spending_limit, adaptive,
}
use stellarspend_contracts.SpendingLimits.Administration.{
  is_exempt, add_exception, remove_exception, approve_escalated_spend,
}
use stellarspend_contracts.SpendingLimits.Enforcement.{
  current_totals, raised_limit, adapt_limit, charge, enforce_spending_limit,
}
use stellarspend_contracts.SpendingLimits.Access.{IsAdmin, checks_ok}
use stellarspend_contracts.SpendingLimits.BatchLimits.{IsSameTotals}
use stellarspend_contracts.SpendingLimits.Charges.{charge_ok}

-- A limit above the maximum is "raised" down to the maximum.
raised_limit-over : (m : ℤ) → max_spending_limit <ℤ m → raised_limit m ≡ max_spending_limit
unfolding raised_limit div_ℤ checked_add ◌+ℤ◌ fits_i128
raised_limit-over (pos n) p = ground arith
raised_limit-over (negsuc n) p = absurd (omega arith)

-- Nine tenths of the limit, as the code computes them.
abbrev pub nine_tenths : ℤ → ℤ
nine_tenths m = div_ℤ (m *ℤ pos 9) 10

adapt_limit-over :
    (user : Address) (l : SpendingLimit) (nm m : ℤ) (s u : State)
    → l.strategy ≡ adaptive
    → max_spending_limit <ℤ l.monthly_limit
    → nine_tenths l.monthly_limit ≤ℤ nm
    → adapt_limit user l nm s ≡ ok (m, u)
    → m ≡ max_spending_limit
unfolding adapt_limit checked_mul
adapt_limit-over user l nm m s u strat over reached h =
    let r = raised_limit-over l.monthly_limit over in ground arith

-- A spend of a user whose limit is adaptive and stands above the maximum, as only an override by the
-- admin leaves it, lowers that limit to the maximum if it brings the month's total to nine tenths
-- of the limit.
pub charge-over :
    (env : Env) (user : Address) (amount : ℤ) (l : SpendingLimit) (s s' : State)
    → l.strategy ≡ adaptive
    → max_spending_limit <ℤ l.monthly_limit
    → nine_tenths l.monthly_limit ≤ℤ (current_totals env user s).monthly +ℤ amount
    → charge env user amount l s ≡ ok s'
    → (l' : SpendingLimit) × (s'.limits user ≡ some l')
      × (l'.monthly_limit ≡ max_spending_limit)
      × (l'.monthly_limit <ℤ l.monthly_limit)
charge-over env user amount l s s' strat over reached h =
    let (new, m, u, (_, _, sum, _, _, _), adapted, after) = charge_ok env user amount l s s' h in
    let top = adapt_limit-over user l new.monthly m s u strat over (rw (sum) reached) adapted in
    let rec = record l {
      monthly_limit = m;
      current_spending = new.monthly;
      updated_at = env.timestamp;
    } in
    (rec, rw (after) (insert_self user rec u.limits), top, rw (top) over)

-- An exception that the admin adds lets every later spend of the user in that category pass,
-- whatever its positive amount, and charges nothing.
pub add_exception-enforce :
    (env env' : Env) (caller user : Address) (category : Symbol) (amount : ℤ) (s s' : State)
    → add_exception env caller user category s ≡ ok s'
    → pos 1 ≤ℤ amount
    → enforce_spending_limit env' user amount (some category) s'
      ≡ ok (publish (LimitEvent.exception_bypassed user amount category) s')
unfolding add_exception enforce_spending_limit
add_exception-enforce env env' caller user category amount s s' h positive =
    let (_, _, done) = checks_ok env caller s _ s' h in
    let exempt : is_exempt s' user category ≡ true = ground arith in ground arith

-- Removing an exception ends it.
pub remove_exception-is_exempt :
    (env : Env) (caller user : Address) (category : Symbol) (s s' : State)
    → remove_exception env caller user category s ≡ ok s'
    → is_exempt s' user category ≡ false
unfolding remove_exception
remove_exception-is_exempt env caller user category s s' h =
    let (_, _, done) = checks_ok env caller s _ s' h in ground arith

-- The limit with the amount of an escalated spend added to its recorded spending.
abbrev pub escalated : Env → ℤ → SpendingLimit → SpendingLimit
escalated env amount l = record l {
  current_spending = unwrap_or (checked_add l.current_spending amount) (pos i128_max);
  updated_at = env.timestamp;
}

-- An approval of an escalated spend that is accepted is authorized by its caller, the stored admin.
-- It adds the amount to the recorded spending of the user's limit, or sets that to the largest i128
-- where the sum is none, dates the limit and publishes the approval. Nothing else changes: no hourly,
-- daily or monthly limit, and none of the totals that later spends are checked against.
pub approve_escalated_spend_ok :
    (env : Env) (admin user : Address) (amount : ℤ) (s s' : State)
    → approve_escalated_spend env admin user amount s ≡ ok s'
    → (env.authorized admin ≡ true)
      × IsAdmin s admin
      × (l : SpendingLimit) × (s.limits user ≡ some l)
      × (s'
          ≡ publish
              (LimitEvent.escalation_approved admin user amount)
              (record s { limits = insert user (escalated env amount l) s.limits }))
      × IsSameTotals s s'
unfolding approve_escalated_spend
approve_escalated_spend_ok env admin user amount s s' h =
    let (auth, by, done) = checks_ok env admin s _ s' h in
    elim (Option-cases (s.limits user)) [
      | inl unset ↦ absurd (ground arith)
      | inr (l, e) ↦
          let after : s'
              ≡ publish (LimitEvent.escalation_approved admin user amount)
                  (record s { limits = insert user (escalated env amount l) s.limits }) =
            ground arith in
          (auth, by, l, e, after, (ground arith, ground arith, ground arith))
    ]
