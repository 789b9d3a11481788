-- ===== src/SpendingLimits/Enforcement.antt =====
-- contracts/spending-limits/src/lib.rs: `enforce_spending_limit`.
use stellarspend_contracts.Common.{
  ℕ, ◌-◌, ◌/◌, true, false, not, Option, none, some, ◌==◌, unwrap_or, insert, insert_pair,
  if◌then◌else◌,
}
use stellarspend_contracts.Common.Int.{ℤ, pos, leb_ℤ, ltb_ℤ, eqb_ℤ, div_ℤ, checked_add}
use stellarspend_contracts.Soroban.{
  Address, Symbol, Env, Result, ok, contract_error, ◌>>=◌, ◌>>◌, throw_if, or_throw, mul_i128,
}
use stellarspend_contracts.SpendingLimits.Types.{
  SpendingLimit, SpendingLimitError, LimitEvent, State, publish, max_spending_limit, static,
  adaptive, unauthorized, invalid_amount, invalid_batch, daily_limit_exceeded,
  hourly_limit_exceeded, monthly_limit_exceeded,
}
use stellarspend_contracts.SpendingLimits.Administration.{is_exempt, is_destination_whitelisted}

abbrev pub seconds_per_hour : ℕ
seconds_per_hour = 3_600

abbrev pub seconds_per_day : ℕ
seconds_per_day = 86_400

abbrev pub seconds_per_month : ℕ
seconds_per_month = 2_592_000

-- `if now == 0 { 0 } else { (now - 1) / seconds }`
unfoldable pub window_id : ℕ → ℕ → ℕ
window_id seconds now = if now == 0 then 0 else (now - 1) / seconds

-- The totals of one user in the current hour, day and month.
pub record Totals : Type 0 where
  pub hourly : ℤ
  pub daily : ℤ
  pub monthly : ℤ

abbrev pub current_totals : Env → Address → State → Totals
current_totals env user s = record {
  hourly = unwrap_or (s.hourly_spending user (window_id seconds_per_hour env.timestamp)) (pos 0);
  daily = unwrap_or (s.daily_spending user (window_id seconds_per_day env.timestamp)) (pos 0);
  monthly = unwrap_or (s.monthly_spending user (window_id seconds_per_month env.timestamp)) (pos 0);
}

-- The three `checked_add`s.
unfoldable pub new_totals : ℤ → Totals → Result SpendingLimitError Totals
new_totals amount t = do
  new_hourly ← or_throw (checked_add t.hourly amount) (contract_error invalid_batch)
  new_daily ← or_throw (checked_add t.daily amount) (contract_error invalid_batch)
  new_monthly ← or_throw (checked_add t.monthly amount) (contract_error invalid_batch)
  ok (record { hourly = new_hourly; daily = new_daily; monthly = new_monthly })

-- The three comparisons, and the errors in their order.
unfoldable pub check_totals : SpendingLimit → Totals → Result SpendingLimitError (Unit {0})
check_totals limit new = do
  throw_if (ltb_ℤ limit.hourly_limit new.hourly) (contract_error hourly_limit_exceeded)
  throw_if (ltb_ℤ limit.daily_limit new.daily) (contract_error daily_limit_exceeded)
  throw_if (ltb_ℤ limit.monthly_limit new.monthly) (contract_error monthly_limit_exceeded)

-- The limit after an adaptive increase: by a tenth, and capped.
unfoldable pub raised_limit : ℤ → ℤ
raised_limit old_limit =
    let increment = div_ℤ old_limit 10 in
    let proposed_limit = unwrap_or (checked_add old_limit increment) max_spending_limit in
    if ltb_ℤ max_spending_limit proposed_limit then max_spending_limit else proposed_limit

-- The block under `if limit.strategy == Adaptive && new_monthly >= ..`: the new monthly limit, and
-- the state with the event if it differs.
unfoldable pub adapt_limit :
    Address → SpendingLimit → ℤ → State → Result SpendingLimitError (ℤ × State)
adapt_limit user limit new_monthly s = elim limit.strategy [
  | static ↦ ok (limit.monthly_limit, s)
  | adaptive ↦ do
    nine ← mul_i128 limit.monthly_limit (pos 9)
    let new_limit = raised_limit limit.monthly_limit
    ok (
        if leb_ℤ (div_ℤ nine 10) new_monthly
        then (
          new_limit,
          if eqb_ℤ new_limit limit.monthly_limit
              then s
              else publish (LimitEvent.limit_adjusted user limit.monthly_limit new_limit) s,
        )
        else (limit.monthly_limit, s))
]

-- The writes at the end.
abbrev pub store_totals : Env → Address → SpendingLimit → ℤ → Totals → State → State
store_totals env user limit monthly_limit new s = record s {
  hourly_spending =
      insert_pair user (window_id seconds_per_hour env.timestamp) new.hourly s.hourly_spending;
  daily_spending =
      insert_pair user (window_id seconds_per_day env.timestamp) new.daily s.daily_spending;
  monthly_spending =
      insert_pair user (window_id seconds_per_month env.timestamp) new.monthly s.monthly_spending;
  limits =
      insert user
        (record limit {
          monthly_limit = monthly_limit;
          current_spending = new.monthly;
          updated_at = env.timestamp;
        })
        s.limits;
}

-- The part of `enforce_spending_limit` behind the look-up of an active limit.
unfoldable pub charge : Env → Address → ℤ → SpendingLimit → State → Result SpendingLimitError State
charge env user amount limit s = do
  new ← new_totals amount (current_totals env user s)
  check_totals limit new
  r ← adapt_limit user limit new.monthly s
  ok (store_totals env user limit r.0 new r.1)

-- The part behind the exceptions.
unfoldable pub enforce_limit : Env → Address → ℤ → State → Result SpendingLimitError State
enforce_limit env user amount s = do
  throw_if (not (is_destination_whitelisted s user)) (contract_error unauthorized)
  elim (s.limits user) [
    | none ↦ ok s
    | some limit ↦ elim limit.is_active [ true ↦ charge env user amount limit s | false ↦ ok s ]
  ]

unfoldable pub enforce_spending_limit :
    Env → Address → ℤ → Option Symbol → State → Result SpendingLimitError State
enforce_spending_limit env user amount category s = do
  throw_if (leb_ℤ amount (pos 0)) (contract_error invalid_amount)
  elim category [
    | none ↦ enforce_limit env user amount s
    | some cat ↦ elim (is_exempt s user cat) [
      | true ↦ ok (publish (LimitEvent.exception_bypassed user amount cat) s)
      | false ↦ enforce_limit env user amount s
    ]
  ]
