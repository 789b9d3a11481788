-- ===== src/SpendingLimits/Examples.antt =====
-- The theorems on contracts/spending-limits/src at a small contract: the admin 9, and the whitelisted
-- user 7 with a limit.
use stellarspend_contracts.Common.{
  ℕ, ◌≡◌, ◌↔◌, refl, Option, none, some, List, [], ◌∷◌, true, arith, insert,
}
use stellarspend_contracts.Common.Int.{
  ℤ, pos, ◌+ℤ◌, ◌*ℤ◌, ◌<ℤ◌, div_ℤ, checked_add, checked_mul, checked_add_u64, fits_i128,
}
use stellarspend_contracts.Soroban.{Address, Env, ok, ok_or}
use stellarspend_contracts.SpendingLimits.Types.{
  SpendingLimit, SpendingLimitRequest, LimitStrategy, State, LimitEvent, publish, static, adaptive,
  max_spending_limit, BatchLimitResult,
}
use stellarspend_contracts.SpendingLimits.Validation.{validate_limit_request}
use stellarspend_contracts.SpendingLimits.Administration.{
  initialize, require_admin, set_admin, add_exception, approve_escalated_spend,
}
use stellarspend_contracts.SpendingLimits.BatchUpdate.{
  batch_update_spending_limits, apply_requests, apply_request,
}
use stellarspend_contracts.SpendingLimits.Enforcement.{
  window_id, new_totals, check_totals, raised_limit, adapt_limit, charge, enforce_spending_limit,
  current_totals, enforce_limit,
}
use stellarspend_contracts.SpendingLimits.Access.{
  AdminCall, call_as, call_as_ok, IsAdminStep, IsAdmin,
}
use stellarspend_contracts.SpendingLimits.Requests.{IsProper, validate_limit_request-none}
use stellarspend_contracts.SpendingLimits.BatchLimits.{IsSameTotals}
use stellarspend_contracts.SpendingLimits.Overrides.{
  charge-over, escalated, approve_escalated_spend_ok,
}
use stellarspend_contracts.SpendingLimits.Acceptance.{
  totals_with, IsBelow, enforce_spending_limit-accepts,
}
use stellarspend_contracts.SpendingLimits.RollOver.{IsAdded, enforce-rolls_over}
use stellarspend_contracts.SpendingLimits.Caps.{IsCapped, try_spends, try_spends-IsCapped}

abbrev env : Env
env = record { timestamp = 7_200; sequence = 5; contract = 100; authorized = λ a. true }

abbrev request : (hourly : ℕ) → LimitStrategy → SpendingLimitRequest
request hourly strategy = record {
  user = 7;
  monthly_limit = pos 100_000_000;
  daily_limit = pos 80_000_000;
  hourly_limit = pos hourly;
  reset_window_seconds = 3_600;
  category = none;
  strategy = strategy;
}

abbrev deployed : State
deployed = record {
  config = none;
  limits = λ a. none;
  hourly_spending = λ a w. none;
  daily_spending = λ a w. none;
  monthly_spending = λ a w. none;
  exception_rules = λ a c. none;
  approved_categories = some (4 ∷ []);
  escalation = none;
  whitelist = insert 7 true (λ a. none);
  events = [];
}

abbrev started : State
started = ok_or (initialize env 9 deployed) deployed

abbrev limit : SpendingLimit
limit = record {
  user = 7;
  monthly_limit = pos 100_000_000;
  daily_limit = pos 80_000_000;
  hourly_limit = pos 50_000_000;
  reset_window_seconds = 3_600;
  current_spending = pos 0;
  category = none;
  updated_at = 5;
  is_active = true;
  strategy = static;
}

abbrev limited : State
limited = record deployed { limits = insert 7 limit deployed.limits }

-- A limit of twice the maximum, as an override may leave it.
abbrev over : SpendingLimit
over = record limit {
  monthly_limit = pos 2_000_000_000_000_000_000;
  daily_limit = pos 2_000_000_000_000_000_000;
  hourly_limit = pos 2_000_000_000_000_000_000;
  strategy = adaptive;
}

abbrev overridden : State
overridden = record deployed { limits = insert 7 over deployed.limits }

limited-IsCapped : IsCapped limited
limited-IsCapped user l el =
    let same : l ≡ limit = ground arith in
    rw (same) (record {
      hourly = λ w. ground arith;
      daily = λ w. ground arith;
      monthly = λ w. ground arith;
      nonneg = omega arith;
      in_range = omega arith;
    })

-- The second spend exceeds the limit of the hour and fails.
abbrev spends : List (Env × Address × ℤ × Option ℕ)
spends = (env, 7, pos 30_000_000, none) ∷ (env, 7, pos 30_000_000, none) ∷ []

try_spends-IsCapped_example : IsCapped (try_spends spends limited)
try_spends-IsCapped_example = try_spends-IsCapped spends limited limited-IsCapped

enforce_spending_limit-accepts_example :
    ((s' : State) × (enforce_spending_limit env 7 (pos 30_000_000) none limited ≡ ok s'))
    ↔ IsBelow (totals_with (pos 30_000_000) (current_totals env 7 limited)) limit
unfolding window_id
enforce_spending_limit-accepts_example =
    enforce_spending_limit-accepts env 7 (pos 30_000_000) limit limited (omega arith) refl refl refl
      (record { hourly = omega arith; daily = omega arith; most = omega arith })
      (record { hourly = omega arith; daily = omega arith; monthly = omega arith })

abbrev charged : State
charged = ok_or (enforce_spending_limit env 7 (pos 30_000_000) none limited) limited

-- A second after the spend the next hour has begun, in the same day and month.
abbrev next_hour : Env
next_hour = record env { timestamp = 7_201 }

enforce-rolls_over_example :
    (let old = current_totals next_hour 7 limited in
      let new = current_totals next_hour 7 charged in
      IsAdded 3_600 7 7 7_200 7_201 (pos 30_000_000) old.hourly new.hourly
      × IsAdded 86_400 7 7 7_200 7_201 (pos 30_000_000) old.daily new.daily
      × IsAdded 2_592_000 7 7 7_200 7_201 (pos 30_000_000) old.monthly new.monthly)
unfolding enforce_spending_limit enforce_limit charge new_totals check_totals adapt_limit
    checked_add fits_i128 ◌+ℤ◌ window_id
enforce-rolls_over_example =
    enforce-rolls_over env next_hour 7 7 (pos 30_000_000) limit limited charged (omega arith)
      (omega arith) refl refl refl

rolled_over :
    ((current_totals next_hour 7 charged).hourly ≡ pos 0)
    × ((current_totals next_hour 7 charged).daily ≡ pos 30_000_000)
unfolding enforce_spending_limit enforce_limit charge new_totals check_totals adapt_limit
    checked_add fits_i128 ◌+ℤ◌ window_id
rolled_over = (refl, refl)

abbrev no_result : BatchLimitResult
no_result = record {
  batch_id = 0;
  total_requests = 0;
  successful = 0;
  failed = 0;
  results = [];
  metrics = record {
    total_requests = 0;
    successful_updates = 0;
    failed_updates = 0;
    total_limits_value = pos 0;
    avg_limit_amount = pos 0;
    processed_at = 0;
  };
}

-- A valid request and one whose hourly limit is too small.
abbrev requests : List SpendingLimitRequest
requests = request 50_000_000 static ∷ request 1 static ∷ []

abbrev batched : BatchLimitResult × State
batched = ok_or (batch_update_spending_limits env 9 requests started) (no_result, started)

call_as_ok_example :
    IsAdminStep env 9 8 started (ok_or (call_as env 9 (AdminCall.hand_over 8) started) started)
unfolding initialize call_as set_admin require_admin
call_as_ok_example =
    call_as_ok env 9 (AdminCall.hand_over 8) started
      (ok_or (call_as env 9 (AdminCall.hand_over 8) started) started) refl

validate_limit_request-none_example :
    (validate_limit_request (request 50_000_000 static) ≡ none)
    ↔ IsProper (request 50_000_000 static)
validate_limit_request-none_example = validate_limit_request-none (request 50_000_000 static)

-- A spend of nine tenths of the overridden limit.
charge-over_example :
    (l' : SpendingLimit) × ((ok_or
          (charge env 7 (pos 1_800_000_000_000_000_000) over overridden)
          overridden).limits
        7
      ≡ some l')
    × (l'.monthly_limit ≡ max_spending_limit)
    × (l'.monthly_limit <ℤ over.monthly_limit)
unfolding charge new_totals check_totals adapt_limit raised_limit checked_add checked_mul fits_i128
    div_ℤ ◌+ℤ◌ ◌*ℤ◌ window_id
charge-over_example =
    charge-over env 7 (pos 1_800_000_000_000_000_000) over overridden
      (ok_or (charge env 7 (pos 1_800_000_000_000_000_000) over overridden) overridden) refl
      (omega arith) (omega arith) refl

abbrev excepted : State
excepted = ok_or (add_exception env 9 7 4 started) started

abbrev approved : State
approved = ok_or (approve_escalated_spend env 9 7 (pos 70_000_000) batched.1) batched.1

approve_escalated_spend_ok_example :
    (env.authorized 9 ≡ true)
    × IsAdmin batched.1 9
    × (l : SpendingLimit) × (batched.1.limits 7 ≡ some l)
    × (approved
        ≡ publish (LimitEvent.escalation_approved 9 7 (pos 70_000_000)) (record batched.1 {
          limits = insert 7 (escalated env (pos 70_000_000) l) batched.1.limits;
        }))
    × IsSameTotals batched.1 approved
unfolding initialize batch_update_spending_limits require_admin apply_requests apply_request
    validate_limit_request checked_add ◌+ℤ◌ fits_i128 checked_add_u64 div_ℤ approve_escalated_spend
approve_escalated_spend_ok_example =
    approve_escalated_spend_ok env 9 7 (pos 70_000_000) batched.1 approved refl
