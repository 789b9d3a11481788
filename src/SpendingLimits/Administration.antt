-- ===== src/SpendingLimits/Administration.antt =====
-- contracts/spending-limits/src/lib.rs: the calls of the admin, but for the batch, and the queries.
use stellarspend_contracts.Common.{
  Bool, true, false, not, ◌||◌, Option, none, some, List, [], ◌∷◌, ◌==◌, contains, push_back,
  unwrap_or, insert, remove, insert_pair, remove_pair, if◌then◌else◌,
}
use stellarspend_contracts.Common.Int.{ℤ, pos, leb_ℤ, checked_add, i128_max}
use stellarspend_contracts.Soroban.{
  Address, Symbol, Env, Result, ok, contract_error, panicked, ◌>>=◌, ◌>>◌, throw_if, or_throw,
  require_auth,
}
use stellarspend_contracts.SpendingLimits.Types.{
  EscalationConfig, ExceptionRule, SpendingLimitError, LimitEvent, State, publish, unauthorized,
  invalid_amount, category_not_approved,
}

abbrev is_set {ℓ} : {A : Type ℓ} → Option A → Bool
is_set none = false
is_set (some a) = true

-- The loop of `remove_approved_category`: whether the category was found, and the others.
unfoldable pub without : Symbol → List Symbol → Bool × List Symbol
without category [] = (false, [])
without category (cat ∷ cats) =
    let (found, new_categories) = without category cats in
    if cat == category then (true, new_categories) else (found, cat ∷ new_categories)

abbrev pub get_approved_categories : State → List Symbol
get_approved_categories s = unwrap_or s.approved_categories []

abbrev is_active_rule : Option ExceptionRule → Bool
is_active_rule none = false
is_active_rule (some rule) = rule.is_active

abbrev pub is_exempt : State → Address → Symbol → Bool
is_exempt s user category = is_active_rule (s.exception_rules user category)

abbrev pub is_destination_whitelisted : State → Address → Bool
is_destination_whitelisted s destination = is_set (s.whitelist destination)

-- `expect`, then the comparison.
unfoldable pub require_admin : Address → State → Result SpendingLimitError (Unit {0})
require_admin caller s = do
  config ← or_throw s.config panicked
  throw_if (not (caller == config.admin)) (contract_error unauthorized)

module _ (env : Env) where
  unfoldable pub initialize : Address → State → Result SpendingLimitError State
  initialize admin s = do
    throw_if (is_set s.config) panicked
    ok (record s {
      config = some (record {
        admin = admin;
        last_batch_id = 0;
        total_limits_updated = 0;
        total_batches_processed = 0;
      });
    })

  unfoldable pub configure_escalation_rules :
      Address → (small medium : ℤ) → Bool → State → Result SpendingLimitError State
  configure_escalation_rules admin small medium enabled s = do
    require_auth env admin
    require_admin admin s
    throw_if (leb_ℤ small (pos 0) || leb_ℤ medium small) (contract_error invalid_amount)
    let config : EscalationConfig = record {
      small_threshold = small;
      medium_threshold = medium;
      enabled = enabled;
    }
    ok (
        publish (LimitEvent.escalation_configured small medium enabled)
          (record s { escalation = some config }))

  unfoldable pub approve_escalated_spend :
      (admin user : Address) → ℤ → State → Result SpendingLimitError State
  approve_escalated_spend admin user amount s = do
    require_auth env admin
    require_admin admin s
    limit ← or_throw (s.limits user) (contract_error invalid_amount)
    let limit' = record limit {
      current_spending = unwrap_or (checked_add limit.current_spending amount) (pos i128_max);
      updated_at = env.timestamp;
    }
    ok (
        publish (LimitEvent.escalation_approved admin user amount)
          (record s { limits = insert user limit' s.limits }))

  unfoldable pub emergency_override :
      (admin user : Address) → ℤ → State → Result SpendingLimitError State
  emergency_override admin user amount s = do
    require_auth env admin
    require_admin admin s
    throw_if (leb_ℤ amount (pos 0)) (contract_error invalid_amount)
    ok (publish (LimitEvent.emergency_overridden admin user amount env.timestamp) s)

  unfoldable pub set_admin :
      (current_admin new_admin : Address) → State → Result SpendingLimitError State
  set_admin current_admin new_admin s = do
    require_auth env current_admin
    require_admin current_admin s
    config ← or_throw s.config panicked
    ok (record s { config = some (record config { admin = new_admin }) })

  unfoldable pub whitelist_destination :
      (caller destination : Address) → State → Result SpendingLimitError State
  whitelist_destination caller destination s = do
    require_auth env caller
    require_admin caller s
    ok (record s { whitelist = insert destination true s.whitelist })

  unfoldable pub remove_from_whitelist :
      (caller destination : Address) → State → Result SpendingLimitError State
  remove_from_whitelist caller destination s = do
    require_auth env caller
    require_admin caller s
    ok (record s { whitelist = remove destination s.whitelist })

  unfoldable pub add_approved_category : Address → Symbol → State → Result SpendingLimitError State
  add_approved_category caller category s = do
    require_auth env caller
    require_admin caller s
    let categories = get_approved_categories s
    ok (
        if contains categories category
        then s
        else publish (LimitEvent.approved_category_added category)
            (record s { approved_categories = some (push_back categories category) }))

  unfoldable pub remove_approved_category :
      Address → Symbol → State → Result SpendingLimitError State
  remove_approved_category caller category s = do
    require_auth env caller
    require_admin caller s
    let (found, new_categories) = without category (get_approved_categories s)
    ok (
        if found
        then publish (LimitEvent.approved_category_removed category)
            (record s { approved_categories = some new_categories })
        else s)

  unfoldable pub add_exception :
      (caller user : Address) → Symbol → State → Result SpendingLimitError State
  add_exception caller user category s = do
    require_auth env caller
    require_admin caller s
    throw_if (not (contains (get_approved_categories s) category))
        (contract_error category_not_approved)
    let rule : ExceptionRule = record {
      user = user;
      category = category;
      created_at = env.sequence;
      is_active = true;
    }
    ok (
        publish (LimitEvent.exception_added user category)
          (record s { exception_rules = insert_pair user category rule s.exception_rules }))

  unfoldable pub remove_exception :
      (caller user : Address) → Symbol → State → Result SpendingLimitError State
  remove_exception caller user category s = do
    require_auth env caller
    require_admin caller s
    ok (
        if is_set (s.exception_rules user category)
        then publish (LimitEvent.exception_removed user category)
            (record s { exception_rules = remove_pair user category s.exception_rules })
        else s)

  unfoldable pub override_spending_limit :
      (admin user : Address) → ℤ → State → Result SpendingLimitError State
  override_spending_limit admin user new_monthly_limit s = do
    require_auth env admin
    require_admin admin s
    throw_if (leb_ℤ new_monthly_limit (pos 0)) (contract_error invalid_amount)
    limit ← or_throw (s.limits user) panicked
    ok (
        publish
          (LimitEvent.spending_limit_overridden admin user limit.monthly_limit new_monthly_limit)
          (record s {
            limits = insert user (record limit { monthly_limit = new_monthly_limit }) s.limits;
          }))
