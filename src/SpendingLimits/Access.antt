-- ===== src/SpendingLimits/Access.antt =====
-- Who may make the calls of contracts/spending-limits/src/lib.rs that are the admin's.
use stellarspend_contracts.Common.{◌≡◌, ◌∙◌, refl, inl, inr, some, Bool, true, arith, Option-cases}
use stellarspend_contracts.Common.Int.{ℤ}
use stellarspend_contracts.Soroban.{Address, Symbol, Env, Result, ok, ◌>>◌, require_auth}
use stellarspend_contracts.SpendingLimits.Types.{LimitsConfig, SpendingLimitError, State}
use stellarspend_contracts.SpendingLimits.Administration.{
  require_admin, configure_escalation_rules, approve_escalated_spend, emergency_override, set_admin,
  whitelist_destination, remove_from_whitelist, add_approved_category, remove_approved_category,
  add_exception, remove_exception, override_spending_limit,
}

-- The calls of the admin, with their arguments behind the caller.
pub data AdminCall : Type 0 where
  configure_escalation : (small medium : ℤ) → Bool → AdminCall
  approve_escalated : Address → ℤ → AdminCall
  emergency : Address → ℤ → AdminCall
  hand_over : Address → AdminCall
  whitelist unlist : Address → AdminCall
  approve_category drop_category : Symbol → AdminCall
  except_user end_exception : Address → Symbol → AdminCall
  override_limit : Address → ℤ → AdminCall

unfoldable pub call_as : Env → Address → AdminCall → State → Result SpendingLimitError State
call_as env caller (AdminCall.configure_escalation small medium enabled) s =
    configure_escalation_rules env caller small medium enabled s
call_as env caller (AdminCall.approve_escalated user amount) s =
    approve_escalated_spend env caller user amount s
call_as env caller (AdminCall.emergency user amount) s = emergency_override env caller user amount s
call_as env caller (AdminCall.hand_over new_admin) s = set_admin env caller new_admin s
call_as env caller (AdminCall.whitelist a) s = whitelist_destination env caller a s
call_as env caller (AdminCall.unlist a) s = remove_from_whitelist env caller a s
call_as env caller (AdminCall.approve_category c) s = add_approved_category env caller c s
call_as env caller (AdminCall.drop_category c) s = remove_approved_category env caller c s
call_as env caller (AdminCall.except_user user c) s = add_exception env caller user c s
call_as env caller (AdminCall.end_exception user c) s = remove_exception env caller user c s
call_as env caller (AdminCall.override_limit user m) s = override_spending_limit env caller user m s

-- The address is the stored admin.
abbrev pub IsAdmin : State → Address → Type 0
IsAdmin s a = (c : LimitsConfig) × (s.config ≡ some c) × (a ≡ c.admin)

-- All these calls begin with the same two checks.
pub checks_ok :
    {A : Type 0} (env : Env) (caller : Address) (s : State) (rest : Result SpendingLimitError A)
    (r : A)
    → (require_auth env caller >> (require_admin caller s >> rest)) ≡ ok r
    → (env.authorized caller ≡ true) × IsAdmin s caller × (rest ≡ ok r)
unfolding require_admin
checks_ok env caller s rest r h = elim (Option-cases s.config) [
  | inl unset ↦ absurd (ground arith)
  | inr (c, e) ↦ (ground arith, (c, e, ground arith), ground arith)
]

-- The admin after a call.
abbrev pub next_admin : AdminCall → Address → Address
next_admin (AdminCall.hand_over new_admin) caller = new_admin
next_admin (AdminCall.configure_escalation small medium enabled) caller = caller
next_admin (AdminCall.approve_escalated user amount) caller = caller
next_admin (AdminCall.emergency user amount) caller = caller
next_admin (AdminCall.whitelist a) caller = caller
next_admin (AdminCall.unlist a) caller = caller
next_admin (AdminCall.approve_category c) caller = caller
next_admin (AdminCall.drop_category c) caller = caller
next_admin (AdminCall.except_user user c) caller = caller
next_admin (AdminCall.end_exception user c) caller = caller
next_admin (AdminCall.override_limit user m) caller = caller

-- An accepted call was authorized by its caller, who was the admin; the admin afterwards.
abbrev pub IsAdminStep : Env → Address → Address → State → State → Type 0
IsAdminStep env caller next s s' =
    (env.authorized caller ≡ true) × IsAdmin s caller × IsAdmin s' next

-- Behind the checks, a call that does not write the configuration.
admin_step :
    (env : Env) (caller : Address) (s s' : State) (rest : Result SpendingLimitError State)
    → (require_auth env caller >> (require_admin caller s >> rest)) ≡ ok s'
    → (rest ≡ ok s' → s'.config ≡ s.config)
    → IsAdminStep env caller caller s s'
admin_step env caller s s' rest h unchanged =
    let (auth, (c, e, isc), done) = checks_ok env caller s rest s' h in
    (auth, (c, e, isc), (c, unchanged done ∙ e, isc))

-- Every call of the admin that is accepted was authorized by its caller, and the caller was the
-- stored admin; afterwards the admin is the same, but for `set_admin`, which installs the new one.
pub call_as_ok :
    (env : Env) (caller : Address) (call : AdminCall) (s s' : State)
    → call_as env caller call s ≡ ok s'
    → IsAdminStep env caller (next_admin call caller) s s'
unfolding call_as configure_escalation_rules approve_escalated_spend emergency_override set_admin
    whitelist_destination remove_from_whitelist add_approved_category remove_approved_category
    add_exception remove_exception override_spending_limit
call_as_ok env caller (AdminCall.configure_escalation small medium enabled) s s' h =
    admin_step env caller s s' _ h (λ e. ground arith)
call_as_ok env caller (AdminCall.approve_escalated user amount) s s' h =
    admin_step env caller s s' _ h (λ e. ground arith)
call_as_ok env caller (AdminCall.emergency user amount) s s' h =
    admin_step env caller s s' _ h (λ e. ground arith)
call_as_ok env caller (AdminCall.hand_over new_admin) s s' h =
    let (auth, (c, e, isc), done) = checks_ok env caller s _ s' h in
    (auth, (c, e, isc), (record c { admin = new_admin }, ground arith, refl))
call_as_ok env caller (AdminCall.whitelist a) s s' h =
    admin_step env caller s s' _ h (λ e. ground arith)
call_as_ok env caller (AdminCall.unlist a) s s' h =
    admin_step env caller s s' _ h (λ e. ground arith)
call_as_ok env caller (AdminCall.approve_category c) s s' h =
    admin_step env caller s s' _ h (λ e. ground arith)
call_as_ok env caller (AdminCall.drop_category c) s s' h =
    admin_step env caller s s' _ h (λ e. ground arith)
call_as_ok env caller (AdminCall.except_user user c) s s' h =
    admin_step env caller s s' _ h (λ e. ground arith)
call_as_ok env caller (AdminCall.end_exception user c) s s' h =
    admin_step env caller s s' _ h (λ e. ground arith)
call_as_ok env caller (AdminCall.override_limit user m) s s' h =
    admin_step env caller s s' _ h (λ e. ground arith)
