-- ===== src/AccessControl/Examples.antt =====
-- The theorems on contracts/access-control/src at a small contract: the admin 9 and the users 7 and 8.
use stellarspend_contracts.Common.{
  ◌≡◌, refl, ◌↔◌, ◌⊎◌, true, false, none, some, List, [], ◌∷◌, arith, if◌then◌else◌,
}
use stellarspend_contracts.Common.Int.{checked_add_u64}
use stellarspend_contracts.Soroban.{Address, Env, ok, ok_or}
use stellarspend_contracts.AccessControl.Types.{Role, State}
use stellarspend_contracts.AccessControl.Roles.{
  has_role, require_admin, initialize, grant_role, revoke_role, transfer_admin, check_permission,
}
use stellarspend_contracts.AccessControl.Grants.{
  concerns, IsByAdmin, revoke_role_ok, transfer_admin_ok,
}
use stellarspend_contracts.AccessControl.Queries.{check_permission-ok}
use stellarspend_contracts.AccessControl.Reachable.{RoleCall, IsLed, try_calls, try_calls-IsLed}

abbrev env : Env
env = record { timestamp = 1000; sequence = 7; contract = 100; authorized = λ a. true }

abbrev deployed : State
deployed = record {
  admin = none;
  user_roles = λ a. none;
  total_role_assignments = none;
  events = [];
}

abbrev started : State
started = ok_or (initialize env 9 deployed) deployed

abbrev granted : State
granted = ok_or (grant_role env 9 7 Role.operator started) started

abbrev revoked : State
revoked = ok_or (revoke_role env 9 7 Role.operator granted) granted

abbrev transferred : State
transferred = ok_or (transfer_admin env 9 8 granted) granted

revoke_role_ok_example :
    IsByAdmin env 9 granted
    × (has_role granted 7 Role.operator ≡ true)
    × (concerns 7 Role.operator 9 Role.admin ≡ false)
    × ((a : Address) (r : Role)
        → has_role revoked a r
          ≡ (if concerns 7 Role.operator a r then false else has_role granted a r))
    × (revoked.admin ≡ granted.admin)
unfolding initialize grant_role revoke_role require_admin checked_add_u64
revoke_role_ok_example = revoke_role_ok env 9 7 Role.operator granted revoked refl

transfer_admin_ok_example :
    IsByAdmin env 9 granted
    × ((a : Address) (r : Role)
        → has_role transferred a r ≡ (
            if concerns 8 Role.admin a r
            then true
            else if concerns 9 Role.admin a r
            then false
            else has_role granted a r))
    × (transferred.admin ≡ some 8)
    × (transferred.total_role_assignments ≡ granted.total_role_assignments)
unfolding initialize grant_role transfer_admin require_admin checked_add_u64
transfer_admin_ok_example = transfer_admin_ok env 9 8 granted transferred refl

check_permission-ok_example :
    (check_permission granted 7 Role.operator ≡ ok tt)
    ↔ ((has_role granted 7 Role.admin ≡ true) ⊎ (has_role granted 7 Role.operator ≡ true))
check_permission-ok_example = check_permission-ok granted 7 Role.operator

-- A second start is refused, and so is a call of the former admin.
abbrev calls : List (Env × RoleCall)
calls =
    (env, RoleCall.start 9)
    ∷ (env, RoleCall.start 7)
    ∷ (env, RoleCall.transfer 9 8)
    ∷ (env, RoleCall.revoke 9 8 Role.admin)
    ∷ []

try_calls-IsLed_example : IsLed (try_calls calls deployed)
try_calls-IsLed_example = try_calls-IsLed calls deployed (λ a e. ground arith)
