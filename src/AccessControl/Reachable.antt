-- ===== src/AccessControl/Reachable.antt =====
-- The admin of contracts/access-control/src/lib.rs through sequences of calls.
use stellarspend_contracts.Common.{◌≡◌, sym, ◌∙◌, some, List, [], ◌∷◌, true, arith}
use stellarspend_contracts.Soroban.{Address, Env, Result, ok, ok_or, ok_or-keeps}
use stellarspend_contracts.AccessControl.Types.{Role, AccessControlError, State}
use stellarspend_contracts.AccessControl.Roles.{
  has_role, initialize, grant_role, revoke_role, transfer_admin,
}
use stellarspend_contracts.AccessControl.Grants.{grant_role_ok, revoke_role_ok, transfer_admin_ok}

pub data RoleCall : Type 0 where
  start : Address → RoleCall
  grant revoke : (caller user : Address) → Role → RoleCall
  transfer : (current_admin new_admin : Address) → RoleCall

unfoldable pub make_call : Env → RoleCall → State → Result AccessControlError State
make_call env (RoleCall.start admin) s = initialize env admin s
make_call env (RoleCall.grant caller user role) s = grant_role env caller user role s
make_call env (RoleCall.revoke caller user role) s = revoke_role env caller user role s
make_call env (RoleCall.transfer current new) s = transfer_admin env current new s

-- The stored admin has the role of admin.
abbrev pub IsLed : State → Type 0
IsLed s = (a : Address) → s.admin ≡ some a → has_role s a Role.admin ≡ true

call-IsLed :
    (env : Env) (call : RoleCall) (s s' : State) → IsLed s → make_call env call s ≡ ok s' → IsLed s'
unfolding make_call initialize
call-IsLed env (RoleCall.start admin) s s' led h a ea = ground arith
call-IsLed env (RoleCall.grant caller user role) s s' led h a ea =
    let (_, _, roles, same, _) = grant_role_ok env caller user role s s' h in
    let old = led a (sym same ∙ ea) in let now = roles a Role.admin in ground arith
call-IsLed env (RoleCall.revoke caller user role) s s' led h a ea =
    let ((_, is_admin), _, apart, roles, same) = revoke_role_ok env caller user role s s' h in
    let old = led a (sym same ∙ ea) in
    let now = roles a Role.admin in let me : caller ≡ a = ground arith in ground arith
call-IsLed env (RoleCall.transfer current new) s s' led h a ea =
    let (_, roles, admin, _) = transfer_admin_ok env current new s s' h in
    let now = roles a Role.admin in let me : new ≡ a = ground arith in ground arith

-- Calls that are tried one after the other; one that fails changes nothing.
unfoldable pub try_calls : List (Env × RoleCall) → State → State
try_calls [] s = s
try_calls ((env, call) ∷ calls) s = try_calls calls (ok_or (make_call env call s) s)

-- In every sequence of calls, the stored admin has the role of admin, if so before.
pub try_calls-IsLed :
    (calls : List (Env × RoleCall)) (s : State) → IsLed s → IsLed (try_calls calls s)
unfolding try_calls
try_calls-IsLed [] s led = led
try_calls-IsLed ((env, call) ∷ calls) s led =
    let run = make_call env call s in
    try_calls-IsLed calls (ok_or run s)
      (ok_or-keeps IsLed run s led (λ s' h. call-IsLed env call s s' led h))
