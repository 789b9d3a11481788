-- ===== src/AccessControl/Roles.antt =====
-- The operations of contracts/access-control/src/lib.rs.
use stellarspend_contracts.Common.{
  ◌-◌, Bool, true, false, not, ◌&&◌, ◌||◌, Option, none, some, List, [], ◌++◌, ◌∷◌, Map, ◌==◌, ltb,
  unwrap_or, insert, if◌then◌else◌,
}
use stellarspend_contracts.Soroban.{
  Address, Env, Result, ok, contract_error, ◌>>=◌, ◌>>◌, throw_if, or_throw, require_auth, add_u64,
}
use stellarspend_contracts.AccessControl.Types.{
  Role, role_key, AccessControlError, AccessEvent, State, publish, not_initialized, unauthorized,
  role_already_assigned, role_not_assigned, cannot_revoke_self_admin,
}

abbrev is_set {ℓ} : {A : Type ℓ} → Option A → Bool
is_set none = false
is_set (some a) = true

-- The map of a user's roles, empty if there is none.
abbrev pub roles_of : State → Address → Map Bool
roles_of s user = unwrap_or (s.user_roles user) (λ k. none)

-- `roles.get(role).unwrap_or(false)`
abbrev pub is_assigned : Map Bool → Role → Bool
is_assigned roles role = unwrap_or (roles (role_key role)) false

abbrev pub has_role : State → Address → Role → Bool
has_role s user role = is_assigned (roles_of s user) role

-- `roles.set(role, value)`, and the write of the map.
abbrev pub set_role : Address → Role → Bool → State → State
set_role user role value s = record s {
  user_roles = insert user (insert (role_key role) value (roles_of s user)) s.user_roles;
}

unfoldable pub require_admin : State → Address → Result AccessControlError (Unit {0})
require_admin s caller = do
  admin ← or_throw s.admin (contract_error not_initialized)
  throw_if (not (caller == admin)) (contract_error unauthorized)

unfoldable pub check_permission : State → Address → Role → Result AccessControlError (Unit {0})
check_permission s user role =
    throw_if (not (has_role s user Role.admin) && not (has_role s user role))
      (contract_error unauthorized)

-- `if roles.get(role).unwrap_or(false) { active_roles.push_back(role) }`
abbrev pub role_if : Bool → Role → List Role
role_if b role = if b then role ∷ [] else []

unfoldable pub get_user_roles : State → Address → List Role
get_user_roles s user =
    role_if (has_role s user Role.admin) Role.admin
    ++ role_if (has_role s user Role.user) Role.user
    ++ role_if (has_role s user Role.operator) Role.operator
    ++ role_if (has_role s user Role.auditor) Role.auditor

unfoldable pub has_any_role : State → Address → Bool
has_any_role s user =
    has_role s user Role.admin
    || has_role s user Role.user
    || has_role s user Role.operator
    || has_role s user Role.auditor

module _ (env : Env) where
  unfoldable pub initialize : Address → State → Result AccessControlError State
  initialize admin s = do
    throw_if (is_set s.admin) (contract_error not_initialized)
    require_auth env admin
    ok (
        publish (AccessEvent.initialized admin) (record s {
          admin = some admin;
          user_roles = insert admin (insert (role_key Role.admin) true (λ k. none)) s.user_roles;
          total_role_assignments = some 1;
        }))

  unfoldable pub grant_role :
      (caller user : Address) → Role → State → Result AccessControlError State
  grant_role caller user role s = do
    require_auth env caller
    require_admin s caller
    throw_if (has_role s user role) (contract_error role_already_assigned)
    count ← add_u64 (unwrap_or s.total_role_assignments 0) 1
    ok (
        publish (AccessEvent.role_granted user role)
          (record (set_role user role true s) { total_role_assignments = some count }))

  unfoldable pub revoke_role :
      (caller user : Address) → Role → State → Result AccessControlError State
  revoke_role caller user role s = do
    require_auth env caller
    require_admin s caller
    throw_if (caller == user && role_key role == role_key Role.admin)
        (contract_error cannot_revoke_self_admin)
    throw_if (not (has_role s user role)) (contract_error role_not_assigned)
    let count = unwrap_or s.total_role_assignments 0
    ok (
        publish (AccessEvent.role_revoked user role) (record (set_role user role false s) {
          total_role_assignments =
              if ltb 0 count then some (count - 1) else s.total_role_assignments;
        }))

  unfoldable pub transfer_admin :
      (current_admin new_admin : Address) → State → Result AccessControlError State
  transfer_admin current_admin new_admin s = do
    require_auth env current_admin
    require_admin s current_admin
    let s₁ = set_role current_admin Role.admin false s
    let s₂ = set_role new_admin Role.admin true s₁
    ok (
        publish (AccessEvent.admin_transferred current_admin new_admin)
          (record s₂ { admin = some new_admin }))

abbrev pub get_admin : State → Result AccessControlError Address
get_admin s = or_throw s.admin (contract_error not_initialized)
