-- ===== src/AccessControl/Types.antt =====
-- The types of contracts/access-control/src/lib.rs.
use stellarspend_contracts.Common.{ℕ, Bool, Option, List, Map, push_back}
use stellarspend_contracts.Soroban.{Address}

pub data Role : Type 0 where
  admin user operator auditor : Role

-- The discriminant of a role, which is its key in a user's map of roles.
abbrev pub role_key : Role → ℕ
role_key Role.admin = 0
role_key Role.user = 1
role_key Role.operator = 2
role_key Role.auditor = 3

pub data AccessControlError : Type 0 where
  not_initialized unauthorized invalid_role role_already_assigned : AccessControlError
  role_not_assigned cannot_revoke_self_admin : AccessControlError

pub data AccessEvent : Type 0 where
  initialized : Address → AccessEvent
  role_granted role_revoked : Address → Role → AccessEvent
  admin_transferred : Address → Address → AccessEvent

-- The storage, a field for each `DataKey`.
pub record State : Type 0 where
  pub admin : Option Address
  pub user_roles : Map (Map Bool)
  pub total_role_assignments : Option ℕ
  pub events : List AccessEvent

-- `env.events().publish`
abbrev pub publish : AccessEvent → State → State
publish ev s = record s { events = push_back s.events ev }
