-- ===== src/AccessControl/Grants.antt =====
-- What the calls of contracts/access-control/src/lib.rs do to the roles.
use native.Mathlib.Decide.{ℕ_discrete}
use stellarspend_contracts.Common.{
  ◌+◌, ◌≡◌, refl, inl, inr, some, Bool, true, false, ◌&&◌, arith, ◌==◌, unwrap_or, if◌then◌else◌,
  Option-cases,
}
use stellarspend_contracts.Common.Int.{checked_add_u64}
use stellarspend_contracts.Soroban.{Address, Env, Result, ok, ◌>>◌, require_auth}
use stellarspend_contracts.AccessControl.Types.{Role, role_key, AccessControlError, State}
use stellarspend_contracts.AccessControl.Roles.{
  has_role, set_role, require_admin, grant_role, revoke_role, transfer_admin,
}

-- Whether a write concerns this user and this role.
abbrev pub concerns : Address → Role → Address → Role → Bool
concerns user role a r = (user == a) && (role_key role == role_key r)

-- One write changes one role of one user.
has_role-set_role :
    (user : Address) (role : Role) (v : Bool) (s : State) (a : Address) (r : Role)
    → has_role (set_role user role v s) a r ≡ (if concerns user role a r then v else has_role s a r)
has_role-set_role user role v s a r = elim (ℕ_discrete user a) [
  | yes same ↦ ground arith
  | no apart ↦ ground arith
]

-- The caller of an accepted call authorized it and is the admin.
abbrev pub IsByAdmin : Env → Address → State → Type 0
IsByAdmin env caller s = (env.authorized caller ≡ true) × (s.admin ≡ some caller)

checks_ok :
    {A : Type 0} (env : Env) (caller : Address) (s : State) (rest : Result AccessControlError A)
    (r : A)
    → (require_auth env caller >> (require_admin s caller >> rest)) ≡ ok r
    → IsByAdmin env caller s × (rest ≡ ok r)
unfolding require_admin
checks_ok env caller s rest r h = elim (Option-cases s.admin) [
  | inl unset ↦ absurd (ground arith)
  | inr (a, e) ↦ let same : caller ≡ a = ground arith in ((ground arith, rw (same) e), ground arith)
]

-- An accepted grant comes from the admin, of a role that the user did not have; afterwards the user
-- has it, every other role is as it was, the admin is the same, and the counter is one higher.
pub grant_role_ok :
    (env : Env) (caller user : Address) (role : Role) (s s' : State)
    → grant_role env caller user role s ≡ ok s'
    → IsByAdmin env caller s
      × (has_role s user role ≡ false)
      × ((a : Address) (r : Role)
          → has_role s' a r ≡ (if concerns user role a r then true else has_role s a r))
      × (s'.admin ≡ s.admin)
      × (unwrap_or s'.total_role_assignments 0 ≡ unwrap_or s.total_role_assignments 0 + 1)
unfolding grant_role checked_add_u64
grant_role_ok env caller user role s s' h =
    let (by, done) = checks_ok env caller s _ s' h in
    let table : s'.user_roles ≡ (set_role user role true s).user_roles = ground arith in
    (
      by,
      ground arith,
      λ a r. rw (table) (has_role-set_role user role true s a r),
      ground arith,
      ground arith,
    )

pub revoke_role_ok :
    (env : Env) (caller user : Address) (role : Role) (s s' : State)
    → revoke_role env caller user role s ≡ ok s'
    → IsByAdmin env caller s
      × (has_role s user role ≡ true)
      × (concerns user role caller Role.admin ≡ false)
      × ((a : Address) (r : Role)
          → has_role s' a r ≡ (if concerns user role a r then false else has_role s a r))
      × (s'.admin ≡ s.admin)
unfolding revoke_role
revoke_role_ok env caller user role s s' h =
    let (by, done) = checks_ok env caller s _ s' h in
    let table : s'.user_roles ≡ (set_role user role false s).user_roles = ground arith in
    (
      by,
      ground arith,
      ground arith,
      λ a r. rw (table) (has_role-set_role user role false s a r),
      ground arith,
    )

-- An accepted transfer comes from the admin, who loses the role of admin to the new one, unless they
-- are the same; all other roles, and the counter, are as they were.
pub transfer_admin_ok :
    (env : Env) (caller new : Address) (s s' : State)
    → transfer_admin env caller new s ≡ ok s'
    → IsByAdmin env caller s
      × ((a : Address) (r : Role)
          → has_role s' a r ≡ (
              if concerns new Role.admin a r
              then true
              else if concerns caller Role.admin a r
              then false
              else has_role s a r))
      × (s'.admin ≡ some new)
      × (s'.total_role_assignments ≡ s.total_role_assignments)
unfolding transfer_admin
transfer_admin_ok env caller new s s' h =
    let (by, done) = checks_ok env caller s _ s' h in
    let s₁ = set_role caller Role.admin false s in
    let table : s'.user_roles ≡ (set_role new Role.admin true s₁).user_roles = ground arith in
    (
      by,
      λ a r.
          rw
            (
              table,
              has_role-set_role new Role.admin true s₁ a r,
              has_role-set_role caller Role.admin false s a r,
            )
            refl,
      ground arith,
      ground arith,
    )
