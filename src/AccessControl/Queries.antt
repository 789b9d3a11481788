-- ===== src/AccessControl/Queries.antt =====
-- The queries of contracts/access-control/src/lib.rs.
use stellarspend_contracts.Common.{
  ℕ, ltb, length, contains, map, ◌==◌, ◌≡◌, ◌↔◌, ◌⊎◌, refl, inl, inr, List, [], ◌∷◌, ◌++◌, Bool,
  true, false, ◌&&◌, ◌||◌, arith, Bool-cases,
}
use stellarspend_contracts.Soroban.{Address, ok}
use stellarspend_contracts.AccessControl.Types.{Role, role_key, State}
use stellarspend_contracts.AccessControl.Roles.{
  has_role, check_permission, role_if, get_user_roles, has_any_role,
}

abbrev IsPermitted : State → Address → Role → Type 0
IsPermitted s user role = (has_role s user Role.admin ≡ true) ⊎ (has_role s user role ≡ true)

permitted :
    (s : State) (user : Address) (role : Role)
    → check_permission s user role ≡ ok tt
    → IsPermitted s user role
unfolding check_permission
permitted s user role h = elim (Bool-cases (has_role s user Role.admin)) [
  | inl admin ↦ inl admin
  | inr not_admin ↦ inr (ground arith)
]

passes :
    (s : State) (user : Address) (role : Role)
    → IsPermitted s user role
    → check_permission s user role ≡ ok tt
unfolding check_permission
passes s user role (inl h) = ground arith
passes s user role (inr h) = ground arith

-- A permission is granted exactly to the users with the role and to those with the role of admin.
pub check_permission-ok :
    (s : State) (user : Address) (role : Role)
    → (check_permission s user role ≡ ok tt)
      ↔ ((has_role s user Role.admin ≡ true) ⊎ (has_role s user role ≡ true))
check_permission-ok s user role = (permitted s user role, passes s user role)

-- Whether a list names a role with this key.
abbrev names : List Role → ℕ → Bool
names roles k = contains (map role_key roles) k

names-append : (xs ys : List Role) (k : ℕ) → names (xs ++ ys) k ≡ (names xs k || names ys k)
names-append [] ys k = refl
names-append (x ∷ xs) ys k = let rest = names-append xs ys k in ground arith

names-role_if : (b : Bool) (r : Role) (k : ℕ) → names (role_if b r) k ≡ (b && (role_key r == k))
names-role_if true r k = ground arith
names-role_if false r k = refl

nonempty-append :
    (xs ys : List Role) → ltb 0 (length (xs ++ ys)) ≡ (ltb 0 (length xs) || ltb 0 (length ys))
nonempty-append [] ys = refl
nonempty-append (x ∷ xs) ys = ground arith

nonempty-role_if : (b : Bool) (r : Role) → ltb 0 (length (role_if b r)) ≡ b
nonempty-role_if true r = refl
nonempty-role_if false r = refl

ruleset names_laws = (names-append, names-role_if, nonempty-append, nonempty-role_if)

pick_admin : (a u o d : Bool) → (a && true || u && false || o && false || d && false) ≡ a
pick_admin a u o d = ground arith

pick_user : (a u o d : Bool) → (a && false || u && true || o && false || d && false) ≡ u
pick_user a u o d = ground arith

pick_operator : (a u o d : Bool) → (a && false || u && false || o && true || d && false) ≡ o
pick_operator a u o d = ground arith

pick_auditor : (a u o d : Bool) → (a && false || u && false || o && false || d && true) ≡ d
pick_auditor a u o d = ground arith

listed :
    (s : State) (user : Address) (role : Role)
    → contains (map role_key (get_user_roles s user)) (role_key role) ≡ has_role s user role
unfolding get_user_roles
listed s user Role.admin = simp names_laws (
    pick_admin (has_role s user Role.admin) (has_role s user Role.user)
      (has_role s user Role.operator) (has_role s user Role.auditor))
listed s user Role.user = simp names_laws (
    pick_user (has_role s user Role.admin) (has_role s user Role.user)
      (has_role s user Role.operator) (has_role s user Role.auditor))
listed s user Role.operator = simp names_laws (
    pick_operator (has_role s user Role.admin) (has_role s user Role.user)
      (has_role s user Role.operator) (has_role s user Role.auditor))
listed s user Role.auditor = simp names_laws (
    pick_auditor (has_role s user Role.admin) (has_role s user Role.user)
      (has_role s user Role.operator) (has_role s user Role.auditor))

-- The list of a user's roles names exactly the roles that the user has, and it is empty exactly if
-- `has_any_role` denies.
pub get_user_roles-contains :
    (s : State) (user : Address)
    → ((role : Role)
        → contains (map role_key (get_user_roles s user)) (role_key role) ≡ has_role s user role)
      × (has_any_role s user ≡ ltb 0 (length (get_user_roles s user)))
unfolding get_user_roles has_any_role
get_user_roles-contains s user = (listed s user, simp names_laws)
