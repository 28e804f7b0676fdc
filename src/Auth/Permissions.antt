-- ===== src/Auth/Permissions.antt =====
-- Roles, permissions and the guard that compares them (src/infra/auth/role-permissions.ts,
-- permissions.guard.ts and roles.guard.ts). A permission is a string literal of the source.
pub mod Laws
mod Tests
use swim_flow_api.Prelude.{
  String, Bool, true, false, not, Option, none, some, List, [], ◌∷◌, any, filter, Outcome, ok, err,
  str_eq, find, or_else, if◌then◌else◌,
}
use swim_flow_api.Auth.Store.{Role, Profile}

abbrev pub Permission : Type 0
Permission = String

abbrev pub resource_permissions : List Permission
resource_permissions =
    "students:read" ∷ "students:write" ∷ "attendance:read" ∷ "attendance:write" ∷ "auth:invite"
    ∷ "auth:manage-users" ∷ "classes:read" ∷ "classes:write" ∷ "events:read" ∷ "events:write"
    ∷ "ex-students:read" ∷ "ex-students:write" ∷ "parents:read" ∷ "parents:write" ∷ "pools:read"
    ∷ "pools:write" ∷ "results:read" ∷ "results:write" ∷ "teachers:read" ∷ "teachers:write"
    ∷ "trainings:read" ∷ "trainings:write" ∷ "uploads:write" ∷ []

unfoldable pub permissions_for_role : Role → List Permission
permissions_for_role Role.admin = resource_permissions
permissions_for_role Role.teacher =
    "students:read" ∷ "classes:read" ∷ "attendance:read" ∷ "attendance:write" ∷ []
permissions_for_role Role.user = "uploads:write" ∷ []

-- Array.prototype.includes
abbrev pub includes : List Permission → Permission → Bool
includes ps p = any (λ q. str_eq q p) ps

pub data GuardError : Type 0 where
  role_not_resolved missing_permission not_authenticated profile_not_found wrong_role : GuardError

-- `request.user`, of which any part may be absent.
pub record RequestUser : Type 0 where
  pub id : Option String
  pub role : Option Role
  pub permissions : Option (List Permission)

abbrev pub effective_permissions : Role → Option (List Permission) → List Permission
effective_permissions role none = permissions_for_role role
effective_permissions role (some given) = filter (includes (permissions_for_role role)) given

abbrev pub missing_permissions : List Permission → List Permission → List Permission
missing_permissions required held = filter (λ p. not (includes held p)) required

abbrev pub is_empty {ℓ} : {A : Type ℓ} → List A → Bool
is_empty [] = true
is_empty (x ∷ xs) = false

-- The checks of PermissionsGuard.canActivate for a resolved role.
unfoldable pub check_permissions :
    List Permission → RequestUser → Role → Outcome GuardError (Option RequestUser)
check_permissions required user role =
    let held = effective_permissions role user.permissions in
    if is_empty (missing_permissions required held)
    then ok (some (record user { permissions = some held }))
    else err missing_permission

abbrev require_role :
    List Permission → RequestUser → Option Role → Outcome GuardError (Option RequestUser)
require_role required user none = err role_not_resolved
require_role required user (some role) = check_permissions required user role

-- PermissionsGuard.canActivate; the result is the request's user as it stands afterwards.
unfoldable pub can_activate_permissions :
    Option (List Permission) → Option RequestUser → Outcome GuardError (Option RequestUser)
unfolding check_permissions
can_activate_permissions none user = ok user
can_activate_permissions (some []) user = ok user
can_activate_permissions (some (p ∷ ps)) none = err role_not_resolved
can_activate_permissions (some (p ∷ ps)) (some user) = require_role (p ∷ ps) user user.role

abbrev pub role_eq : Role → Role → Bool
role_eq Role.admin Role.admin = true
role_eq Role.teacher Role.teacher = true
role_eq Role.user Role.user = true
role_eq _ _ = false

abbrev check_role :
    List Role → RequestUser → Option Profile → Outcome GuardError (Option RequestUser)
check_role roles user none = err profile_not_found
check_role roles user (some profile) =
    if any (λ r. role_eq r profile.role) roles
    then ok (
        some (record user {
          role = some profile.role;
          permissions = some (permissions_for_role profile.role);
        }))
    else err wrong_role

abbrev check_user_role :
    List Role
    → (String → Option Profile)
    → RequestUser
    → Option String
    → Outcome GuardError (Option RequestUser)
check_user_role roles find_by_user_id user none = err not_authenticated
check_user_role roles find_by_user_id user (some id) =
    if str_eq id "" then err not_authenticated else check_role roles user (find_by_user_id id)

-- RolesGuard.canActivate, over the lookup of a profile by its id.
unfoldable pub can_activate_roles :
    (String → Option Profile)
    → Option (List Role)
    → Option RequestUser
    → Outcome GuardError (Option RequestUser)
can_activate_roles find_by_user_id none user = ok user
can_activate_roles find_by_user_id (some []) user = ok user
can_activate_roles find_by_user_id (some (r ∷ rs)) none = err not_authenticated
can_activate_roles find_by_user_id (some (r ∷ rs)) (some user) =
    check_user_role (r ∷ rs) find_by_user_id user user.id
