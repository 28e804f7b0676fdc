-- ===== src/Auth/Permissions/Tests.antt =====
-- Permissions: runs of the guards.
use swim_flow_api.Prelude.{
  String, ◌≡◌, ◌≢◌, ◌↔◌, refl, true, some, Option, List, [], ◌∷◌, ok, err, any, All,
}
use swim_flow_api.Auth.Store.{Role, Profile}
use swim_flow_api.Auth.Fixture.{ana}
use swim_flow_api.Auth.Permissions.{
  Permission, permissions_for_role, includes, role_eq, RequestUser, can_activate_permissions,
  can_activate_roles, missing_permission,
}
use swim_flow_api.Auth.Permissions.Laws.{
  Grants, permissions_guard_iff, permissions_guard_confines, roles_guard_iff,
}

-- A teacher whose token claims more than the role grants.
abbrev claimant : RequestUser
claimant = record {
  id = some "u1";
  role = some Role.teacher;
  permissions = some ("classes:read" ∷ "students:write" ∷ []);
}

refuses :
    can_activate_permissions (some ("students:write" ∷ [])) (some claimant) ≡ err missing_permission
unfolding can_activate_permissions permissions_for_role
refuses = refl

abbrev confined : RequestUser
confined = record claimant { permissions = some ("classes:read" ∷ []) }

admits : can_activate_permissions (some ("classes:read" ∷ [])) (some claimant) ≡ ok (some confined)
unfolding can_activate_permissions permissions_for_role
admits = refl

permissions_guard_iff_example :
    ((out : Option RequestUser) × (can_activate_permissions
          (some ("classes:read" ∷ []))
          (some claimant)
        ≡ ok out))
    ↔ All (Grants Role.teacher claimant.permissions) ("classes:read" ∷ [])
permissions_guard_iff_example = permissions_guard_iff "classes:read" [] claimant Role.teacher refl

permissions_guard_confines_example :
    (role : Role) × (held : List Permission) × (confined.role ≡ some role)
    × (confined.permissions ≡ some held)
    × All (λ q. includes (permissions_for_role role) q ≡ true) held
permissions_guard_confines_example =
    permissions_guard_confines "classes:read" [] claimant confined admits

abbrev resolved : RequestUser
resolved = record claimant { permissions = some (permissions_for_role Role.teacher) }

roles_guard_iff_example :
    (can_activate_roles (λ id. some ana) (some (Role.teacher ∷ [])) (some claimant)
      ≡ ok (some resolved))
    ↔ ((id : String) × (profile : Profile) × (claimant.id ≡ some id)
        × (id ≢ "")
        × (some ana ≡ some profile)
        × (any (λ x. role_eq x profile.role) (Role.teacher ∷ []) ≡ true)
        × (resolved ≡ record claimant {
          role = some profile.role;
          permissions = some (permissions_for_role profile.role);
        }))
roles_guard_iff_example = roles_guard_iff (λ id. some ana) Role.teacher [] claimant resolved
