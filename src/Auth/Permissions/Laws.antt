-- ===== src/Auth/Permissions/Laws.antt =====
-- What PermissionsGuard and RolesGuard let through.
use swim_flow_api.Prelude.{
  String, ◌≡◌, ◌↔◌, refl, ◌&&◌, Bool, true, Option, none, some, List, [], ◌∷◌, any, filter, every,
  All, All-of_each, any_of_IsIn, ◌≢◌, Option-cases, arith, ok, str_eq, eq_iff, Bool-cases, inl, inr,
}
use swim_flow_api.Auth.Store.{Role, Profile}
use swim_flow_api.Auth.Permissions.{
  Permission, permissions_for_role, includes, RequestUser, effective_permissions,
  missing_permissions, is_empty, check_permissions, can_activate_permissions, role_eq,
  can_activate_roles,
}

includes-filter :
    (allowed given : List Permission) (q : Permission)
    → includes (filter (includes allowed) given) q ≡ (includes allowed q && includes given q)
includes-filter allowed [] q = ground arith
includes-filter allowed (g ∷ gs) q =
    ground (arith, includes-filter allowed gs q, eq_iff g q, eq_iff q q)

missing_permissions-empty :
    (required held : List Permission)
    → is_empty (missing_permissions required held) ≡ every (includes held) required
missing_permissions-empty [] held = refl
missing_permissions-empty (p ∷ ps) held = ground (arith, missing_permissions-empty ps held)

every_iff :
    {A : Type 0} (p : A → Bool) (xs : List A) → (every p xs ≡ true) ↔ All (λ x. p x ≡ true) xs
every_iff p [] = ((λ _. tt), (λ _. refl))
every_iff p (x ∷ xs) = (
  (λ h. (ground arith, (every_iff p xs).0 (ground arith))),
  (λ h. ground (arith, (every_iff p xs).1 h.1)),
)

-- A permission that the role grants and that the request's own list, if it has one, contains.
abbrev pub Grants : Role → Option (List Permission) → Permission → Type 0
Grants role none q = includes (permissions_for_role role) q ≡ true
Grants role (some given) q =
    (includes (permissions_for_role role) q ≡ true) × (includes given q ≡ true)

includes-effective_iff :
    (role : Role) (given : Option (List Permission)) (q : Permission)
    → (includes (effective_permissions role given) q ≡ true) ↔ Grants role given q
includes-effective_iff role none q = ((λ h. h), (λ h. h))
includes-effective_iff role (some given) q =
    rw includes-filter ((λ h. ground arith), (λ h. ground arith))

All-iff :
    {A : Type 0} {P Q : A → Type 0} (xs : List A) → ((a : A) → P a ↔ Q a) → All P xs ↔ All Q xs
All-iff [] h = ((λ _. tt), (λ _. tt))
All-iff (x ∷ xs) h =
    ((λ k. ((h x).0 k.0, (All-iff xs h).0 k.1)), (λ k. ((h x).1 k.0, (All-iff xs h).1 k.1)))

check_permissions_iff :
    (required : List Permission) (user : RequestUser) (role : Role)
    → ((out : Option RequestUser) × (check_permissions required user role ≡ ok out))
      ↔ All (Grants role user.permissions) required
unfolding check_permissions
check_permissions_iff required user role =
    let held = effective_permissions role user.permissions in
    let same = missing_permissions-empty required held in
    let spec : (every (includes held) required ≡ true)
        ↔ All (Grants role user.permissions) required =
      (
        (λ h.
            (All-iff required (includes-effective_iff role user.permissions)).0
              ((every_iff (includes held) required).0 h)),
        (λ h.
            (every_iff (includes held) required).1
              ((All-iff required (includes-effective_iff role user.permissions)).1 h)),
      ) in
    (
      (λ (out, done). spec.0 (ground (arith, same))),
      (λ h. (some (record user { permissions = some held }), ground (arith, same, spec.1 h))),
    )

-- Where at least one permission is required, PermissionsGuard admits a request with a resolved role
-- exactly when every required permission is granted by the role and, where the request carries a
-- list of its own, is on that list too.
pub permissions_guard_iff :
    (p : Permission) (ps : List Permission) (user : RequestUser) (role : Role)
    → user.role ≡ some role
    → ((out : Option RequestUser) × (can_activate_permissions (some (p ∷ ps)) (some user) ≡ ok out))
      ↔ All (Grants role user.permissions) (p ∷ ps)
unfolding can_activate_permissions
permissions_guard_iff p ps user role known = (
  (λ (out, done). (check_permissions_iff (p ∷ ps) user role).0 (out, ground (arith, done))),
  (λ h.
      let (out, done) = (check_permissions_iff (p ∷ ps) user role).1 h in
      (out, ground (arith, done))),
)

filter-All :
    (allowed given : List Permission)
    → All (λ q. includes allowed q ≡ true) (filter (includes allowed) given)
filter-All allowed [] = tt
filter-All allowed (g ∷ gs) = elim (Bool-cases (includes allowed g)) [
  | inl e ↦ rw e (e, filter-All allowed gs)
  | inr e ↦ rw e (filter-All allowed gs)
]

self-included : (ps : List Permission) → All (λ q. includes ps q ≡ true) ps
self-included ps =
    All-of_each _ ps (λ q m. any_of_IsIn (λ x. str_eq x q) ps q m ((eq_iff q q).1 refl))

effective-All :
    (role : Role) (given : Option (List Permission))
    → All (λ q. includes (permissions_for_role role) q ≡ true) (effective_permissions role given)
effective-All role none = self-included (permissions_for_role role)
effective-All role (some given) = filter-All (permissions_for_role role) given

-- Where at least one permission is required, a request that PermissionsGuard passes on carries a
-- role and a list of permissions, all of which that role grants, whatever list it carried before.
pub permissions_guard_confines :
    (p : Permission) (ps : List Permission) (user out : RequestUser)
    → can_activate_permissions (some (p ∷ ps)) (some user) ≡ ok (some out)
    → (role : Role) × (held : List Permission) × (out.role ≡ some role)
      × (out.permissions ≡ some held)
      × All (λ q. includes (permissions_for_role role) q ≡ true) held
unfolding can_activate_permissions
permissions_guard_confines p ps user out done = elim (Option-cases user.role) [
  | inl missing ↦ cc (missing, done)
  | inr (role, known) ↦ (
    role,
    effective_permissions role user.permissions,
    ground arith,
    ground arith,
    effective-All role user.permissions,
  )
]

-- Where at least one role is listed, RolesGuard admits a request exactly when it has a nonempty
-- user id, the profile stored under that id exists and has one of the listed roles; the request
-- then carries the stored role and its permissions, whatever it carried before.
pub roles_guard_iff :
    (find_by_user_id : String → Option Profile) (r : Role) (rs : List Role) (user out : RequestUser)
    → (can_activate_roles find_by_user_id (some (r ∷ rs)) (some user) ≡ ok (some out)) ↔ (
        (id : String) × (profile : Profile) × (user.id ≡ some id)
        × (id ≢ "")
        × (find_by_user_id id ≡ some profile)
        × (any (λ x. role_eq x profile.role) (r ∷ rs) ≡ true)
        × (out ≡ record user {
          role = some profile.role;
          permissions = some (permissions_for_role profile.role);
        }))
unfolding can_activate_roles
roles_guard_iff find_by_user_id r rs user out = (
  (λ h. elim (Option-cases user.id) [
    | inl e ↦ absurd (ground arith)
    | inr (id, e) ↦ elim (Option-cases (find_by_user_id id)) [
      | inl f ↦ absurd (ground arith)
      | inr (profile, f) ↦
          (id, profile, e, (λ z. ground (arith, eq_iff id "")), f, ground arith, ground arith)
    ]
  ]),
  (λ (id, profile, e, ne, f, a, o). ground (arith, eq_iff id "")),
)
