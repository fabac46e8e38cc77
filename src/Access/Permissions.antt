-- ===== src/Access/Permissions.antt =====
-- authorization/permissions.ts, graphqlPermissions.ts and effectivePermissions.ts: the catalog of
-- permission identifiers, their GraphQL names, and the permissions that a user has in effect.
pub mod Effective
pub mod Catalog
use graphql_prisma_postgres.Prelude.{
  ℕ, ◌≡◌, refl, Bool, true, false, ◌&&◌, ◌||◌, not, Option, none, some, List, [], ◌∷◌, ◌++◌, ◌==◌,
  if◌then◌else◌, elem, keep, text,
}
use graphql_prisma_postgres.Data.{UserType, owner, member}
use graphql_prisma_postgres.Effects.{Error, validation, Result, ok, err}

abbrev pub users_manage_status : ℕ
users_manage_status = text "users.manageStatus"

abbrev pub users_manage_roles : ℕ
users_manage_roles = text "users.manageRoles"

abbrev pub users_manage_permissions : ℕ
users_manage_permissions = text "users.managePermissions"

-- `PERMISSIONS`: the entries, each a GraphQL name and a catalog identifier.
abbrev pub permissions : List (ℕ × ℕ)
permissions =
    (text "USERS_READ", text "users.read")
    ∷ (text "USERS_CREATE", text "users.create")
    ∷ (text "USERS_UPDATE", text "users.update")
    ∷ (text "USERS_DELETE", text "users.delete")
    ∷ (text "USERS_MANAGE_STATUS", users_manage_status)
    ∷ (text "USERS_MANAGE_ROLES", users_manage_roles)
    ∷ (text "USERS_MANAGE_PERMISSIONS", users_manage_permissions)
    ∷ (text "ROLES_READ", text "roles.read")
    ∷ (text "ROLES_CREATE", text "roles.create")
    ∷ (text "ROLES_UPDATE", text "roles.update")
    ∷ (text "ROLES_DELETE", text "roles.delete")
    ∷ (text "WORKSPACE_READ", text "workspace.read")
    ∷ (text "WORKSPACE_UPDATE", text "workspace.update")
    ∷ (text "WORKSPACE_TRANSFER_OWNERSHIP", text "workspace.transferOwnership")
    ∷ (text "AUDIT_READ", text "audit.read")
    ∷ []

-- `Object.values`
abbrev pub values : List (ℕ × ℕ) → List ℕ
values [] = []
values ((_, id) ∷ entries) = id ∷ values entries

-- `ALL_PERMISSIONS`
unfoldable pub all_permissions : List ℕ
all_permissions = values permissions

unfoldable pub is_permission_id : ℕ → Bool
is_permission_id value = elem value all_permissions

unfoldable pub assert_permissions : List ℕ → Result (List ℕ)
assert_permissions vs = elim (keep (λ v. not (is_permission_id v)) vs) [
  | [] ↦ ok vs
  | _ ∷ _ ↦ err validation
]

-- The look-ups in `GRAPHQL_TO_PERMISSION` and `PERMISSION_TO_GRAPHQL`, in their own entries: the names
-- that a plain object inherits, such as `constructor`, are no values of the API's enumeration.
unfoldable pub to_id_in : List (ℕ × ℕ) → ℕ → Option ℕ
to_id_in [] name = none
to_id_in ((key, id) ∷ entries) name = if key == name then some id else to_id_in entries name

unfoldable pub to_name_in : List (ℕ × ℕ) → ℕ → Option ℕ
to_name_in [] id = none
to_name_in ((key, i) ∷ entries) id = if i == id then some key else to_name_in entries id

-- One value of `toPermissionIds`: a GraphQL name, or a catalog identifier as it stands.
unfoldable pub to_permission_id : ℕ → Result ℕ
to_permission_id v = elim (to_id_in permissions v) [
  | some id ↦ ok id
  | none ↦ if is_permission_id v then ok v else err validation
]

-- `toPermissionIds`, which throws at the first value that is neither.
unfoldable pub to_permission_ids : List ℕ → Result (List ℕ)
to_permission_ids [] = ok []
to_permission_ids (v ∷ vs) =
    let rest = to_permission_ids vs in
    elim (to_permission_id v) [
      | err e ↦ err e
      | ok id ↦ elim rest [ err e ↦ err e | ok ids ↦ ok (id ∷ ids) ]
    ]

unfoldable pub to_graphql_permission : ℕ → ℕ
to_graphql_permission id = elim (to_name_in permissions id) [ none ↦ id | some name ↦ name ]

unfoldable pub to_graphql_permissions : List ℕ → List ℕ
to_graphql_permissions [] = []
to_graphql_permissions (id ∷ ids) = to_graphql_permission id ∷ to_graphql_permissions ids

-- `Set.add`, in insertion order.
unfoldable pub add : List ℕ → ℕ → List ℕ
add merged p = if elem p merged then merged else merged ++ p ∷ []

-- The inner loop: the identifiers of the catalog are added, the others are skipped.
unfoldable pub merge : List ℕ → List ℕ → List ℕ
merge merged [] = merged
merge merged (p ∷ ps) = merge (if is_permission_id p then add merged p else merged) ps

unfoldable pub merge_all : List ℕ → List (List ℕ) → List ℕ
merge_all merged [] = merged
merge_all merged (ps ∷ lists) = merge_all (merge merged ps) lists

unfoldable pub compute_effective_permissions : UserType → List (List ℕ) → List ℕ → List ℕ
compute_effective_permissions owner role_permissions custom = all_permissions
compute_effective_permissions member role_permissions custom =
    merge (merge_all [] role_permissions) custom
