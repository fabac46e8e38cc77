-- ===== src/Roles/Catalog.antt =====
-- The permissions that the roles of modules/role list, and the catalog.
use graphql_prisma_postgres.Prelude.{
  ℕ, ◌≡◌, inl, inr, true, not, Option, none, some, List, arith, Option-cases, find?, All,
  All-update_where, All-keep,
}
use graphql_prisma_postgres.Data.{Role}
use graphql_prisma_postgres.Effects.{World, Env, ok, Result-cases, tick}
use graphql_prisma_postgres.Access.Permissions.{is_permission_id, to_permission_ids}
use graphql_prisma_postgres.Access.Permissions.Catalog.{to_permission_ids-in_catalog}
use graphql_prisma_postgres.Users.Changes.{Field}
use graphql_prisma_postgres.Roles.{
  is_role_row, get_workspace_role, assert_name_is_free, insert_role, new_role, update_role_row,
  delete_role_row, create_role, set_name, set_description, set_permissions, updated_name,
  updated_permissions, update_role, delete_role, description_of, validate_role_name,
  is_workspace_role,
}
use graphql_prisma_postgres.Roles.System.{updated_name-roles, updated_permissions-world}

abbrev pub IsInCatalog : Role → Type 0
IsInCatalog r = All (λ id. is_permission_id id ≡ true) r.permissions

abbrev pub RolesInCatalog : World → Type 0
RolesInCatalog w = All IsInCatalog w.roles

abbrev PermissionsInCatalog : Option (List ℕ) → Type 0
PermissionsInCatalog none = Unit
PermissionsInCatalog (some ids) = All (λ id. is_permission_id id ≡ true) ids

insert_role-InCatalog :
    (r : Role) (env : Env) (w : World)
    → IsInCatalog r
    → RolesInCatalog w
    → RolesInCatalog (insert_role r env w).1
unfolding insert_role
insert_role-InCatalog r env w c h = ground arith

update_role_row-InCatalog :
    (client id : ℕ) (f : Role → Role) (env : Env) (w : World)
    → ((r : Role) → IsInCatalog r → IsInCatalog (f r))
    → RolesInCatalog w
    → RolesInCatalog (update_role_row client id f env w).1
unfolding update_role_row
update_role_row-InCatalog client id f env w keeps h =
    ground (arith, All-update_where IsInCatalog (is_role_row client id) f w.roles keeps h)

delete_role_row-InCatalog :
    (client id : ℕ) (env : Env) (w : World)
    → RolesInCatalog w
    → RolesInCatalog (delete_role_row client id env w).1
unfolding delete_role_row
delete_role_row-InCatalog client id env w h =
    ground (arith, All-keep IsInCatalog (λ r. not (is_role_row client id r)) w.roles h)

-- Creating a role keeps every role of the shards within the catalog, whatever the permissions that are
-- asked for, and however the calls end.
pub create_role-InCatalog :
    (client workspace : ℕ) (name : List ℕ) (description : Field) (values : List ℕ) (env : Env)
    (w : World)
    → RolesInCatalog w
    → RolesInCatalog (create_role client workspace name description values env w).1
unfolding create_role assert_name_is_free
create_role-InCatalog client workspace name description values env w h =
    elim (Result-cases (to_permission_ids values)) [
      | inr (thrown, e) ↦ ground (arith, e)
      | inl (ids, e) ↦ elim (Result-cases (validate_role_name name)) [
        | inr (thrown, e') ↦ ground (arith, e')
        | inl (n, e') ↦
            let w1 = tick env w in
            let row =
              new_role client workspace (env.uuid w1.calls) n (description_of description) ids in
            ground (
              arith,
              e,
              e',
              insert_role-InCatalog row env w1 (to_permission_ids-in_catalog values ids e) h,
            )
      ]
    ]

update_role_row-typed :
    (client id : ℕ) (name : Option ℕ) (description : Field) (permissions : Option (List ℕ))
    (env : Env) (w : World)
    → PermissionsInCatalog permissions
    → RolesInCatalog w
    → RolesInCatalog
        (update_role_row client id
          (λ r. set_permissions permissions (set_description description (set_name name r)))
          env
          w).1
update_role_row-typed client id name description permissions env w c h =
    update_role_row-InCatalog client id
      (λ r. set_permissions permissions (set_description description (set_name name r))) env w
      (λ r k. ground arith) h

updated_permissions-InCatalog :
    (values : Option (List ℕ)) (permissions : Option (List ℕ)) (env : Env) (w : World)
    → (updated_permissions values env w).0 ≡ ok permissions
    → PermissionsInCatalog permissions
unfolding updated_permissions
updated_permissions-InCatalog none permissions env w e = ground arith
updated_permissions-InCatalog (some values) permissions env w e =
    elim (Result-cases (to_permission_ids values)) [
      | inr (thrown, q) ↦ absurd (ground (arith, q))
      | inl (ids, q) ↦ ground (arith, q, to_permission_ids-in_catalog values ids q)
    ]

-- Changing a role keeps every role of the shards within the catalog, however the calls end.
pub update_role-InCatalog :
    (client workspace id : ℕ) (name description : Field) (values : Option (List ℕ)) (env : Env)
    (w : World)
    → RolesInCatalog w
    → RolesInCatalog (update_role client workspace id name description values env w).1
unfolding update_role get_workspace_role
update_role-InCatalog client workspace id name description values env w h =
    elim (Option-cases (find? (is_workspace_role client workspace id) w.roles)) [
      | inl missing ↦ ground (arith, missing)
      | inr (role, found) ↦
          let w1 = tick env w in
          let w2 = (updated_name client workspace role name env w1).1 in
          let h2 : RolesInCatalog w2 =
            rw (updated_name-roles client workspace role name env w1) h in
          elim (Result-cases (updated_name client workspace role name env w1).0) [
            | inr (thrown, e) ↦ ground (arith, found, e, h2)
            | inl (n, e) ↦ elim (Result-cases (updated_permissions values env w2).0) [
              | inr (thrown, q) ↦
                  ground (arith, found, e, q, h2, updated_permissions-world values env w2)
              | inl (p, q) ↦ ground (
                arith,
                found,
                e,
                q,
                updated_permissions-world values env w2,
                update_role_row-typed client id n description p env w2
                    (updated_permissions-InCatalog values p env w2 q) h2,
              )
            ]
          ]
    ]

-- Deleting a role keeps them, too.
pub delete_role-InCatalog :
    (client workspace id : ℕ) (env : Env) (w : World)
    → RolesInCatalog w
    → RolesInCatalog (delete_role client workspace id env w).1
unfolding delete_role get_workspace_role
delete_role-InCatalog client workspace id env w h =
    ground (arith, delete_role_row-InCatalog client id env (tick env w) h)
