-- ===== src/Access/Grants.antt =====
-- modules/user-management/policies/access-grant.policy.ts and user-management.policy.ts: what an
-- actor may grant, and to whom.
use graphql_prisma_postgres.Prelude.{
  ℕ, Bool, false, not, ◌&&◌, ◌||◌, Option, none, some, List, [], ◌∷◌, ◌==◌, if◌then◌else◌, elem,
  all, keep, find?, length, text,
}
use graphql_prisma_postgres.Data.{UserType, User, Role, is_owner_type}
use graphql_prisma_postgres.Effects.{
  World, authorization, validation, not_found, M, pure, ◌>>=◌, ◌>>◌, require, or_throw, read,
}
use graphql_prisma_postgres.Access.Permissions.{
  users_manage_roles, users_manage_permissions, users_manage_status,
}

pub record AccessActor : Type 0 where
  pub id : ℕ
  pub user_type : Option UserType
  pub permissions : List ℕ

abbrev pub is_owner : AccessActor → Bool
is_owner actor = elim actor.user_type [ none ↦ false | some t ↦ is_owner_type t ]

abbrev pub actor_has_permission : AccessActor → ℕ → Bool
actor_has_permission actor permission = is_owner actor || elem permission actor.permissions

abbrev pub assert_can_manage_roles : AccessActor → M (Unit {0})
assert_can_manage_roles actor =
    require (actor_has_permission actor users_manage_roles) authorization

abbrev pub assert_can_manage_permissions : AccessActor → M (Unit {0})
assert_can_manage_permissions actor =
    require (actor_has_permission actor users_manage_permissions) authorization

abbrev pub assert_can_manage_status : AccessActor → M (Unit {0})
assert_can_manage_status actor =
    require (actor_has_permission actor users_manage_status) authorization

-- Members cannot modify their own roles or custom permissions.
abbrev pub assert_not_self_access_change : AccessActor → ℕ → M (Unit {0})
assert_not_self_access_change actor target =
    require (is_owner actor || not (actor.id == target)) authorization

-- `permissions.filter((p) => !actor.permissions.includes(p))` is empty, or the actor is an owner.
abbrev pub may_grant : AccessActor → List ℕ → Bool
may_grant actor permissions = is_owner actor || all (λ p. elem p actor.permissions) permissions

abbrev pub assert_can_grant_permissions : AccessActor → List ℕ → M (Unit {0})
assert_can_grant_permissions actor permissions = require (may_grant actor permissions) authorization

-- `role.isSystem && role.name === 'Admin'`
abbrev pub is_admin_role : Role → Bool
is_admin_role r = r.is_system && r.name == text "Admin"

-- One round of the loop of `assertCanAssignRoles`.
abbrev pub may_assign : AccessActor → Role → Bool
may_assign actor r = if is_admin_role r then is_owner actor else may_grant actor r.permissions

-- `client.role.findMany({ where: { id: { in: roleIds }, workspaceId } })`
abbrev pub role_rows : ℕ → ℕ → List ℕ → World → List Role
role_rows client workspace ids w =
    keep (λ r. r.shard == client && elem r.id ids && r.workspace_id == workspace) w.roles

-- `if (roleIds.length === 0) return`
abbrev pub unless_empty : List ℕ → M (Unit {0}) → M (Unit {0})
unless_empty [] m = pure tt
unless_empty (_ ∷ _) m = m

unfoldable pub assert_can_assign_roles : ℕ → ℕ → AccessActor → List ℕ → M (Unit {0})
unfolding read
assert_can_assign_roles client workspace actor role_ids = unless_empty role_ids (do
  roles ← read (role_rows client workspace role_ids)
  require (length roles == length role_ids) validation
  require (all (may_assign actor) roles) authorization)

unfoldable pub assert_roles_in_workspace : ℕ → ℕ → List ℕ → M (Unit {0})
unfolding read
assert_roles_in_workspace client workspace role_ids = unless_empty role_ids (do
  roles ← read (role_rows client workspace role_ids)
  require (length roles == length role_ids) validation)

-- `client.user.findFirst({ where: { id, workspaceId } })`
abbrev pub is_member_row : ℕ → ℕ → ℕ → User → Bool
is_member_row client workspace id u = u.shard == client && u.id == id && u.workspace_id == workspace

unfoldable pub get_workspace_member : ℕ → ℕ → ℕ → M User
unfolding read
get_workspace_member client workspace id = do
  user ← read (λ w. find? (is_member_row client workspace id) w.users)
  or_throw user not_found

abbrev pub assert_not_owner_target : User → M (Unit {0})
assert_not_owner_target target = require (not (is_owner_type target.user_type)) validation

abbrev pub assert_can_suspend : AccessActor → User → M (Unit {0})
assert_can_suspend actor target = do
  require (not (is_owner_type target.user_type)) authorization
  require (not (target.id == actor.id && not (is_owner actor))) validation
