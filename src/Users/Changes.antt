-- ===== src/Users/Changes.antt =====
-- modules/user-management/services/user-management.service.ts: reading, changing and deleting a
-- member. Every change is one `client.user.update`, behind the guards in the code's order.
use graphql_prisma_postgres.Prelude.{
  ℕ, Bool, true, not, none, some, List, [], ◌∷◌, if◌then◌else◌, elem, any, keep, encode,
}
use graphql_prisma_postgres.Data.{UserStatus, User, is_suspended_user}
use graphql_prisma_postgres.Effects.{
  authorization, ok, M, pure, ◌>>=◌, ◌>>◌, require, finally, read, invalidate_user,
}
use graphql_prisma_postgres.Identity.Release.{
  mark_release_pending_before_delete, finalize_release_after_user_delete,
}
use graphql_prisma_postgres.Access.Grants.{
  AccessActor, is_owner, assert_can_manage_roles, assert_can_manage_permissions,
  assert_can_manage_status, assert_not_self_access_change, assert_can_grant_permissions,
  assert_can_assign_roles, get_workspace_member, assert_not_owner_target, assert_can_suspend,
  role_rows, is_admin_role,
}
use graphql_prisma_postgres.Users.Input.{trim, parse_custom_permissions}
use graphql_prisma_postgres.Users.Members.{
  with_roles, ManagedUser, map_managed_user, update_user_row, delete_user_row,
}

unfoldable pub get_user : ℕ → ℕ → ℕ → M ManagedUser
unfolding read
get_user client workspace id = do
  user ← get_workspace_member client workspace id
  rows ← (λ env w. (ok (with_roles w user), w))
  pure (map_managed_user rows)

-- The row is updated, the cached copy is dropped, and the row is returned.
unfoldable pub update_and_invalidate : ℕ → ℕ → List ℕ → (User → User) → M ManagedUser
update_and_invalidate client id connected f = do
  updated ← update_user_row client id connected f
  invalidate_user id
  pure (map_managed_user updated)

-- A field of the input that may be missing (`undefined`), null or a text.
pub data Field : Type 0 where
  undefined null : Field
  value : List ℕ → Field

abbrev pub set_username : Field → User → User
set_username (value s) u = record u { username = encode (trim s) }
set_username _ u = u

abbrev pub set_avatar : Field → User → User
set_avatar undefined u = u
set_avatar null u = record u { avatar = none }
set_avatar (value s) u = record u { avatar = some (encode s) }

-- `updateUser`
unfoldable pub update_user : ℕ → ℕ → ℕ → Field → Field → M ManagedUser
update_user client workspace id username avatar = do
  target ← get_workspace_member client workspace id
  assert_not_owner_target target
  update_and_invalidate client id [] (λ u. set_avatar avatar (set_username username u))

abbrev pub set_status : UserStatus → User → User
set_status s u = record u { status = s }

-- `updateUserStatus`
unfoldable pub update_user_status : ℕ → ℕ → AccessActor → ℕ → UserStatus → M ManagedUser
update_user_status client workspace actor id status = do
  assert_can_manage_status actor
  target ← get_workspace_member client workspace id
  assert_not_owner_target target
  if is_suspended_user status then assert_can_suspend actor target else pure tt
  update_and_invalidate client id [] (set_status status)

-- The guards that `setUserRoles`, `assignRoles` and `removeRoles` begin with.
unfoldable pub assert_may_change_roles : ℕ → ℕ → AccessActor → ℕ → M (Unit {0})
assert_may_change_roles client workspace actor id = do
  assert_can_manage_roles actor
  assert_not_self_access_change actor id
  target ← get_workspace_member client workspace id
  assert_not_owner_target target

abbrev pub set_roles : List ℕ → User → User
set_roles ids u = record u { roles = ids }

-- `setUserRoles`
unfoldable pub set_user_roles : ℕ → ℕ → AccessActor → ℕ → List ℕ → M ManagedUser
set_user_roles client workspace actor id role_ids = do
  assert_may_change_roles client workspace actor id
  assert_can_assign_roles client workspace actor role_ids
  update_and_invalidate client id role_ids (set_roles role_ids)

-- `connect`: the roles that the row does not have yet are added.
abbrev pub connect_roles : List ℕ → List ℕ → List ℕ
connect_roles [] held = held
connect_roles (r ∷ rs) held =
    let rest = connect_roles rs held in if elem r rest then rest else r ∷ rest

abbrev pub add_roles : List ℕ → User → User
add_roles ids u = record u { roles = connect_roles ids u.roles }

-- `assignRoles`
unfoldable pub assign_roles : ℕ → ℕ → AccessActor → ℕ → List ℕ → M ManagedUser
assign_roles client workspace actor id role_ids = do
  assert_may_change_roles client workspace actor id
  assert_can_assign_roles client workspace actor role_ids
  update_and_invalidate client id role_ids (add_roles role_ids)

abbrev pub drop_roles : List ℕ → User → User
drop_roles ids u = record u { roles = keep (λ r. not (elem r ids)) u.roles }

-- The Admin role's assignment is changed by owners only.
unfoldable pub assert_may_remove : ℕ → ℕ → AccessActor → List ℕ → M (Unit {0})
unfolding read
assert_may_remove client workspace actor role_ids = if is_owner actor then pure tt else (do
  roles ← read (role_rows client workspace role_ids)
  require (not (any is_admin_role roles)) authorization)

-- `removeRoles`; `disconnect` asks for no role to exist.
unfoldable pub remove_roles : ℕ → ℕ → AccessActor → ℕ → List ℕ → M ManagedUser
remove_roles client workspace actor id role_ids = do
  assert_may_change_roles client workspace actor id
  assert_may_remove client workspace actor role_ids
  update_and_invalidate client id [] (drop_roles role_ids)

abbrev pub set_custom : List ℕ → User → User
set_custom permissions u = record u { custom_permissions = permissions }

-- `setUserPermissions`
unfoldable pub set_user_permissions : ℕ → ℕ → AccessActor → ℕ → List ℕ → M ManagedUser
set_user_permissions client workspace actor id input = do
  assert_can_manage_permissions actor
  assert_not_self_access_change actor id
  target ← get_workspace_member client workspace id
  assert_not_owner_target target
  custom ← parse_custom_permissions input
  assert_can_grant_permissions actor custom
  update_and_invalidate client id [] (set_custom custom)

-- The steps of `deleteUser` behind its guards.
unfoldable pub delete_member : ℕ → ℕ → ℕ → M Bool
delete_member client id email = do
  mark_release_pending_before_delete email id
  delete_user_row client id
  finally (finalize_release_after_user_delete email id) (invalidate_user id)
  pure true

-- `deleteUser`
unfoldable pub delete_user : ℕ → ℕ → ℕ → M Bool
delete_user client workspace id = do
  target ← get_workspace_member client workspace id
  assert_not_owner_target target
  delete_member client id target.email
