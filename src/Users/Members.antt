-- ===== src/Users/Members.antt =====
-- modules/user-management/services/user-management.service.ts: creating, changing and deleting the
-- members of a workspace. A client is the shard whose database it is connected to.
use graphql_prisma_postgres.Prelude.{
  ℕ, Bool, false, not, ◌&&◌, ◌||◌, Option, none, some, List, [], ◌∷◌, ◌==◌, if◌then◌else◌, elem,
  all, any, keep, find?, update_where, some_truthy,
}
use graphql_prisma_postgres.Data.{UserType, member, UserStatus, User, Role, Workspace}
use graphql_prisma_postgres.Effects.{
  World, validation, not_found, dependency_unavailable, prisma, p2002, p2025, plain, ok, err,
  map_prisma_error, mapped_or, M, pure, throw, ◌>>=◌, ◌>>◌, require, or_throw, try_catch, uuid,
  read, write,
}
use graphql_prisma_postgres.Identity.Reservation.{get_db_for_workspace, reserve_email}
use graphql_prisma_postgres.Identity.Release.{
  activate_after_shard_commit, release_after_failed_shard_write,
}
use graphql_prisma_postgres.Access.Permissions.{to_graphql_permissions}
use graphql_prisma_postgres.Access.Grants.{
  AccessActor, assert_can_manage_roles, assert_can_manage_permissions, assert_can_grant_permissions,
  assert_can_assign_roles, assert_roles_in_workspace, unless_empty,
}
use graphql_prisma_postgres.Users.Input.{
  CreateUserData, CreateUserInput, validate_create_user_input,
}

-- The row of a user with the rows of its roles, as `include: { roles: true }` gives them.
pub record UserWithRoles : Type 0 where
  pub user : User
  pub roles : List Role

abbrev pub with_roles : World → User → UserWithRoles
with_roles w u = record {
  user = u;
  roles = keep (λ r. r.shard == u.shard && elem r.id u.roles) w.roles;
}

-- What `mapManagedUser` returns: no password, and permissions by their GraphQL names.
pub record ManagedUser : Type 0 where
  pub id : ℕ
  pub email : ℕ
  pub username : ℕ
  pub user_type : UserType
  pub status : UserStatus
  pub avatar : Option ℕ
  pub workspace_id : ℕ
  pub custom_permissions : List ℕ
  pub roles : List (ℕ × List ℕ)

abbrev pub map_roles : List Role → List (ℕ × List ℕ)
map_roles [] = []
map_roles (r ∷ rs) = (r.id, to_graphql_permissions r.permissions) ∷ map_roles rs

unfoldable pub map_managed_user : UserWithRoles → ManagedUser
map_managed_user m = record {
  id = m.user.id;
  email = m.user.email;
  username = m.user.username;
  user_type = m.user.user_type;
  status = m.user.status;
  avatar = m.user.avatar;
  workspace_id = m.user.workspace_id;
  custom_permissions = to_graphql_permissions m.user.custom_permissions;
  roles = map_roles m.roles;
}

abbrev pub same_google : Option ℕ → Option ℕ → Bool
same_google none h = false
same_google (some g) none = false
same_google (some g) (some h) = g == h

-- The unique keys of a shard's table: the id, the email, the account at Google, and the username
-- within a workspace.
abbrev pub clashes : User → User → Bool
clashes u v =
    v.shard == u.shard
    && (v.id == u.id
        || v.email == u.email
        || same_google u.google_id v.google_id
        || (v.username == u.username && v.workspace_id == u.workspace_id))

-- Every role that a row is connected to exists on its shard.
abbrev pub has_role_row : ℕ → List Role → ℕ → Bool
has_role_row client rows id = any (λ r. r.shard == client && r.id == id) rows

-- `client.user.create`
unfoldable pub insert_user : User → M UserWithRoles
unfolding write
insert_user u = write λ w.
    if any (clashes u) w.users
    then (err (prisma p2002), w)
    else if all (has_role_row u.shard w.roles) u.roles
    then (ok (with_roles w u), record w { users = u ∷ w.users })
    else (err (prisma p2025), w)

abbrev pub is_id_row : ℕ → ℕ → User → Bool
is_id_row client id u = u.shard == client && u.id == id

-- `client.user.update({ where: { id }, data })`, with roles that must exist and keys that must stay
-- unique.
unfoldable pub update_user_row : ℕ → ℕ → List ℕ → (User → User) → M UserWithRoles
unfolding write
update_user_row client id connected f = write λ w. elim (find? (is_id_row client id) w.users) [
  | none ↦ (err (prisma p2025), w)
  | some u ↦
      if any (λ v. not (is_id_row client id v) && clashes (f u) v) w.users
      then (err (prisma p2002), w)
      else if all (has_role_row client w.roles) connected
      then (
        ok (with_roles w (f u)),
        record w { users = update_where (is_id_row client id) f w.users },
      )
      else (err (prisma p2025), w)
]

-- `client.user.delete({ where: { id } })`
unfoldable pub delete_user_row : ℕ → ℕ → M (Unit {0})
unfolding write
delete_user_row client id = write λ w. elim (find? (is_id_row client id) w.users) [
  | none ↦ (err (prisma p2025), w)
  | some _ ↦ (ok tt, record w { users = keep (λ u. not (is_id_row client id u)) w.users })
]

-- The `try` of `createUser`: an insert that throws is followed by the release of the reservation.
unfoldable pub insert_or_release : User → M UserWithRoles
insert_or_release u =
    try_catch (insert_user u) (λ e.
      release_after_failed_shard_write u.email u.id >> throw (mapped_or (map_prisma_error e) e))

abbrev pub new_member : ℕ → ℕ → ℕ → ℕ → ℕ → ℕ → List ℕ → List ℕ → User
new_member client workspace id email username password roles permissions = record {
  id = id;
  shard = client;
  email = email;
  username = username;
  password = password;
  user_type = member;
  status = UserStatus.active;
  avatar = none;
  email_verified = false;
  workspace_id = workspace;
  google_id = none;
  mfa_settings = none;
  otp = none;
  password_reset = none;
  roles = roles;
  custom_permissions = permissions;
}

-- The guards of `createUser` on what the new user is given.
unfoldable pub assert_may_create : ℕ → ℕ → AccessActor → List ℕ → List ℕ → M (Unit {0})
assert_may_create client workspace actor role_ids custom = do
  unless_empty role_ids
      (assert_can_manage_roles actor >> assert_can_assign_roles client workspace actor role_ids)
  unless_empty custom
      (assert_can_manage_permissions actor >> assert_can_grant_permissions actor custom)
  assert_roles_in_workspace client workspace role_ids

-- The workspace's shard, which must be the one that the request is connected to.
abbrev pub is_workspace_row : ℕ → ℕ → Workspace → Bool
is_workspace_row client id k = k.shard == client && k.id == id

unfoldable pub assert_routed_client : ℕ → ℕ → M ℕ
unfolding read get_db_for_workspace
assert_routed_client client workspace = do
  found ← read (λ w. find? (is_workspace_row client workspace) w.workspaces)
  row ← or_throw found not_found
  require (some_truthy row.shard_id) validation
  shard ← or_throw row.shard_id validation
  routed ← get_db_for_workspace workspace (some shard)
  require (routed == client) (dependency_unavailable plain)
  pure shard

-- The writes of `createUser`, for a new user's row.
unfoldable pub register_member : ℕ → User → M ManagedUser
register_member shard u = do
  reserve_email
      (record { email = u.email; user_id = u.id; workspace_id = u.workspace_id; shard_id = shard })
  created ← insert_or_release u
  activate_after_shard_commit u.email u.id
  pure (map_managed_user created)

-- `createUser` behind the validation.
unfoldable pub create_user_steps :
    ℕ → ℕ → AccessActor → CreateUserData → CreateUserInput → M ManagedUser
create_user_steps client workspace actor data' input env w =
    (do
      assert_may_create client workspace actor data'.role_ids input.custom_permissions
      id ← uuid
      shard ← assert_routed_client client workspace
      register_member shard (
          new_member client workspace id input.email input.username (env.bcrypt input.password)
            data'.role_ids input.custom_permissions))
      env w

unfoldable pub create_user : ℕ → ℕ → AccessActor → CreateUserData → M ManagedUser
create_user client workspace actor data' = do
  input ← validate_create_user_input data'
  create_user_steps client workspace actor data' input
