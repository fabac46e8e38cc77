-- ===== src/Roles.antt =====
-- modules/role: the roles of a workspace (services/role.service.ts, policies/role.policy.ts and
-- validation/role.schema.ts).
pub mod Catalog
pub mod System
pub mod Coverage
use graphql_prisma_postgres.Prelude.{
  ℕ, ◌≡◌, Bool, true, false, not, ◌&&◌, ◌||◌, Option, none, some, List, [], ◌∷◌, ltb, ◌==◌,
  if◌then◌else◌, any, find?, keep, update_where, length, encode,
}
use graphql_prisma_postgres.Data.{User, Role}
use graphql_prisma_postgres.Effects.{
  World, Env, Error, validation, not_found, conflict, plain, prisma, p2002, p2025, Result, ok, err,
  map_prisma_error, mapped_or, M, pure, throw, ◌>>=◌, ◌>>◌, require, or_throw, try_catch, lift,
  uuid, read, write,
}
use graphql_prisma_postgres.Access.Permissions.{to_permission_ids, to_graphql_permissions}
use graphql_prisma_postgres.Users.Input.{trim}
use graphql_prisma_postgres.Users.Changes.{Field, undefined, null, value, drop_roles}

-- `mapRole`: the row with the GraphQL names of its permissions.
abbrev pub map_role : Role → Role
map_role r = record r { permissions = to_graphql_permissions r.permissions }

-- `validateRoleName`
unfoldable pub validate_role_name : List ℕ → Result ℕ
validate_role_name name =
    let trimmed = trim name in
    if ltb (length trimmed) 2 then err validation else ok (encode trimmed)

-- `parseRolePermissions` of a list
abbrev pub parse_role_permissions : List ℕ → Result (List ℕ)
parse_role_permissions values = to_permission_ids values

abbrev pub is_role_row : ℕ → ℕ → Role → Bool
is_role_row client id r = r.shard == client && r.id == id

abbrev pub is_workspace_role : ℕ → ℕ → ℕ → Role → Bool
is_workspace_role client workspace id r =
    r.shard == client && r.id == id && r.workspace_id == workspace

unfoldable pub get_workspace_role : ℕ → ℕ → ℕ → M Role
unfolding read
get_workspace_role client workspace id = do
  role ← read (λ w. find? (is_workspace_role client workspace id) w.roles)
  or_throw role not_found

abbrev pub assert_role_mutable : Role → M (Unit {0})
assert_role_mutable r = require (not r.is_system) validation

unfoldable pub get_role : ℕ → ℕ → ℕ → M Role
get_role client workspace id = do
  role ← get_workspace_role client workspace id
  pure (map_role role)

abbrev pub has_name : ℕ → ℕ → ℕ → Role → Bool
has_name client workspace name r =
    r.shard == client && r.name == name && r.workspace_id == workspace

-- `client.role.findFirst({ where: { name, workspaceId } })`, and the conflict that a hit is.
unfoldable pub assert_name_is_free : ℕ → ℕ → ℕ → M (Unit {0})
unfolding read
assert_name_is_free client workspace name = do
  existing ← read (λ w. any (has_name client workspace name) w.roles)
  require (not existing) (conflict plain)

-- `data.description?.trim() || null`
abbrev pub nonempty_text : List ℕ → Option ℕ
nonempty_text [] = none
nonempty_text (c ∷ s) = some (encode (c ∷ s))

abbrev pub description_of : Field → Option ℕ
description_of (value s) = nonempty_text (trim s)
description_of _ = none

-- The unique keys of the table: the id, and the name within a workspace.
abbrev pub role_clashes : Role → Role → Bool
role_clashes r s =
    s.shard == r.shard && (s.id == r.id || (s.name == r.name && s.workspace_id == r.workspace_id))

-- `client.role.create`
unfoldable pub insert_role : Role → M Role
unfolding write
insert_role r = write λ w.
    if any (role_clashes r) w.roles
    then (err (prisma p2002), w)
    else (ok r, record w { roles = r ∷ w.roles })

-- `client.role.update({ where: { id }, data })`
unfoldable pub update_role_row : ℕ → ℕ → (Role → Role) → M Role
unfolding write
update_role_row client id f = write λ w. elim (find? (is_role_row client id) w.roles) [
  | none ↦ (err (prisma p2025), w)
  | some r ↦
      if any (λ s. not (is_role_row client id s) && role_clashes (f r) s) w.roles
      then (err (prisma p2002), w)
      else (ok (f r), record w { roles = update_where (is_role_row client id) f w.roles })
]

abbrev pub is_on : ℕ → User → Bool
is_on client u = u.shard == client

-- `client.role.delete({ where: { id } })`, which also takes the role away from the shard's users.
unfoldable pub delete_role_row : ℕ → ℕ → M (Unit {0})
unfolding write
delete_role_row client id = write λ w. elim (find? (is_role_row client id) w.roles) [
  | none ↦ (err (prisma p2025), w)
  | some _ ↦ (
    ok tt,
    record w {
      roles = keep (λ r. not (is_role_row client id r)) w.roles;
      users = update_where (is_on client) (drop_roles (id ∷ [])) w.users;
    },
  )
]

abbrev pub new_role : ℕ → ℕ → ℕ → ℕ → Option ℕ → List ℕ → Role
new_role client workspace id name description permissions = record {
  id = id;
  shard = client;
  name = name;
  description = description;
  permissions = permissions;
  is_system = false;
  workspace_id = workspace;
}

-- `createRole`; the database makes the row's identifier.
unfoldable pub create_role : ℕ → ℕ → List ℕ → Field → List ℕ → M Role
create_role client workspace name description values = do
  name' ← lift (validate_role_name name)
  permissions ← lift (parse_role_permissions values)
  assert_name_is_free client workspace name'
  id ← uuid
  role ←
      try_catch
        (insert_role (new_role client workspace id name' (description_of description) permissions))
        (λ e. throw (mapped_or (map_prisma_error e) e))
  pure (map_role role)

-- The fields of `updates`; what is missing is not updated.
abbrev pub set_name : Option ℕ → Role → Role
set_name none r = r
set_name (some name) r = record r { name = name }

abbrev pub set_description : Field → Role → Role
set_description undefined r = r
set_description d r = record r { description = description_of d }

abbrev pub set_permissions : Option (List ℕ) → Role → Role
set_permissions none r = r
set_permissions (some ids) r = record r { permissions = ids }

-- `updates.name`: a new name must be free.
unfoldable pub updated_name : ℕ → ℕ → Role → Field → M (Option ℕ)
updated_name client workspace role (value s) = do
  name ← lift (validate_role_name s)
  if name == role.name then pure tt else assert_name_is_free client workspace name
  pure (some name)
updated_name client workspace role _ = pure none

unfoldable pub updated_permissions : Option (List ℕ) → M (Option (List ℕ))
updated_permissions none = pure none
updated_permissions (some values) = do ids ← lift (parse_role_permissions values); pure (some ids)

-- `updateRole`
unfoldable pub update_role : ℕ → ℕ → ℕ → Field → Field → Option (List ℕ) → M Role
update_role client workspace id name description values = do
  role ← get_workspace_role client workspace id
  assert_role_mutable role
  name' ← updated_name client workspace role name
  permissions ← updated_permissions values
  updated ←
      update_role_row client id
        (λ r. set_permissions permissions (set_description description (set_name name' r)))
  pure (map_role updated)

-- `deleteRole`
unfoldable pub delete_role : ℕ → ℕ → ℕ → M Bool
delete_role client workspace id = do
  role ← get_workspace_role client workspace id
  assert_role_mutable role
  delete_role_row client id
  pure true
