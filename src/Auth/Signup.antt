-- ===== src/Auth/Signup.antt =====
-- modules/auth/services/auth.service.ts: signing up, and signing in with Google, which signs up who is
-- new. Both make a workspace with its owner on the shard that the workspace is assigned to.
use graphql_prisma_postgres.Prelude.{
  ℕ, Bool, true, false, ◌&&◌, ◌||◌, Option, none, some, List, [], ◌∷◌, leb, ◌==◌, if◌then◌else◌,
  elem, any, length, encode, text,
}
use graphql_prisma_postgres.Data.{User, UserStatus, Workspace, WorkspaceStatus, Role, owner}
use graphql_prisma_postgres.Effects.{
  World, Error, validation, prisma, p2002, Result, ok, err, map_prisma_error, mapped_or, M, pure,
  throw, ◌>>=◌, ◌>>◌, require, try_catch, next_uuid, read, write,
}
use graphql_prisma_postgres.Identity.Reservation.{reserve_email}
use graphql_prisma_postgres.Identity.Release.{
  activate_after_shard_commit, release_after_failed_shard_write,
}
use graphql_prisma_postgres.Access.Permissions.{all_permissions}
use graphql_prisma_postgres.Users.Input.{normalize_email, trim}
use graphql_prisma_postgres.Users.Members.{clashes}
use graphql_prisma_postgres.Roles.{role_clashes}
use graphql_prisma_postgres.Workspaces.{set_owner, owns_another}
use graphql_prisma_postgres.Workspaces.Slug.{is_nil, slugify, unique_slug}
use graphql_prisma_postgres.Auth.Login.{AuthPayload, issue_auth_payload}
use graphql_prisma_postgres.Auth.Recovery.{hash_password}

pub record SignupData : Type 0 where
  pub email : List ℕ
  pub username : List ℕ
  pub password : List ℕ
  pub workspace_name : List ℕ
  pub workspace_slug : Option (List ℕ)

-- What the validation returns; a slug that is missing is the empty one.
pub record SignupInput : Type 0 where
  pub email : ℕ
  pub username : ℕ
  pub password : ℕ
  pub workspace_name : List ℕ
  pub workspace_slug : List ℕ

abbrev pub has_length : ℕ → ℕ → List ℕ → Bool
has_length least most s = leb least (length s) && leb (length s) most

abbrev pub slug_or_nil : Option (List ℕ) → List ℕ
slug_or_nil none = []
slug_or_nil (some s) = trim s

-- `validateSignupInput`
unfoldable pub validate_signup_input : SignupData → M SignupInput
validate_signup_input data' env w =
    let email = normalize_email env.to_lower data'.email in
    let username = trim data'.username in
    let name = trim data'.workspace_name in
    (do
      require (elem 64 email) validation
      require (has_length 2 64 username) validation
      require (leb 8 (length data'.password)) validation
      require (has_length 2 100 name) validation
      pure (record {
        email = encode email;
        username = encode username;
        password = encode data'.password;
        workspace_name = name;
        workspace_slug = slug_or_nil data'.workspace_slug;
      }))
      env w

-- `assignWorkspaceShard` of config/prisma.ts
abbrev pub assign_workspace_shard : ℕ → M ℕ
assign_workspace_shard workspace env w = (ok (env.route workspace), w)

-- The unique keys of a shard's table of workspaces.
abbrev pub workspace_clashes : Workspace → Workspace → Bool
workspace_clashes k j = j.shard == k.shard && (j.id == k.id || j.slug == k.slug)

-- The transaction: the workspace, its owner, the workspace's `ownerId`, and the role `Admin`. A key
-- that is taken undoes it all.
unfoldable pub open_workspace : Workspace → User → Role → World → Result User × World
open_workspace k u r w =
    if any (workspace_clashes k) w.workspaces
      || any (clashes u) w.users
      || any (owns_another k.shard k.id u.id) w.workspaces
      || any (role_clashes r) w.roles
    then (err (prisma p2002), w)
    else (
      ok u,
      record w {
        workspaces = set_owner u.id k ∷ w.workspaces;
        users = u ∷ w.users;
        roles = r ∷ w.roles;
      },
    )

abbrev pub new_workspace : ℕ → ℕ → ℕ → ℕ → Workspace
new_workspace shard id name slug = record {
  id = id;
  shard = shard;
  name = name;
  slug = slug;
  status = WorkspaceStatus.active;
  shard_id = some shard;
  owner_id = none;
}

abbrev pub new_owner : ℕ → ℕ → ℕ → ℕ → ℕ → ℕ → Option ℕ → User
new_owner shard workspace id email username password google_id = record {
  id = id;
  shard = shard;
  email = email;
  username = username;
  password = password;
  user_type = owner;
  status = UserStatus.active;
  avatar = none;
  email_verified = elim google_id [ none ↦ false | some _ ↦ true ];
  workspace_id = workspace;
  google_id = google_id;
  mfa_settings = none;
  otp = none;
  password_reset = none;
  roles = [];
  custom_permissions = [];
}

abbrev pub admin_role : ℕ → ℕ → ℕ → Role
admin_role shard workspace id = record {
  id = id;
  shard = shard;
  name = text "Admin";
  description = some (text "Default admin role with full member permissions");
  permissions = all_permissions;
  is_system = true;
  workspace_id = workspace;
}

-- The `try` around the transaction: what it throws is thrown again after the reservation is released.
unfoldable pub open_or_release : Workspace → User → Role → (Error → Error) → M User
open_or_release k u r reported =
    try_catch (write (open_workspace k u r))
      (λ e. release_after_failed_shard_write u.email u.id >> throw (reported e))

-- The owner is written; what comes after the commit does not release the reservation.
unfoldable pub register_owner : Workspace → User → Role → (Error → Error) → M User
register_owner k u r reported = do
  created ← open_or_release k u r reported
  activate_after_shard_commit u.email u.id
  pure created

-- `client.workspace.findUnique({ where: { slug } })`
unfoldable pub has_slug : ℕ → ℕ → M Bool
unfolding read
has_slug shard slug = read (λ w. any (λ k. k.shard == shard && k.slug == slug) w.workspaces)

abbrev pub new_hex : ℕ → M (List ℕ)
new_hex size env w = (ok (env.auth.random_hex w.calls size), w)

-- The slug to start from: the one that was given, or one made of the workspace's name.
abbrev pub base_slug : SignupInput → M (List ℕ)
base_slug input =
    if is_nil input.workspace_slug then slugify input.workspace_name else pure input.workspace_slug

-- A slug that is taken gets a random end.
unfoldable pub free_slug : ℕ → List ℕ → List ℕ → M (List ℕ)
free_slug shard base slug = do
  clash ← has_slug shard (encode slug)
  suffix ← new_hex 3
  if clash then unique_slug base suffix else pure slug

abbrev pub as_mapped : Error → Error
as_mapped e = mapped_or (map_prisma_error e) e

-- `signup` behind the reservation, for the identifiers and the shard that were chosen.
unfoldable pub signup_reserved : ℕ → ℕ → ℕ → SignupInput → List ℕ → List ℕ → M AuthPayload
signup_reserved shard workspace id input base slug = do
  slug' ← free_slug shard base slug
  hashed ← hash_password input.password
  role ← next_uuid
  created ←
      register_owner (new_workspace shard workspace (encode input.workspace_name) (encode slug'))
        (new_owner shard workspace id input.email input.username hashed none)
        (admin_role shard workspace role) as_mapped
  issue_auth_payload created

unfoldable pub signup_steps : SignupInput → M AuthPayload
signup_steps input = do
  workspace ← next_uuid
  id ← next_uuid
  shard ← assign_workspace_shard workspace
  base ← base_slug input
  slug ← unique_slug base []
  reserve_email
      (record { email = input.email; user_id = id; workspace_id = workspace; shard_id = shard })
  signup_reserved shard workspace id input base slug

unfoldable pub signup : SignupData → M AuthPayload
signup data' = do input ← validate_signup_input data'; signup_steps input
