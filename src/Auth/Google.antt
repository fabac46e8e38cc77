-- ===== src/Auth/Google.antt =====
-- modules/auth/services/auth.service.ts: `googleLogin`, which signs up who is new.
use graphql_prisma_postgres.Prelude.{
  ℕ, none, some, List, [], ◌∷◌, ◌++◌, ◌==◌, if◌then◌else◌, encode, codes, some_truthy,
}
use graphql_prisma_postgres.Data.{User, is_active_user}
use graphql_prisma_postgres.Effects.{
  Error, authentication, validation, conflict, dependency_unavailable, prisma, other, ok, err, M,
  pure, throw, ◌>>=◌, ◌>>◌, require, try_catch, next_uuid, invalidate_user, GoogleUser,
}
use graphql_prisma_postgres.Identity.Reservation.{reserve_email}
use graphql_prisma_postgres.Identity.Resolve.{Found, resolve_user_by_email}
use graphql_prisma_postgres.Users.Input.{normalize_email}
use graphql_prisma_postgres.Users.Members.{update_user_row}
use graphql_prisma_postgres.Workspaces.Slug.{is_nil, unique_slug}
use graphql_prisma_postgres.Auth.Login.{AuthPayload, has_open_workspace, challenge_or_session}
use graphql_prisma_postgres.Auth.Recovery.{hash_password}
use graphql_prisma_postgres.Auth.Signup.{
  assign_workspace_shard, new_workspace, new_owner, admin_role, register_owner, new_hex,
}

-- `email.split('@')[0]`
unfoldable pub before_at : List ℕ → List ℕ
before_at [] = []
before_at (c ∷ s) = let rest = before_at s in if c == 64 then [] else c ∷ rest

abbrev pub workspace_name_of : GoogleUser → List ℕ
workspace_name_of g = (if is_nil g.name then codes "My" else g.name) ++ codes " Workspace"

abbrev pub username_of : GoogleUser → List ℕ → List ℕ
username_of g email = if is_nil g.name then before_at email else g.name

-- The branch of `googleLogin` for an address with no user: the user and its shard.
unfoldable pub google_signup : GoogleUser → List ℕ → M (User × ℕ)
google_signup g email = do
  workspace ← next_uuid
  id ← next_uuid
  shard ← assign_workspace_shard workspace
  password ← new_hex 24
  hashed ← hash_password (encode password)
  suffix ← new_hex 2
  slug ← unique_slug (before_at email) suffix
  reserve_email
      (record { email = encode email; user_id = id; workspace_id = workspace; shard_id = shard })
  role ← next_uuid
  created ←
      register_owner (new_workspace shard workspace (encode (workspace_name_of g)) (encode slug))
        (new_owner shard workspace id (encode email) (encode (username_of g email)) hashed
          (some g.google_id))
        (admin_role shard workspace role) (λ e. e)
  pure (created, shard)

abbrev pub set_google : ℕ → User → User
set_google id u = record u { google_id = some id }

-- The branch for a user that is known: the account at Google is linked to it once.
unfoldable pub google_link : GoogleUser → User → ℕ → M (User × ℕ)
google_link g u client = if some_truthy u.google_id then pure (u, client) else (do
  updated ← update_user_row client u.id [] (set_google g.google_id)
  invalidate_user u.id
  pure (updated.user, client))

unfoldable pub google_account : GoogleUser → List ℕ → Found → M (User × ℕ)
google_account g email none = google_signup g email
google_account g email (some (u, client)) = google_link g u client

-- `authLite.google.verify`, which throws on a token that it refuses.
abbrev pub verify_google : ℕ → M GoogleUser
verify_google token env w =
    (elim (env.auth.google_verify token) [ none ↦ err (prisma other) | some g ↦ ok g ], w)

abbrev pub google_email : GoogleUser → M (List ℕ)
google_email g env w = (ok (normalize_email env.to_lower g.email), w)

unfoldable pub enter_account : User → ℕ → M AuthPayload
enter_account u client = do
  require (is_active_user u.status) authentication
  is_open ← has_open_workspace client u.workspace_id
  require is_open authentication
  challenge_or_session client u

-- The errors that are thrown on as they are.
abbrev pub as_google_failure : Error → Error
as_google_failure authentication = authentication
as_google_failure validation = validation
as_google_failure (conflict d) = conflict d
as_google_failure (dependency_unavailable d) = dependency_unavailable d
as_google_failure _ = authentication

unfoldable pub google_steps : ℕ → M AuthPayload
google_steps token = do
  g ← verify_google token
  email ← google_email g
  found ← resolve_user_by_email (encode email)
  account ← google_account g email found
  enter_account account.0 account.1

unfoldable pub google_login : ℕ → M AuthPayload
google_login token = try_catch (google_steps token) (λ e. throw (as_google_failure e))
