-- ===== src/Auth/Recovery.antt =====
-- modules/auth/services/auth.service.ts: lost passwords, the renewal of tokens, and signing out.
pub mod Reset
pub mod Refresh
use graphql_prisma_postgres.Prelude.{
  ℕ, ◌+◌, ◌*◌, Bool, true, false, not, ◌&&◌, ◌||◌, Option, none, some, List, [], ◌∷◌, ltb, leb,
  ◌==◌, if◌then◌else◌, truthy, some_truthy, find?, length, encode,
}
use graphql_prisma_postgres.Data.{User, PasswordReset, is_active_user}
use graphql_prisma_postgres.Effects.{
  World, Env, Payload, authentication, validation, ok, M, pure, throw, ◌>>=◌, ◌>>◌, require,
  or_throw, try_catch, now, read, invalidate_user,
}
use graphql_prisma_postgres.Identity.Reservation.{get_db_for_workspace}
use graphql_prisma_postgres.Identity.Resolve.{find_user_across_shards, resolve_user_by_email, Found}
use graphql_prisma_postgres.Users.Input.{normalize_email}
use graphql_prisma_postgres.Users.Members.{update_user_row}
use graphql_prisma_postgres.Sessions.{
  revoke_refresh_token, revoke_all_refresh_tokens, assert_rotated,
}
use graphql_prisma_postgres.Auth.Tokens.{verify_refresh_token, generate_token_pair, hash_token}
use graphql_prisma_postgres.Auth.Login.{AuthPayload, strip_password, is_open_row}
use graphql_prisma_postgres.Auth.Challenge.{FoundUser, find_with_workspace, shard_of}

-- A new reset token's settings: one hour.
abbrev pub reset_at : Env → World → PasswordReset
reset_at env w = record {
  token_hash = env.auth.sha256 (encode (env.auth.random_hex w.calls 32));
  expires_at = w.clock + 60 * 60 * 1000;
}

abbrev pub new_reset : M PasswordReset
new_reset env w = (ok (reset_at env w), w)

abbrev pub set_reset : Option PasswordReset → User → User
set_reset r u = record u { password_reset = r }

-- The `try` of `forgotPassword`; the mail's failure is ignored.
unfoldable pub start_reset : Found → M Bool
start_reset none = pure true
start_reset (some (u, client)) = do
  reset ← new_reset
  update_user_row client u.id [] (set_reset (some reset))
  invalidate_user u.id
  pure true

abbrev pub address_of : List ℕ → M ℕ
address_of email env w = (ok (encode (normalize_email env.to_lower email)), w)

-- Every failure is swallowed: the answer is the same for every address.
unfoldable pub forgot_password : List ℕ → M Bool
forgot_password email = do
  address ← address_of email
  try_catch (do found ← resolve_user_by_email address; start_reset found) (λ _. pure true)

-- `where: { passwordReset: { path: ['tokenHash'], equals: tokenHash } }`
abbrev pub is_reset_row : ℕ → ℕ → User → Bool
is_reset_row hash shard u =
    u.shard == shard && elim u.password_reset [ none ↦ false | some r ↦ r.token_hash == hash ]

abbrev pub is_live_reset : ℕ → User → Bool
is_live_reset date u = elim u.password_reset [ none ↦ false | some r ↦ leb date r.expires_at ]

abbrev pub set_password : ℕ → User → User
set_password hash u = record u { password = hash; password_reset = none }

-- `bcrypt.hash`
abbrev pub hash_password : ℕ → M ℕ
hash_password password env w = (ok (env.bcrypt password), w)

unfoldable pub reset_password : ℕ → List ℕ → M Bool
reset_password raw_token password = do
  require (leb 8 (length password)) validation
  hash ← hash_token raw_token
  found ← find_user_across_shards (λ w shard. find? (is_reset_row hash shard) w.users)
  row ← or_throw found validation
  date ← now
  require (is_live_reset date row.0) validation
  hashed ← hash_password (encode password)
  update_user_row row.1 row.0.id [] (set_password hashed)
  revoke_all_refresh_tokens row.0.id
  invalidate_user row.0.id
  pure true

-- `decoded.jti` and `decoded.sub`, both nonempty.
abbrev pub refresh_claims : Option Payload → Option (ℕ × ℕ)
refresh_claims none = none
refresh_claims (some p) = elim p.sub [
  | none ↦ none
  | some sub ↦ elim p.jti [
    | none ↦ none
    | some jti ↦ if truthy sub && truthy jti then some (sub, jti) else none
  ]
]

-- `refreshTokens` behind the look-up: the user and the workspace are tested before the old token is
-- consumed.
unfoldable pub refresh_found : ℕ → ℕ → FoundUser → M AuthPayload
refresh_found sub jti found = do
  require (is_active_user found.user.status) authentication
  require (is_open_row found.workspace) authentication
  get_db_for_workspace found.user.workspace_id (shard_of found.workspace)
  tokens ← generate_token_pair found.user
  assert_rotated sub jti tokens.jti
  pure (record {
    token = tokens.access_token;
    refresh_token = tokens.refresh_token;
    user = strip_password found.user;
  })

unfoldable pub refresh_tokens : ℕ → M AuthPayload
refresh_tokens token = do
  decoded ← verify_refresh_token token
  claims ← or_throw (refresh_claims decoded) authentication
  found ← find_with_workspace claims.0
  user ← or_throw found authentication
  refresh_found claims.0 claims.1 user

-- `decoded?.jti && decoded.sub === userId`
abbrev pub own_jti : ℕ → Option Payload → Option ℕ
own_jti user none = none
own_jti user (some p) = elim p.sub [
  | none ↦ none
  | some sub ↦ if sub == user && some_truthy p.jti then p.jti else none
]

unfoldable pub logout : ℕ → ℕ → M Bool
logout user token =
    if truthy token
    then (do
      decoded ← verify_refresh_token token
      elim (own_jti user decoded) [
        | none ↦ pure true
        | some jti ↦ revoke_refresh_token user jti >> pure true
      ])
    else pure true

unfoldable pub logout_all : ℕ → M Bool
logout_all user = do revoke_all_refresh_tokens user; pure true
