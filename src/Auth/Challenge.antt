-- ===== src/Auth/Challenge.antt =====
-- modules/auth/services/auth.service.ts: `verify2FA`, which ends the challenge of a second factor.
pub mod Otp
pub mod Factor
use graphql_prisma_postgres.Prelude.{
  ℕ, ◌+◌, Bool, true, false, not, ◌&&◌, ◌||◌, Option, none, some, List, [], ◌∷◌, ltb, leb, ◌==◌,
  if◌then◌else◌, truthy, some_truthy, find?, elem,
}
use graphql_prisma_postgres.Data.{
  User, Workspace, MfaSettings, MfaMethod, OtpSettings, is_active_user, is_active_workspace,
}
use graphql_prisma_postgres.Effects.{
  World, Env, Payload, authentication, ok, err, M, pure, throw, ◌>>=◌, ◌>>◌, require, or_throw, now,
  read, invalidate_user,
}
use graphql_prisma_postgres.Identity.Reservation.{get_db_for_workspace}
use graphql_prisma_postgres.Users.Members.{is_id_row, is_workspace_row, update_user_row}
use graphql_prisma_postgres.Auth.Tokens.{verify_access_token, bearer_token, hash_token}
use graphql_prisma_postgres.Auth.Login.{AuthPayload, issue_auth_payload, set_otp, is_open_row}

-- A user's row with the shard that it was found on, and the row of its workspace there.
pub record FoundUser : Type 0 where
  pub user : User
  pub client : ℕ
  pub workspace : Option Workspace

abbrev pub with_workspace : World → Option (ℕ × User) → Option FoundUser
with_workspace w none = none
with_workspace w (some (shard, u)) = some (record {
  user = u;
  client = shard;
  workspace = find? (is_workspace_row shard u.workspace_id) w.workspaces;
})

-- `findUserAcrossShards` by the id, with the workspace included.
unfoldable pub find_with_workspace : ℕ → M (Option FoundUser)
unfolding read
find_with_workspace id env w =
    read (λ w'. with_workspace w' (env.find_first (λ shard. find? (is_id_row shard id) w'.users)))
      env w

abbrev pub shard_of : Option Workspace → Option ℕ
shard_of none = none
shard_of (some k) = k.shard_id

-- `MAX_OTP_ATTEMPTS`
abbrev pub max_otp_attempts : ℕ
max_otp_attempts = 5

-- `authLite.mfa.verifyTotp` with the stored secret, which may be missing.
abbrev pub check_totp : Option ℕ → ℕ → M Bool
check_totp none otp env w = (ok false, w)
check_totp (some secret) otp env w =
    (ok (truthy secret && env.auth.verify_totp w.clock otp secret), w)

abbrev pub count_attempt : OtpSettings → OtpSettings
count_attempt o = record o { attempts = o.attempts + 1 }

-- The stored code of the mail: right and in time, it is used up; otherwise the attempt is counted.
unfoldable pub check_stored_otp : ℕ → User → OtpSettings → ℕ → M Bool
check_stored_otp client u o otp = do
  require (ltb o.attempts max_otp_attempts) authentication
  date ← now
  hash ← hash_token otp
  if o.code_hash == hash && ltb date o.expires_at
      then (update_user_row client u.id [] (set_otp none) >> invalidate_user u.id >> pure true)
      else (update_user_row client u.id [] (set_otp (some (count_attempt o))) >> pure false)

unfoldable pub check_email_otp : ℕ → User → ℕ → M Bool
check_email_otp client u otp = elim u.otp [
  | none ↦ pure false
  | some o ↦ if truthy o.code_hash then check_stored_otp client u o otp else pure false
]

unfoldable pub check_method : ℕ → User → MfaSettings → ℕ → M Bool
check_method client u s otp = elim s.method [
  | none ↦ pure false
  | some m ↦ elim m [
    | MfaMethod.authenticator ↦ check_totp s.secret otp
    | MfaMethod.email ↦ check_email_otp client u otp
  ]
]

-- `splice` at the first index of the code.
unfoldable pub remove_code : ℕ → List ℕ → List ℕ
remove_code h [] = []
remove_code h (c ∷ cs) = let rest = remove_code h cs in if c == h then cs else c ∷ rest

abbrev pub set_mfa : Option MfaSettings → User → User
set_mfa s u = record u { mfa_settings = s }

-- A backup code is taken off the list.
unfoldable pub use_backup_code : ℕ → User → MfaSettings → ℕ → M Bool
use_backup_code client u s otp = do
  hash ← hash_token otp
  if elem hash s.backup_codes
      then (do
        update_user_row client u.id []
            (set_mfa (some (record s { backup_codes = remove_code hash s.backup_codes })))
        invalidate_user u.id
        pure true)
      else pure false

unfoldable pub check_factor : ℕ → User → MfaSettings → ℕ → M Bool
check_factor client u s otp = do
  is_valid ← check_method client u s otp
  if is_valid then pure true else use_backup_code client u s otp

-- The settings, where the second factor is enabled.
abbrev pub enabled_mfa : User → Option MfaSettings
enabled_mfa u = elim u.mfa_settings [ none ↦ none | some s ↦ if s.is_enabled then some s else none ]

-- The user of a challenge's token.
abbrev pub challenged_user : Option Payload → Option ℕ
challenged_user none = none
challenged_user (some p) = if some_truthy p.id && p.is_2fa_pending then p.id else none

abbrev pub workspace_claim : Option Payload → Option ℕ
workspace_claim none = none
workspace_claim (some p) = p.workspace_id

-- `decoded.workspaceId && decoded.workspaceId !== user.workspaceId`
abbrev pub is_other_workspace : Option ℕ → ℕ → Bool
is_other_workspace none workspace = false
is_other_workspace (some k) workspace = truthy k && not (k == workspace)

-- `verify2FA` behind the look-up of the user.
unfoldable pub verify_found : Option ℕ → FoundUser → ℕ → M AuthPayload
verify_found claim found otp = do
  require (is_active_user found.user.status) authentication
  require (is_open_row found.workspace) authentication
  require (not (is_other_workspace claim found.user.workspace_id)) authentication
  get_db_for_workspace found.user.workspace_id (shard_of found.workspace)
  settings ← or_throw (enabled_mfa found.user) authentication
  is_valid ← check_factor found.client found.user settings otp
  require is_valid authentication
  issue_auth_payload found.user

unfoldable pub verify_2fa : List ℕ → ℕ → M AuthPayload
verify_2fa token otp = do
  let bearer = bearer_token token
  require (truthy bearer) authentication
  decoded ← verify_access_token bearer
  id ← or_throw (challenged_user decoded) authentication
  found ← find_with_workspace id
  user ← or_throw found authentication
  verify_found (workspace_claim decoded) user otp
