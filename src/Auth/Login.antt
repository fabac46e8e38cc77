-- ===== src/Auth/Login.antt =====
-- modules/auth/services/auth.service.ts: signing in with a password.
pub mod Factor
use graphql_prisma_postgres.Prelude.{
  ℕ, ◌+◌, ◌*◌, Bool, true, false, not, ◌&&◌, ◌||◌, Option, none, some, List, [], ◌∷◌, ◌==◌,
  if◌then◌else◌, truthy, find?, encode,
}
use graphql_prisma_postgres.Data.{
  User, Workspace, MfaSettings, MfaMethod, OtpSettings, is_active_user, is_active_workspace,
}
use graphql_prisma_postgres.Effects.{
  World, Env, authentication, validation, ok, M, pure, throw, ◌>>=◌, ◌>>◌, require, now, read,
  invalidate_user,
}
use graphql_prisma_postgres.Identity.Resolve.{Found, resolve_user_by_email}
use graphql_prisma_postgres.Users.Input.{normalize_email}
use graphql_prisma_postgres.Users.Members.{is_workspace_row, update_user_row}
use graphql_prisma_postgres.Sessions.{store_refresh_token}
use graphql_prisma_postgres.Auth.Tokens.{
  generate_access_token, generate_token_pair, claims_of, hash_token,
}

-- `stripPassword`: 0 stands for the missing password.
abbrev pub strip_password : User → User
strip_password u = record u { password = 0 }

-- What the operations that sign a user in return; the empty refresh token is 0.
pub record AuthPayload : Type 0 where
  pub token : ℕ
  pub refresh_token : ℕ
  pub user : User

unfoldable pub issue_auth_payload : User → M AuthPayload
issue_auth_payload u = do
  tokens ← generate_token_pair u
  store_refresh_token u.id tokens.jti
  pure (record {
    token = tokens.access_token;
    refresh_token = tokens.refresh_token;
    user = strip_password u;
  })

abbrev pub is_email_method : Option MfaMethod → Bool
is_email_method (some MfaMethod.email) = true
is_email_method _ = false

abbrev pub has_mfa : User → Bool
has_mfa u = elim u.mfa_settings [ none ↦ false | some s ↦ s.is_enabled ]

abbrev pub mfa_method : User → Option MfaMethod
mfa_method u = elim u.mfa_settings [ none ↦ none | some s ↦ s.method ]

-- `generateOtp` of utils/otp.util.ts, with the settings that are made of it: five minutes.
abbrev pub otp_at : Env → World → OtpSettings
otp_at env w = record {
  code_hash = env.auth.sha256 (env.auth.random_otp w.calls);
  expires_at = w.clock + 5 * 60 * 1000;
  attempts = 0;
}

abbrev pub new_otp : M OtpSettings
new_otp env w = (ok (otp_at env w), w)

abbrev pub set_otp : Option OtpSettings → User → User
set_otp o u = record u { otp = o }

-- The code by mail; a failure of the mail is ignored.
unfoldable pub send_login_otp : ℕ → User → M (Unit {0})
send_login_otp client u = do
  otp ← new_otp
  update_user_row client u.id [] (set_otp (some otp))
  invalidate_user u.id

-- Only the method of the mail needs a code to be made.
unfoldable pub deliver_code : ℕ → User → M (Unit {0})
deliver_code client u = if is_email_method (mfa_method u) then send_login_otp client u else pure tt

unfoldable pub maybe_start_mfa_challenge : ℕ → User → M (Option AuthPayload)
maybe_start_mfa_challenge client u =
    if has_mfa u
    then (do
      deliver_code client u
      token ← generate_access_token (claims_of u true)
      pure (some (record { token = token; refresh_token = 0; user = strip_password u })))
    else pure none

-- The workspace of a user's row, on its shard.
abbrev pub is_open_row : Option Workspace → Bool
is_open_row none = false
is_open_row (some k) = is_active_workspace k.status

unfoldable pub has_open_workspace : ℕ → ℕ → M Bool
unfolding read
has_open_workspace client workspace =
    read (λ w. is_open_row (find? (is_workspace_row client workspace) w.workspaces))

-- `bcrypt.compare`
abbrev pub compare_password : ℕ → ℕ → M Bool
compare_password password hash env w = (ok (env.auth.compare password hash), w)

-- The challenge, or the session.
unfoldable pub challenge_or_session : ℕ → User → M AuthPayload
challenge_or_session client u = do
  challenge ← maybe_start_mfa_challenge client u
  elim challenge [ some payload ↦ pure payload | none ↦ issue_auth_payload u ]

unfoldable pub complete_password_login : ℕ → User → ℕ → M AuthPayload
complete_password_login client u password = do
  require (is_active_user u.status) authentication
  is_open ← has_open_workspace client u.workspace_id
  require is_open authentication
  require (truthy u.password) authentication
  is_valid ← compare_password password u.password
  require is_valid authentication
  challenge_or_session client u

-- `validateLoginInput`: the email normalized, neither text empty.
unfoldable pub validate_login_input : List ℕ → List ℕ → M (ℕ × ℕ)
validate_login_input email password env w =
    let address = encode (normalize_email env.to_lower email) in
    (do
      require (truthy address && truthy (encode password)) validation
      pure (address, encode password))
      env w

unfoldable pub login : List ℕ → List ℕ → M AuthPayload
login email password = do
  input ← validate_login_input email password
  discovered ← resolve_user_by_email input.0
  elim discovered [
    | none ↦ throw authentication
    | some (u, client) ↦ complete_password_login client u input.1
  ]
