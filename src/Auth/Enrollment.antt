-- ===== src/Auth/Enrollment.antt =====
-- modules/auth/services/mfa.service.ts: setting the second factor up, and switching it off.
use graphql_prisma_postgres.Prelude.{
  ℕ, Bool, true, false, not, ◌&&◌, Option, none, some, List, [], leb, ◌==◌, if◌then◌else◌, truthy,
  some_truthy, find?, text, map,
}
use graphql_prisma_postgres.Data.{User, MfaSettings, MfaMethod, OtpSettings}
use graphql_prisma_postgres.Effects.{
  authentication, validation, prisma, other, ok, err, M, pure, ◌>>=◌, ◌>>◌, require, or_throw, now,
  read, invalidate_user, Enrollment,
}
use graphql_prisma_postgres.Users.Members.{is_id_row, update_user_row}
use graphql_prisma_postgres.Auth.Tokens.{hash_token}
use graphql_prisma_postgres.Auth.Login.{has_mfa, new_otp, compare_password}
use graphql_prisma_postgres.Auth.Challenge.{check_totp}

abbrev pub email_mode : ℕ
email_mode = text "EMAIL_MODE"

abbrev pub set_factor : MfaSettings → Option OtpSettings → User → User
set_factor s o u = record u { mfa_settings = some s; otp = o }

abbrev pub set_settings : MfaSettings → User → User
set_settings s u = record u { mfa_settings = some s }

abbrev pub pending_settings : MfaMethod → ℕ → List ℕ → MfaSettings
pending_settings method secret codes = record {
  is_enabled = false;
  method = some method;
  secret = some secret;
  backup_codes = codes;
}

-- `sendEmail`, awaited: a failure is thrown.
abbrev pub send_email : M (Unit {0})
send_email env w = (if env.auth.sends w.calls then ok tt else err (prisma other), w)

abbrev pub new_enrollment : ℕ → M Enrollment
new_enrollment email env w = (ok (env.auth.create_enrollment w.calls email), w)

abbrev pub hash_codes : List ℕ → M (List ℕ)
hash_codes codes env w = (ok (map env.auth.sha256 codes), w)

unfoldable pub enroll_email : ℕ → User → M Enrollment
enroll_email client u = do
  otp ← new_otp
  update_user_row client u.id []
      (set_factor (pending_settings MfaMethod.email email_mode []) (some otp))
  invalidate_user u.id
  send_email
  pure (record { secret = email_mode; qr_code = 0; backup_codes = [] })

unfoldable pub enroll_authenticator : ℕ → User → M Enrollment
enroll_authenticator client u = do
  enrollment ← new_enrollment u.email
  hashed ← hash_codes enrollment.backup_codes
  update_user_row client u.id []
      (set_settings (pending_settings MfaMethod.authenticator enrollment.secret hashed))
  invalidate_user u.id
  pure enrollment

-- `init2faEnrollment`, with the row of the context's user.
unfoldable pub init_2fa_enrollment : ℕ → User → MfaMethod → M Enrollment
init_2fa_enrollment client u method = do
  require (not (has_mfa u)) validation
  elim method [
    | MfaMethod.email ↦ enroll_email client u
    | MfaMethod.authenticator ↦ enroll_authenticator client u
  ]

abbrev pub enabled : MfaSettings → MfaSettings
enabled s = record s { is_enabled = true }

unfoldable pub confirm_authenticator : ℕ → User → MfaSettings → ℕ → M Bool
confirm_authenticator client u s otp = do
  require (some_truthy s.secret) validation
  is_valid ← check_totp s.secret otp
  require is_valid validation
  update_user_row client u.id [] (set_settings (enabled s))
  invalidate_user u.id
  pure true

abbrev pub stored_code : User → Option OtpSettings
stored_code u = elim u.otp [ none ↦ none | some o ↦ if truthy o.code_hash then some o else none ]

unfoldable pub confirm_email : ℕ → User → MfaSettings → ℕ → M Bool
confirm_email client u s otp = do
  stored ← or_throw (stored_code u) validation
  date ← now
  hash ← hash_token otp
  require (stored.code_hash == hash && leb date stored.expires_at) validation
  update_user_row client u.id [] (set_factor (enabled s) none)
  invalidate_user u.id
  pure true

-- `confirm2faEnrollment`, with the row of the context's user.
unfoldable pub confirm_2fa_enrollment : ℕ → User → ℕ → M Bool
confirm_2fa_enrollment client u otp = elim u.mfa_settings [
  | none ↦ pure false
  | some s ↦ elim s.method [
    | none ↦ pure false
    | some m ↦ elim m [
      | MfaMethod.authenticator ↦ confirm_authenticator client u s otp
      | MfaMethod.email ↦ confirm_email client u s otp
    ]
  ]
]

-- `getPasswordHash`: 0 where there is no row.
unfoldable pub get_password_hash : ℕ → ℕ → M ℕ
unfolding read
get_password_hash client id =
    read (λ w. elim (find? (is_id_row client id) w.users) [ none ↦ 0 | some u ↦ u.password ])

abbrev pub no_mfa : MfaSettings
no_mfa = record { is_enabled = false; method = none; secret = none; backup_codes = [] }

unfoldable pub disable_2fa : ℕ → ℕ → ℕ → M Bool
disable_2fa client id password = do
  require (truthy password) authentication
  hash ← get_password_hash client id
  require (truthy hash) authentication
  is_valid ← compare_password password hash
  require is_valid authentication
  update_user_row client id [] (set_factor no_mfa none)
  invalidate_user id
  pure true
