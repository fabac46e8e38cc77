-- ===== src/Auth/Challenge/Factor.antt =====
-- What ending a challenge asks for, in `verify2FA` of modules/auth/services/auth.service.ts.
use graphql_prisma_postgres.Prelude.{
  ℕ, ◌<◌, ◌≡◌, ◌⊎◌, inl, inr, true, false, Option, none, some, List, arith, Option-cases, elem,
}
use graphql_prisma_postgres.Data.{User, UserStatus, MfaSettings, MfaMethod, OtpSettings}
use graphql_prisma_postgres.Effects.{World, Env, access_secret, ok, Result-cases, invalidate_user}
use graphql_prisma_postgres.Identity.Reservation.{get_db_for_workspace}
use graphql_prisma_postgres.Auth.Tokens.{verify_access_token, bearer_token, accepted_access}
use graphql_prisma_postgres.Auth.Login.{AuthPayload, is_open_row}
use graphql_prisma_postgres.Auth.Challenge.{
  FoundUser, find_with_workspace, shard_of, max_otp_attempts, check_totp, check_stored_otp,
  check_email_otp, check_method, use_backup_code, check_factor, enabled_mfa, challenged_user,
  workspace_claim, verify_found, verify_2fa,
}

-- A code of the authenticator's application, tried at the date.
abbrev IsTotp : Env → MfaSettings → ℕ → ℕ → Type 0
IsTotp env s otp date =
    (secret : ℕ) × (s.method ≡ some MfaMethod.authenticator)
    × (s.secret ≡ some secret)
    × (env.auth.verify_totp date otp secret ≡ true)

-- The code of the last mail, tried at a date before it expires, and not too often.
abbrev IsMailed : Env → User → MfaSettings → ℕ → ℕ → Type 0
IsMailed env u s otp date =
    (o : OtpSettings) × (s.method ≡ some MfaMethod.email)
    × (u.otp ≡ some o)
    × (o.attempts < max_otp_attempts)
    × (o.code_hash ≡ env.auth.sha256 otp)
    × (date < o.expires_at)

abbrev IsFactor : Env → User → MfaSettings → ℕ → ℕ → Type 0
IsFactor env u s otp date =
    IsTotp env s otp date
    ⊎ IsMailed env u s otp date
    ⊎ (elem (env.auth.sha256 otp) s.backup_codes ≡ true)

check_stored_otp-ok :
    (client : ℕ) (u : User) (o : OtpSettings) (otp : ℕ) (env : Env) (w : World)
    → (check_stored_otp client u o otp env w).0 ≡ ok true
    → (o.attempts < max_otp_attempts)
      × (o.code_hash ≡ env.auth.sha256 otp)
      × (w.clock < o.expires_at)
unfolding check_stored_otp invalidate_user
check_stored_otp-ok client u o otp env w e = (ground arith, ground arith, ground arith)

check_email_otp-ok :
    (client : ℕ) (u : User) (s : MfaSettings) (otp : ℕ) (env : Env) (w : World)
    → s.method ≡ some MfaMethod.email
    → (check_email_otp client u otp env w).0 ≡ ok true
    → IsMailed env u s otp w.clock
unfolding check_email_otp
check_email_otp-ok client u s otp env w mailed e = elim (Option-cases u.otp) [
  | inl missing ↦ absurd (ground (arith, missing))
  | inr (o, stored) ↦
      let e' : (check_stored_otp client u o otp env w).0 ≡ ok true = ground (arith, stored) in
      let (few, right, live) = check_stored_otp-ok client u o otp env w e' in
      (o, mailed, stored, few, right, live)
]

check_totp-ok :
    (s : MfaSettings) (otp : ℕ) (env : Env) (w : World)
    → s.method ≡ some MfaMethod.authenticator
    → (check_totp s.secret otp env w).0 ≡ ok true
    → IsTotp env s otp w.clock
check_totp-ok s otp env w totp e = elim (Option-cases s.secret) [
  | inl missing ↦ absurd (ground (arith, missing))
  | inr (secret, stored) ↦ (secret, totp, stored, ground (arith, stored))
]

check_method-ok :
    (client : ℕ) (u : User) (s : MfaSettings) (otp : ℕ) (env : Env) (w : World)
    → (check_method client u s otp env w).0 ≡ ok true
    → IsTotp env s otp w.clock ⊎ IsMailed env u s otp w.clock
unfolding check_method
check_method-ok client u s otp env w e = elim (Option-cases s.method) [
  | inl missing ↦ absurd (ground (arith, missing))
  | inr (MfaMethod.authenticator, totp) ↦
      let e' : (check_totp s.secret otp env w).0 ≡ ok true = ground (arith, totp) in
      inl (check_totp-ok s otp env w totp e')
  | inr (MfaMethod.email, mailed) ↦
      let e' : (check_email_otp client u otp env w).0 ≡ ok true = ground (arith, mailed) in
      inr (check_email_otp-ok client u s otp env w mailed e')
]

use_backup_code-ok :
    (client : ℕ) (u : User) (s : MfaSettings) (otp : ℕ) (env : Env) (w : World)
    → (use_backup_code client u s otp env w).0 ≡ ok true
    → elem (env.auth.sha256 otp) s.backup_codes ≡ true
unfolding use_backup_code
use_backup_code-ok client u s otp env w e = ground arith

check_factor-ok :
    (client : ℕ) (u : User) (s : MfaSettings) (otp : ℕ) (env : Env) (w : World)
    → (check_factor client u s otp env w).0 ≡ ok true
    → IsFactor env u s otp w.clock
unfolding check_factor
check_factor-ok client u s otp env w e = elim (Result-cases (check_method client u s otp env w).0) [
  | inr (thrown, q) ↦ absurd (ground (arith, q))
  | inl (true, q) ↦ elim (check_method-ok client u s otp env w q) [
    | inl totp ↦ inl totp
    | inr mailed ↦ inr (inl mailed)
  ]
  | inl (false, q) ↦
      let w1 = (check_method client u s otp env w).1 in
      let e' : (use_backup_code client u s otp env w1).0 ≡ ok true = ground (arith, q) in
      inr (inr (use_backup_code-ok client u s otp env w1 e'))
]

-- A user that may end a challenge with a code at a date.
pub record HasVerified (found : FoundUser) (otp : ℕ) (env : Env) (date : ℕ) : Type 0 where
  pub active_user : found.user.status ≡ UserStatus.active
  pub workspace_is_open : is_open_row found.workspace ≡ true
  pub settings : MfaSettings
  pub enabled : enabled_mfa found.user ≡ some settings
  pub factor : IsFactor env found.user settings otp date

-- The clock when the code is looked at, behind the calls before it.
abbrev pub checked_at : FoundUser → Env → World → ℕ
checked_at found env w =
    (get_db_for_workspace found.user.workspace_id (shard_of found.workspace) env w).1.clock

verify_found-HasVerified :
    (claim : Option ℕ) (found : FoundUser) (otp : ℕ) (env : Env) (w : World) (payload : AuthPayload)
    → (verify_found claim found otp env w).0 ≡ ok payload
    → HasVerified found otp env (checked_at found env w)
unfolding verify_found get_db_for_workspace
verify_found-HasVerified claim found otp env w payload e =
    let w1 = (get_db_for_workspace found.user.workspace_id (shard_of found.workspace) env w).1 in
    elim (Option-cases (enabled_mfa found.user)) [
      | inl missing ↦ absurd (ground (arith, missing))
      | inr (s, there) ↦
          let e' : (check_factor found.client found.user s otp env w1).0 ≡ ok true =
            ground (arith, there) in
          record {
            active_user = ground arith;
            workspace_is_open = ground arith;
            settings = s;
            enabled = there;
            factor = check_factor-ok found.client found.user s otp env w1 e';
          }
    ]

-- Whoever ends the challenge of a second factor holds an accepted token of that challenge, and the
-- user of the token, as it was found on the shards, is active in an active workspace, has the
-- second factor enabled and has given one of: the code of its authenticator at the clock when the
-- code is looked at; the code of the last mail, which expires after that clock, after fewer than five
-- failed tries; one of its backup codes.
pub verify_2fa-HasVerified :
    (token : List ℕ) (otp : ℕ) (env : Env) (w : World) (payload : AuthPayload)
    → (verify_2fa token otp env w).0 ≡ ok payload
    → (id : ℕ) × (found : FoundUser) × (challenged_user
          (accepted_access (env.auth.verify access_secret w.clock (bearer_token token)))
        ≡ some id)
      × ((find_with_workspace id env w).0 ≡ ok (some found))
      × HasVerified found otp env (checked_at found env (find_with_workspace id env w).1)
unfolding verify_2fa verify_access_token
verify_2fa-HasVerified token otp env w payload e =
    let decoded = accepted_access (env.auth.verify access_secret w.clock (bearer_token token)) in
    elim (Option-cases (challenged_user decoded)) [
      | inl missing ↦ absurd (ground (arith, missing))
      | inr (id, there) ↦ elim (Result-cases (find_with_workspace id env w).0) [
        | inr (thrown, q) ↦ absurd (ground (arith, there, q))
        | inl (none, q) ↦ absurd (ground (arith, there, q))
        | inl (some found, q) ↦
            let w1 = (find_with_workspace id env w).1 in
            let e' : (verify_found (workspace_claim decoded) found otp env w1).0 ≡ ok payload =
              ground (arith, there, q) in
            (
              id,
              found,
              there,
              q,
              verify_found-HasVerified (workspace_claim decoded) found otp env w1 payload e',
            )
      ]
    ]
