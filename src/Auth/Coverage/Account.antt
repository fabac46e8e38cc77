-- ===== src/Auth/Coverage/Account.antt =====
-- The coverage of users by reservations under the recovery of accounts, the renewal of tokens, the
-- settings of the second factor and the contexts of requests.
use graphql_prisma_postgres.Prelude.{
  ℕ, inl, inr, refl, none, some, List, [], arith, Option-cases, encode, find?, map,
}
use graphql_prisma_postgres.Data.{User, MfaMethod}
use graphql_prisma_postgres.Effects.{
  World, Env, refresh_secret, Result-cases, tick, invalidate_user, next_uuid,
}
use graphql_prisma_postgres.Identity.Coverage.{IsConsistent}
use graphql_prisma_postgres.Identity.Reservation.{get_db_for_workspace}
use graphql_prisma_postgres.Identity.Resolve.{Found, resolve_user_by_email, find_user_across_shards}
use graphql_prisma_postgres.Identity.Resolve.Frame.{resolve_user_by_email-IsConsistent}
use graphql_prisma_postgres.Users.Input.{normalize_email}
use graphql_prisma_postgres.Sessions.{
  revoke_refresh_token, revoke_all_refresh_tokens, rotate_script, rotate_refresh_token,
  assert_rotated,
}
use graphql_prisma_postgres.Auth.Tokens.{
  generate_access_token, generate_refresh_token, generate_token_pair, verify_refresh_token,
}
use graphql_prisma_postgres.Auth.Login.{otp_at}
use graphql_prisma_postgres.Auth.Challenge.{FoundUser, find_with_workspace}
use graphql_prisma_postgres.Auth.Coverage.{rewrite-IsConsistent}
use graphql_prisma_postgres.Auth.Recovery.{
  set_reset, reset_at, start_reset, forgot_password, is_reset_row, set_password, reset_password,
  refresh_claims, refresh_found, refresh_tokens, logout, logout_all,
}
use graphql_prisma_postgres.Auth.Enrollment.{
  set_factor, set_settings, pending_settings, email_mode, enroll_email, enroll_authenticator,
  init_2fa_enrollment, enabled, confirm_authenticator, confirm_email, confirm_2fa_enrollment,
  get_password_hash, no_mfa, disable_2fa,
}

start_reset-IsConsistent :
    (found : Found) (env : Env) (w : World)
    → IsConsistent w
    → IsConsistent (start_reset found env w).1
unfolding start_reset invalidate_user
start_reset-IsConsistent none env w h = ground arith
start_reset-IsConsistent (some (u, client)) env w h = ground (
  arith,
  rewrite-IsConsistent client u.id (set_reset (some (reset_at env w))) env w
      (λ v. (refl, refl, refl, refl)) h,
)

pub forgot_password-IsConsistent :
    (email : List ℕ) (env : Env) (w : World)
    → IsConsistent w
    → IsConsistent (forgot_password email env w).1
unfolding forgot_password
forgot_password-IsConsistent email env w h =
    let address = encode (normalize_email env.to_lower email) in
    let w1 = (resolve_user_by_email address env w).1 in
    let h1 : IsConsistent w1 = resolve_user_by_email-IsConsistent address env w h in
    elim (Result-cases (resolve_user_by_email address env w).0) [
      | inr (thrown, q) ↦ ground (arith, q, h1)
      | inl (found, q) ↦ ground (arith, q, h1, start_reset-IsConsistent found env w1 h1)
    ]

pub reset_password-IsConsistent :
    (raw_token : ℕ) (password : List ℕ) (env : Env) (w : World)
    → IsConsistent w
    → IsConsistent (reset_password raw_token password env w).1
unfolding reset_password find_user_across_shards revoke_all_refresh_tokens invalidate_user
reset_password-IsConsistent raw_token password env w h =
    let hash = env.auth.sha256 raw_token in
    elim (Result-cases
      (find_user_across_shards (λ v shard. find? (is_reset_row hash shard) v.users) env w).0) [
        | inr (thrown, q) ↦ ground (arith, q)
        | inl (none, q) ↦ ground (arith, q)
        | inl (some (u, client), q) ↦ ground (
          arith,
          q,
          rewrite-IsConsistent client u.id (set_password (env.bcrypt (encode password))) env
              (tick env w) (λ v. (refl, refl, refl, refl)) h,
        )
      ]

assert_rotated-IsConsistent :
    (user old_jti new_jti : ℕ) (env : Env) (w : World)
    → IsConsistent w
    → IsConsistent (assert_rotated user old_jti new_jti env w).1
unfolding assert_rotated rotate_refresh_token rotate_script revoke_all_refresh_tokens
assert_rotated-IsConsistent user old_jti new_jti env w h = ground arith

generate_token_pair-IsConsistent :
    (u : User) (env : Env) (w : World)
    → IsConsistent w
    → IsConsistent (generate_token_pair u env w).1
unfolding generate_token_pair generate_access_token generate_refresh_token next_uuid
generate_token_pair-IsConsistent u env w h = ground arith

refresh_found-IsConsistent :
    (sub jti : ℕ) (found : FoundUser) (env : Env) (w : World)
    → IsConsistent w
    → IsConsistent (refresh_found sub jti found env w).1
unfolding refresh_found get_db_for_workspace
refresh_found-IsConsistent sub jti found env w h =
    let w1 = (generate_token_pair found.user env w).1 in
    let h1 : IsConsistent w1 = generate_token_pair-IsConsistent found.user env w h in
    elim (Result-cases (generate_token_pair found.user env w).0) [
      | inr (thrown, q) ↦ ground (arith, q, h1)
      | inl (tokens, q) ↦
          ground (arith, q, h1, assert_rotated-IsConsistent sub jti tokens.jti env w1 h1)
    ]

pub refresh_tokens-IsConsistent :
    (token : ℕ) (env : Env) (w : World)
    → IsConsistent w
    → IsConsistent (refresh_tokens token env w).1
unfolding refresh_tokens verify_refresh_token find_with_workspace
refresh_tokens-IsConsistent token env w h =
    elim (Option-cases (refresh_claims (env.auth.verify refresh_secret w.clock token))) [
      | inl missing ↦ ground (arith, missing)
      | inr ((sub, jti), there) ↦ elim (Result-cases (find_with_workspace sub env w).0) [
        | inr (thrown, q) ↦ ground (arith, there, q)
        | inl (none, q) ↦ ground (arith, there, q)
        | inl (some found, q) ↦
            ground (arith, there, q, refresh_found-IsConsistent sub jti found env (tick env w) h)
      ]
    ]

module _ (env : Env) (w : World) (h : IsConsistent w) where
  pub logout-IsConsistent : (user token : ℕ) → IsConsistent (logout user token env w).1
  unfolding logout verify_refresh_token revoke_refresh_token
  logout-IsConsistent user token = ground arith

  pub logout_all-IsConsistent : (user : ℕ) → IsConsistent (logout_all user env w).1
  unfolding logout_all revoke_all_refresh_tokens
  logout_all-IsConsistent user = ground arith

  pub init_2fa_enrollment-IsConsistent :
      (client : ℕ) (u : User) (method : MfaMethod)
      → IsConsistent (init_2fa_enrollment client u method env w).1
  unfolding init_2fa_enrollment enroll_email enroll_authenticator invalidate_user
  init_2fa_enrollment-IsConsistent client u method =
      let e = env.auth.create_enrollment w.calls u.email in
      ground (
        arith,
        rewrite-IsConsistent client u.id
            (set_factor (pending_settings MfaMethod.email email_mode []) (some (otp_at env w))) env
            w (λ v. (refl, refl, refl, refl)) h,
        rewrite-IsConsistent client u.id
            (set_settings (
              pending_settings MfaMethod.authenticator e.secret
                (map env.auth.sha256 e.backup_codes)))
            env w (λ v. (refl, refl, refl, refl)) h,
      )

  pub confirm_2fa_enrollment-IsConsistent :
      (client : ℕ) (u : User) (otp : ℕ) → IsConsistent (confirm_2fa_enrollment client u otp env w).1
  unfolding confirm_2fa_enrollment confirm_authenticator confirm_email invalidate_user
  confirm_2fa_enrollment-IsConsistent client u otp = elim (Option-cases u.mfa_settings) [
    | inl missing ↦ ground (arith, missing)
    | inr (s, there) ↦ ground (
      arith,
      there,
      rewrite-IsConsistent client u.id (set_settings (enabled s)) env w
          (λ v. (refl, refl, refl, refl)) h,
      rewrite-IsConsistent client u.id (set_factor (enabled s) none) env w
          (λ v. (refl, refl, refl, refl)) h,
    )
  ]

  pub disable_2fa-IsConsistent :
      (client id password : ℕ) → IsConsistent (disable_2fa client id password env w).1
  unfolding disable_2fa get_password_hash invalidate_user
  disable_2fa-IsConsistent client id password = ground (
    arith,
    rewrite-IsConsistent client id (set_factor no_mfa none) env (tick env w)
        (λ v. (refl, refl, refl, refl)) h,
  )
