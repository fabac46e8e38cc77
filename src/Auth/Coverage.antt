-- ===== src/Auth/Coverage.antt =====
-- The coverage of users by reservations under the requests of modules/auth and the contexts of
-- middleware/auth.middleware.ts.
pub mod Account
pub mod Context
pub mod Owner
pub mod Signup
pub mod Google
use graphql_prisma_postgres.Prelude.{
  ℕ, ◌≡◌, inl, inr, refl, Bool, true, false, Option, none, some, List, [], arith, Option-cases,
  Bool-cases, Dict, truthy, encode, find?,
}
use graphql_prisma_postgres.Data.{User, MfaSettings, MfaMethod, Reservation}
use graphql_prisma_postgres.Effects.{
  World, Env, access_secret, Result, ok, err, Result-cases, tick, invalidate_user, read, next_uuid,
}
use graphql_prisma_postgres.Identity.Coverage.{IsCovered, IsConsistent}
use graphql_prisma_postgres.Identity.Reservation.{get_db_for_workspace}
use graphql_prisma_postgres.Identity.Resolve.{resolve_user_by_email, find_user_across_shards}
use graphql_prisma_postgres.Identity.Resolve.Frame.{resolve_user_by_email-IsConsistent}
use graphql_prisma_postgres.Users.Members.{update_user_row}
use graphql_prisma_postgres.Users.Coverage.{update_user_row-IsConsistent}
use graphql_prisma_postgres.Users.Requests.{KeepsRoute, IsCovered-of_route}
use graphql_prisma_postgres.Sessions.{
  store_refresh_token, revoke_refresh_token, revoke_all_refresh_tokens, rotate_script,
  rotate_refresh_token, assert_rotated,
}
use graphql_prisma_postgres.Auth.Tokens.{
  generate_access_token, generate_refresh_token, generate_token_pair, verify_access_token,
  verify_refresh_token, bearer_token, accepted_access,
}
use graphql_prisma_postgres.Users.Input.{normalize_email}
use graphql_prisma_postgres.Auth.Login.{
  set_otp, otp_at, issue_auth_payload, send_login_otp, deliver_code, maybe_start_mfa_challenge,
  challenge_or_session, has_open_workspace, complete_password_login, validate_login_input, login,
}
use graphql_prisma_postgres.Auth.Challenge.{
  FoundUser, find_with_workspace, shard_of, count_attempt, check_stored_otp, check_email_otp,
  check_method, use_backup_code, check_factor, enabled_mfa, challenged_user, workspace_claim,
  verify_found, verify_2fa, remove_code, set_mfa, check_totp,
}
use graphql_prisma_postgres.Auth.Recovery.{
  set_reset, reset_at, start_reset, address_of, forgot_password, is_reset_row, set_password,
  reset_password, refresh_claims, refresh_found, refresh_tokens, own_jti, logout, logout_all,
}
use graphql_prisma_postgres.Auth.Enrollment.{
  set_factor, set_settings, enroll_email, enroll_authenticator, init_2fa_enrollment, enabled,
  confirm_authenticator, stored_code, confirm_email, confirm_2fa_enrollment, get_password_hash,
  no_mfa, disable_2fa,
}

-- A statement that leaves the columns alone that the directory routes by.
pub rewrite-IsConsistent :
    (client id : ℕ) (f : User → User) (env : Env) (w : World)
    → KeepsRoute f
    → IsConsistent w
    → IsConsistent (update_user_row client id [] f env w).1
rewrite-IsConsistent client id f env w keeps h =
    update_user_row-IsConsistent client id [] f env w
      (λ rows u c. IsCovered-of_route rows u (f u) (keeps u) c) h

module _ (env : Env) (w : World) (h : IsConsistent w) where
  pub issue_auth_payload-IsConsistent : (u : User) → IsConsistent (issue_auth_payload u env w).1
  unfolding issue_auth_payload generate_token_pair generate_access_token generate_refresh_token
      store_refresh_token next_uuid
  issue_auth_payload-IsConsistent u = ground arith

  deliver_code-IsConsistent : (client : ℕ) (u : User) → IsConsistent (deliver_code client u env w).1
  unfolding deliver_code send_login_otp invalidate_user
  deliver_code-IsConsistent client u = ground (
    arith,
    rewrite-IsConsistent client u.id (set_otp (some (otp_at env w))) env w
        (λ v. (refl, refl, refl, refl)) h,
  )

pub challenge_or_session-IsConsistent :
    (client : ℕ) (u : User) (env : Env) (w : World)
    → IsConsistent w
    → IsConsistent (challenge_or_session client u env w).1
unfolding challenge_or_session maybe_start_mfa_challenge generate_access_token
challenge_or_session-IsConsistent client u env w h =
    let coded : IsConsistent (deliver_code client u env w).1 =
      deliver_code-IsConsistent env w h client u in
    elim (Result-cases (deliver_code client u env w).0) [
      | inr (thrown, q) ↦ ground (arith, q, coded, issue_auth_payload-IsConsistent env w h u)
      | inl (_, q) ↦ ground (arith, q, coded, issue_auth_payload-IsConsistent env w h u)
    ]

pub complete_password_login-IsConsistent :
    (client : ℕ) (u : User) (password : ℕ) (env : Env) (w : World)
    → IsConsistent w
    → IsConsistent (complete_password_login client u password env w).1
unfolding complete_password_login has_open_workspace
complete_password_login-IsConsistent client u password env w h =
    ground (arith, challenge_or_session-IsConsistent client u env (tick env w) h)

pub login-IsConsistent :
    (email password : List ℕ) (env : Env) (w : World)
    → IsConsistent w
    → IsConsistent (login email password env w).1
unfolding login validate_login_input
login-IsConsistent email password env w h =
    let address = encode (normalize_email env.to_lower email) in
    let w1 = (resolve_user_by_email address env w).1 in
    let h1 : IsConsistent w1 = resolve_user_by_email-IsConsistent address env w h in
    elim (Result-cases (resolve_user_by_email address env w).0) [
      | inr (thrown, q) ↦ ground (arith, q, h1)
      | inl (none, q) ↦ ground (arith, q, h1)
      | inl (some (u, client), q) ↦
          ground (
            arith,
            q,
            h1,
            complete_password_login-IsConsistent client u (encode password) env w1 h1,
          )
    ]

-- The codes and the settings of the second factor.
module _ (client : ℕ) (u : User) (env : Env) (w : World) (h : IsConsistent w) where
  check_email_otp-IsConsistent : (otp : ℕ) → IsConsistent (check_email_otp client u otp env w).1
  unfolding check_email_otp check_stored_otp invalidate_user
  check_email_otp-IsConsistent otp = elim (Option-cases u.otp) [
    | inl missing ↦ ground (arith, missing)
    | inr (o, stored) ↦ ground (
      arith,
      stored,
      rewrite-IsConsistent client u.id (set_otp none) env w (λ v. (refl, refl, refl, refl)) h,
      rewrite-IsConsistent client u.id (set_otp (some (count_attempt o))) env w
          (λ v. (refl, refl, refl, refl)) h,
    )
  ]

  check_method-IsConsistent :
      (s : MfaSettings) (otp : ℕ) → IsConsistent (check_method client u s otp env w).1
  unfolding check_method
  check_method-IsConsistent s otp = ground (arith, check_email_otp-IsConsistent otp)

  use_backup_code-IsConsistent :
      (s : MfaSettings) (otp : ℕ) → IsConsistent (use_backup_code client u s otp env w).1
  unfolding use_backup_code invalidate_user
  use_backup_code-IsConsistent s otp = ground (
    arith,
    rewrite-IsConsistent client u.id
        (set_mfa
          (some (record s { backup_codes = remove_code (env.auth.sha256 otp) s.backup_codes })))
        env w (λ v. (refl, refl, refl, refl)) h,
  )

check_factor-IsConsistent :
    (client : ℕ) (u : User) (s : MfaSettings) (otp : ℕ) (env : Env) (w : World)
    → IsConsistent w
    → IsConsistent (check_factor client u s otp env w).1
unfolding check_factor
check_factor-IsConsistent client u s otp env w h =
    let w1 = (check_method client u s otp env w).1 in
    let h1 : IsConsistent w1 = check_method-IsConsistent client u env w h s otp in
    ground (arith, h1, use_backup_code-IsConsistent client u env w1 h1 s otp)

verify_found-IsConsistent :
    (claim : Option ℕ) (found : FoundUser) (otp : ℕ) (env : Env) (w : World)
    → IsConsistent w
    → IsConsistent (verify_found claim found otp env w).1
unfolding verify_found get_db_for_workspace
verify_found-IsConsistent claim found otp env w h = elim (Option-cases (enabled_mfa found.user)) [
  | inl missing ↦ ground (arith, missing)
  | inr (s, there) ↦
      let w2 = (check_factor found.client found.user s otp env w).1 in
      let h2 : IsConsistent w2 = check_factor-IsConsistent found.client found.user s otp env w h in
      ground (arith, there, h2, issue_auth_payload-IsConsistent env w2 h2 found.user)
]

pub verify_2fa-IsConsistent :
    (token : List ℕ) (otp : ℕ) (env : Env) (w : World)
    → IsConsistent w
    → IsConsistent (verify_2fa token otp env w).1
unfolding verify_2fa verify_access_token find_with_workspace
verify_2fa-IsConsistent token otp env w h =
    let decoded = accepted_access (env.auth.verify access_secret w.clock (bearer_token token)) in
    elim (Option-cases (challenged_user decoded)) [
      | inl missing ↦ ground (arith, missing)
      | inr (id, there) ↦ elim (Result-cases (find_with_workspace id env w).0) [
        | inr (thrown, q) ↦ ground (arith, there, q)
        | inl (none, q) ↦ ground (arith, there, q)
        | inl (some found, q) ↦ ground (
          arith,
          there,
          q,
          verify_found-IsConsistent (workspace_claim decoded) found otp env (tick env w) h,
        )
      ]
    ]
