-- ===== src/Auth/Login/Factor.antt =====
-- What signing in with a password asks for, in modules/auth/services/auth.service.ts.
use graphql_prisma_postgres.Prelude.{
  ℕ, ◌≡◌, ◌⊎◌, inl, inr, true, false, none, some, List, arith, Bool-cases, truthy, find?, encode,
}
use graphql_prisma_postgres.Data.{User, UserStatus}
use graphql_prisma_postgres.Effects.{
  World, Env, access, access_secret, ok, Result-cases, tick, invalidate_user,
}
use graphql_prisma_postgres.Identity.Resolve.{resolve_user_by_email}
use graphql_prisma_postgres.Identity.Resolve.Frame.{SameShards, resolve_user_by_email-SameShards}
use graphql_prisma_postgres.Users.Input.{normalize_email}
use graphql_prisma_postgres.Users.Members.{update_user_row, is_workspace_row}
use graphql_prisma_postgres.Auth.Tokens.{generate_access_token, claims_of}
use graphql_prisma_postgres.Auth.Login.{
  AuthPayload, has_mfa, send_login_otp, deliver_code, maybe_start_mfa_challenge,
  challenge_or_session, is_open_row, has_open_workspace, complete_password_login,
  validate_login_input, login,
}

deliver_code-sessions :
    (client : ℕ) (u : User) (env : Env) (w : World)
    → (deliver_code client u env w).1.sessions ≡ w.sessions
unfolding deliver_code send_login_otp update_user_row invalidate_user
deliver_code-sessions client u env w = ground arith

-- A token of the second factor's challenge, issued at some date, and no refresh token.
abbrev pub IsChallenge : Env → User → AuthPayload → Type 0
IsChallenge env u payload =
    (payload.refresh_token ≡ 0)
    × ((date : ℕ) × (payload.token
          ≡ env.auth.sign access_secret date
              (record (claims_of u true) { token_type = some access })))

challenge_or_session-IsChallenge :
    (client : ℕ) (u : User) (env : Env) (w : World) (payload : AuthPayload)
    → has_mfa u ≡ true
    → (challenge_or_session client u env w).0 ≡ ok payload
    → IsChallenge env u payload × ((challenge_or_session client u env w).1.sessions ≡ w.sessions)
unfolding challenge_or_session maybe_start_mfa_challenge generate_access_token
challenge_or_session-IsChallenge client u env w payload enabled e =
    let w1 = (deliver_code client u env w).1 in
    let same : w1.sessions ≡ w.sessions = deliver_code-sessions client u env w in
    elim (Result-cases (deliver_code client u env w).0) [
      | inr (thrown, q) ↦ absurd (ground (arith, q))
      | inl (_, q) ↦ ((ground (arith, q), (w1.clock, ground (arith, q))), ground (arith, q, same))
    ]

-- The checks on a password: the user is active, so is the workspace, and the password is the user's.
pub record HasSignedIn (client : ℕ) (u : User) (password : ℕ) (env : Env) (w : World) : Type 0 where
  pub active_user : u.status ≡ UserStatus.active
  pub has_password : truthy u.password ≡ true
  pub right_password : env.auth.compare password u.password ≡ true
  pub workspace_is_open :
      is_open_row (find? (is_workspace_row client u.workspace_id) w.workspaces) ≡ true

complete_password_login-HasSignedIn :
    (client : ℕ) (u : User) (password : ℕ) (env : Env) (w : World) (payload : AuthPayload)
    → (complete_password_login client u password env w).0 ≡ ok payload
    → HasSignedIn client u password env w
unfolding complete_password_login has_open_workspace
complete_password_login-HasSignedIn client u password env w payload e = ground arith

complete_password_login-IsChallenge :
    (client : ℕ) (u : User) (password : ℕ) (env : Env) (w : World) (payload : AuthPayload)
    → has_mfa u ≡ true
    → (complete_password_login client u password env w).0 ≡ ok payload
    → IsChallenge env u payload
      × ((complete_password_login client u password env w).1.sessions ≡ w.sessions)
unfolding complete_password_login has_open_workspace
complete_password_login-IsChallenge client u password env w payload enabled e =
    let e' : (challenge_or_session client u env (tick env w)).0 ≡ ok payload = ground arith in
    let (challenge, same) =
      challenge_or_session-IsChallenge client u env (tick env w) payload enabled e' in
    (challenge, ground (arith, same))

-- `normalizeEmail` of an input, as a key of the directory.
abbrev pub address : Env → List ℕ → ℕ
address env email = encode (normalize_email env.to_lower email)

-- Whoever signs in with a password is the user that the address resolves to, is active in an active
-- workspace and has given that user's password; and where the user has a second factor, all that is
-- handed out is the token of a challenge, with no refresh token, and no session is stored.
pub login-IsChallenge :
    (email password : List ℕ) (env : Env) (w : World) (payload : AuthPayload)
    → (login email password env w).0 ≡ ok payload
    → (u : User) × (client : ℕ) × ((resolve_user_by_email (address env email) env w).0
        ≡ ok (some (u, client)))
      × HasSignedIn client u
          (encode password)
          env
          (resolve_user_by_email (address env email) env w).1
      × ((has_mfa u ≡ false)
          ⊎ (IsChallenge env u payload × ((login email password env w).1.sessions ≡ w.sessions)))
unfolding login validate_login_input
login-IsChallenge email password env w payload e =
    let w1 = (resolve_user_by_email (address env email) env w).1 in
    let frame : SameShards w w1 = resolve_user_by_email-SameShards (address env email) env w in
    elim (Result-cases (resolve_user_by_email (address env email) env w).0) [
      | inr (thrown, q) ↦ absurd (ground (arith, q))
      | inl (none, q) ↦ absurd (ground (arith, q))
      | inl (some (u, client), q) ↦
          let signed : (complete_password_login client u (encode password) env w1).0 ≡ ok payload =
            ground (arith, q) in
          (
            u,
            client,
            q,
            complete_password_login-HasSignedIn client u (encode password) env w1 payload signed,
            elim (Bool-cases (has_mfa u)) [
              | inr single ↦ inl single
              | inl enabled ↦
                  let (challenge, same) =
                    complete_password_login-IsChallenge client u (encode password) env w1 payload
                      enabled signed in
                  inr (challenge, ground (arith, q, same, frame.sessions))
            ],
          )
    ]
