-- ===== src/Tests/Auth.antt =====
-- Signing in, the second factor, lost passwords and the renewal of tokens, run in an office.
use graphql_prisma_postgres.Prelude.{
  after_prefix, ℕ, ◌≡◌, ◌≢◌, ◌⊎◌, refl, true, false, some, List, [], ◌∷◌, arith, codes, All, lookup,
}
use graphql_prisma_postgres.Data.{User, UserStatus, Workspace}
use graphql_prisma_postgres.Effects.{access_secret, ok, pure, read, next_uuid, invalidate_user}
use graphql_prisma_postgres.Identity.Reservation.{find_reservation, get_db_for_workspace}
use graphql_prisma_postgres.Identity.Release.{get_email_reservation}
use graphql_prisma_postgres.Identity.Resolve.{
  resolve_user_by_email, resolve_within, resolve_route, resolve_active, find_user_across_shards,
  load_user_from_recorded_shard,
}
use graphql_prisma_postgres.Access.Guards.{Context, protect}
use graphql_prisma_postgres.Access.Guards.Gate.{Stops}
use graphql_prisma_postgres.Users.Input.{trim, trim_start, normalize_email}
use graphql_prisma_postgres.Users.Members.{update_user_row}
use graphql_prisma_postgres.Sessions.{
  tokens, store_refresh_token, revoke_all_refresh_tokens, rotate_script, rotate_refresh_token,
  assert_rotated,
}
use graphql_prisma_postgres.Auth.Tokens.{
  verify_access_token, verify_refresh_token, bearer_token, remove_first, accepted_access,
  generate_access_token, generate_refresh_token, generate_token_pair,
}
use graphql_prisma_postgres.Auth.Login.{
  AuthPayload, is_open_row, has_mfa, strip_password, login, validate_login_input,
  complete_password_login, has_open_workspace, challenge_or_session, maybe_start_mfa_challenge,
  deliver_code, issue_auth_payload,
}
use graphql_prisma_postgres.Auth.Login.Factor.{IsChallenge, HasSignedIn, address, login-IsChallenge}
use graphql_prisma_postgres.Auth.Challenge.{
  FoundUser, find_with_workspace, challenged_user, check_email_otp, check_factor, check_method,
  verify_found, verify_2fa,
}
use graphql_prisma_postgres.Auth.Challenge.Otp.{AttemptsBounded, check_email_otp-AttemptsBounded}
use graphql_prisma_postgres.Auth.Challenge.Factor.{HasVerified, checked_at, verify_2fa-HasVerified}
use graphql_prisma_postgres.Auth.Recovery.{reset_password, refresh_tokens, refresh_found}
use graphql_prisma_postgres.Auth.Recovery.Reset.{
  HasReset, IsOnlyHolder, reset_password-HasReset, reset_password-once,
}
use graphql_prisma_postgres.Auth.Recovery.Refresh.{
  claims_at, Exchanged, refresh_tokens-Exchanged, refresh_tokens-once,
}
use graphql_prisma_postgres.Auth.Session.{
  create_context, token_user, context_for, routing_hint, get_cached_user, set_user, load_user,
  load_hinted, load_from_hint, bind_context, context_of,
}
use graphql_prisma_postgres.Auth.Session.Factor.{protect-create_context_pending}
use graphql_prisma_postgres.Auth.Session.Current.{IsContextOf, create_context-IsContextOf}
use graphql_prisma_postgres.Examples.{
  calm, calm-FindsFirst, careful, careful_office, session_body, sealed, firm,
}

-- The codes of a text that is numbered n + 1.
abbrev numbered : ℕ → List ℕ
numbered n = n ∷ []

check_email_otp-AttemptsBounded_example :
    AttemptsBounded (check_email_otp 1 careful 8 calm careful_office).1
check_email_otp-AttemptsBounded_example =
    check_email_otp-AttemptsBounded 1 careful 8 calm careful_office (ground arith)

abbrev challenge : AuthPayload
challenge = record { token = 1; refresh_token = 0; user = strip_password careful }

careful_signs_in : (login (numbered 100) (numbered 0) calm careful_office).0 ≡ ok challenge
unfolding login validate_login_input normalize_email trim trim_start resolve_user_by_email
    resolve_within resolve_route resolve_active load_user_from_recorded_shard get_email_reservation
    find_reservation read lookup complete_password_login has_open_workspace challenge_or_session
    maybe_start_mfa_challenge deliver_code generate_access_token
careful_signs_in = refl

login-IsChallenge_example :
    (u : User) × (client : ℕ) × ((resolve_user_by_email
        (address calm (numbered 100))
        calm
        careful_office).0
      ≡ ok (some (u, client)))
    × HasSignedIn client u 1 calm
        (resolve_user_by_email (address calm (numbered 100)) calm careful_office).1
    × ((has_mfa u ≡ false)
        ⊎ (IsChallenge calm u challenge
            × ((login (numbered 100) (numbered 0) calm careful_office).1.sessions
                ≡ careful_office.sessions)))
login-IsChallenge_example =
    login-IsChallenge (numbered 100) (numbered 0) calm careful_office challenge careful_signs_in

abbrev session : AuthPayload
session = record { token = 2; refresh_token = 3; user = strip_password careful }

careful_verifies : (verify_2fa (numbered 0) 33 calm careful_office).0 ≡ ok session
unfolding verify_2fa verify_access_token remove_first after_prefix find_with_workspace verify_found
    get_db_for_workspace check_factor check_method issue_auth_payload generate_token_pair
    generate_access_token generate_refresh_token next_uuid store_refresh_token
careful_verifies = refl

verify_2fa-HasVerified_example :
    (id : ℕ) × (found : FoundUser) × (challenged_user
        (accepted_access (sealed.verify access_secret 0 (bearer_token (numbered 0))))
      ≡ some id)
    × ((find_with_workspace id calm careful_office).0 ≡ ok (some found))
    × HasVerified found 33 calm
        (checked_at found calm (find_with_workspace id calm careful_office).1)
verify_2fa-HasVerified_example =
    verify_2fa-HasVerified (numbered 0) 33 calm careful_office session careful_verifies

abbrev new_password : List ℕ
new_password = codes "password"

careful_resets : (reset_password 55 new_password calm careful_office).0 ≡ ok true
unfolding reset_password find_user_across_shards update_user_row revoke_all_refresh_tokens
    invalidate_user
careful_resets = refl

reset_password-HasReset_example :
    HasReset 55 new_password calm careful_office
      (reset_password 55 new_password calm careful_office).1
reset_password-HasReset_example =
    reset_password-HasReset 55 new_password calm careful_office calm-FindsFirst careful_resets

careful_holds : All (IsOnlyHolder 55 1 11) careful_office.users
careful_holds = (λ e. absurd (cc), (λ e. refl, tt))

reset_password-once_example :
    (reset_password 55 new_password calm (reset_password 55 new_password calm careful_office).1).0
    ≢ ok true
reset_password-once_example =
    reset_password-once 55 1 11 new_password new_password true calm careful_office calm-FindsFirst
      careful_holds careful_resets

careful_renews : (refresh_tokens 3 calm careful_office).0 ≡ ok session
unfolding refresh_tokens verify_refresh_token find_with_workspace refresh_found get_db_for_workspace
    generate_token_pair generate_access_token generate_refresh_token next_uuid assert_rotated
    rotate_refresh_token rotate_script tokens lookup
careful_renews = refl

refresh_tokens-Exchanged_example :
    (sub : ℕ) × (jti : ℕ) × (found : FoundUser) × (claims_at 3 calm 0 ≡ some (sub, jti))
    × ((find_with_workspace sub calm careful_office).0 ≡ ok (some found))
    × (found.user.status ≡ UserStatus.active)
    × (is_open_row found.workspace ≡ true)
    × Exchanged sub jti (calm.uuid 1) careful_office (refresh_tokens 3 calm careful_office).1
refresh_tokens-Exchanged_example =
    refresh_tokens-Exchanged 3 calm careful_office session (λ _. refl) careful_renews

refresh_tokens-once_example :
    (refresh_tokens 3 calm (refresh_tokens 3 calm careful_office).1).0 ≢ ok session
refresh_tokens-once_example =
    refresh_tokens-once 3 11 5 calm careful_office session session (λ _. refl)
      (λ n e. absurd (omega arith)) (λ date claims e. ground arith) careful_renews

-- The context of a challenge's token, and that of a session's.
abbrev held_back : Context
held_back = context_of (record { user = careful; roles = [] }) firm 1 true

abbrev signed_in : Context
signed_in = context_of (record { user = careful; roles = [] }) firm 1 false

held_back_context : (create_context (numbered 0) calm careful_office).0 ≡ ok held_back
unfolding create_context verify_access_token remove_first after_prefix context_for routing_hint
    get_cached_user find_with_workspace set_user load_user load_hinted load_from_hint bind_context
    lookup
held_back_context = refl

signed_in_context : (create_context (numbered 1) calm careful_office).0 ≡ ok signed_in
unfolding create_context verify_access_token remove_first after_prefix context_for routing_hint
    get_cached_user find_with_workspace set_user load_user load_hinted load_from_hint bind_context
    lookup
signed_in_context = refl

challenge_accepted :
    accepted_access (sealed.verify access_secret 0 (bearer_token (numbered 0)))
    ≡ some (session_body true)
unfolding remove_first after_prefix
challenge_accepted = refl

protect-create_context_pending_example :
    Stops careful_office (protect [] true false (λ c. pure c.user) held_back calm careful_office)
protect-create_context_pending_example =
    protect-create_context_pending (numbered 0) (session_body true) calm careful_office
      careful_office held_back [] true (λ c. pure c.user) challenge_accepted refl held_back_context

create_context-IsContextOf_example :
    (id : ℕ) × (token_user
        (accepted_access (sealed.verify access_secret 0 (bearer_token (numbered 1))))
      ≡ some id)
    × ((s : ℕ) × (u : User) × (k : Workspace) × IsContextOf careful_office id signed_in s u k)
create_context-IsContextOf_example =
    create_context-IsContextOf (numbered 1) calm careful_office signed_in calm-FindsFirst
      signed_in_context refl
