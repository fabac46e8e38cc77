-- ===== src/Auth/Coverage/Google.antt =====
-- The coverage of users by reservations under `googleLogin`.
use graphql_prisma_postgres.Prelude.{
  ℕ, ◌+◌, ◌<◌, encode, ◌≡◌, inl, inr, refl, none, some, List, arith, Option-cases,
}
use graphql_prisma_postgres.Data.{User}
use graphql_prisma_postgres.Effects.{World, Env, Result-cases, tick, next_uuid}
use graphql_prisma_postgres.Identity.Reservation.{reserve_email}
use graphql_prisma_postgres.Identity.Coverage.{IsConsistent, IsFresh}
use graphql_prisma_postgres.Identity.Coverage.Reserving.{
  reserve_email-IsConsistent, reserve_email-Reserves, reserve_email-users,
}
use graphql_prisma_postgres.Users.Coverage.{NoLostAnswer}
use graphql_prisma_postgres.Workspaces.Slug.{unique_slug}
use graphql_prisma_postgres.Auth.Signup.{new_workspace, new_owner, admin_role, register_owner}
use graphql_prisma_postgres.Effects.{GoogleUser, invalidate_user}
use graphql_prisma_postgres.Identity.Resolve.{Found, resolve_user_by_email}
use graphql_prisma_postgres.Identity.Resolve.Frame.{
  resolve_user_by_email-IsConsistent, resolve_user_by_email-SameShards,
}
use graphql_prisma_postgres.Users.Input.{normalize_email}
use graphql_prisma_postgres.Auth.Login.{has_open_workspace}
use graphql_prisma_postgres.Auth.Coverage.{rewrite-IsConsistent, challenge_or_session-IsConsistent}
use graphql_prisma_postgres.Auth.Coverage.Owner.{register_owner-IsConsistent}
use graphql_prisma_postgres.Auth.Coverage.Signup.{GeneratesFresh, unique_slug-world, claim_for}
use graphql_prisma_postgres.Auth.Google.{
  before_at, workspace_name_of, username_of, google_signup, set_google, google_link, google_account,
  enter_account, google_steps, google_login,
}

google_signup-IsConsistent :
    (g : GoogleUser) (email : List ℕ) (env : Env) (w : World)
    → NoLostAnswer env
    → IsConsistent w
    → GeneratesFresh env w
    → IsConsistent (google_signup g email env w).1
unfolding google_signup next_uuid
google_signup-IsConsistent g email env w answered h f =
    let workspace = env.uuid w.calls in
    let id = env.uuid (w.calls + 1) in
    let shard = env.route workspace in
    let w0 : World = record w { calls = w.calls + 2 } in
    let password = env.bcrypt (encode (env.auth.random_hex (w.calls + 2) 24)) in
    let suffix = env.auth.random_hex (w.calls + 2) 2 in
    let h0 : IsConsistent w0 = h in
    let fresh0 : IsFresh id w0 = f.fresh (w.calls + 1) in
    let claim = claim_for (encode email) id workspace shard in
    let w1 = (reserve_email claim env w0).1 in
    let h1 : IsConsistent w1 = reserve_email-IsConsistent claim env w0 h0 fresh0 in
    let users1 : w1.users ≡ w0.users = reserve_email-users claim env w0 in
    let fresh1 : IsFresh id w1 = rw users1 fresh0 in
    let positive : (0 < id) × (0 < workspace) × (0 < shard) =
      (f.positive (w.calls + 1), f.positive w.calls, f.assigned workspace) in
    let named = unique_slug-world (before_at email) suffix env w0 in
    elim (Result-cases (unique_slug (before_at email) suffix env w0).0) [
      | inr (thrown, q) ↦ ground (arith, q, named)
      | inl (slug, q) ↦ elim (Result-cases (reserve_email claim env w0).0) [
        | inr (thrown, e) ↦ ground (arith, q, named, e, h1)
        | inl (_, e) ↦
            let k = new_workspace shard workspace (encode (workspace_name_of g)) (encode slug) in
            let u =
              new_owner shard workspace id (encode email) (encode (username_of g email)) password
                (some g.google_id) in
            let r = admin_role shard workspace (env.uuid w1.calls) in
            let w2 : World = record w1 { calls = w1.calls + 1 } in
            let h2 : IsConsistent (register_owner k u r (λ x. x) env w2).1 =
              register_owner-IsConsistent k u r (λ x. x) env w2 answered h1 fresh1 positive
                (reserve_email-Reserves claim env w0 e) in
            ground (arith, q, named, e, h2)
      ]
    ]

google_link-IsConsistent :
    (g : GoogleUser) (u : User) (client : ℕ) (env : Env) (w : World)
    → IsConsistent w
    → IsConsistent (google_link g u client env w).1
unfolding google_link invalidate_user
google_link-IsConsistent g u client env w h = ground (
  arith,
  rewrite-IsConsistent client u.id (set_google g.google_id) env w (λ v. (refl, refl, refl, refl)) h,
)

enter_account-IsConsistent :
    (u : User) (client : ℕ) (env : Env) (w : World)
    → IsConsistent w
    → IsConsistent (enter_account u client env w).1
unfolding enter_account has_open_workspace
enter_account-IsConsistent u client env w h =
    ground (arith, challenge_or_session-IsConsistent client u env (tick env w) h)

google_account-IsConsistent :
    (g : GoogleUser) (email : List ℕ) (found : Found) (env : Env) (w : World)
    → NoLostAnswer env
    → IsConsistent w
    → GeneratesFresh env w
    → IsConsistent (google_account g email found env w).1
unfolding google_account
google_account-IsConsistent g email none env w answered h f =
    google_signup-IsConsistent g email env w answered h f
google_account-IsConsistent g email (some (u, client)) env w answered h f =
    google_link-IsConsistent g u client env w h

google_steps-IsConsistent :
    (token : ℕ) (env : Env) (w : World)
    → NoLostAnswer env
    → IsConsistent w
    → GeneratesFresh env w
    → IsConsistent (google_steps token env w).1
unfolding google_steps
google_steps-IsConsistent token env w answered h f =
    elim (Option-cases (env.auth.google_verify token)) [
      | inl missing ↦ ground (arith, missing)
      | inr (g, known) ↦
          let email = normalize_email env.to_lower g.email in
          let w1 = (resolve_user_by_email (encode email) env w).1 in
          let h1 : IsConsistent w1 = resolve_user_by_email-IsConsistent (encode email) env w h in
          let frame = resolve_user_by_email-SameShards (encode email) env w in
          let f1 : GeneratesFresh env w1 = record {
            fresh = λ n. rw frame.users (f.fresh n);
            positive = f.positive;
            assigned = f.assigned;
          } in
          elim (Result-cases (resolve_user_by_email (encode email) env w).0) [
            | inr (thrown, q) ↦ ground (arith, known, q, h1)
            | inl (found, q) ↦
                let w2 = (google_account g email found env w1).1 in
                let h2 : IsConsistent w2 =
                  google_account-IsConsistent g email found env w1 answered h1 f1 in
                elim (Result-cases (google_account g email found env w1).0) [
                  | inr (thrown, r) ↦ ground (arith, known, q, r, h2)
                  | inl ((u, client), r) ↦
                      ground (arith, known, q, r, h2, enter_account-IsConsistent u client env w2 h2)
                ]
          ]
    ]

pub google_login-IsConsistent :
    (token : ℕ) (env : Env) (w : World)
    → NoLostAnswer env
    → IsConsistent w
    → GeneratesFresh env w
    → IsConsistent (google_login token env w).1
unfolding google_login
google_login-IsConsistent token env w answered h f =
    ground (arith, google_steps-IsConsistent token env w answered h f)
