-- ===== src/Auth/Coverage/Signup.antt =====
-- The coverage of users by reservations under `signup`.
use graphql_prisma_postgres.Prelude.{
  ℕ, ◌+◌, ◌<◌, encode, ◌≡◌, inl, inr, none, List, [], arith, lookup,
}
use graphql_prisma_postgres.Effects.{World, Env, Result-cases, tick, next_uuid}
use graphql_prisma_postgres.Identity.Reservation.{ReserveEmailInput, reserve_email}
use graphql_prisma_postgres.Identity.Coverage.{IsConsistent, IsFresh}
use graphql_prisma_postgres.Identity.Coverage.Reserving.{
  Reserves, reserve_email-IsConsistent, reserve_email-Reserves, reserve_email-users,
}
use graphql_prisma_postgres.Users.Coverage.{NoLostAnswer}
use graphql_prisma_postgres.Auth.Coverage.{issue_auth_payload-IsConsistent}
use graphql_prisma_postgres.Workspaces.Slug.{unique_slug, slugify}
use graphql_prisma_postgres.Auth.Signup.{
  SignupData, SignupInput, validate_signup_input, new_workspace, new_owner, admin_role,
  register_owner, has_slug, free_slug, base_slug, as_mapped, signup_reserved, signup_steps, signup,
}
use graphql_prisma_postgres.Auth.Coverage.Owner.{register_owner-IsConsistent}

free_slug-world :
    (shard : ℕ) (base slug : List ℕ) (env : Env) (w : World)
    → (free_slug shard base slug env w).1 ≡ tick env w
unfolding free_slug has_slug unique_slug slugify
free_slug-world shard base slug env w = ground arith

signup_reserved-IsConsistent :
    (shard workspace id : ℕ) (input : SignupInput) (base slug : List ℕ) (env : Env) (w : World)
    → NoLostAnswer env
    → IsConsistent w
    → IsFresh id w
    → (0 < id) × (0 < workspace) × (0 < shard)
    → Reserves
        (record { email = input.email; user_id = id; workspace_id = workspace; shard_id = shard })
        (lookup input.email w.reservations)
    → IsConsistent (signup_reserved shard workspace id input base slug env w).1
unfolding signup_reserved next_uuid
signup_reserved-IsConsistent shard workspace id input base slug env w answered h fresh positive
      reserved =
    let w1 = (free_slug shard base slug env w).1 in
    let moved : w1 ≡ tick env w = free_slug-world shard base slug env w in
    elim (Result-cases (free_slug shard base slug env w).0) [
      | inr (thrown, q) ↦ ground (arith, q, moved)
      | inl (slug', q) ↦
          let k = new_workspace shard workspace (encode input.workspace_name) (encode slug') in
          let u =
            new_owner shard workspace id input.email input.username (env.bcrypt input.password)
              none in
          let r = admin_role shard workspace (env.uuid (w.calls + 1)) in
          let w2 : World = record (tick env w) { calls = w.calls + 2 } in
          let w3 = (register_owner k u r as_mapped env w2).1 in
          let h3 : IsConsistent w3 =
            register_owner-IsConsistent k u r as_mapped env w2 answered h fresh positive reserved in
          elim (Result-cases (register_owner k u r as_mapped env w2).0) [
            | inr (thrown, e) ↦ ground (arith, q, moved, e, h3)
            | inl (created, e) ↦
                ground (arith, q, moved, e, h3, issue_auth_payload-IsConsistent env w3 h3 created)
          ]
    ]

-- What is asked of the identifiers that are generated, and of the shards that they are assigned to.
pub record GeneratesFresh (env : Env) (w : World) : Type 0 where
  pub fresh : (n : ℕ) → IsFresh (env.uuid n) w
  pub positive : (n : ℕ) → 0 < env.uuid n
  pub assigned : (workspace : ℕ) → 0 < env.route workspace

base_slug-world : (input : SignupInput) (env : Env) (w : World) → (base_slug input env w).1 ≡ w
unfolding slugify
base_slug-world input env w = ground arith

pub unique_slug-world :
    (base suffix : List ℕ) (env : Env) (w : World) → (unique_slug base suffix env w).1 ≡ w
unfolding unique_slug slugify
unique_slug-world base suffix env w = ground arith

abbrev pub claim_for : ℕ → ℕ → ℕ → ℕ → ReserveEmailInput
claim_for email id workspace shard = record {
  email = email;
  user_id = id;
  workspace_id = workspace;
  shard_id = shard;
}

signup_steps-IsConsistent :
    (input : SignupInput) (env : Env) (w : World)
    → NoLostAnswer env
    → IsConsistent w
    → GeneratesFresh env w
    → IsConsistent (signup_steps input env w).1
unfolding signup_steps next_uuid
signup_steps-IsConsistent input env w answered h g =
    let workspace = env.uuid w.calls in
    let id = env.uuid (w.calls + 1) in
    let shard = env.route workspace in
    let w0 : World = record w { calls = w.calls + 2 } in
    let h0 : IsConsistent w0 = h in
    let fresh0 : IsFresh id w0 = g.fresh (w.calls + 1) in
    let claim = claim_for input.email id workspace shard in
    let w1 = (reserve_email claim env w0).1 in
    let h1 : IsConsistent w1 = reserve_email-IsConsistent claim env w0 h0 fresh0 in
    let users1 : w1.users ≡ w0.users = reserve_email-users claim env w0 in
    let fresh1 : IsFresh id w1 = rw users1 fresh0 in
    let positive : (0 < id) × (0 < workspace) × (0 < shard) =
      (g.positive (w.calls + 1), g.positive w.calls, g.assigned workspace) in
    elim (Result-cases (base_slug input env w0).0) [
      | inr (thrown, q) ↦ ground (arith, q, base_slug-world input env w0)
      | inl (base, q) ↦ elim (Result-cases (unique_slug base [] env w0).0) [
        | inr (thrown, r) ↦
            ground (arith, q, base_slug-world input env w0, r, unique_slug-world base [] env w0)
        | inl (slug, r) ↦ elim (Result-cases (reserve_email claim env w0).0) [
          | inr (thrown, e) ↦
              ground
                (arith, q, base_slug-world input env w0, r, unique_slug-world base [] env w0, e, h1)
          | inl (_, e) ↦ ground (
            arith,
            q,
            base_slug-world input env w0,
            r,
            unique_slug-world base [] env w0,
            e,
            signup_reserved-IsConsistent shard workspace id input base slug env w1 answered h1
                fresh1 positive (reserve_email-Reserves claim env w0 e),
          )
        ]
      ]
    ]

validate_signup-world :
    (data' : SignupData) (env : Env) (w : World) → (validate_signup_input data' env w).1 ≡ w
unfolding validate_signup_input
validate_signup-world data' env w = ground arith

-- Signing up keeps every user covered by the reservation of its email, whether it returns or throws,
-- if no answer of a write is lost, the identifiers that are generated are nonzero and no user's, and
-- the shards that workspaces are assigned to have nonzero names.
pub signup-IsConsistent :
    (data' : SignupData) (env : Env) (w : World)
    → NoLostAnswer env
    → IsConsistent w
    → GeneratesFresh env w
    → IsConsistent (signup data' env w).1
unfolding signup
signup-IsConsistent data' env w answered h g =
    elim (Result-cases (validate_signup_input data' env w).0) [
      | inr (thrown, q) ↦ ground (arith, q, validate_signup-world data' env w)
      | inl (input, q) ↦ ground (
        arith,
        q,
        validate_signup-world data' env w,
        signup_steps-IsConsistent input env w answered h g,
      )
    ]
