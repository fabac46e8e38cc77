-- ===== src/Users/Creation.antt =====
-- The coverage of users by reservations under `createUser` of modules/user-management.
use graphql_prisma_postgres.Prelude.{ℕ, ◌<◌, ◌≡◌, inl, inr, List, [], ◌∷◌, arith}
use graphql_prisma_postgres.Effects.{World, Env, ok, Result-cases}
use graphql_prisma_postgres.Identity.Coverage.{IsConsistent, IsFresh}
use graphql_prisma_postgres.Access.Grants.{
  AccessActor, assert_can_assign_roles, assert_roles_in_workspace,
}
use graphql_prisma_postgres.Users.Input.{
  CreateUserData, CreateUserInput, validate_create_user_input,
}
use graphql_prisma_postgres.Users.Members.{
  assert_may_create, assert_routed_client, register_member, new_member, create_user_steps,
  create_user,
}
use graphql_prisma_postgres.Users.Coverage.{NoLostAnswer, register_member-IsConsistent}

-- The calls of a guard change no table.
abbrev pub SameTables : World → World → Type 0
SameTables w w' = (w'.reservations ≡ w.reservations) × (w'.users ≡ w.users) × (w'.roles ≡ w.roles)

pub assert_may_create-SameTables :
    (client workspace : ℕ) (actor : AccessActor) (roles custom : List ℕ) (env : Env) (w : World)
    → SameTables w (assert_may_create client workspace actor roles custom env w).1
unfolding assert_may_create assert_can_assign_roles assert_roles_in_workspace
assert_may_create-SameTables client workspace actor [] [] env w = ground arith
assert_may_create-SameTables client workspace actor [] (_ ∷ _) env w = ground arith
assert_may_create-SameTables client workspace actor (_ ∷ _) [] env w = ground arith
assert_may_create-SameTables client workspace actor (_ ∷ _) (_ ∷ _) env w = ground arith

pub assert_routed_client-SameTables :
    (client workspace : ℕ) (env : Env) (w : World)
    → SameTables w (assert_routed_client client workspace env w).1
unfolding assert_routed_client
assert_routed_client-SameTables client workspace env w = ground arith

-- The request's client is the workspace's own shard.
pub assert_routed_client-ok :
    (client workspace shard : ℕ) (env : Env) (w : World)
    → (assert_routed_client client workspace env w).0 ≡ ok shard
    → shard ≡ client
unfolding assert_routed_client
assert_routed_client-ok client workspace shard env w e = ground arith

pub SameTables-IsConsistent : (w w' : World) → SameTables w w' → IsConsistent w → IsConsistent w'
SameTables-IsConsistent w w' (rows, users, _) h = rw (rows, users) h

pub validate-world :
    (input : CreateUserData) (env : Env) (w : World)
    → (validate_create_user_input input env w).1 ≡ w
unfolding validate_create_user_input
validate-world input env w = ground arith

module _ (client workspace : ℕ) (actor : AccessActor) (input : CreateUserData) (env : Env)
    (w : World) where
  -- The steps behind the validation, for what it returned.
  create_user_steps-IsConsistent :
      (v : CreateUserInput)
      → NoLostAnswer env
      → IsConsistent w
      → ((n : ℕ) → IsFresh (env.uuid n) w)
      → ((n : ℕ) → 0 < env.uuid n)
      → 0 < client
      → 0 < workspace
      → IsConsistent (create_user_steps client workspace actor input v env w).1
  unfolding create_user_steps
  create_user_steps-IsConsistent v answered h fresh positive c k =
      let w1 =
        (assert_may_create client workspace actor input.role_ids v.custom_permissions env w).1 in
      let s1 : SameTables w w1 =
        assert_may_create-SameTables client workspace actor input.role_ids v.custom_permissions env
          w in
      let h1 : IsConsistent w1 = SameTables-IsConsistent w w1 s1 h in
      let w2 = (assert_routed_client client workspace env w1).1 in
      let s2 : SameTables w1 w2 = assert_routed_client-SameTables client workspace env w1 in
      let h2 : IsConsistent w2 = SameTables-IsConsistent w1 w2 s2 h1 in
      let u =
        new_member client workspace (env.uuid w1.calls) v.email v.username (env.bcrypt v.password)
          input.role_ids v.custom_permissions in
      let registered : IsConsistent (register_member client u env w2).1 =
        register_member-IsConsistent u env w2 answered h2 (rw (s2.1, s1.1) (fresh w1.calls))
          (positive w1.calls, k, c) in
      elim (Result-cases
        (assert_may_create client workspace actor input.role_ids v.custom_permissions env w).0) [
          | inr (thrown, e) ↦ ground (arith, e, h1)
          | inl (_, e) ↦ elim (Result-cases (assert_routed_client client workspace env w1).0) [
            | inr (thrown, e') ↦ ground (arith, e, e', h2)
            | inl (shard, e') ↦
                ground (
                  arith,
                  e,
                  e',
                  assert_routed_client-ok client workspace shard env w1 e',
                  registered,
                )
          ]
        ]

  -- Creating a user keeps every user covered by the reservation of its email, whether it returns or
  -- throws, if no answer of a write is lost, the identifiers that are generated are nonzero and not in
  -- use, and the shard and the workspace have nonzero names.
  pub create_user-IsConsistent :
      NoLostAnswer env
      → IsConsistent w
      → ((n : ℕ) → IsFresh (env.uuid n) w)
      → ((n : ℕ) → 0 < env.uuid n)
      → 0 < client
      → 0 < workspace
      → IsConsistent (create_user client workspace actor input env w).1
  unfolding create_user
  create_user-IsConsistent answered h fresh positive c k =
      elim (Result-cases (validate_create_user_input input env w).0) [
        | inr (thrown, e) ↦ ground (arith, e, validate-world input env w)
        | inl (v, e) ↦ ground (
          arith,
          e,
          validate-world input env w,
          create_user_steps-IsConsistent v answered h fresh positive c k,
        )
      ]
