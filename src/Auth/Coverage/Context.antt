-- ===== src/Auth/Coverage/Context.antt =====
-- What the contexts of middleware/auth.middleware.ts leave alone: all rows of the databases.
use graphql_prisma_postgres.Prelude.{
  ℕ, ◌≡◌, inl, inr, Bool, Option, none, some, List, arith, Option-cases,
}
use graphql_prisma_postgres.Data.{Workspace}
use graphql_prisma_postgres.Effects.{
  World, Env, Payload, access_secret, Result-cases, invalidate_user,
}
use graphql_prisma_postgres.Identity.Coverage.{IsConsistent}
use graphql_prisma_postgres.Users.Members.{UserWithRoles}
use graphql_prisma_postgres.Auth.Tokens.{verify_access_token, bearer_token, accepted_access}
use graphql_prisma_postgres.Auth.Challenge.{find_with_workspace}
use graphql_prisma_postgres.Auth.Session.{
  set_user, get_cached_user, load_from_hint, load_anywhere, load_hinted, load_user, Loaded,
  bind_context, bound_context, routing_hint, context_for, token_user, create_context,
  token_workspace, is_pending_token,
}

-- Only the cache, the clock and the count of calls may differ.
pub record SameRows (w w' : World) : Type 0 where
  pub reservations : w'.reservations ≡ w.reservations
  pub users : w'.users ≡ w.users
  pub workspaces : w'.workspaces ≡ w.workspaces
  pub roles : w'.roles ≡ w.roles
  pub sessions : w'.sessions ≡ w.sessions

SameRows-trans : (u v w : World) → SameRows u v → SameRows v w → SameRows u w
SameRows-trans u v w h k = ground (
  arith, h.reservations, h.users, h.workspaces, h.roles, h.sessions, k.reservations, k.users,
  k.workspaces, k.roles, k.sessions,
)

routing_hint-SameRows : (id : ℕ) (env : Env) (w : World) → SameRows w (routing_hint id env w).1
unfolding routing_hint get_cached_user find_with_workspace set_user
routing_hint-SameRows id env w = ground arith

load_user-SameRows :
    (id workspace : ℕ) (hint : Option ℕ) (env : Env) (w : World)
    → SameRows w (load_user id workspace hint env w).1
unfolding load_user load_hinted load_from_hint load_anywhere invalidate_user
load_user-SameRows id workspace hint env w = ground arith

bind_context-SameRows :
    (id : ℕ) (pending : Bool) (m : UserWithRoles) (k : Workspace) (env : Env) (w : World)
    → SameRows w (bind_context id pending m k env w).1
unfolding bind_context invalidate_user set_user
bind_context-SameRows id pending m k env w = ground arith

bound_context-SameRows :
    (id : ℕ) (pending : Bool) (l : Option Loaded) (env : Env) (w : World)
    → SameRows w (bound_context id pending l env w).1
unfolding invalidate_user
bound_context-SameRows id pending none env w = ground arith
bound_context-SameRows id pending (some l) env w = elim (Option-cases l.workspace) [
  | inl missing ↦ ground (arith, missing)
  | inr (k, there) ↦ ground (arith, there, bind_context-SameRows id pending l.row k env w)
]

context_for-SameRows :
    (p : Option Payload) (id : ℕ) (env : Env) (w : World) → SameRows w (context_for p id env w).1
unfolding context_for
context_for-SameRows p id env w =
    let w1 = (routing_hint id env w).1 in
    let s1 : SameRows w w1 = routing_hint-SameRows id env w in
    elim (Result-cases (routing_hint id env w).0) [
      | inr (thrown, q) ↦ ground (arith, q, s1)
      | inl (hint, q) ↦
          let w2 = (load_user id (token_workspace p) hint env w1).1 in
          let s2 : SameRows w1 w2 = load_user-SameRows id (token_workspace p) hint env w1 in
          elim (Result-cases (load_user id (token_workspace p) hint env w1).0) [
            | inr (thrown, r) ↦ ground (arith, q, r, SameRows-trans w w1 w2 s1 s2)
            | inl (l, r) ↦
                let w3 = (bound_context id (is_pending_token p) l env w2).1 in
                let s3 : SameRows w2 w3 = bound_context-SameRows id (is_pending_token p) l env w2 in
                ground (arith, q, r, SameRows-trans w w2 w3 (SameRows-trans w w1 w2 s1 s2) s3)
          ]
    ]

-- Making the context of a request changes no row of a database and no session, whatever the token is
-- and however the calls end.
pub create_context-SameRows :
    (token : List ℕ) (env : Env) (w : World) → SameRows w (create_context token env w).1
unfolding create_context verify_access_token
create_context-SameRows token env w =
    let decoded = accepted_access (env.auth.verify access_secret w.clock (bearer_token token)) in
    elim (Option-cases (token_user decoded)) [
      | inl missing ↦ ground (arith, missing)
      | inr (id, there) ↦ ground (arith, there, context_for-SameRows decoded id env w)
    ]

pub create_context-IsConsistent :
    (token : List ℕ) (env : Env) (w : World)
    → IsConsistent w
    → IsConsistent (create_context token env w).1
create_context-IsConsistent token env w h =
    let s = create_context-SameRows token env w in rw (s.users, s.reservations) h
