-- ===== src/Auth/Session/Current.antt =====
-- The rows behind the contexts of middleware/auth.middleware.ts.
use graphql_prisma_postgres.Prelude.{
  ℕ, ◌≡◌, ◌⊎◌, inl, inr, Bool, true, false, Option, none, some, List, arith, Option-cases,
  Bool-cases, truthy, some_truthy, find?,
}
use mathlib.Core.Path.{subst}
use graphql_prisma_postgres.Data.{User, UserStatus, Workspace, WorkspaceStatus}
use graphql_prisma_postgres.Effects.{
  World, Env, Payload, access_secret, ok, Result-cases, invalidate_user,
}
use graphql_prisma_postgres.Identity.Resolve.Routing.{FindsFirst}
use graphql_prisma_postgres.Access.Permissions.{compute_effective_permissions}
use graphql_prisma_postgres.Access.Guards.{Context}
use graphql_prisma_postgres.Users.Members.{is_id_row, is_workspace_row, with_roles}
use graphql_prisma_postgres.Auth.Tokens.{verify_access_token, bearer_token, accepted_access}
use graphql_prisma_postgres.Auth.Challenge.{find_with_workspace}
use graphql_prisma_postgres.Auth.Session.{
  Loaded, loaded_on, get_cached_user, set_user, routing_hint, load_from_hint, load_anywhere,
  load_hinted, load_user, bind_context, bound_context, token_user, token_workspace,
  is_pending_token, context_for, create_context, role_permissions,
}

-- The tables that a context is made of are left alone.
abbrev SameRows : World → World → Type 0
SameRows w w' = (w'.users ≡ w.users) × (w'.workspaces ≡ w.workspaces) × (w'.roles ≡ w.roles)

routing_hint-SameRows : (id : ℕ) (env : Env) (w : World) → SameRows w (routing_hint id env w).1
unfolding routing_hint get_cached_user find_with_workspace set_user
routing_hint-SameRows id env w = ground arith

load_hinted-SameRows :
    (id workspace : ℕ) (hint : Option ℕ) (env : Env) (w : World)
    → SameRows w (load_hinted id workspace hint env w).1
unfolding load_hinted load_from_hint invalidate_user
load_hinted-SameRows id workspace hint env w = ground arith

-- What was loaded is the row of the id on some shard, with its roles and its workspace.
abbrev IsLoadedFrom : World → ℕ → Loaded → Type 0
IsLoadedFrom w id l =
    (s : ℕ) × (u : User) × (find? (is_id_row s id) w.users ≡ some u) × (l ≡ loaded_on w s u)

load_from_hint-IsLoadedFrom :
    (id workspace hint : ℕ) (env : Env) (w : World) (l : Loaded)
    → truthy hint ≡ true
    → (load_from_hint id workspace hint env w).0 ≡ ok (some l)
    → IsLoadedFrom w id l
unfolding load_from_hint
load_from_hint-IsLoadedFrom id workspace hint env w l named e =
    elim (Option-cases (find? (is_id_row hint id) w.users)) [
      | inl missing ↦ absurd (ground (arith, missing))
      | inr (u, there) ↦ (hint, u, there, ground (arith, there))
    ]

load_anywhere-IsLoadedFrom :
    (id : ℕ) (env : Env) (w : World) (l : Loaded)
    → FindsFirst env
    → (load_anywhere id env w).0 ≡ ok (some l)
    → IsLoadedFrom w id l
unfolding load_anywhere
load_anywhere-IsLoadedFrom id env w l law e =
    elim (Option-cases (env.find_first (λ shard. find? (is_id_row shard id) w.users))) [
      | inl missing ↦ absurd (ground (arith, missing))
      | inr ((s, u), found) ↦
          (s, u, law (λ shard. find? (is_id_row shard id) w.users) s u found, ground (arith, found))
    ]

load_hinted-IsLoadedFrom :
    (id workspace : ℕ) (hint : Option ℕ) (env : Env) (w : World) (l : Loaded)
    → (load_hinted id workspace hint env w).0 ≡ ok (some l)
    → IsLoadedFrom w id l
unfolding load_hinted invalidate_user
load_hinted-IsLoadedFrom id workspace none env w l e = absurd (ground arith)
load_hinted-IsLoadedFrom id workspace (some hint) env w l e = elim (Bool-cases (truthy hint)) [
  | inr empty ↦ absurd (ground (arith, empty))
  | inl named ↦ load_from_hint-IsLoadedFrom id workspace hint env w l named (ground (arith, named))
]

load_user-IsLoadedFrom :
    (id workspace : ℕ) (hint : Option ℕ) (env : Env) (w : World) (l : Loaded)
    → FindsFirst env
    → (load_user id workspace hint env w).0 ≡ ok (some l)
    → IsLoadedFrom w id l
unfolding load_user
load_user-IsLoadedFrom id workspace hint env w l law e =
    let w1 = (load_hinted id workspace hint env w).1 in
    let same : SameRows w w1 = load_hinted-SameRows id workspace hint env w in
    elim (Result-cases (load_hinted id workspace hint env w).0) [
      | inr (thrown, q) ↦ absurd (ground (arith, q))
      | inl (some l', q) ↦ load_hinted-IsLoadedFrom id workspace hint env w l (ground (arith, q))
      | inl (none, q) ↦
          let (s, u, there, shape) =
            load_anywhere-IsLoadedFrom id env w1 l law (ground (arith, q)) in
          (s, u, rw (same.0) at there, rw (same.1, same.2) at shape)
    ]

-- What a context says of a user's row and of its workspace's row, found in the tables.
pub record IsContextOf (w : World) (id : ℕ) (c : Context) (s : ℕ) (u : User) (k : Workspace)
    : Type 0 where
  pub found : find? (is_id_row s id) w.users ≡ some u
  pub in_workspace : find? (is_workspace_row s u.workspace_id) w.workspaces ≡ some k
  pub same_user : c.user ≡ some u.id
  pub same_type : c.user_type ≡ some u.user_type
  pub same_workspace : c.workspace_id ≡ u.workspace_id
  pub same_status : c.user_status ≡ some u.status
  pub same_workspace_status : c.workspace_status ≡ some k.status
  pub in_effect :
      c.permissions
      ≡ compute_effective_permissions u.user_type
          (role_permissions (with_roles w u).roles)
          u.custom_permissions
  pub routed : (some_truthy k.shard_id ≡ false) ⊎ (c.client ≡ k.shard_id)
  pub may_act :
      (c.is_2fa_pending ≡ true)
      ⊎ ((u.status ≡ UserStatus.active) × (k.status ≡ WorkspaceStatus.active))

-- A row and its workspace.
abbrev Shown : World → ℕ → Context → Type 0
Shown w id c = (s : ℕ) × (u : User) × (k : Workspace) × IsContextOf w id c s u k

bind_context-shows :
    (id s : ℕ) (pending : Bool) (u : User) (k : Workspace) (env : Env) (w w0 : World) (c : Context)
    → find? (is_id_row s id) w0.users ≡ some u
    → find? (is_workspace_row s u.workspace_id) w0.workspaces ≡ some k
    → (bind_context id pending (with_roles w0 u) k env w).0 ≡ ok c
    → c.is_authenticated ≡ true
    → IsContextOf w0 id c s u k
unfolding bind_context set_user
bind_context-shows id s pending u k env w w0 c found in_workspace e authenticated = ground arith

bound_context-shows :
    (id : ℕ) (pending : Bool) (l : Loaded) (env : Env) (w w0 : World) (c : Context)
    → IsLoadedFrom w0 id l
    → (bound_context id pending (some l) env w).0 ≡ ok c
    → c.is_authenticated ≡ true
    → Shown w0 id c
unfolding invalidate_user
bound_context-shows id pending l env w w0 c (s, u, there, shape) e authenticated =
    let e' : (bound_context id pending (some (loaded_on w0 s u)) env w).0 ≡ ok c =
      subst (λ x. (bound_context id pending (some x) env w).0 ≡ ok c) shape e in
    elim (Option-cases (find? (is_workspace_row s u.workspace_id) w0.workspaces)) [
      | inl missing ↦ absurd (ground (arith, missing))
      | inr (k, found) ↦ (
        s,
        u,
        k,
        bind_context-shows id s pending u k env w w0 c there found (ground (arith, found))
            authenticated,
      )
    ]

loaded_before :
    (w w1 : World) (id : ℕ) (l : Loaded)
    → SameRows w w1
    → IsLoadedFrom w1 id l
    → IsLoadedFrom w id l
loaded_before w w1 id l same (s, u, there, shape) =
    (s, u, rw (same.0) at there, rw (same.1, same.2) at shape)

context_for-shows :
    (decoded : Option Payload) (id : ℕ) (env : Env) (w : World) (c : Context)
    → FindsFirst env
    → (context_for decoded id env w).0 ≡ ok c
    → c.is_authenticated ≡ true
    → Shown w id c
unfolding context_for invalidate_user
context_for-shows decoded id env w c law e authenticated =
    elim (Result-cases (routing_hint id env w).0) [
      | inr (thrown, q) ↦ absurd (ground (arith, q))
      | inl (hint, q) ↦
          let w1 = (routing_hint id env w).1 in
          let w2 = (load_user id (token_workspace decoded) hint env w1).1 in
          elim (Result-cases (load_user id (token_workspace decoded) hint env w1).0) [
            | inr (thrown, r) ↦ absurd (ground (arith, q, r))
            | inl (none, r) ↦ absurd (ground (arith, q, r))
            | inl (some l, r) ↦
                bound_context-shows id (is_pending_token decoded) l env w2 w c
                  (loaded_before w w1 id l (routing_hint-SameRows id env w)
                    (load_user-IsLoadedFrom id (token_workspace decoded) hint env w1 l law r))
                  (ground (arith, q, r)) authenticated
          ]
    ]

-- An authenticated context shows the tables as they are: its token names a user whose row and whose
-- workspace's row are found on a shard; the context carries their types and statuses and exactly the
-- permissions in effect by the row and its roles; its client is the shard that the workspace records;
-- and unless the second factor is open, the user and the workspace are active. The cache is no source
-- for any of it. Of the search across the shards it is assumed that it only reports what its query has
-- found.
pub create_context-IsContextOf :
    (token : List ℕ) (env : Env) (w : World) (c : Context)
    → FindsFirst env
    → (create_context token env w).0 ≡ ok c
    → c.is_authenticated ≡ true
    → (id : ℕ) × (token_user
          (accepted_access (env.auth.verify access_secret w.clock (bearer_token token)))
        ≡ some id)
      × ((s : ℕ) × (u : User) × (k : Workspace) × IsContextOf w id c s u k)
unfolding create_context verify_access_token
create_context-IsContextOf token env w c law e authenticated =
    let decoded = accepted_access (env.auth.verify access_secret w.clock (bearer_token token)) in
    elim (Option-cases (token_user decoded)) [
      | inl missing ↦ absurd (ground (arith, missing))
      | inr (id, named) ↦ (
        id,
        named,
        context_for-shows decoded id env w c law (ground (arith, named)) authenticated,
      )
    ]
