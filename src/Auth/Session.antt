-- ===== src/Auth/Session.antt =====
-- middleware/auth.middleware.ts and cache/user.cache.ts: the context of a request, made of its token.
-- The cache's entry is the routing hint alone, and its expiry is not modelled.
pub mod Factor
pub mod Current
use graphql_prisma_postgres.Prelude.{
  ℕ, Bool, true, false, not, ◌&&◌, ◌||◌, Option, none, some, List, [], ◌∷◌, ◌==◌, if◌then◌else◌,
  truthy, some_truthy, find?, keep, elem, lookup, insert, Dict,
}
use graphql_prisma_postgres.Data.{User, Role, Workspace, is_active_user, is_active_workspace}
use graphql_prisma_postgres.Effects.{
  World, Env, Payload, Error, dependency_unavailable, plain, Result, ok, err, M, pure, throw, ◌>>=◌,
  ◌>>◌, try_catch, read, invalidate_user,
}
use graphql_prisma_postgres.Identity.Reservation.{get_db_for_workspace, or_unavailable}
use graphql_prisma_postgres.Access.Permissions.{compute_effective_permissions}
use graphql_prisma_postgres.Access.Guards.{Context}
use graphql_prisma_postgres.Users.Members.{is_id_row, is_workspace_row, with_roles, UserWithRoles}
use graphql_prisma_postgres.Auth.Tokens.{verify_access_token, bearer_token}
use graphql_prisma_postgres.Auth.Challenge.{FoundUser, find_with_workspace, shard_of}

-- `emptyContext()`
abbrev pub empty_context : Context
empty_context = record {
  user = none;
  is_authenticated = false;
  is_2fa_pending = false;
  client = none;
  user_type = none;
  workspace_id = 0;
  workspace_status = none;
  permissions = [];
  user_status = none;
}

-- `setUser`, which does nothing where Redis is not healthy.
unfoldable pub set_user : ℕ → Option ℕ → M (Unit {0})
set_user id hint env w =
    (ok tt, if env.redis w.calls then record w { cache = insert id hint w.cache } else w)

-- `workspace?.shardId ?? shardId`
abbrev pub hint_of : FoundUser → Option ℕ
hint_of found = elim (shard_of found.workspace) [ none ↦ some found.client | some s ↦ some s ]

abbrev pub cached_hint : ℕ → Env → World → Option (Option ℕ)
cached_hint id env w = if env.redis w.calls then lookup id w.cache else none

-- `getUser` of the cache: the hint of its entry, or of the user's row, which is then cached.
unfoldable pub get_cached_user : ℕ → M (Option ℕ)
get_cached_user id env w = elim (cached_hint id env w) [
  | some hint ↦ (ok hint, w)
  | none ↦
      (do
        found ← find_with_workspace id
        elim found [ none ↦ pure none | some f ↦ set_user id (hint_of f) >> pure (hint_of f) ])
        env w
]

-- The row with its roles and its workspace, and the shard that it was found on.
pub record Loaded : Type 0 where
  pub row : UserWithRoles
  pub client : ℕ
  pub workspace : Option Workspace

abbrev pub loaded_on : World → ℕ → User → Loaded
loaded_on w shard u = record {
  row = with_roles w u;
  client = shard;
  workspace = find? (is_workspace_row shard u.workspace_id) w.workspaces;
}

abbrev pub loaded_at : World → ℕ → Option User → Option Loaded
loaded_at w shard none = none
loaded_at w shard (some u) = some (loaded_on w shard u)

abbrev pub loaded_first : World → Option (ℕ × User) → Option Loaded
loaded_first w none = none
loaded_first w (some (shard, u)) = some (loaded_on w shard u)

unfoldable pub load_from_hint : ℕ → ℕ → ℕ → M (Option Loaded)
unfolding read get_db_for_workspace
load_from_hint id workspace hint = do
  client ← get_db_for_workspace workspace (some hint)
  read (λ w. loaded_at w client (find? (is_id_row client id) w.users))

unfoldable pub load_anywhere : ℕ → M (Option Loaded)
unfolding read
load_anywhere id env w =
    read (λ w'. loaded_first w' (env.find_first (λ shard. find? (is_id_row shard id) w'.users))) env
      w

-- The hint is followed where it is there; every failure drops it.
unfoldable pub load_hinted : ℕ → ℕ → Option ℕ → M (Option Loaded)
load_hinted id workspace hint = elim hint [
  | none ↦ pure none
  | some h ↦
      if truthy h
      then try_catch (load_from_hint id workspace h) (λ _. invalidate_user id >> pure none)
      else pure none
]

abbrev pub as_unavailable : Error → Error
as_unavailable (dependency_unavailable d) = dependency_unavailable d
as_unavailable _ = dependency_unavailable plain

unfoldable pub load_user : ℕ → ℕ → Option ℕ → M (Option Loaded)
load_user id workspace hint =
    try_catch
      (do
        hinted ← load_hinted id workspace hint
        elim hinted [ some l ↦ pure (some l) | none ↦ load_anywhere id ])
      (λ e. throw (as_unavailable e))

abbrev pub role_permissions : List Role → List (List ℕ)
role_permissions [] = []
role_permissions (r ∷ rs) = r.permissions ∷ role_permissions rs

abbrev pub context_of : UserWithRoles → Workspace → ℕ → Bool → Context
context_of m k client pending = record {
  user = some m.user.id;
  is_authenticated = true;
  is_2fa_pending = pending;
  client = some client;
  user_type = some m.user.user_type;
  workspace_id = m.user.workspace_id;
  workspace_status = some k.status;
  permissions =
      compute_effective_permissions m.user.user_type (role_permissions m.roles)
        m.user.custom_permissions;
  user_status = some m.user.status;
}

abbrev pub reject : ℕ → M Context
reject id = invalidate_user id >> pure empty_context

-- The end of `createContext`, with the row and its workspace.
unfoldable pub bind_context : ℕ → Bool → UserWithRoles → Workspace → M Context
unfolding get_db_for_workspace
bind_context id pending m k = do
  client ← or_unavailable (get_db_for_workspace m.user.workspace_id k.shard_id)
  if not (is_active_workspace k.status) && not pending
      then reject id
      else (if not (is_active_user m.user.status) && not pending
          then reject id
          else (set_user id k.shard_id >> pure (context_of m k client pending)))

abbrev pub bound_context : ℕ → Bool → Option Loaded → M Context
bound_context id pending none = reject id
bound_context id pending (some l) = elim l.workspace [
  | none ↦ reject id
  | some k ↦ bind_context id pending l.row k
]

-- The user of an access token, with the workspace that it names.
abbrev pub token_user : Option Payload → Option ℕ
token_user none = none
token_user (some p) = if some_truthy p.id then p.id else none

abbrev pub is_pending_token : Option Payload → Bool
is_pending_token none = false
is_pending_token (some p) = p.is_2fa_pending

-- `decoded.workspaceId || 'unknown'`, a text that routes nothing where there is a hint.
abbrev pub token_workspace : Option Payload → ℕ
token_workspace none = 0
token_workspace (some p) = elim p.workspace_id [ none ↦ 0 | some k ↦ k ]

-- The hint is optional: a failure of the cache's look-up is none.
unfoldable pub routing_hint : ℕ → M (Option ℕ)
routing_hint id = try_catch (get_cached_user id) (λ _. pure none)

unfoldable pub context_for : Option Payload → ℕ → M Context
context_for decoded id = do
  hint ← routing_hint id
  loaded ← load_user id (token_workspace decoded) hint
  bound_context id (is_pending_token decoded) loaded

unfoldable pub create_context : List ℕ → M Context
create_context token =
    if truthy (bearer_token token)
    then (do
      decoded ← verify_access_token (bearer_token token)
      elim (token_user decoded) [ none ↦ pure empty_context | some id ↦ context_for decoded id ])
    else pure empty_context
