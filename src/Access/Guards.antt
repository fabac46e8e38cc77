-- ===== src/Access/Guards.antt =====
-- guards/index.ts: what a resolver's caller must show before the resolver runs.
pub mod Gate
use graphql_prisma_postgres.Prelude.{
  ℕ, Bool, true, false, not, ◌&&◌, ◌||◌, Option, none, some, List, [], ◌∷◌, if◌then◌else◌, truthy,
  is_some, all, any, elem,
}
use graphql_prisma_postgres.Data.{
  UserType, owner, member, UserStatus, WorkspaceStatus, is_owner_type, is_active_user,
  is_active_workspace,
}
use graphql_prisma_postgres.Effects.{
  Error, authentication, authorization, Result, ok, err, M, throw, ◌>>=◌, ◌>>◌, require,
}

-- types/context.type.ts; of the user only the identifier is kept, and of the client the shard.
pub record Context : Type 0 where
  pub user : Option ℕ
  pub is_authenticated : Bool
  pub is_2fa_pending : Bool
  pub client : Option ℕ
  pub user_type : Option UserType
  pub workspace_id : ℕ
  pub workspace_status : Option WorkspaceStatus
  pub permissions : List ℕ
  pub user_status : Option UserStatus

-- The options of `assertAuthenticated`.
pub record AuthOptions : Type 0 where
  pub allow_2fa_pending : Bool
  pub allow_suspended_user : Bool
  pub allow_inactive_workspace : Bool

abbrev pub has_active_user : Option UserStatus → Bool
has_active_user none = false
has_active_user (some s) = is_active_user s

abbrev pub has_active_workspace : Option WorkspaceStatus → Bool
has_active_workspace none = false
has_active_workspace (some s) = is_active_workspace s

abbrev pub is_owner_context : Option UserType → Bool
is_owner_context none = false
is_owner_context (some t) = is_owner_type t

unfoldable pub assert_authenticated : Context → AuthOptions → M (Unit {0})
assert_authenticated c options = do
  require (is_some c.user && c.is_authenticated && is_some c.client && truthy c.workspace_id)
      authentication
  require (not c.is_2fa_pending || options.allow_2fa_pending) authentication
  require (options.allow_suspended_user || has_active_user c.user_status) authorization
  require (options.allow_inactive_workspace || has_active_workspace c.workspace_status)
      authorization

-- The permission test of `Protect`: every listed permission, or one of them; none is needed where
-- none is listed.
unfoldable pub has_access : List ℕ → Bool → List ℕ → Bool
has_access [] require_all held = true
has_access (p ∷ ps) require_all held =
    if require_all then all (λ q. elem q held) (p ∷ ps) else any (λ q. elem q held) (p ∷ ps)

unfoldable pub protect : {A : Type 0} → List ℕ → Bool → Bool → (Context → M A) → Context → M A
protect perms require_all allow_2fa_pending resolver c = do
  assert_authenticated c (record {
    allow_2fa_pending = allow_2fa_pending;
    allow_suspended_user = false;
    allow_inactive_workspace = false;
  })
  if is_owner_context c.user_type
      then resolver c
      else (do require (has_access perms require_all c.permissions) authorization; resolver c)

abbrev pub same_type : UserType → UserType → Bool
same_type owner owner = true
same_type member member = true
same_type _ _ = false

-- `options.roles.includes(context.userType)`
abbrev pub includes_type : List UserType → Option UserType → Bool
includes_type roles none = false
includes_type roles (some t) = any (λ r. same_type r t) roles

-- `requireAuth`; no list of roles and an empty list are the same.
unfoldable pub require_auth :
    {A : Type 0} → List UserType → AuthOptions → (Context → M A) → Context → M A
require_auth roles options resolver c = do
  assert_authenticated c options
  elim roles [
    | [] ↦ resolver c
    | r ∷ rs ↦ require (includes_type (r ∷ rs) c.user_type) authorization >> resolver c
  ]
