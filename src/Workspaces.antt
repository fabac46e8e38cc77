-- ===== src/Workspaces.antt =====
-- modules/workspace: the workspace's row, and the transfer of its ownership.
pub mod Ownership
pub mod Takeover
pub mod Slug
pub mod Update
pub mod Coverage
use graphql_prisma_postgres.Prelude.{
  ℕ, Bool, true, false, not, ◌&&◌, ◌||◌, Option, none, some, List, [], ◌∷◌, ltb, ◌==◌,
  if◌then◌else◌, any, find?, update_where, length,
}
use graphql_prisma_postgres.Data.{
  UserType, owner, member, User, Workspace, is_owner_type, is_active_user,
}
use graphql_prisma_postgres.Effects.{
  World, Env, Error, validation, authorization, not_found, prisma, p2002, p2025, Result, ok, err,
  map_prisma_error, mapped_or, M, pure, throw, ◌>>=◌, ◌>>◌, require, or_throw, try_catch, read,
  write, invalidate_users,
}
use graphql_prisma_postgres.Access.Grants.{is_member_row}
use graphql_prisma_postgres.Users.Input.{trim}
use graphql_prisma_postgres.Users.Members.{is_id_row, is_workspace_row}

-- `validateWorkspaceName`
unfoldable pub validate_workspace_name : List ℕ → Result (List ℕ)
validate_workspace_name name =
    let trimmed = trim name in
    if ltb (length trimmed) 2 || ltb 100 (length trimmed) then err validation else ok trimmed

-- `getWorkspace`
unfoldable pub get_workspace : ℕ → ℕ → M Workspace
unfolding read
get_workspace client workspace = do
  found ← read (λ w. find? (is_workspace_row client workspace) w.workspaces)
  or_throw found not_found

abbrev pub same_owner : Option ℕ → ℕ → Bool
same_owner none id = false
same_owner (some o) id = o == id

abbrev pub set_type : UserType → User → User
set_type t u = record u { user_type = t }

abbrev pub set_owner : ℕ → Workspace → Workspace
set_owner id k = record k { owner_id = some id }

-- Another workspace of the shard has this owner: the column is unique.
abbrev pub owns_another : ℕ → ℕ → ℕ → Workspace → Bool
owns_another client workspace id k =
    k.shard == client && not (k.id == workspace) && same_owner k.owner_id id

-- Another user of the workspace is its owner: the index `User_one_owner_per_workspace` of
-- prisma/migrations/20260806000000_baseline/migration.sql has one at most.
abbrev pub is_other_owner : ℕ → ℕ → ℕ → User → Bool
is_other_owner client workspace id u =
    u.shard == client
    && u.workspace_id == workspace
    && not (u.id == id)
    && is_owner_type u.user_type

-- The three updates at the end of the transaction; a row that is not there, or a key that is taken,
-- undoes them all.
unfoldable pub hand_over : ℕ → Workspace → ℕ → ℕ → World → Result Workspace × World
hand_over client row current next w = elim (find? (is_id_row client current) w.users) [
  | none ↦ (err (prisma p2025), w)
  | some _ ↦
      let demoted = update_where (is_id_row client current) (set_type member) w.users in
      if any (is_other_owner client row.id next) demoted
      then (err (prisma p2002), w)
      else if any (owns_another client row.id next) w.workspaces
      then (err (prisma p2002), w)
      else (
        ok (set_owner next row),
        record w {
          users = update_where (is_id_row client next) (set_type owner) demoted;
          workspaces = update_where (is_workspace_row client row.id) (set_owner next) w.workspaces;
        },
      )
]

-- The checks of the transaction on the user who is to be the owner.
unfoldable pub hand_over_to : ℕ → Workspace → ℕ → ℕ → World → Result Workspace × World
hand_over_to client row current next w = elim (find? (is_member_row client row.id next) w.users) [
  | none ↦ (err not_found, w)
  | some u ↦
      if not (is_active_user u.status)
      then (err validation, w)
      else if is_owner_type u.user_type
      then (err validation, w)
      else hand_over client row current next w
]

-- The transaction of `transferOwnership`.
unfoldable pub transfer : ℕ → ℕ → ℕ → ℕ → World → Result Workspace × World
transfer client workspace current next w =
    elim (find? (is_workspace_row client workspace) w.workspaces) [
      | none ↦ (err not_found, w)
      | some row ↦
          if same_owner row.owner_id current
          then hand_over_to client row current next w
          else (err authorization, w)
    ]

unfoldable pub transfer_ownership : ℕ → ℕ → ℕ → ℕ → M Workspace
unfolding write
transfer_ownership client workspace current next = do
  require (not (next == current)) validation
  try_catch
      (do
        row ← write (transfer client workspace current next)
        invalidate_users (current ∷ next ∷ [])
        pure row)
      (λ e. throw (mapped_or (map_prisma_error e) e))
