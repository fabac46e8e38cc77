-- ===== src/Tests/Workspaces.antt =====
-- Transfers of ownership, roles and refresh tokens, run on concrete states.
use graphql_prisma_postgres.Prelude.{
  ◌≡◌, ◌↔◌, refl, true, false, not, ◌&&◌, ◌||◌, none, [], ◌∷◌, arith, text, codes, ◌==◌, elem,
  lookup,
}
use graphql_prisma_postgres.Data.{Role, Workspace}
use graphql_prisma_postgres.Effects.{World, ok, err, authentication}
use graphql_prisma_postgres.Access.Permissions.{is_permission_id, all_permissions}
use graphql_prisma_postgres.Users.Changes.{undefined, value}
use graphql_prisma_postgres.Workspaces.{transfer_ownership}
use graphql_prisma_postgres.Workspaces.Ownership.{HasOneOwner, transfer_ownership-HasOneOwner}
use graphql_prisma_postgres.Workspaces.Takeover.{MayTakeOver, transfer_ownership-returns}
use graphql_prisma_postgres.Roles.{update_role}
use graphql_prisma_postgres.Roles.Catalog.{RolesInCatalog}
use graphql_prisma_postgres.Roles.System.{HasKeys, StoredAt, update_role-keeps_system}
use graphql_prisma_postgres.Sessions.{tokens, assert_rotated}
use graphql_prisma_postgres.Sessions.Rotation.{
  assert_rotated-tokens, assert_rotated-reuse, assert_rotated-twice, assert_rotated-others,
}
use graphql_prisma_postgres.Examples.{calm, office}

office-HasOneOwner : HasOneOwner 1 7 office
office-HasOneOwner = ground arith

transfer_ownership-HasOneOwner_example :
    HasOneOwner 1 7 (transfer_ownership 1 7 10 11 calm office).1
transfer_ownership-HasOneOwner_example =
    transfer_ownership-HasOneOwner 1 7 10 11 calm office office-HasOneOwner

transfer_ownership-returns_example :
    ((k : Workspace) × ((transfer_ownership 1 7 10 11 calm office).0 ≡ ok k))
    ↔ MayTakeOver 1 7 10 11 office.workspaces office.users
transfer_ownership-returns_example =
    transfer_ownership-returns 1 7 10 11 calm office refl office-HasOneOwner

-- A shard with the system role of a workspace and another role.
abbrev admin : Role
admin = record {
  id = 50;
  shard = 1;
  name = text "Admin";
  description = none;
  permissions = text "users.read" ∷ text "roles.read" ∷ [];
  is_system = true;
  workspace_id = 7;
}

abbrev reader : Role
reader = record admin { id = 51; name = text "Reader"; is_system = false }

abbrev staffed : World
staffed = record office { roles = admin ∷ reader ∷ [] }

staffed-InCatalog : RolesInCatalog staffed
unfolding is_permission_id all_permissions
staffed-InCatalog = ((refl, (refl, tt)), ((refl, (refl, tt)), tt))

staffed-HasKeys : HasKeys staffed.roles
staffed-HasKeys = ground arith

update_role-keeps_system_example :
    StoredAt 1 50 admin (update_role 1 7 51 (value (codes "Writer")) undefined none calm staffed).1
update_role-keeps_system_example =
    update_role-keeps_system 1 50 admin 1 7 51 calm staffed staffed-HasKeys refl refl
      (value (codes "Writer")) undefined none

-- User 10 has two sessions, user 11 has one.
abbrev signed_in : World
signed_in = record office { sessions = (10, 1 ∷ 2 ∷ []) ∷ (11, 3 ∷ []) ∷ [] }

assert_rotated-tokens_example :
    (((assert_rotated 10 1 4 calm signed_in).0 ≡ ok tt) ↔ (elem 1 (tokens 10 signed_in) ≡ true))
    × (elem 2 (tokens 10 (assert_rotated 10 1 4 calm signed_in).1) ≡ (
        elem 1 (tokens 10 signed_in) && (2 == 4 || (not (2 == 1) && elem 2 (tokens 10 signed_in)))))
assert_rotated-tokens_example = assert_rotated-tokens 10 1 4 calm signed_in (λ _. refl) 2

assert_rotated-reuse_example :
    ((assert_rotated 10 9 4 calm signed_in).0 ≡ err authentication)
    × (tokens 10 (assert_rotated 10 9 4 calm signed_in).1 ≡ [])
unfolding tokens lookup
assert_rotated-reuse_example = assert_rotated-reuse 10 9 4 calm signed_in (λ _. refl) refl

assert_rotated-twice_example :
    ((assert_rotated 10 1 5 calm (assert_rotated 10 1 4 calm signed_in).1).0 ≡ err authentication)
    × (tokens 10 (assert_rotated 10 1 5 calm (assert_rotated 10 1 4 calm signed_in).1).1 ≡ [])
assert_rotated-twice_example =
    assert_rotated-twice 10 1 4 5 calm signed_in (λ _. refl) (λ e. absurd (omega arith))

assert_rotated-others_example :
    tokens 11 (assert_rotated 10 9 4 calm signed_in).1 ≡ tokens 11 signed_in
assert_rotated-others_example =
    assert_rotated-others 10 11 9 4 calm signed_in (λ e. absurd (omega arith))
