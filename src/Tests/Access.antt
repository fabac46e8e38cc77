-- ===== src/Tests/Access.antt =====
-- Guards and permissions, run on concrete callers.
use graphql_prisma_postgres.Prelude.{
  ℕ, ◌≡◌, refl, true, false, ◌&&◌, ◌||◌, some, List, [], ◌∷◌, arith, All, text, elem,
}
use graphql_prisma_postgres.Data.{UserStatus, member}
use graphql_prisma_postgres.Effects.{ok, pure}
use graphql_prisma_postgres.Access.Guards.{protect}
use graphql_prisma_postgres.Access.Guards.Gate.{Passes, protect-Passes, protect-not_Passes, Stops}
use graphql_prisma_postgres.Access.Permissions.{
  compute_effective_permissions, is_permission_id, to_permission_ids, to_graphql_permissions,
  all_permissions, to_permission_id, to_id_in,
}
use graphql_prisma_postgres.Access.Permissions.Effective.{elem-compute_effective_permissions}
use graphql_prisma_postgres.Access.Permissions.Catalog.{to_permission_ids-to_graphql_permissions}
use graphql_prisma_postgres.Examples.{calm, office, caller}

abbrev readers : List ℕ
readers = text "users.read" ∷ []

active_caller-Passes : Passes readers true false (caller (some UserStatus.active))
active_caller-Passes = ground arith

protect-Passes_example :
    protect readers true false (λ c. pure c.user) (caller (some UserStatus.active)) calm office
    ≡ pure (some 11) calm office
protect-Passes_example =
    protect-Passes readers true false (λ c. pure c.user) (caller (some UserStatus.active)) calm
      office active_caller-Passes

suspended_caller-not_Passes : ¬ Passes readers true false (caller (some UserStatus.suspended))
suspended_caller-not_Passes p = ground (arith, p.active_caller.user_active)

protect-not_Passes_example :
    Stops office (
      protect readers true false
        (λ c. pure c.user)
        (caller (some UserStatus.suspended))
        calm
        office)
protect-not_Passes_example =
    protect-not_Passes readers true false (λ c. pure c.user) (caller (some UserStatus.suspended))
      calm office suspended_caller-not_Passes

elem-compute_effective_permissions_example :
    elem 5 (compute_effective_permissions member ((5 ∷ text "users.read" ∷ []) ∷ []) (5 ∷ []))
    ≡ (is_permission_id 5 && (false || true || true))
elem-compute_effective_permissions_example =
    elem-compute_effective_permissions 5 member ((5 ∷ text "users.read" ∷ []) ∷ []) (5 ∷ [])

readers-in_catalog : All (λ id. is_permission_id id ≡ true) readers
unfolding is_permission_id all_permissions
readers-in_catalog = (refl, tt)

to_permission_ids-to_graphql_permissions_example :
    to_permission_ids (to_graphql_permissions readers) ≡ ok readers
to_permission_ids-to_graphql_permissions_example =
    to_permission_ids-to_graphql_permissions readers readers-in_catalog

named_readers : to_permission_ids (text "USERS_READ" ∷ []) ≡ ok readers
unfolding to_permission_ids to_permission_id to_id_in
named_readers = refl
