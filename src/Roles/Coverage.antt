-- ===== src/Roles/Coverage.antt =====
-- The coverage of users by reservations under the deletion of a role, of modules/role.
use graphql_prisma_postgres.Prelude.{ℕ, refl, [], ◌∷◌, arith, All-update_where}
use graphql_prisma_postgres.Effects.{World, Env, tick}
use graphql_prisma_postgres.Identity.Coverage.{IsCovered, IsConsistent}
use graphql_prisma_postgres.Users.Changes.{drop_roles}
use graphql_prisma_postgres.Users.Requests.{IsCovered-of_route}
use graphql_prisma_postgres.Roles.{is_on, get_workspace_role, delete_role_row, delete_role}

delete_role_row-IsConsistent :
    (client id : ℕ) (env : Env) (w : World)
    → IsConsistent w
    → IsConsistent (delete_role_row client id env w).1
unfolding delete_role_row
delete_role_row-IsConsistent client id env w h = ground (
  arith,
  All-update_where (IsCovered w.reservations) (is_on client) (drop_roles (id ∷ [])) w.users
      (λ u c.
        IsCovered-of_route w.reservations u (drop_roles (id ∷ []) u) (refl, refl, refl, refl) c)
      h,
)

pub delete_role-IsConsistent :
    (client workspace id : ℕ) (env : Env) (w : World)
    → IsConsistent w
    → IsConsistent (delete_role client workspace id env w).1
unfolding delete_role get_workspace_role
delete_role-IsConsistent client workspace id env w h =
    ground (arith, delete_role_row-IsConsistent client id env (tick env w) h)
