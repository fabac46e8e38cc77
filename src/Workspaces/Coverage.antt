-- ===== src/Workspaces/Coverage.antt =====
-- The coverage of users by reservations under `transferOwnership` of modules/workspace.
use graphql_prisma_postgres.Prelude.{ℕ, refl, List, arith, update_where, All, All-update_where}
use graphql_prisma_postgres.Data.{UserType, User, owner, member}
use graphql_prisma_postgres.Effects.{World, Env, tick, write, invalidate_users}
use graphql_prisma_postgres.Identity.Coverage.{IsCovered, IsConsistent}
use graphql_prisma_postgres.Users.Members.{is_id_row}
use graphql_prisma_postgres.Users.Requests.{IsCovered-of_route}
use graphql_prisma_postgres.Workspaces.{
  set_type, hand_over, hand_over_to, transfer, transfer_ownership,
}

module _ (client id : ℕ) (t : UserType) (w : World) (us : List User) where
  IsCovered-typed :
      All (IsCovered w.reservations) us
      → All (IsCovered w.reservations) (update_where (is_id_row client id) (set_type t) us)
  IsCovered-typed h =
      All-update_where (IsCovered w.reservations) (is_id_row client id) (set_type t) us
        (λ u c. IsCovered-of_route w.reservations u (set_type t u) (refl, refl, refl, refl) c) h

transfer-IsConsistent :
    (client workspace current next : ℕ) (w : World)
    → IsConsistent w
    → IsConsistent (transfer client workspace current next w).1
unfolding transfer hand_over_to hand_over
transfer-IsConsistent client workspace current next w h =
    let demoted = update_where (is_id_row client current) (set_type member) w.users in
    let once : All (IsCovered w.reservations) demoted =
      IsCovered-typed client current member w w.users h in
    ground (arith, IsCovered-typed client next owner w demoted once)

pub transfer_ownership-IsConsistent :
    (client workspace current next : ℕ) (env : Env) (w : World)
    → IsConsistent w
    → IsConsistent (transfer_ownership client workspace current next env w).1
unfolding transfer_ownership write invalidate_users
transfer_ownership-IsConsistent client workspace current next env w h =
    ground (arith, transfer-IsConsistent client workspace current next (tick env w) h)
