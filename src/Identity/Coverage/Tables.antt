-- ===== src/Identity/Coverage/Tables.antt =====
-- The invariant under the statements on the reservation table.
use graphql_prisma_postgres.Prelude.{
  ℕ, ◌≡◌, inl, inr, refl, Bool, none, some, arith, Option-cases, lookup,
}
use graphql_prisma_postgres.Data.{Reservation}
use graphql_prisma_postgres.Effects.{World, Env, ok}
use graphql_prisma_postgres.Identity.Reservation.{
  update_many, delete_many, is_pending_of, activate, find_routed_user, route_of, release_expired,
  reconcile_routed_pending, reconcile_row, is_expired_pending_of,
}
use graphql_prisma_postgres.Identity.Coverage.{
  IsConsistent, IsUnused, All-IsCovered-erase, All-IsCovered-insert, unused_of_unrouted,
  unused_of_missing,
}

-- Rows may go only where nobody uses the email.
pub delete_many-IsConsistent :
    (email : ℕ) (test : Reservation → Bool) (env : Env) (w : World)
    → IsConsistent w
    → IsUnused email w
    → IsConsistent (delete_many email test env w).1
unfolding delete_many
delete_many-IsConsistent email test env w h unused =
    ground (arith, All-IsCovered-erase w.reservations email w.users h unused)

-- An update that leaves the route alone.
pub update_many-IsConsistent :
    (email : ℕ) (test : Reservation → Bool) (f : Reservation → Reservation) (env : Env) (w : World)
    → ((r : Reservation) → (f r).user_id ≡ r.user_id)
    → ((r : Reservation) → (f r).workspace_id ≡ r.workspace_id)
    → ((r : Reservation) → (f r).shard_id ≡ r.shard_id)
    → IsConsistent w
    → IsConsistent (update_many email test f env w).1
unfolding update_many
update_many-IsConsistent email test f env w f1 f2 f3 h =
    elim (Option-cases (lookup email w.reservations)) [
      | inl missing ↦ ground arith
      | inr (r, found) ↦ ground (
        arith,
        All-IsCovered-insert w.reservations email r (f r) w.users found (f1 r) (f2 r) (f3 r) h,
      )
    ]

pub release_expired-IsConsistent :
    (email user : ℕ) (env : Env) (w : World)
    → IsConsistent w
    → IsUnused email w
    → IsConsistent (release_expired email user env w).1
unfolding release_expired
release_expired-IsConsistent email user env w h unused =
    ground
      (arith, delete_many-IsConsistent email (is_expired_pending_of user w.clock) env w h unused)

-- The routed lookup changes no table.
pub find_routed_user-IsConsistent :
    (email user workspace shard : ℕ) (env : Env) (w : World)
    → IsConsistent w
    → IsConsistent (find_routed_user email user workspace shard env w).1
unfolding find_routed_user
find_routed_user-IsConsistent email user workspace shard env w h = ground arith

-- It finds nobody only where nobody uses the email.
pub find_routed_user-IsUnused :
    (email workspace shard : ℕ) (r : Reservation) (env : Env) (w : World)
    → IsConsistent w
    → lookup email w.reservations ≡ some r
    → route_of r ≡ some (workspace, shard)
    → (find_routed_user email r.user_id workspace shard env w).0 ≡ ok none
    → IsUnused email (find_routed_user email r.user_id workspace shard env w).1
unfolding find_routed_user
find_routed_user-IsUnused email workspace shard r env w h found routed e =
    ground (arith, unused_of_missing w.reservations email r w.users shard workspace found routed h)

pub reconcile_routed_pending-IsConsistent :
    (email workspace shard : ℕ) (r : Reservation) (env : Env) (w : World)
    → IsConsistent w
    → lookup email w.reservations ≡ some r
    → route_of r ≡ some (workspace, shard)
    → IsConsistent (reconcile_routed_pending email r.user_id workspace shard env w).1
unfolding reconcile_routed_pending
reconcile_routed_pending-IsConsistent email workspace shard r env w h found routed =
    let w' = (find_routed_user email r.user_id workspace shard env w).1 in
    let h' : IsConsistent w' =
      find_routed_user-IsConsistent email r.user_id workspace shard env w h in
    ground (
      arith,
      find_routed_user-IsUnused email workspace shard r env w h found routed,
      release_expired-IsConsistent email r.user_id env w' h',
      update_many-IsConsistent email (is_pending_of r.user_id) activate env w' (λ _. refl)
          (λ _. refl) (λ _. refl) h',
    )

pub reconcile_row-IsConsistent :
    (email : ℕ) (r : Reservation) (env : Env) (w : World)
    → IsConsistent w
    → lookup email w.reservations ≡ some r
    → IsConsistent (reconcile_row email r env w).1
unfolding reconcile_row
reconcile_row-IsConsistent email r env w h found = elim (Option-cases (route_of r)) [
  | inl unrouted ↦ ground (
    arith,
    unrouted,
    release_expired-IsConsistent email r.user_id env w h
        (unused_of_unrouted w.reservations email r w.users found (inl unrouted) h),
  )
  | inr ((workspace, shard), routed) ↦ ground (
    arith,
    routed,
    reconcile_routed_pending-IsConsistent email workspace shard r env w h found routed,
    λ (z : r.user_id ≡ 0).
        release_expired-IsConsistent email r.user_id env w h
          (unused_of_unrouted w.reservations email r w.users found (inr z) h),
  )
]
