-- ===== src/Identity/Coverage/Releasing.antt =====
-- The invariant under activation, the release marker and the reconciliations of releases, of
-- identity/email-reservation.service.ts.
use graphql_prisma_postgres.Prelude.{
  ℕ, ◌≡◌, inl, inr, refl, some, List, [], ◌∷◌, arith, Option-cases, lookup, ◌==◌,
}
use graphql_prisma_postgres.Data.{Reservation}
use graphql_prisma_postgres.Effects.{World, Env, tick}
use graphql_prisma_postgres.Identity.Reservation.{
  find_reservation, update_many, delete_many, is_pending_of, activate, route_of, find_routed_user,
}
use graphql_prisma_postgres.Identity.Release.{
  activate_email_reservation, activate_after_shard_commit, release_email_reservation,
  release_after_failed_shard_write, is_markable_of, mark, mark_release_pending,
  mark_release_pending_before_delete, is_release_pending_of, finalize_release_after_user_delete,
  has_status, reconcile_routed_release, reconcile_release_pending, Summary, tally, reconcile_rows,
  reconcile_all_release_pending, release_pending_rows, no_outcomes,
}
use graphql_prisma_postgres.Identity.Coverage.{IsConsistent, IsUnused}
use graphql_prisma_postgres.Identity.Coverage.Tables.{
  delete_many-IsConsistent, update_many-IsConsistent, find_routed_user-IsConsistent,
  find_routed_user-IsUnused,
}

pub activate_email_reservation-IsConsistent :
    (email user : ℕ) (env : Env) (w : World)
    → IsConsistent w
    → IsConsistent (activate_email_reservation email user env w).1
unfolding activate_email_reservation find_reservation
activate_email_reservation-IsConsistent email user env w h = ground (
  arith,
  update_many-IsConsistent email (is_pending_of user) activate env w (λ _. refl) (λ _. refl)
      (λ _. refl) h,
)

pub activate_after_shard_commit-IsConsistent :
    (email user : ℕ) (env : Env) (w : World)
    → IsConsistent w
    → IsConsistent (activate_after_shard_commit email user env w).1
unfolding activate_after_shard_commit
activate_after_shard_commit-IsConsistent email user env w h =
    ground (arith, activate_email_reservation-IsConsistent email user env w h)

-- The clean-up after a failed insert is safe where the insert has left no user.
pub release_after_failed-IsConsistent :
    (email user : ℕ) (env : Env) (w : World)
    → IsConsistent w
    → IsUnused email w
    → IsConsistent (release_after_failed_shard_write email user env w).1
unfolding release_after_failed_shard_write release_email_reservation
release_after_failed-IsConsistent email user env w h unused =
    ground (arith, delete_many-IsConsistent email (λ r. r.user_id == user) env w h unused)

pub mark_before_delete-IsConsistent :
    (email user : ℕ) (env : Env) (w : World)
    → IsConsistent w
    → IsConsistent (mark_release_pending_before_delete email user env w).1
unfolding mark_release_pending_before_delete mark_release_pending find_reservation
mark_before_delete-IsConsistent email user env w h = ground (
  arith,
  update_many-IsConsistent email (is_markable_of user) mark env w (λ _. refl) (λ _. refl)
      (λ _. refl) h,
)

pub finalize_release-IsConsistent :
    (email user : ℕ) (env : Env) (w : World)
    → IsConsistent w
    → IsUnused email w
    → IsConsistent (finalize_release_after_user_delete email user env w).1
unfolding finalize_release_after_user_delete
finalize_release-IsConsistent email user env w h unused =
    ground (arith, delete_many-IsConsistent email (is_release_pending_of user) env w h unused)

reconcile_routed_release-IsConsistent :
    (email user workspace shard : ℕ) (r : Reservation) (env : Env) (w : World)
    → IsConsistent w
    → lookup email w.reservations ≡ some r
    → route_of r ≡ some (workspace, shard)
    → IsConsistent (reconcile_routed_release email user r workspace shard env w).1
unfolding reconcile_routed_release
reconcile_routed_release-IsConsistent email user workspace shard r env w h found routed =
    let w' = (find_routed_user email r.user_id workspace shard env w).1 in
    let h' : IsConsistent w' =
      find_routed_user-IsConsistent email r.user_id workspace shard env w h in
    ground (
      arith,
      find_routed_user-IsUnused email workspace shard r env w h found routed,
      delete_many-IsConsistent email (has_status user r.status) env w' h',
      update_many-IsConsistent email (is_release_pending_of user) activate env w' (λ _. refl)
          (λ _. refl) (λ _. refl) h',
    )

-- The reconciliation of one release removes no row that a user still needs.
pub reconcile_release_pending-IsConsistent :
    (email user : ℕ) (env : Env) (w : World)
    → IsConsistent w
    → IsConsistent (reconcile_release_pending email user env w).1
unfolding reconcile_release_pending find_reservation
reconcile_release_pending-IsConsistent email user env w h =
    elim (Option-cases (lookup email w.reservations)) [
      | inl missing ↦ ground arith
      | inr (r, found) ↦ elim (Option-cases (route_of r)) [
        | inl unrouted ↦ ground (arith, found, unrouted)
        | inr ((workspace, shard), routed) ↦ ground (
          arith,
          found,
          routed,
          reconcile_routed_release-IsConsistent email user workspace shard r env (tick env w) h
              found routed,
        )
      ]
    ]

reconcile_rows-IsConsistent :
    (rows : List (ℕ × ℕ)) (s : Summary) (env : Env) (w : World)
    → IsConsistent w
    → IsConsistent (reconcile_rows rows s env w).1
unfolding reconcile_rows
reconcile_rows-IsConsistent [] s env w h = h
reconcile_rows-IsConsistent ((email, user) ∷ rows) s env w h =
    let (r, w') = reconcile_release_pending email user env w in
    reconcile_rows-IsConsistent rows (tally r s) env w'
      (reconcile_release_pending-IsConsistent email user env w h)

-- The batch over the pending releases keeps every user covered by the reservation of its email,
-- however its calls end.
pub reconcile_all-IsConsistent :
    (env : Env) (w : World) → IsConsistent w → IsConsistent (reconcile_all_release_pending env w).1
unfolding reconcile_all_release_pending
reconcile_all-IsConsistent env w h = ground (
  arith,
  reconcile_rows-IsConsistent (release_pending_rows w.reservations) no_outcomes env (tick env w) h,
)

-- None of these calls touches a user's row.
pub activate_after_shard_commit-users :
    (email user : ℕ) (env : Env) (w : World)
    → (activate_after_shard_commit email user env w).1.users ≡ w.users
unfolding activate_after_shard_commit activate_email_reservation find_reservation update_many
activate_after_shard_commit-users email user env w = ground arith

pub mark_before_delete-users :
    (email user : ℕ) (env : Env) (w : World)
    → (mark_release_pending_before_delete email user env w).1.users ≡ w.users
unfolding mark_release_pending_before_delete mark_release_pending find_reservation update_many
mark_before_delete-users email user env w = ground arith

pub finalize_release-users :
    (email user : ℕ) (env : Env) (w : World)
    → (finalize_release_after_user_delete email user env w).1.users ≡ w.users
unfolding finalize_release_after_user_delete delete_many
finalize_release-users email user env w = ground arith
