-- ===== src/Identity/Coverage/Reserving.antt =====
-- The invariant under the reservation of an email, of identity/email-reservation.service.ts.
use graphql_prisma_postgres.Prelude.{
  ℕ, ◌≡◌, inl, inr, Option, none, some, arith, Option-cases, Bool-cases, lookup, lookup-insert,
  ◌==◌,
}
use graphql_prisma_postgres.Data.{Reservation, pending}
use graphql_prisma_postgres.Effects.{World, Env, ok, tick}
use graphql_prisma_postgres.Identity.Reservation.{
  find_reservation, update_many, delete_many, reconcile_routed_pending, release_expired,
  find_routed_user, reconcile_row, reconcile_expired_pending_reservation, ReserveEmailInput,
  claim_email, reserve_email, create_reservation, update_reservation, pending_row, renew,
}
use graphql_prisma_postgres.Identity.Coverage.{
  IsConsistent, IsUnused, IsFresh, All-IsCovered-insert_unused, unused_of_none, unused_of_fresh,
}
use graphql_prisma_postgres.Identity.Coverage.Tables.{reconcile_row-IsConsistent}

-- The reconciliation of one email leaves the users' rows alone.
pub reconcile_expired-IsConsistent :
    (email : ℕ) (env : Env) (w : World)
    → IsConsistent w
    → IsConsistent (reconcile_expired_pending_reservation email env w).1
unfolding reconcile_expired_pending_reservation find_reservation
reconcile_expired-IsConsistent email env w h = elim (Option-cases (lookup email w.reservations)) [
  | inl missing ↦ ground arith
  | inr (r, found) ↦
      ground (arith, found, reconcile_row-IsConsistent email r env (tick env w) h found)
]

-- The row that a claim leaves behind when it returns.
abbrev pub Reserves : ReserveEmailInput → Option Reservation → Type 0
Reserves input none = ⊥
Reserves input (some r) =
    (r.user_id ≡ input.user_id)
    × (r.workspace_id ≡ some input.workspace_id)
    × (r.shard_id ≡ some input.shard_id)
    × (r.status ≡ pending)

pub create_reservation-IsConsistent :
    (email : ℕ) (r : Reservation) (env : Env) (w : World)
    → IsConsistent w
    → IsConsistent (create_reservation email r env w).1
unfolding create_reservation
create_reservation-IsConsistent email r env w h =
    elim (Option-cases (lookup email w.reservations)) [
      | inl missing ↦ ground (
        arith,
        All-IsCovered-insert_unused w.reservations email r w.users h
            (unused_of_none w.reservations email w.users missing h),
      )
      | inr (old, found) ↦ ground arith
    ]

pub update_reservation-IsConsistent :
    (email : ℕ) (f : Reservation → Reservation) (env : Env) (w : World)
    → IsConsistent w
    → IsUnused email w
    → IsConsistent (update_reservation email f env w).1
unfolding update_reservation
update_reservation-IsConsistent email f env w h unused =
    elim (Option-cases (lookup email w.reservations)) [
      | inl missing ↦ ground arith
      | inr (r, found) ↦
          ground (arith, All-IsCovered-insert_unused w.reservations email (f r) w.users h unused)
    ]

-- A claim by a user that has no row yet.
pub claim_email-IsConsistent :
    (input : ReserveEmailInput) (env : Env) (w : World)
    → IsConsistent w
    → IsFresh input.user_id w
    → IsConsistent (claim_email input env w).1
unfolding claim_email find_reservation
claim_email-IsConsistent input env w h fresh =
    elim (Option-cases (lookup input.email w.reservations)) [
      | inl missing ↦ ground (
        arith,
        create_reservation-IsConsistent input.email (pending_row input (tick env w).clock) env
            (tick env w) h,
      )
      | inr (r, found) ↦ elim (Bool-cases (r.user_id == input.user_id)) [
        | inl same ↦
            let own : input.user_id ≡ r.user_id = ground arith in
            ground (
              arith,
              found,
              update_reservation-IsConsistent input.email (renew input (tick env w).clock) env
                  (tick env w) h
                  (unused_of_fresh w.reservations input.email r w.users found h (rw own at fresh)),
            )
        | inr other ↦ ground arith
      ]
    ]

-- A claim that returns has written the row.
pub claim_email-Reserves :
    (input : ReserveEmailInput) (env : Env) (w : World)
    → (claim_email input env w).0 ≡ ok tt
    → Reserves input (lookup input.email (claim_email input env w).1.reservations)
unfolding claim_email find_reservation create_reservation update_reservation
claim_email-Reserves input env w e = elim (Option-cases (lookup input.email w.reservations)) [
  | inl missing ↦ ground (
    arith,
    lookup-insert input.email input.email (pending_row input (tick env w).clock) w.reservations,
  )
  | inr (r, found) ↦ ground (
    arith,
    found,
    lookup-insert input.email input.email (renew input (tick env w).clock r) w.reservations,
  )
]

-- No call of the directory touches a user's row.
pub claim_email-users :
    (input : ReserveEmailInput) (env : Env) (w : World)
    → (claim_email input env w).1.users ≡ w.users
unfolding claim_email find_reservation create_reservation update_reservation
claim_email-users input env w = ground arith

pub reconcile_expired-users :
    (email : ℕ) (env : Env) (w : World)
    → (reconcile_expired_pending_reservation email env w).1.users ≡ w.users
unfolding reconcile_expired_pending_reservation find_reservation reconcile_row
    reconcile_routed_pending release_expired find_routed_user update_many delete_many
reconcile_expired-users email env w = ground arith

pub reserve_email-users :
    (input : ReserveEmailInput) (env : Env) (w : World)
    → (reserve_email input env w).1.users ≡ w.users
unfolding reserve_email
reserve_email-users input env w = ground (
  arith,
  reconcile_expired-users input.email env w,
  claim_email-users input env (reconcile_expired_pending_reservation input.email env w).1,
)

-- Reserving keeps the invariant, whether it returns or throws, for a user with no row yet.
pub reserve_email-IsConsistent :
    (input : ReserveEmailInput) (env : Env) (w : World)
    → IsConsistent w
    → IsFresh input.user_id w
    → IsConsistent (reserve_email input env w).1
unfolding reserve_email
reserve_email-IsConsistent input env w h fresh =
    let w' = (reconcile_expired_pending_reservation input.email env w).1 in
    let same : w'.users ≡ w.users = reconcile_expired-users input.email env w in
    ground (
      arith,
      reconcile_expired-IsConsistent input.email env w h,
      claim_email-IsConsistent input env w' (reconcile_expired-IsConsistent input.email env w h)
          (rw same fresh),
    )

pub reserve_email-Reserves :
    (input : ReserveEmailInput) (env : Env) (w : World)
    → (reserve_email input env w).0 ≡ ok tt
    → Reserves input (lookup input.email (reserve_email input env w).1.reservations)
unfolding reserve_email
reserve_email-Reserves input env w e = ground (
  arith,
  claim_email-Reserves input env (reconcile_expired_pending_reservation input.email env w).1,
)
