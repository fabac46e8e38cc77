-- ===== src/Identity/Resolve/Fuel.antt =====
-- The recursion of identity/resolve-user-by-email.ts.
use graphql_prisma_postgres.Prelude.{
  ℕ, ◌≡◌, ◌≢◌, inl, inr, Option, none, some, arith, Option-cases, Bool-cases, lookup,
}
use graphql_prisma_postgres.Data.{Reservation, ReservationStatus}
use graphql_prisma_postgres.Effects.{
  World, Env, authentication, Result, ok, err, Result-cases, tick,
}
use graphql_prisma_postgres.Identity.Reservation.{
  IdentityRoute, reconcile_expired_pending_reservation, find_reservation, update_many, delete_many,
  reconcile_row, reconcile_routed_pending, release_expired, find_routed_user,
}
use graphql_prisma_postgres.Identity.Release.{get_email_reservation, activate_email_reservation}
use graphql_prisma_postgres.Identity.Resolve.{
  find_user_across_shards, load_user_from_recorded_shard, resolve_active, scan,
  resolve_live_pending, has_expired, after_reconcile, resolve_pending, resolve_route,
  resolve_within, resolve_user_by_email,
}

abbrev IsOtherError : {A : Type 0} → Result A → Type 0
IsOtherError r = r ≢ err authentication

scan-IsOtherError : (email : ℕ) (env : Env) (w : World) → IsOtherError (scan email env w).0
unfolding find_user_across_shards
scan-IsOtherError email env w e = ground arith

resolve_active-IsOtherError :
    (route : IdentityRoute) (env : Env) (w : World) → IsOtherError (resolve_active route env w).0
unfolding resolve_active load_user_from_recorded_shard
resolve_active-IsOtherError route env w e = ground arith

resolve_live_pending-IsOtherError :
    (route : IdentityRoute) (env : Env) (w : World)
    → IsOtherError (resolve_live_pending route env w).0
unfolding resolve_live_pending load_user_from_recorded_shard activate_email_reservation update_many
    find_reservation
resolve_live_pending-IsOtherError route env w e = ground arith

reconcile-IsOtherError :
    (email : ℕ) (env : Env) (w : World)
    → IsOtherError (reconcile_expired_pending_reservation email env w).0
unfolding reconcile_expired_pending_reservation find_reservation reconcile_row
    reconcile_routed_pending release_expired find_routed_user update_many delete_many
reconcile-IsOtherError email env w e = ground arith

get_email_reservation-IsOtherError :
    (email : ℕ) (env : Env) (w : World) → IsOtherError (get_email_reservation email env w).0
unfolding get_email_reservation find_reservation
get_email_reservation-IsOtherError email env w e = ground arith

-- One round is enough for a row that is `ACTIVE`.
resolve_once-active :
    (email : ℕ) (r : Reservation) (env : Env) (w : World)
    → lookup email w.reservations ≡ some r
    → r.status ≡ ReservationStatus.active
    → IsOtherError (resolve_within 1 email env w).0
unfolding resolve_within resolve_route resolve_active load_user_from_recorded_shard
    get_email_reservation find_reservation
resolve_once-active email r env w found status e = ground (arith, found)

-- A second round begins with the row that the first has read, once that is `ACTIVE`.
read_again-IsOtherError :
    (email : ℕ) (after : Option IdentityRoute) (env : Env) (w : World)
    → (get_email_reservation email env w).0 ≡ ok after
    → IsOtherError
        (after_reconcile
          (resolve_within 1 email)
          email
          after
          env
          (get_email_reservation email env w).1).0
unfolding get_email_reservation find_reservation
read_again-IsOtherError email after env w e x = elim (Option-cases (lookup email w.reservations)) [
  | inl missing ↦ ground (arith, missing, scan-IsOtherError email env (tick env w))
  | inr (r, found) ↦ ground (arith, found, resolve_once-active email r env (tick env w) found)
]

resolve_pending-IsOtherError :
    (email : ℕ) (route : IdentityRoute) (env : Env) (w : World)
    → IsOtherError (resolve_pending (resolve_within 1 email) email route env w).0
unfolding resolve_pending
resolve_pending-IsOtherError email route env w x = elim (Bool-cases (has_expired w.clock route)) [
  | inr live ↦ resolve_live_pending-IsOtherError route env w (ground (arith, live))
  | inl expired ↦
      let w1 = (reconcile_expired_pending_reservation email env w).1 in
      elim (Result-cases (reconcile_expired_pending_reservation email env w).0) [
        | inr (y, e1) ↦ ground (arith, expired, e1, reconcile-IsOtherError email env w)
        | inl (_, e1) ↦ elim (Result-cases (get_email_reservation email env w1).0) [
          | inr (y, e2) ↦
              ground (arith, expired, e1, e2, get_email_reservation-IsOtherError email env w1)
          | inl (after, e2) ↦
              ground (arith, expired, e1, e2, read_again-IsOtherError email after env w1 e2)
        ]
      ]
]

resolve_route-IsOtherError :
    (email : ℕ) (route : IdentityRoute) (env : Env) (w : World)
    → IsOtherError (resolve_route (resolve_within 1 email) email route env w).0
unfolding resolve_route
resolve_route-IsOtherError email route env w x =
    ground (
      arith,
      resolve_pending-IsOtherError email route env w,
      resolve_active-IsOtherError route env w,
    )

-- The recursion of the resolution ends within its two rounds, however the calls end: the result is
-- never that of the model's exhausted fuel.
pub resolve_user_by_email-ends :
    (email : ℕ) (env : Env) (w : World) → (resolve_user_by_email email env w).0 ≢ err authentication
unfolding resolve_user_by_email resolve_within
resolve_user_by_email-ends email env w x =
    elim (Result-cases (get_email_reservation email env w).0) [
      | inr (y, e) ↦ ground (arith, e, get_email_reservation-IsOtherError email env w)
      | inl (none, e) ↦
          ground (arith, e, scan-IsOtherError email env (get_email_reservation email env w).1)
      | inl (some route, e) ↦ ground (
        arith,
        e,
        resolve_route-IsOtherError email route env (get_email_reservation email env w).1,
      )
    ]
