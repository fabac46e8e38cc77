-- ===== src/Tests/Identity.antt =====
-- The directory of email addresses, run on a workspace with an owner and one member.
use graphql_prisma_postgres.Prelude.{◌≡◌, ◌≢◌, refl, true, false, none, some, arith, lookup}
use graphql_prisma_postgres.Data.{User, ReservationStatus, release_pending}
use graphql_prisma_postgres.Effects.{ok, err, authentication, read}
use graphql_prisma_postgres.Identity.Reservation.{find_reservation}
use graphql_prisma_postgres.Identity.Release.{
  reconcile_all_release_pending, Summary, get_email_reservation,
}
use graphql_prisma_postgres.Identity.Resolve.{
  resolve_user_by_email, resolve_within, resolve_route, resolve_active,
  load_user_from_recorded_shard,
}
use graphql_prisma_postgres.Identity.Coverage.{IsConsistent}
use graphql_prisma_postgres.Identity.Resolve.Routing.{IsRowOf, resolve_user_by_email-IsRowOf}
use graphql_prisma_postgres.Identity.Resolve.Exact.{
  other_scan, resolve-no_fallback, AllAnswer, resolve-active,
}
use graphql_prisma_postgres.Identity.Resolve.Fuel.{resolve_user_by_email-ends}
use graphql_prisma_postgres.Identity.Batch.{
  is_pending_release, counted, reconcile_all-settles, reconcile_all-counted,
}
use graphql_prisma_postgres.Examples.{calm, calm-FindsFirst, office, leaving, boss, reserved}

calm-AllAnswer : AllAnswer calm
calm-AllAnswer = record { answered = λ _. refl; reached = λ _ _. refl }

leaving-IsConsistent : IsConsistent leaving
unfolding lookup
leaving-IsConsistent = ground arith

office-IsConsistent : IsConsistent office
unfolding lookup
office-IsConsistent = ground arith

resolve-no_fallback_example :
    resolve_user_by_email 101 (other_scan (λ _. none) calm) leaving
    ≡ resolve_user_by_email 101 calm leaving
unfolding lookup
resolve-no_fallback_example =
    resolve-no_fallback 101 (reserved 11 release_pending) (λ _. none) calm leaving refl refl

resolve-active_example :
    (v : User) × ((resolve_user_by_email 100 calm office).0 ≡ ok (some (v, 1)))
    × (v.id ≡ 10)
    × (v.workspace_id ≡ 7)
unfolding lookup
resolve-active_example =
    resolve-active (λ _. true) boss (reserved 10 ReservationStatus.active) calm office
      calm-AllAnswer office-IsConsistent refl refl refl

resolved : (resolve_user_by_email 100 calm office).0 ≡ ok (some (boss, 1))
unfolding resolve_user_by_email resolve_within resolve_route resolve_active
    load_user_from_recorded_shard get_email_reservation find_reservation read lookup
resolved = refl

resolve_user_by_email-IsRowOf_example : IsRowOf 100 office boss 1
resolve_user_by_email-IsRowOf_example =
    resolve_user_by_email-IsRowOf 100 calm office boss 1 calm-FindsFirst resolved

resolve_user_by_email-ends_example : (resolve_user_by_email 101 calm leaving).0 ≢ err authentication
resolve_user_by_email-ends_example = resolve_user_by_email-ends 101 calm leaving

reconcile_all-settles_example :
    is_pending_release (lookup 101 (reconcile_all_release_pending calm leaving).1.reservations)
    ≡ false
unfolding lookup
reconcile_all-settles_example =
    reconcile_all-settles calm leaving 101 (reserved 11 release_pending) (7, 1) calm-AllAnswer refl
      refl refl

reconcile_all-counted_example :
    (t : Summary) × ((reconcile_all_release_pending calm leaving).0 ≡ ok t) × (counted t ≡ 1)
reconcile_all-counted_example = reconcile_all-counted calm leaving refl
