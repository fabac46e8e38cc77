-- ===== src/Identity/Resolve/Routing.antt =====
-- Where the user that identity/resolve-user-by-email.ts returns comes from.
use graphql_prisma_postgres.Prelude.{
  ℕ, zero, suc, ◌≡◌, inl, inr, true, Option, none, some, arith, Option-cases, Bool-cases, truthy,
  lookup, find?,
}
use graphql_prisma_postgres.Data.{User}
use graphql_prisma_postgres.Effects.{World, Env, ok, Result-cases, tick, M}
use graphql_prisma_postgres.Identity.Reservation.{
  IdentityRoute, reconcile_expired_pending_reservation, find_reservation,
}
use graphql_prisma_postgres.Identity.Release.{get_email_reservation}
use graphql_prisma_postgres.Identity.Coverage.Reserving.{reconcile_expired-users}
use graphql_prisma_postgres.Identity.Resolve.{
  Found, is_email_row, find_user_across_shards, scan, load_user_from_recorded_shard, resolve_active,
  resolve_live_pending, has_expired, after_reconcile, resolve_pending, resolve_route,
  resolve_within, resolve_user_by_email,
}

-- The sharding package reports a user only for a shard whose query has found it.
abbrev pub FindsFirst : Env → Type 0
FindsFirst env =
    (f : ℕ → Option User) (shard : ℕ) (u : User)
    → env.find_first f ≡ some (shard, u)
    → f shard ≡ some u

-- The user's row is the one with the email on the shard.
abbrev pub IsRowOf : ℕ → World → User → ℕ → Type 0
IsRowOf email w u shard = find? (is_email_row email shard) w.users ≡ some u

module _ (email : ℕ) (env : Env) (law : FindsFirst env) (u : User) (s : ℕ) where
  scan-IsRowOf : (w : World) → (scan email env w).0 ≡ ok (some (u, s)) → IsRowOf email w u s
  unfolding find_user_across_shards
  scan-IsRowOf w e =
      elim (Option-cases (env.find_first (λ shard. find? (is_email_row email shard) w.users))) [
        | inl missing ↦ absurd (ground (arith, missing))
        | inr ((shard, v), found) ↦
            let there : find? (is_email_row email shard) w.users ≡ some v =
              law (λ t. find? (is_email_row email t) w.users) shard v found in
            ground (arith, found, there)
      ]

  loaded-IsRowOf :
      (route : IdentityRoute) (w : World)
      → route.email ≡ email
      → truthy route.shard_id ≡ true
      → (resolve_active route env w).0 ≡ ok (some (u, s))
      → IsRowOf email w u s
  unfolding resolve_active load_user_from_recorded_shard
  loaded-IsRowOf route w same routed e = ground arith

  live_pending-IsRowOf :
      (route : IdentityRoute) (w : World)
      → route.email ≡ email
      → truthy route.shard_id ≡ true
      → (resolve_live_pending route env w).0 ≡ ok (some (u, s))
      → IsRowOf email w u s
  unfolding resolve_live_pending load_user_from_recorded_shard
  live_pending-IsRowOf route w same routed e = ground arith

get_email_reservation-world :
    (email : ℕ) (env : Env) (w : World) → (get_email_reservation email env w).1 ≡ tick env w
unfolding get_email_reservation find_reservation
get_email_reservation-world email env w = ground arith

get_email_reservation-email :
    (email : ℕ) (route : IdentityRoute) (env : Env) (w : World)
    → (get_email_reservation email env w).0 ≡ ok (some route)
    → route.email ≡ email
unfolding get_email_reservation find_reservation
get_email_reservation-email email route env w e =
    elim (Option-cases (lookup email w.reservations)) [
      | inl missing ↦ ground (arith, missing)
      | inr (r, found) ↦ ground (arith, found)
    ]

module _ (email : ℕ) (env : Env) (law : FindsFirst env) (u : User) (s : ℕ) (again : M Found)
    (onward : (w : World) → (again env w).0 ≡ ok (some (u, s)) → IsRowOf email w u s) where
  after_reconcile-IsRowOf :
      (after : Option IdentityRoute) (w : World)
      → (after_reconcile again email after env w).0 ≡ ok (some (u, s))
      → IsRowOf email w u s
  after_reconcile-IsRowOf none w e = scan-IsRowOf email env law u s w e
  after_reconcile-IsRowOf (some after) w e = ground (arith, onward w)

  resolve_pending-IsRowOf :
      (route : IdentityRoute) (w : World)
      → route.email ≡ email
      → truthy route.shard_id ≡ true
      → (resolve_pending again email route env w).0 ≡ ok (some (u, s))
      → IsRowOf email w u s
  unfolding resolve_pending
  resolve_pending-IsRowOf route w same routed e = elim (Bool-cases (has_expired w.clock route)) [
    | inr live ↦ live_pending-IsRowOf email env law u s route w same routed (ground (arith, live))
    | inl expired ↦
        let w1 = (reconcile_expired_pending_reservation email env w).1 in
        let users : w1.users ≡ w.users = reconcile_expired-users email env w in
        elim (Result-cases (reconcile_expired_pending_reservation email env w).0) [
          | inr (x, e1) ↦ absurd (ground (arith, expired, e1))
          | inl (_, e1) ↦ elim (Result-cases (get_email_reservation email env w1).0) [
            | inr (x, e2) ↦ absurd (ground (arith, expired, e1, e2))
            | inl (after, e2) ↦ rw (← users) (
                after_reconcile-IsRowOf after (tick env w1)
                  (ground (arith, expired, e1, e2, get_email_reservation-world email env w1)))
          ]
        ]
  ]

  resolve_route-IsRowOf :
      (route : IdentityRoute) (w : World)
      → route.email ≡ email
      → (resolve_route again email route env w).0 ≡ ok (some (u, s))
      → IsRowOf email w u s
  unfolding resolve_route
  resolve_route-IsRowOf route w same e =
      ground
        (arith, resolve_pending-IsRowOf route w same, loaded-IsRowOf email env law u s route w same)

resolve_within-IsRowOf :
    (email : ℕ) (env : Env) (law : FindsFirst env) (u : User) (s fuel : ℕ) (w : World)
    → (resolve_within fuel email env w).0 ≡ ok (some (u, s))
    → IsRowOf email w u s
unfolding resolve_within
resolve_within-IsRowOf email env law u s zero w e = absurd (ground arith)
resolve_within-IsRowOf email env law u s (suc fuel) w e =
    elim (Result-cases (get_email_reservation email env w).0) [
      | inr (x, e1) ↦ absurd (ground (arith, e1))
      | inl (none, e1) ↦
          scan-IsRowOf email env law u s (tick env w)
            (ground (arith, e1, get_email_reservation-world email env w))
      | inl (some route, e1) ↦
          resolve_route-IsRowOf email env law u s (resolve_within fuel email)
            (resolve_within-IsRowOf email env law u s fuel) route (tick env w)
            (get_email_reservation-email email route env w e1)
            (ground (arith, e1, get_email_reservation-world email env w))
    ]

-- However the calls end, a user that is resolved is the row with that email on the shard whose client
-- is returned, if the search across the shards only reports what its query has found.
pub resolve_user_by_email-IsRowOf :
    (email : ℕ) (env : Env) (w : World) (u : User) (shard : ℕ)
    → FindsFirst env
    → (resolve_user_by_email email env w).0 ≡ ok (some (u, shard))
    → IsRowOf email w u shard
unfolding resolve_user_by_email
resolve_user_by_email-IsRowOf email env w u shard law e =
    resolve_within-IsRowOf email env law u shard 2 w e
