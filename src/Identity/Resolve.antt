-- ===== src/Identity/Resolve.antt =====
-- identity/resolve-user-by-email.ts: from an email to the user's row, and the shard that it is on.
pub mod Routing
pub mod Exact
pub mod Fuel
pub mod Frame
use graphql_prisma_postgres.Prelude.{
  ℕ, zero, suc, Bool, false, ◌&&◌, Option, none, some, ltb, ◌==◌, if◌then◌else◌, truthy, find?,
}
use graphql_prisma_postgres.Data.{ReservationStatus, pending, release_pending, User}
use graphql_prisma_postgres.Effects.{
  World, authentication, conflict, dependency_unavailable, identity_integrity_error,
  identity_release_pending, identity_route_incomplete, plain, M, pure, throw, ◌>>=◌, ◌>>◌, now,
  read,
}
use graphql_prisma_postgres.Identity.Reservation.{
  get_db_for_workspace, or_unavailable, reconcile_expired_pending_reservation, IdentityRoute,
}
use graphql_prisma_postgres.Identity.Release.{activate_email_reservation, get_email_reservation}

-- What the function returns: the user, if there is one, with the shard of its client.
abbrev pub Found : Type 0
Found = Option (User × ℕ)

-- `client.user.findUnique({ where: { email } })` on one shard
abbrev pub is_email_row : ℕ → ℕ → User → Bool
is_email_row email shard u = u.shard == shard && u.email == email

-- `findUserAcrossShards` with that query: what the sharding package makes of the shards' answers.
unfoldable pub find_user_across_shards : (World → ℕ → Option User) → M Found
unfolding read
find_user_across_shards finder env w =
    read
      (λ w'. elim (env.find_first (finder w')) [ none ↦ none | some (shard, u) ↦ some (u, shard) ])
      env w

abbrev pub scan : ℕ → M Found
scan email = find_user_across_shards (λ w shard. find? (is_email_row email shard) w.users)

unfoldable pub load_user_from_recorded_shard : IdentityRoute → M (Option User × ℕ)
unfolding get_db_for_workspace read
load_user_from_recorded_shard route = do
  client ← or_unavailable (get_db_for_workspace route.workspace_id (some route.shard_id))
  user ← or_unavailable (read (λ w. find? (is_email_row route.email client) w.users))
  pure (user, client)

-- `user && user.id === reservation.userId && user.workspaceId === reservation.workspaceId`
abbrev pub is_reserved_user : IdentityRoute → Option User → Bool
is_reserved_user route none = false
is_reserved_user route (some u) = u.id == route.user_id && u.workspace_id == route.workspace_id

abbrev pub found_on : IdentityRoute → Option User → Found
found_on route none = none
found_on route (some u) = some (u, route.shard_id)

unfoldable pub resolve_active : IdentityRoute → M Found
resolve_active route = do
  loaded ← load_user_from_recorded_shard route
  if is_reserved_user route loaded.0
      then pure (found_on route loaded.0)
      else throw (dependency_unavailable identity_integrity_error)

unfoldable pub resolve_live_pending : IdentityRoute → M Found
resolve_live_pending route = do
  loaded ← load_user_from_recorded_shard route
  if is_reserved_user route loaded.0
      then activate_email_reservation route.email route.user_id >> pure (found_on route loaded.0)
      else throw (conflict plain)

-- `expiresAt != null && expiresAt.getTime() < Date.now()`
abbrev pub has_expired : ℕ → IdentityRoute → Bool
has_expired date route = elim route.expires_at [ none ↦ false | some t ↦ ltb t date ]

-- The branch of an expired `PENDING` row, once it was reconciled: `again` is the recursive call.
abbrev pub after_reconcile : M Found → ℕ → Option IdentityRoute → M Found
after_reconcile again email none = scan email
after_reconcile again email (some after) = elim after.status [
  | ReservationStatus.active ↦ again
  | pending ↦ throw (conflict plain)
  | release_pending ↦ throw (dependency_unavailable identity_release_pending)
]

unfoldable pub resolve_pending : M Found → ℕ → IdentityRoute → M Found
resolve_pending again email route = do
  date ← now
  if has_expired date route
      then (do
        reconcile_expired_pending_reservation email
        after ← get_email_reservation email
        after_reconcile again email after)
      else resolve_live_pending route

-- `resolveUserByEmail` with the row that it has read.
unfoldable pub resolve_route : M Found → ℕ → IdentityRoute → M Found
resolve_route again email route = elim route.status [
  | release_pending ↦ throw (dependency_unavailable identity_release_pending)
  | pending ↦
      if truthy route.workspace_id && truthy route.shard_id
      then resolve_pending again email route
      else throw (dependency_unavailable identity_route_incomplete)
  | ReservationStatus.active ↦
      if truthy route.workspace_id && truthy route.shard_id
      then resolve_active route
      else throw (dependency_unavailable identity_route_incomplete)
]

-- The code calls itself once the reconciliation has made the row `ACTIVE`: the recursion is on
-- fuel, and without fuel the model throws `authentication`, which the code never throws here.
unfoldable pub resolve_within : ℕ → ℕ → M Found
resolve_within zero email = throw authentication
resolve_within (suc fuel) email =
    let again = resolve_within fuel email in
    (do
      reservation ← get_email_reservation email
      elim reservation [ none ↦ scan email | some route ↦ resolve_route again email route ])

-- Two rounds are enough.
unfoldable pub resolve_user_by_email : ℕ → M Found
resolve_user_by_email = resolve_within 2
