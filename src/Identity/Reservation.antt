-- ===== src/Identity/Reservation.antt =====
-- identity/email-reservation.service.ts: the directory of email addresses on the control plane.
-- Each `prisma` call is one `read` or `write`; logging is left out.
use graphql_prisma_postgres.Prelude.{
  ℕ, ◌+◌, ◌*◌, Bool, true, false, ◌&&◌, Option, none, some, ltb, ◌==◌, if◌then◌else◌, truthy,
  some_truthy, is_some, find?, lookup, insert, erase,
}
use graphql_prisma_postgres.Data.{Reservation, ReservationStatus, pending, User, is_pending}
use graphql_prisma_postgres.Effects.{
  World, Error, conflict, dependency_unavailable, prisma, p2002, p2025, plain, ok, err, M, pure,
  throw, ◌>>=◌, ◌>>◌, try_catch, now, read, write,
}

-- `PENDING_RESERVATION_TTL_MS`
abbrev pub pending_reservation_ttl_ms : ℕ
pending_reservation_ttl_ms = 15 * 60 * 1000

pub record ReserveEmailInput : Type 0 where
  pub email : ℕ
  pub user_id : ℕ
  pub workspace_id : ℕ
  pub shard_id : ℕ

pub record IdentityRoute : Type 0 where
  pub email : ℕ
  pub user_id : ℕ
  pub workspace_id : ℕ
  pub shard_id : ℕ
  pub status : ReservationStatus
  pub expires_at : Option ℕ

pub data ReconcileResult : Type 0 where
  activated released kept : ReconcileResult

pub data ReconcileReleaseResult : Type 0 where
  released kept restored : ReconcileReleaseResult

-- `prisma.globalEmailReservation.findUnique({ where: { email } })`
unfoldable pub find_reservation : ℕ → M (Option Reservation)
unfolding read
find_reservation email = read (λ w. lookup email w.reservations)

-- The rows of an email that pass a test: none, or the one row.
abbrev pub matching : ℕ → (Reservation → Bool) → World → Option Reservation
matching email test w = elim (lookup email w.reservations) [
  | none ↦ none
  | some r ↦ if test r then some r else none
]

-- `updateMany({ where: { email, ... }, data })`; the count is how many rows passed.
unfoldable pub update_many : ℕ → (Reservation → Bool) → (Reservation → Reservation) → M ℕ
unfolding write
update_many email test f = write λ w. elim (matching email test w) [
  | none ↦ (ok 0, w)
  | some r ↦ (ok 1, record w { reservations = insert email (f r) w.reservations })
]

-- `deleteMany({ where: { email, ... } })`
unfoldable pub delete_many : ℕ → (Reservation → Bool) → M ℕ
unfolding write
delete_many email test = write λ w. elim (matching email test w) [
  | none ↦ (ok 0, w)
  | some r ↦ (ok 1, record w { reservations = erase email w.reservations })
]

-- `expiresAt: { lt: date }`: a null date is never below another.
abbrev pub expires_before : ℕ → Reservation → Bool
expires_before date r = elim r.expires_at [ none ↦ false | some t ↦ ltb t date ]

-- `client.user.findFirst({ where: { id, email, workspaceId } })` on one shard
abbrev pub is_user_row : ℕ → ℕ → ℕ → ℕ → User → Bool
is_user_row shard id email workspace u =
    u.shard == shard && u.id == id && u.email == email && u.workspace_id == workspace

-- `getDbForWorkspace` of config/prisma.ts: the shard whose client it returns.
unfoldable pub get_db_for_workspace : ℕ → Option ℕ → M ℕ
get_db_for_workspace workspace shard env w =
    if some_truthy shard
    then elim shard [
      | none ↦ (ok (env.route workspace), w)
      | some s ↦ (if env.reachable w.calls s then ok s else err (dependency_unavailable plain), w)
    ]
    else (ok (env.route workspace), w)

-- Either failure of the recorded shard is reported as an unavailable dependency.
abbrev pub or_unavailable : {A : Type 0} → M A → M A
or_unavailable m = try_catch m (λ _. throw (dependency_unavailable plain))

-- The user that a complete route leads to.
unfoldable pub find_routed_user : ℕ → ℕ → ℕ → ℕ → M (Option User)
unfolding get_db_for_workspace read
find_routed_user email user workspace shard = do
  client ← or_unavailable (get_db_for_workspace workspace (some shard))
  or_unavailable (read (λ w. find? (is_user_row client user email workspace) w.users))

-- The tests of the `where` clauses.
abbrev pub is_pending_of : ℕ → Reservation → Bool
is_pending_of user r = r.user_id == user && is_pending r.status

abbrev pub is_expired_pending_of : ℕ → ℕ → Reservation → Bool
is_expired_pending_of user date r = is_pending_of user r && expires_before date r

abbrev pub activate : Reservation → Reservation
activate r = record r { status = ReservationStatus.active; expires_at = none }

-- The recorded workspace and shard, where neither is null or empty.
abbrev pub route_of : Reservation → Option (ℕ × ℕ)
route_of r = elim r.workspace_id [
  | none ↦ none
  | some workspace ↦ elim r.shard_id [
    | none ↦ none
    | some shard ↦ if truthy workspace && truthy shard then some (workspace, shard) else none
  ]
]

-- `deleteMany` of an expired `PENDING` row of the user, as of the moment of the call.
unfoldable pub release_expired : ℕ → ℕ → M ReconcileResult
release_expired email user = do
  date ← now
  delete_many email (is_expired_pending_of user date)
  pure ReconcileResult.released

-- The part of `reconcileExpiredPendingReservation` behind a complete route.
unfoldable pub reconcile_routed_pending : ℕ → ℕ → ℕ → ℕ → M ReconcileResult
reconcile_routed_pending email user_id workspace shard = do
  user ← find_routed_user email user_id workspace shard
  if is_some user
      then update_many email (is_pending_of user_id) activate >> pure ReconcileResult.activated
      else release_expired email user_id

-- `reconcileExpiredPendingReservation`, with the row that it has read.
unfoldable pub reconcile_row : ℕ → Reservation → M ReconcileResult
reconcile_row email row = do
  date ← now
  if is_pending row.status && expires_before date row
      then elim (route_of row) [
        | none ↦ release_expired email row.user_id
        | some (workspace, shard) ↦
            if truthy row.user_id
            then reconcile_routed_pending email row.user_id workspace shard
            else release_expired email row.user_id
      ]
      else pure ReconcileResult.kept

unfoldable pub reconcile_expired_pending_reservation : ℕ → M ReconcileResult
reconcile_expired_pending_reservation email = do
  row ← find_reservation email
  elim row [ none ↦ pure ReconcileResult.kept | some r ↦ reconcile_row email r ]

-- The row that `reserveEmail` writes.
abbrev pub pending_row : ReserveEmailInput → ℕ → Reservation
pending_row input date = record {
  user_id = input.user_id;
  workspace_id = some input.workspace_id;
  shard_id = some input.shard_id;
  status = pending;
  expires_at = some (date + pending_reservation_ttl_ms);
}

-- `create` of a row: a second row for the email breaks the primary key.
unfoldable pub create_reservation : ℕ → Reservation → M (Unit {0})
unfolding write
create_reservation email r = write λ w. elim (lookup email w.reservations) [
  | none ↦ (ok tt, record w { reservations = insert email r w.reservations })
  | some _ ↦ (err (prisma p2002), w)
]

unfoldable pub update_reservation : ℕ → (Reservation → Reservation) → M (Unit {0})
unfolding write
update_reservation email f = write λ w. elim (lookup email w.reservations) [
  | none ↦ (err (prisma p2025), w)
  | some r ↦ (ok tt, record w { reservations = insert email (f r) w.reservations })
]

-- The same row, renewed for a claim that is repeated.
abbrev pub renew : ReserveEmailInput → ℕ → Reservation → Reservation
renew input date row = record row {
  workspace_id = some input.workspace_id;
  shard_id = some input.shard_id;
  expires_at = some (date + pending_reservation_ttl_ms);
}

-- `existing.status === PENDING && existing.userId === userId && (!expiresAt || expiresAt > now)`
abbrev pub is_live_pending_of : ℕ → ℕ → Reservation → Bool
is_live_pending_of user date r =
    is_pending r.status
    && r.user_id == user
    && elim r.expires_at [ none ↦ true | some t ↦ ltb date t ]

abbrev pub is_unique_violation : Error → Bool
is_unique_violation (prisma p2002) = true
is_unique_violation _ = false

-- `reserveEmail` behind the reconciliation.
unfoldable pub claim_email : ReserveEmailInput → M (Unit {0})
claim_email input = do
  existing ← find_reservation input.email
  date ← now
  elim existing [
    | some r ↦
        if is_live_pending_of input.user_id date r
        then update_reservation input.email (renew input date)
        else throw (conflict plain)
    | none ↦
        try_catch (create_reservation input.email (pending_row input date))
          (λ e. throw (if is_unique_violation e then conflict plain else e))
  ]

unfoldable pub reserve_email : ReserveEmailInput → M (Unit {0})
reserve_email input = reconcile_expired_pending_reservation input.email >> claim_email input
