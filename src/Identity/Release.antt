-- ===== src/Identity/Release.antt =====
-- identity/email-reservation.service.ts: activation, release and the reconciliation of releases.
use graphql_prisma_postgres.Prelude.{
  ℕ, ◌+◌, Bool, false, ◌&&◌, ◌||◌, Option, none, some, List, [], ◌∷◌, ◌==◌, if◌then◌else◌, is_some,
  truthy, Dict,
}
use graphql_prisma_postgres.Data.{
  Reservation, ReservationStatus, release_pending, is_pending, is_active, is_release_pending,
}
use graphql_prisma_postgres.Effects.{
  Error, conflict, dependency_unavailable, identity_activation_pending, identity_release_mismatch,
  identity_release_mark_failed, identity_release_pending, plain, Result, ok, err, M, pure, throw,
  ◌>>=◌, ◌>>◌, try_catch, read,
}
use graphql_prisma_postgres.Identity.Reservation.{
  ReconcileReleaseResult, kept, restored, find_reservation, update_many, delete_many, is_pending_of,
  activate, route_of, find_routed_user, IdentityRoute,
}

abbrev is_active_of : ℕ → Option Reservation → Bool
is_active_of user none = false
is_active_of user (some r) = r.user_id == user && is_active r.status

unfoldable pub activate_email_reservation : ℕ → ℕ → M (Unit {0})
activate_email_reservation email user = do
  count ← update_many email (is_pending_of user) activate
  if count == 0
      then (do
        current ← find_reservation email
        if is_active_of user current then pure tt else throw (dependency_unavailable plain))
      else pure tt

unfoldable pub activate_after_shard_commit : ℕ → ℕ → M (Unit {0})
activate_after_shard_commit email user =
    try_catch (activate_email_reservation email user)
      (λ _. throw (dependency_unavailable identity_activation_pending))

unfoldable pub release_email_reservation : ℕ → ℕ → M ℕ
release_email_reservation email user = delete_many email (λ r. r.user_id == user)

-- Best effort: a failure is only logged.
unfoldable pub release_after_failed_shard_write : ℕ → ℕ → M (Unit {0})
release_after_failed_shard_write email user =
    try_catch (release_email_reservation email user >> pure tt) (λ _. pure tt)

-- The `where` clause of the release marker.
abbrev pub is_markable_of : ℕ → Reservation → Bool
is_markable_of user r = r.user_id == user && (is_active r.status || is_pending r.status)

abbrev pub mark : Reservation → Reservation
mark r = record r { status = release_pending; expires_at = none }

abbrev pub is_release_pending_of : ℕ → Reservation → Bool
is_release_pending_of user r = r.user_id == user && is_release_pending r.status

-- `error instanceof ConflictError || error instanceof DependencyUnavailableError`
abbrev pub mark_failure : Error → Error
mark_failure (conflict d) = conflict d
mark_failure (dependency_unavailable d) = dependency_unavailable d
mark_failure _ = dependency_unavailable identity_release_mark_failed

unfoldable pub mark_release_pending : ℕ → ℕ → M (Unit {0})
mark_release_pending email user = do
  count ← update_many email (is_markable_of user) mark
  if count == 0
      then (do
        current ← find_reservation email
        elim current [
          | none ↦ pure tt
          | some r ↦
              if is_release_pending_of user r
              then pure tt
              else throw (conflict identity_release_mismatch)
        ])
      else pure tt

unfoldable pub mark_release_pending_before_delete : ℕ → ℕ → M (Unit {0})
mark_release_pending_before_delete email user =
    try_catch (mark_release_pending email user) (λ e. throw (mark_failure e))

unfoldable pub finalize_release_after_user_delete : ℕ → ℕ → M (Unit {0})
finalize_release_after_user_delete email user =
    try_catch (delete_many email (is_release_pending_of user) >> pure tt)
      (λ _. throw (dependency_unavailable identity_release_pending))

-- `reconcileReleasePending` behind its guards, with the row that it has read.
abbrev pub has_status : ℕ → ReservationStatus → Reservation → Bool
has_status user ReservationStatus.pending r = r.user_id == user && is_pending r.status
has_status user ReservationStatus.active r = r.user_id == user && is_active r.status
has_status user release_pending r = r.user_id == user && is_release_pending r.status

unfoldable pub reconcile_routed_release : ℕ → ℕ → Reservation → ℕ → ℕ → M ReconcileReleaseResult
reconcile_routed_release email user_id row workspace shard = do
  user ← find_routed_user email row.user_id workspace shard
  if is_some user
      then (if is_release_pending row.status
          then update_many email (is_release_pending_of user_id) activate >> pure restored
          else pure kept)
      else (do
        count ← delete_many email (has_status user_id row.status)
        pure (if count == 0 then kept else ReconcileReleaseResult.released))

unfoldable pub reconcile_release_pending : ℕ → ℕ → M ReconcileReleaseResult
reconcile_release_pending email user_id = do
  row ← find_reservation email
  elim row [
    | none ↦ pure kept
    | some r ↦
        if r.user_id == user_id && (is_release_pending r.status || is_active r.status)
        then elim (route_of r) [
          | none ↦ pure kept
          | some (workspace, shard) ↦ reconcile_routed_release email user_id r workspace shard
        ]
        else pure kept
  ]

pub record Summary : Type 0 where
  pub released : ℕ
  pub kept : ℕ
  pub restored : ℕ
  pub errors : ℕ

abbrev pub tally : Result ReconcileReleaseResult → Summary → Summary
tally (ok ReconcileReleaseResult.released) s = record s { released = s.released + 1 }
tally (ok ReconcileReleaseResult.restored) s = record s { restored = s.restored + 1 }
tally (ok ReconcileReleaseResult.kept) s = record s { kept = s.kept + 1 }
tally (err _) s = record s { errors = s.errors + 1 }

-- The loop of `reconcileAllReleasePending` over the rows read.
unfoldable pub reconcile_rows : List (ℕ × ℕ) → Summary → M Summary
reconcile_rows [] s env w = (ok s, w)
reconcile_rows ((email, user) ∷ rows) s env w =
    let (r, w') = reconcile_release_pending email user env w in
    reconcile_rows rows (tally r s) env w'

-- `findMany({ where: { status: RELEASE_PENDING }, select: { email, userId } })`
abbrev pub release_pending_rows : Dict Reservation → List (ℕ × ℕ)
release_pending_rows [] = []
release_pending_rows ((email, r) ∷ d) =
    let rest = release_pending_rows d in
    if is_release_pending r.status then (email, r.user_id) ∷ rest else rest

abbrev pub no_outcomes : Summary
no_outcomes = record { released = 0; kept = 0; restored = 0; errors = 0 }

unfoldable pub reconcile_all_release_pending : M Summary
unfolding read
reconcile_all_release_pending = do
  rows ← read (λ w. release_pending_rows w.reservations)
  reconcile_rows rows no_outcomes

-- `row.workspaceId || ''`
abbrev pub or_empty : Option ℕ → ℕ
or_empty none = 0
or_empty (some a) = a

unfoldable pub get_email_reservation : ℕ → M (Option IdentityRoute)
get_email_reservation email = do
  row ← find_reservation email
  pure (elim row [
    | none ↦ none
    | some r ↦ some (record {
      email = email;
      user_id = r.user_id;
      workspace_id = or_empty r.workspace_id;
      shard_id = or_empty r.shard_id;
      status = r.status;
      expires_at = r.expires_at;
    })
  ])

unfoldable pub find_identity_by_email : ℕ → M (Option IdentityRoute)
find_identity_by_email email = do
  row ← get_email_reservation email
  pure (elim row [
    | none ↦ none
    | some r ↦
        if is_active r.status && truthy r.workspace_id && truthy r.shard_id then some r else none
  ])
