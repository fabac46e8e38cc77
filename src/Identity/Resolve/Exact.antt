-- ===== src/Identity/Resolve/Exact.antt =====
-- How a reservation decides what identity/resolve-user-by-email.ts returns, by status.
use graphql_prisma_postgres.Prelude.{
  ℕ, ◌≡◌, inl, inr, Bool, true, false, ◌&&◌, Option, none, some, arith, Option-cases, truthy,
  lookup, find?, find?-All, find?-none, find?-some, List, ◌+◌,
}
use graphql_prisma_postgres.Data.{Reservation, ReservationStatus, User, is_pending}
use graphql_prisma_postgres.Effects.{World, Env, done, ok, tick}
use graphql_prisma_postgres.Identity.Reservation.{find_reservation, expires_before, update_many}
use graphql_prisma_postgres.Identity.Release.{get_email_reservation, activate_email_reservation}
use graphql_prisma_postgres.Identity.Coverage.{IsCovered, IsConsistent}
use graphql_prisma_postgres.Identity.Resolve.{
  is_email_row, load_user_from_recorded_shard, resolve_active, resolve_live_pending,
  resolve_pending, resolve_route, resolve_within, resolve_user_by_email,
}

-- An environment whose search across the shards would answer otherwise.
abbrev pub other_scan : ((ℕ → Option User) → Option (ℕ × User)) → Env → Env
other_scan g env = record env { find_first = g }

-- For an email with a reservation that has not expired while `PENDING`, the answer and the state
-- afterwards do not depend on what a search across the shards would find: there is no fallback.
pub resolve-no_fallback :
    (email : ℕ) (r : Reservation) (g : (ℕ → Option User) → Option (ℕ × User)) (env : Env)
    (w : World)
    → lookup email w.reservations ≡ some r
    → (is_pending r.status && expires_before (tick env w).clock r) ≡ false
    → resolve_user_by_email email (other_scan g env) w ≡ resolve_user_by_email email env w
unfolding resolve_user_by_email resolve_within resolve_route resolve_pending resolve_live_pending
    resolve_active load_user_from_recorded_shard activate_email_reservation update_many
    get_email_reservation find_reservation
resolve-no_fallback email r g env w found live = ground (arith, found)

-- No call fails and no shard is unreachable.
pub record AllAnswer (env : Env) : Type 0 where
  pub answered : (n : ℕ) → env.fate n ≡ done
  pub reached : (n s : ℕ) → env.reachable n s ≡ true

covered_row :
    (rows : _) (u v : User) (r : Reservation)
    → lookup u.email rows ≡ some r
    → IsCovered rows u
    → IsCovered rows v
    → v.email ≡ u.email
    → (r.user_id ≡ u.id)
      × (r.workspace_id ≡ some u.workspace_id)
      × (r.shard_id ≡ some u.shard)
      × (v.id ≡ u.id)
      × (v.workspace_id ≡ u.workspace_id)
      × (truthy u.workspace_id ≡ true)
      × (truthy u.shard ≡ true)
covered_row rows u v r found c d same =
    let found' : lookup v.email rows ≡ some r = cc in ground (arith, found, found')

resolve-listed :
    (u v : User) (r : Reservation) (env : Env) (w : World)
    → AllAnswer env
    → IsConsistent w
    → IsCovered w.reservations u
    → lookup u.email w.reservations ≡ some r
    → r.status ≡ ReservationStatus.active
    → find? (is_email_row u.email u.shard) w.users ≡ some v
    → (resolve_user_by_email u.email env w).0 ≡ ok (some (v, u.shard))
unfolding resolve_user_by_email resolve_within resolve_route resolve_active
    load_user_from_recorded_shard get_email_reservation find_reservation
resolve-listed u v r env w up h c found status there =
    let d : IsCovered w.reservations v =
      find?-All (IsCovered w.reservations) (is_email_row u.email u.shard) w.users v h there in
    let same : is_email_row u.email u.shard v ≡ true =
      find?-some (is_email_row u.email u.shard) w.users v there in
    let facts = covered_row w.reservations u v r found c d (ground arith) in
    ground (
      arith,
      found,
      there,
      facts.0,
      facts.1,
      facts.2,
      facts.3,
      facts.4,
      facts.5,
      facts.6,
      up.answered w.calls,
      up.answered (w.calls + 1),
      up.reached (w.calls + 1) u.shard,
    )

absent_row :
    (p : User → Bool) (us : List User) (u : User)
    → find? p us ≡ some u
    → find? (is_email_row u.email u.shard) us ≡ none
    → ⊥
absent_row p us u found missing =
    let absent : is_email_row u.email u.shard u ≡ false =
      find?-All (λ v. is_email_row u.email u.shard v ≡ false) p us u
        (find?-none (is_email_row u.email u.shard) us missing) found in
    ground arith

-- Where no call fails and every user is covered by its reservation, a user that a query finds and whose
-- reservation is `ACTIVE` is resolved: the answer is a row with the user's id and workspace, on the
-- user's shard.
pub resolve-active :
    (p : User → Bool) (u : User) (r : Reservation) (env : Env) (w : World)
    → AllAnswer env
    → IsConsistent w
    → find? p w.users ≡ some u
    → lookup u.email w.reservations ≡ some r
    → r.status ≡ ReservationStatus.active
    → (v : User) × ((resolve_user_by_email u.email env w).0 ≡ ok (some (v, u.shard)))
      × (v.id ≡ u.id)
      × (v.workspace_id ≡ u.workspace_id)
resolve-active p u r env w up h here found status =
    let c : IsCovered w.reservations u = find?-All (IsCovered w.reservations) p w.users u h here in
    elim (Option-cases (find? (is_email_row u.email u.shard) w.users)) [
      | inl missing ↦ absurd (absent_row p w.users u here missing)
      | inr (v, there) ↦
          let d : IsCovered w.reservations v =
            find?-All (IsCovered w.reservations) (is_email_row u.email u.shard) w.users v h there in
          let same : is_email_row u.email u.shard v ≡ true =
            find?-some (is_email_row u.email u.shard) w.users v there in
          let facts = covered_row w.reservations u v r found c d (ground arith) in
          (v, resolve-listed u v r env w up h c found status there, facts.3, facts.4)
    ]
