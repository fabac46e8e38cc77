-- ===== src/Users/Coverage.antt =====
-- The coverage of users by reservations under the statements that create, change and delete members.
use graphql_prisma_postgres.Prelude.{
  ℕ, ◌<◌, ◌≡◌, inl, inr, false, Option, none, some, List, arith, Option-cases, lookup,
  lookup-insert, Dict, All-update_where,
}
use graphql_prisma_postgres.Data.{Reservation, release_pending, User}
use graphql_prisma_postgres.Effects.{World, Env, is_lost, Error, ok, err, Result-cases}
use graphql_prisma_postgres.Identity.Reservation.{
  ReserveEmailInput, reserve_email, find_reservation, update_many,
}
use graphql_prisma_postgres.Identity.Release.{
  mark_release_pending, mark_release_pending_before_delete, mark,
}
use graphql_prisma_postgres.Identity.Coverage.{
  IsCovered, IsConsistent, IsFresh, IsUnused, unused_of_none, unused_of_fresh,
}
use graphql_prisma_postgres.Identity.Coverage.Reserving.{
  Reserves, reserve_email-IsConsistent, reserve_email-Reserves, reserve_email-users,
}
use graphql_prisma_postgres.Identity.Coverage.Releasing.{
  activate_after_shard_commit-IsConsistent, release_after_failed-IsConsistent,
}
use graphql_prisma_postgres.Users.Members.{
  insert_user, insert_or_release, register_member, is_id_row, update_user_row,
}

-- No write is done without its answer reaching the caller.
abbrev pub NoLostAnswer : Env → Type 0
NoLostAnswer env = (n : ℕ) → is_lost (env.fate n) ≡ false

-- The row of a new user has an id, a workspace and a shard.
abbrev pub IsRoutable : User → Type 0
IsRoutable u = (0 < u.id) × (0 < u.workspace_id) × (0 < u.shard)

abbrev pub claim_of : User → ReserveEmailInput
claim_of u = record {
  email = u.email;
  user_id = u.id;
  workspace_id = u.workspace_id;
  shard_id = u.shard;
}

pub reserved-IsUnused :
    (u : User) (w : World)
    → IsConsistent w
    → IsFresh u.id w
    → Reserves (claim_of u) (lookup u.email w.reservations)
    → IsUnused u.email w
reserved-IsUnused u w h fresh reserved = elim (Option-cases (lookup u.email w.reservations)) [
  | inl missing ↦ unused_of_none w.reservations u.email w.users missing h
  | inr (r, found) ↦
      let own : r.user_id ≡ u.id = ground arith in
      unused_of_fresh w.reservations u.email r w.users found h (rw own fresh)
]

insert_user-IsConsistent :
    (u : User) (env : Env) (w : World)
    → IsConsistent w
    → IsRoutable u
    → Reserves (claim_of u) (lookup u.email w.reservations)
    → IsConsistent (insert_user u env w).1
unfolding insert_user
insert_user-IsConsistent u env w h routable reserved =
    elim (Option-cases (lookup u.email w.reservations)) [
      | inl missing ↦ absurd (ground arith)
      | inr (r, found) ↦ ground (arith, found)
    ]

insert_user-failed :
    (u : User) (e : Error) (env : Env) (w : World)
    → is_lost (env.fate w.calls) ≡ false
    → (insert_user u env w).0 ≡ err e
    → ((insert_user u env w).1.users ≡ w.users)
      × ((insert_user u env w).1.reservations ≡ w.reservations)
unfolding insert_user
insert_user-failed u e env w answered failed = (ground arith, ground arith)

insert_or_release-IsConsistent :
    (u : User) (env : Env) (w : World)
    → is_lost (env.fate w.calls) ≡ false
    → IsConsistent w
    → IsFresh u.id w
    → IsRoutable u
    → Reserves (claim_of u) (lookup u.email w.reservations)
    → IsConsistent (insert_or_release u env w).1
unfolding insert_or_release
insert_or_release-IsConsistent u env w answered h fresh routable reserved =
    let w' = (insert_user u env w).1 in
    let h' : IsConsistent w' = insert_user-IsConsistent u env w h routable reserved in
    elim (Result-cases (insert_user u env w).0) [
      | inl (created, e) ↦ ground (arith, e, h')
      | inr (thrown, e) ↦
          let same : w'.users ≡ w.users = (insert_user-failed u thrown env w answered e).0 in
          ground (
            arith,
            e,
            release_after_failed-IsConsistent u.email u.id env w' h'
                (rw same (reserved-IsUnused u w h fresh reserved)),
          )
    ]

-- The writes of `createUser`, for a new id.
pub register_member-IsConsistent :
    (u : User) (env : Env) (w : World)
    → NoLostAnswer env
    → IsConsistent w
    → IsFresh u.id w
    → IsRoutable u
    → IsConsistent (register_member u.shard u env w).1
unfolding register_member
register_member-IsConsistent u env w answered h fresh routable =
    let w' = (reserve_email (claim_of u) env w).1 in
    let h' : IsConsistent w' = reserve_email-IsConsistent (claim_of u) env w h fresh in
    let same : w'.users ≡ w.users = reserve_email-users (claim_of u) env w in
    let w'' = (insert_or_release u env w').1 in
    elim (Result-cases (reserve_email (claim_of u) env w).0) [
      | inr (thrown, e) ↦ ground (arith, e, h')
      | inl (_, e) ↦
          let h'' : IsConsistent w'' =
            insert_or_release-IsConsistent u env w' (answered w'.calls) h' (rw same fresh) routable
              (reserve_email-Reserves (claim_of u) env w e) in
          ground (arith, e, h'', activate_after_shard_commit-IsConsistent u.email u.id env w'' h'')
    ]

-- An update that leaves the key columns alone.
pub update_user_row-IsConsistent :
    (client id : ℕ) (connected : List ℕ) (f : User → User) (env : Env) (w : World)
    → ((rows : Dict Reservation) (u : User) → IsCovered rows u → IsCovered rows (f u))
    → IsConsistent w
    → IsConsistent (update_user_row client id connected f env w).1
unfolding update_user_row
update_user_row-IsConsistent client id connected f env w keeps h = ground (
  arith,
  All-update_where (IsCovered w.reservations) (is_id_row client id) f w.users (keeps w.reservations)
      h,
)

-- What a marker that was written leaves behind: the row is gone, or it is to be released.
abbrev pub Marked : ℕ → Option Reservation → Type 0
Marked id none = Unit
Marked id (some r) = (r.user_id ≡ id) × (r.status ≡ release_pending)

pub mark_before_delete-Marked :
    (email id : ℕ) (env : Env) (w : World)
    → (mark_release_pending_before_delete email id env w).0 ≡ ok tt
    → Marked id (lookup email (mark_release_pending_before_delete email id env w).1.reservations)
unfolding mark_release_pending_before_delete mark_release_pending find_reservation update_many
mark_before_delete-Marked email id env w e = elim (Option-cases (lookup email w.reservations)) [
  | inl missing ↦ ground (arith, missing)
  | inr (r, found) ↦ ground (arith, found, lookup-insert email email (mark r) w.reservations)
]
