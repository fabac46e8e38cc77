-- ===== src/Users/Marker.antt =====
-- The reservation that `deleteUser` of modules/user-management leaves behind.
use graphql_prisma_postgres.Prelude.{
  ℕ, ◌≡◌, inl, inr, true, false, some, List, arith, Option-cases, lookup, lookup-erase, All, find?,
  find?-All, find?-some,
}
use graphql_prisma_postgres.Data.{User}
use graphql_prisma_postgres.Effects.{World, Env, Result-cases, tick, invalidate_user}
use graphql_prisma_postgres.Identity.Reservation.{delete_many}
use graphql_prisma_postgres.Identity.Release.{
  mark_release_pending_before_delete, finalize_release_after_user_delete,
}
use graphql_prisma_postgres.Identity.Coverage.Releasing.{mark_before_delete-users}
use graphql_prisma_postgres.Access.Grants.{get_workspace_member, is_member_row}
use graphql_prisma_postgres.Users.Members.{is_id_row, delete_user_row}
use graphql_prisma_postgres.Users.Changes.{delete_member, delete_user}
use graphql_prisma_postgres.Users.Coverage.{Marked, mark_before_delete-Marked}

delete_user_row-reservations :
    (client id : ℕ) (env : Env) (w : World)
    → (delete_user_row client id env w).1.reservations ≡ w.reservations
unfolding delete_user_row
delete_user_row-reservations client id env w = ground arith

finalize-Marked :
    (email id : ℕ) (env : Env) (w : World)
    → Marked id (lookup email w.reservations)
    → Marked id (lookup email (finalize_release_after_user_delete email id env w).1.reservations)
unfolding finalize_release_after_user_delete delete_many
finalize-Marked email id env w m = elim (Option-cases (lookup email w.reservations)) [
  | inl missing ↦ ground (arith, missing)
  | inr (r, found) ↦ ground (arith, found, lookup-erase email email w.reservations)
]

-- No row of the client's shard has the id.
abbrev pub IsGone : ℕ → ℕ → World → Type 0
IsGone client id w = All (λ u. is_id_row client id u ≡ false) w.users

still_there :
    (client workspace id : ℕ) (target : User) (us : List User)
    → find? (is_member_row client workspace id) us ≡ some target
    → All (λ u. is_id_row client id u ≡ false) us
    → ⊥
still_there client workspace id target us found gone =
    let there : is_member_row client workspace id target ≡ true =
      find?-some (is_member_row client workspace id) us target found in
    let absent : is_id_row client id target ≡ false =
      find?-All (λ u. is_id_row client id u ≡ false) (is_member_row client workspace id) us target
        gone found in
    ground arith

delete_member-Marked :
    (client workspace id : ℕ) (target : User) (env : Env) (w : World)
    → find? (is_member_row client workspace id) w.users ≡ some target
    → IsGone client id (delete_member client id target.email env w).1
    → Marked id (lookup target.email (delete_member client id target.email env w).1.reservations)
unfolding delete_member invalidate_user
delete_member-Marked client workspace id target env w found gone =
    let email = target.email in
    let w1 = (mark_release_pending_before_delete email id env w).1 in
    let same : w1.users ≡ w.users = mark_before_delete-users email id env w in
    elim (Result-cases (mark_release_pending_before_delete email id env w).0) [
      | inr (thrown, e) ↦
          let gone' : All (λ u. is_id_row client id u ≡ false) w.users = ground (arith, e) in
          absurd (still_there client workspace id target w.users found gone')
      | inl (_, e) ↦
          let w2 = (delete_user_row client id env w1).1 in
          let marked : Marked id (lookup email w2.reservations) =
            rw (delete_user_row-reservations client id env w1)
              (mark_before_delete-Marked email id env w e) in
          elim (Result-cases (delete_user_row client id env w1).0) [
            | inr (thrown, e') ↦ ground (arith, e, e', marked)
            | inl (_, e') ↦ ground (arith, e, e', finalize-Marked email id env w2 marked)
          ]
    ]

-- However the calls of a member's deletion end: where no row of the shard has the member's id
-- afterwards, the reservation of its email is either gone too or marked `RELEASE_PENDING` for that user, so that the batch finds it.
pub delete_user-Marked :
    (client workspace id : ℕ) (target : User) (env : Env) (w : World)
    → find? (is_member_row client workspace id) w.users ≡ some target
    → IsGone client id (delete_user client workspace id env w).1
    → Marked id (lookup target.email (delete_user client workspace id env w).1.reservations)
unfolding delete_user get_workspace_member
delete_user-Marked client workspace id target env w found gone = ground (
  arith,
  found,
  still_there client workspace id target w.users found,
  delete_member-Marked client workspace id target env (tick env w) found,
)
