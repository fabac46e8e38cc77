-- ===== src/Users/Deletion.antt =====
-- The coverage of users by reservations under `deleteUser` of modules/user-management.
use graphql_prisma_postgres.Prelude.{
  ℕ, ◌≡◌, ◌≢◌, inl, inr, refl, true, not, some, List, arith, Option-cases, lookup, All, All-both,
  All-keep, find?, find?-All, find?-some, keep, keep-passes,
}
use graphql_prisma_postgres.Data.{User}
use graphql_prisma_postgres.Effects.{World, Env, ok, Result-cases, invalidate_user}
use graphql_prisma_postgres.Identity.Release.{mark_release_pending_before_delete}
use graphql_prisma_postgres.Identity.Coverage.{IsCovered, IsConsistent, IsUnused}
use graphql_prisma_postgres.Identity.Coverage.Releasing.{
  mark_before_delete-IsConsistent, mark_before_delete-users, finalize_release-IsConsistent,
}
use graphql_prisma_postgres.Access.Grants.{is_member_row}
use graphql_prisma_postgres.Users.Members.{is_id_row, delete_user_row}
use graphql_prisma_postgres.Users.Changes.{delete_member}
use graphql_prisma_postgres.Users.Coverage.{Marked, mark_before_delete-Marked}

abbrev without : ℕ → ℕ → List User → List User
without client id us = keep (λ u. not (is_id_row client id u)) us

delete_user_row-IsConsistent :
    (client id : ℕ) (env : Env) (w : World)
    → IsConsistent w
    → IsConsistent (delete_user_row client id env w).1
unfolding delete_user_row
delete_user_row-IsConsistent client id env w h =
    ground (arith, All-keep (IsCovered w.reservations) (λ u. not (is_id_row client id u)) w.users h)

delete_user_row-ok :
    (client id : ℕ) (env : Env) (w : World)
    → (delete_user_row client id env w).0 ≡ ok tt
    → ((delete_user_row client id env w).1.users ≡ without client id w.users)
      × ((delete_user_row client id env w).1.reservations ≡ w.reservations)
unfolding delete_user_row
delete_user_row-ok client id env w e = (ground arith, ground arith)

module _ (rows : _) (client id email : ℕ) (target : User) where
  -- Only the target's row is covered by the marked reservation.
  kept_elsewhere :
      Marked id (lookup email rows)
      → IsCovered rows target
      → target.email ≡ email
      → target.shard ≡ client
      → (u : User) → IsCovered rows u
      → not (is_id_row client id u) ≡ true
      → u.email ≢ email
  kept_elsewhere marked c same_email same_shard u d kept same =
      elim (Option-cases (lookup email rows)) [
        | inl missing ↦ ground arith
        | inr (r, found) ↦ ground arith
      ]

-- Once the target's row is gone, nobody uses its email.
unused_after :
    (client id email : ℕ) (target : User) (w : World)
    → IsConsistent w
    → Marked id (lookup email w.reservations)
    → IsCovered w.reservations target
    → target.email ≡ email
    → target.shard ≡ client
    → All (λ u. u.email ≢ email) (without client id w.users)
unused_after client id email target w h marked c same_email same_shard =
    All-both (IsCovered w.reservations) (λ u. not (is_id_row client id u) ≡ true)
      (λ u. u.email ≢ email) (without client id w.users)
      (kept_elsewhere w.reservations client id email target marked c same_email same_shard)
      (All-keep (IsCovered w.reservations) (λ u. not (is_id_row client id u)) w.users h)
      (keep-passes (λ u. not (is_id_row client id u)) w.users)

-- The writes of a deletion keep every user covered by the reservation of its email, however their
-- calls end, where the member has that email.
pub delete_member-IsConsistent :
    (client workspace id : ℕ) (target : User) (env : Env) (w : World)
    → IsConsistent w
    → find? (is_member_row client workspace id) w.users ≡ some target
    → IsConsistent (delete_member client id target.email env w).1
unfolding delete_member invalidate_user
delete_member-IsConsistent client workspace id target env w h found =
    let email = target.email in
    let w1 = (mark_release_pending_before_delete email id env w).1 in
    let h1 : IsConsistent w1 = mark_before_delete-IsConsistent email id env w h in
    let same : w1.users ≡ w.users = mark_before_delete-users email id env w in
    let w2 = (delete_user_row client id env w1).1 in
    let h2 : IsConsistent w2 = delete_user_row-IsConsistent client id env w1 h1 in
    elim (Result-cases (mark_release_pending_before_delete email id env w).0) [
      | inr (thrown, e) ↦ ground (arith, e, h1)
      | inl (_, e) ↦ elim (Result-cases (delete_user_row client id env w1).0) [
        | inr (thrown, e') ↦ ground (arith, e, e', h2)
        | inl (_, e') ↦
            let row = delete_user_row-ok client id env w1 e' in
            let covered : IsCovered w1.reservations target =
              find?-All (IsCovered w1.reservations) (is_member_row client workspace id) w1.users
                target h1 (rw same found) in
            let there : is_member_row client workspace id target ≡ true =
              find?-some (is_member_row client workspace id) w.users target found in
            let unused : IsUnused email w2 = rw row.0 (
              unused_after client id email target w1 h1 (mark_before_delete-Marked email id env w e)
                covered refl (ground arith)) in
            ground (arith, e, e', finalize_release-IsConsistent email id env w2 h2 unused)
      ]
    ]
