-- ===== src/Tests/Users.antt =====
-- Requests of user management, run on a workspace with an owner and one member.
use graphql_prisma_postgres.Prelude.{
  ℕ, ◌≡◌, refl, false, some, [], arith, lookup, insert, All, find?, codes, encode,
}
use graphql_prisma_postgres.Data.{User}
use graphql_prisma_postgres.Effects.{World}
use graphql_prisma_postgres.Identity.Resolve.{is_email_row}
use graphql_prisma_postgres.Access.Grants.{get_workspace_member}
use graphql_prisma_postgres.Effects.{read, write, invalidate_user}
use graphql_prisma_postgres.Identity.Release.{
  mark_release_pending_before_delete, mark_release_pending, finalize_release_after_user_delete,
}
use graphql_prisma_postgres.Identity.Reservation.{find_reservation, update_many, delete_many}
use graphql_prisma_postgres.Users.Members.{delete_user_row, update_user_row}
use graphql_prisma_postgres.Users.Changes.{update_and_invalidate}
use graphql_prisma_postgres.Identity.Coverage.{IsConsistent, IsFresh}
use graphql_prisma_postgres.Users.Input.{CreateUserData, trim}
use graphql_prisma_postgres.Users.Members.{is_id_row}
use graphql_prisma_postgres.Users.Changes.{
  update_user, value, undefined, delete_user, delete_member,
}
use graphql_prisma_postgres.Users.History.{
  profile, delete, Reach, here, next, Reach-IsConsistent, unique_email,
}
use graphql_prisma_postgres.Users.Coverage.{Marked}
use graphql_prisma_postgres.Users.Marker.{delete_user-Marked}
use graphql_prisma_postgres.Examples.{calm, office, helper}

office-IsConsistent : IsConsistent office
unfolding lookup
office-IsConsistent = ground arith

abbrev newcomer : CreateUserData
newcomer = record {
  email = codes "c@d";
  username = codes "cd";
  password = codes "password";
  role_ids = [];
  custom_permissions = [];
}

office-IsFresh : (n : ℕ) → IsFresh (calm.uuid n) office
office-IsFresh n = ground arith

-- The member is deleted after its name was changed.
abbrev renamed : World
renamed = (update_user 1 7 11 (value (codes "bo")) undefined calm office).1

abbrev history : Reach office (delete_user 1 7 11 calm renamed).1
history = next (next here (profile calm 1 7 11 (value (codes "bo")) undefined)) (delete calm 1 7 11)

Reach-IsConsistent_example : IsConsistent (delete_user 1 7 11 calm renamed).1
Reach-IsConsistent_example = Reach-IsConsistent history office-IsConsistent

abbrev renamed_helper : User
renamed_helper = record helper { username = encode (codes "bo") }

renamed_row : find? (is_id_row 1 11) renamed.users ≡ some renamed_helper
unfolding update_user get_workspace_member read update_and_invalidate update_user_row write
    invalidate_user trim
renamed_row = refl

-- The same row, found by its email.
same_row : find? (is_email_row 101 1) renamed.users ≡ some renamed_helper
unfolding update_user get_workspace_member read update_and_invalidate update_user_row write
    invalidate_user trim
same_row = refl

unique_email_example :
    (renamed_helper.id ≡ renamed_helper.id)
    × (renamed_helper.workspace_id ≡ renamed_helper.workspace_id)
    × (renamed_helper.shard ≡ renamed_helper.shard)
unique_email_example =
    unique_email (is_id_row 1 11) (is_email_row 101 1) renamed_helper renamed_helper
      (next here (profile calm 1 7 11 (value (codes "bo")) undefined)) office-IsConsistent
      renamed_row same_row refl

helper_gone : All (λ u. is_id_row 1 11 u ≡ false) (delete_user 1 7 11 calm office).1.users
unfolding delete_user delete_member get_workspace_member read write
    mark_release_pending_before_delete mark_release_pending find_reservation update_many
    finalize_release_after_user_delete delete_many invalidate_user delete_user_row lookup insert
helper_gone = (refl, tt)

delete_user-Marked_example : Marked 11 (lookup 101 (delete_user 1 7 11 calm office).1.reservations)
delete_user-Marked_example = delete_user-Marked 1 7 11 helper calm office refl helper_gone
