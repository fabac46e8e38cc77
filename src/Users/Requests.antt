-- ===== src/Users/Requests.antt =====
-- The coverage of users by reservations under the updates of modules/user-management.
use graphql_prisma_postgres.Prelude.{
  ℕ, ◌≡◌, inl, inr, refl, some, List, [], ◌∷◌, arith, Option-cases, lookup, Dict, find?,
}
use graphql_prisma_postgres.Data.{User, UserStatus, Reservation}
use graphql_prisma_postgres.Effects.{World, Env, Result-cases, tick, invalidate_user}
use graphql_prisma_postgres.Identity.Coverage.{IsCovered, IsConsistent}
use graphql_prisma_postgres.Access.Grants.{
  AccessActor, assert_can_assign_roles, get_workspace_member, is_member_row,
}
use graphql_prisma_postgres.Access.Permissions.{to_permission_ids}
use graphql_prisma_postgres.Users.Changes.{
  update_and_invalidate, Field, set_username, set_avatar, update_user, set_status,
  update_user_status, assert_may_change_roles, set_roles, set_user_roles, add_roles, assign_roles,
  drop_roles, assert_may_remove, remove_roles, set_custom, set_user_permissions, delete_user,
}
use graphql_prisma_postgres.Users.Coverage.{update_user_row-IsConsistent}
use graphql_prisma_postgres.Users.Deletion.{delete_member-IsConsistent}

-- An update leaves the columns alone that the directory routes by.
abbrev pub KeepsRoute : (User → User) → Type 0
KeepsRoute f =
    (u : User)
    → ((f u).id ≡ u.id)
      × ((f u).email ≡ u.email)
      × ((f u).workspace_id ≡ u.workspace_id)
      × ((f u).shard ≡ u.shard)

pub IsCovered-of_route :
    (rows : Dict Reservation) (u u' : User)
    → (u'.id ≡ u.id)
      × (u'.email ≡ u.email)
      × (u'.workspace_id ≡ u.workspace_id)
      × (u'.shard ≡ u.shard)
    → IsCovered rows u
    → IsCovered rows u'
IsCovered-of_route rows u u' same c = elim (Option-cases (lookup u.email rows)) [
  | inl missing ↦ absurd (ground (arith, missing))
  | inr (r, found) ↦
      let found' : lookup u'.email rows ≡ some r = cc in ground (arith, found, found')
]

update_and_invalidate-IsConsistent :
    (client id : ℕ) (connected : List ℕ) (f : User → User) (env : Env) (w : World)
    → KeepsRoute f
    → IsConsistent w
    → IsConsistent (update_and_invalidate client id connected f env w).1
unfolding update_and_invalidate invalidate_user
update_and_invalidate-IsConsistent client id connected f env w keeps h = ground (
  arith,
  update_user_row-IsConsistent client id connected f env w
      (λ rows u c. IsCovered-of_route rows u (f u) (keeps u) c) h,
)

module _ (client workspace id : ℕ) (env : Env) (w : World) (h : IsConsistent w) where
  pub update_user-IsConsistent :
      (username avatar : Field)
      → IsConsistent (update_user client workspace id username avatar env w).1
  unfolding update_user get_workspace_member
  update_user-IsConsistent username avatar = ground (
    arith,
    update_and_invalidate-IsConsistent client id []
        (λ u. set_avatar avatar (set_username username u)) env (tick env w)
        (λ u. (ground arith, ground arith, ground arith, ground arith)) h,
  )

  pub delete_user-IsConsistent : IsConsistent (delete_user client workspace id env w).1
  unfolding delete_user get_workspace_member
  delete_user-IsConsistent =
      elim (Option-cases (find? (is_member_row client workspace id) w.users)) [
        | inl missing ↦ ground (arith, missing)
        | inr (target, found) ↦ ground (
          arith,
          found,
          delete_member-IsConsistent client workspace id target env (tick env w) h found,
        )
      ]

  module _ (actor : AccessActor) where
    pub update_user_status-IsConsistent :
        (status : UserStatus)
        → IsConsistent (update_user_status client workspace actor id status env w).1
    unfolding update_user_status get_workspace_member
    update_user_status-IsConsistent status = ground (
      arith,
      update_and_invalidate-IsConsistent client id [] (set_status status) env (tick env w)
          (λ u. (refl, refl, refl, refl)) h,
    )

    pub set_user_roles-IsConsistent :
        (roles : List ℕ) → IsConsistent (set_user_roles client workspace actor id roles env w).1
    unfolding set_user_roles assert_may_change_roles get_workspace_member assert_can_assign_roles
    set_user_roles-IsConsistent [] = ground (
      arith,
      update_and_invalidate-IsConsistent client id [] (set_roles []) env (tick env w)
          (λ u. (refl, refl, refl, refl)) h,
    )
    set_user_roles-IsConsistent (r ∷ rs) = ground (
      arith,
      update_and_invalidate-IsConsistent client id (r ∷ rs) (set_roles (r ∷ rs)) env
          (tick env (tick env w)) (λ u. (refl, refl, refl, refl)) h,
    )

    pub assign_roles-IsConsistent :
        (roles : List ℕ) → IsConsistent (assign_roles client workspace actor id roles env w).1
    unfolding assign_roles assert_may_change_roles get_workspace_member assert_can_assign_roles
    assign_roles-IsConsistent [] = ground (
      arith,
      update_and_invalidate-IsConsistent client id [] (add_roles []) env (tick env w)
          (λ u. (refl, refl, refl, refl)) h,
    )
    assign_roles-IsConsistent (r ∷ rs) = ground (
      arith,
      update_and_invalidate-IsConsistent client id (r ∷ rs) (add_roles (r ∷ rs)) env
          (tick env (tick env w)) (λ u. (refl, refl, refl, refl)) h,
    )

    pub remove_roles-IsConsistent :
        (roles : List ℕ) → IsConsistent (remove_roles client workspace actor id roles env w).1
    unfolding remove_roles assert_may_change_roles get_workspace_member assert_may_remove
    remove_roles-IsConsistent roles = ground (
      arith,
      update_and_invalidate-IsConsistent client id [] (drop_roles roles) env (tick env w)
          (λ u. (refl, refl, refl, refl)) h,
      update_and_invalidate-IsConsistent client id [] (drop_roles roles) env (tick env (tick env w))
          (λ u. (refl, refl, refl, refl)) h,
    )

    pub set_user_permissions-IsConsistent :
        (input : List ℕ)
        → IsConsistent (set_user_permissions client workspace actor id input env w).1
    unfolding set_user_permissions get_workspace_member
    set_user_permissions-IsConsistent input = elim (Result-cases (to_permission_ids input)) [
      | inr (thrown, e) ↦ ground (arith, e)
      | inl (custom, e) ↦ ground (
        arith,
        e,
        update_and_invalidate-IsConsistent client id [] (set_custom custom) env (tick env w)
            (λ u. (refl, refl, refl, refl)) h,
      )
    ]
