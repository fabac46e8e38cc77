-- ===== src/Roles/System.antt =====
-- System roles under the operations of modules/role.
use graphql_prisma_postgres.Prelude.{
  ℕ, ◌≡◌, inl, inr, refl, true, false, not, ◌&&◌, Option, none, some, List, [], ◌∷◌, arith,
  Option-cases, Bool-cases, ◌==◌, find?, update_where, keep, All,
}
use graphql_prisma_postgres.Data.{Role}
use graphql_prisma_postgres.Effects.{World, Env, Result-cases, tick}
use graphql_prisma_postgres.Users.Changes.{Field}
use graphql_prisma_postgres.Roles.{
  is_role_row, is_workspace_role, get_workspace_role, assert_name_is_free, update_role_row,
  delete_role_row, set_name, set_description, set_permissions, updated_name, updated_permissions,
  update_role, delete_role,
}

-- The id is unique on its shard.
abbrev OtherKey : Role → Role → Type 0
OtherKey r s = (s.shard == r.shard && s.id == r.id) ≡ false

abbrev pub HasKeys : List Role → Type 0
HasKeys [] = Unit
HasKeys (r ∷ rs) = All (OtherKey r) rs × HasKeys rs

abbrev pub StoredAt : ℕ → ℕ → Role → World → Type 0
StoredAt client id r w = find? (is_role_row client id) w.roles ≡ some r

-- With unique ids the row that the workspace's query finds is the row of the id.
module _ (client workspace id : ℕ) where
  none_with :
      (r : Role) (rs : List Role)
      → is_role_row client id r ≡ true
      → All (OtherKey r) rs
      → find? (is_workspace_role client workspace id) rs ≡ none
  none_with r [] e h = refl
  none_with r (s ∷ rs) e (p, h) = ground (arith, none_with r rs e h)

  same_row :
      (rs : List Role) (r s : Role)
      → HasKeys rs
      → find? (is_role_row client id) rs ≡ some r
      → find? (is_workspace_role client workspace id) rs ≡ some s
      → s ≡ r
  same_row [] r s h e f = absurd (cc)
  same_row (q ∷ rs) r s (p, h) e f = elim (Bool-cases (is_role_row client id q)) [
    | inl here ↦ ground (arith, here, none_with q rs here p)
    | inr there ↦ ground (arith, there, same_row rs r s h)
  ]

-- A statement on one key leaves the row of another key alone.
module _ (client id c other : ℕ) (ne : (c == client && other == id) ≡ false) where
  untouched-update_where :
      (f : Role → Role) (rs : List Role)
      → ((r : Role) → ((f r).id ≡ r.id) × ((f r).shard ≡ r.shard))
      → find? (is_role_row client id) (update_where (is_role_row c other) f rs)
        ≡ find? (is_role_row client id) rs
  untouched-update_where f [] same = refl
  untouched-update_where f (r ∷ rs) same = ground (arith, same r, untouched-update_where f rs same)

  untouched-keep :
      (rs : List Role)
      → find? (is_role_row client id) (keep (λ r. not (is_role_row c other r)) rs)
        ≡ find? (is_role_row client id) rs
  untouched-keep [] = refl
  untouched-keep (r ∷ rs) = ground (arith, untouched-keep rs)

  update_role_row-untouched :
      (name : Option ℕ) (description : Field) (permissions : Option (List ℕ)) (env : Env)
      (w : World)
      → find?
          (is_role_row client id)
          (update_role_row c other
            (λ r. set_permissions permissions (set_description description (set_name name r)))
            env
            w).1.roles
        ≡ find? (is_role_row client id) w.roles
  unfolding update_role_row
  update_role_row-untouched name description permissions env w = ground (
    arith,
    untouched-update_where
        (λ r. set_permissions permissions (set_description description (set_name name r))) w.roles
        (λ r. (ground arith, ground arith)),
  )

  delete_role_row-untouched :
      (env : Env) (w : World)
      → find? (is_role_row client id) (delete_role_row c other env w).1.roles
        ≡ find? (is_role_row client id) w.roles
  unfolding delete_role_row
  delete_role_row-untouched env w = ground (arith, untouched-keep w.roles)

pub updated_name-roles :
    (client workspace : ℕ) (role : Role) (name : Field) (env : Env) (w : World)
    → (updated_name client workspace role name env w).1.roles ≡ w.roles
unfolding updated_name assert_name_is_free
updated_name-roles client workspace role name env w = ground arith

pub updated_permissions-world :
    (values : Option (List ℕ)) (env : Env) (w : World) → (updated_permissions values env w).1 ≡ w
unfolding updated_permissions
updated_permissions-world values env w = ground arith

module _ (client id : ℕ) (r : Role) (c workspace other : ℕ) (env : Env) (w : World)
    (keys : HasKeys w.roles) (stored : StoredAt client id r w) (is_kept : r.is_system ≡ true) where
  -- The role that a request finds by the key of a system role is that system role.
  system_target :
      (s : Role)
      → (c == client && other == id) ≡ true
      → find? (is_workspace_role c workspace other) w.roles ≡ some s
      → s.is_system ≡ true
  system_target s own found =
      let c1 : c ≡ client = ground arith in
      let o1 : other ≡ id = ground arith in
      let stored' : find? (is_role_row c other) w.roles ≡ some r = rw (c1, o1) stored in
      ground (arith, same_row c workspace other w.roles r s keys stored' found)

  -- Deleting a role, of whatever workspace and shard, leaves every system role stored as it is,
  -- where no two roles of a shard have the same id.
  pub delete_role-keeps_system : StoredAt client id r (delete_role c workspace other env w).1
  unfolding delete_role get_workspace_role
  delete_role-keeps_system = elim (Bool-cases (c == client && other == id)) [
    | inr ne ↦ ground (arith, delete_role_row-untouched client id c other ne env (tick env w))
    | inl own ↦ elim (Option-cases (find? (is_workspace_role c workspace other) w.roles)) [
      | inl missing ↦ ground (arith, missing)
      | inr (s, found) ↦ ground (arith, found, system_target s own found)
    ]
  ]

  -- Changing a role, of whatever workspace and shard, leaves every system role stored as it is, where
  -- no two roles of a shard have the same id.
  pub update_role-keeps_system :
      (name description : Field) (values : Option (List ℕ))
      → StoredAt client id r (update_role c workspace other name description values env w).1
  unfolding update_role get_workspace_role
  update_role-keeps_system name description values =
      elim (Option-cases (find? (is_workspace_role c workspace other) w.roles)) [
        | inl missing ↦ ground (arith, missing)
        | inr (s, found) ↦ elim (Bool-cases (c == client && other == id)) [
          | inl own ↦ ground (arith, found, system_target s own found)
          | inr ne ↦
              let w1 = tick env w in
              let w2 = (updated_name c workspace s name env w1).1 in
              let kept : StoredAt client id r w2 =
                rw (updated_name-roles c workspace s name env w1) stored in
              elim (Result-cases (updated_name c workspace s name env w1).0) [
                | inr (thrown, e) ↦ ground (arith, found, e, kept)
                | inl (n, e) ↦ elim (Result-cases (updated_permissions values env w2).0) [
                  | inr (thrown, q) ↦
                      ground (arith, found, e, q, kept, updated_permissions-world values env w2)
                  | inl (p, q) ↦ ground (
                    arith,
                    found,
                    e,
                    q,
                    kept,
                    updated_permissions-world values env w2,
                    update_role_row-untouched client id c other ne n description p env w2,
                  )
                ]
              ]
        ]
      ]
