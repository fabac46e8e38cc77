-- ===== src/Users/Profile.antt =====
-- modules/user/services/user.service.ts: a user changes its own name and picture.
use graphql_prisma_postgres.Prelude.{
  ℕ, Bool, true, false, ◌&&◌, ◌||◌, Option, List, [], arith, ltb, if◌then◌else◌, length, find?,
  is_some, encode, inl, inr,
}
use graphql_prisma_postgres.Data.{UserType, UserStatus, User}
use graphql_prisma_postgres.Effects.{
  World, Env, validation, Result, ok, err, Result-cases, map_prisma_error, mapped_or, tick, M, pure,
  throw, ◌>>=◌, ◌>>◌, require, try_catch, lift, read, invalidate_user,
}
use graphql_prisma_postgres.Identity.Coverage.{IsConsistent}
use graphql_prisma_postgres.Access.Permissions.{to_graphql_permissions}
use graphql_prisma_postgres.Access.Grants.{is_member_row}
use graphql_prisma_postgres.Users.Input.{trim}
use graphql_prisma_postgres.Users.Members.{update_user_row}
use graphql_prisma_postgres.Users.Changes.{Field, undefined, null, value, set_avatar}
use graphql_prisma_postgres.Users.Coverage.{update_user_row-IsConsistent}
use graphql_prisma_postgres.Users.Requests.{IsCovered-of_route}

-- The name's part of `validateProfileUpdate`: it may be missing, but not null.
unfoldable pub validate_profile_name : Field → Result Field
validate_profile_name undefined = ok undefined
validate_profile_name null = err validation
validate_profile_name (value s) =
    let username = trim s in
    if ltb (length username) 2 || ltb 64 (length username)
    then err validation
    else ok (value username)

-- The picture's part: the empty text clears it, as null does.
abbrev pub profile_avatar : Field → Field
profile_avatar (value []) = null
profile_avatar f = f

abbrev pub is_undefined : Field → Bool
is_undefined undefined = true
is_undefined _ = false

-- `validateProfileUpdate`: the fields to update, at least one.
unfoldable pub validate_profile_update : Field → Field → Result (Field × Field)
validate_profile_update username avatar = elim (validate_profile_name username) [
  | err e ↦ err e
  | ok name ↦
      if is_undefined name && is_undefined avatar
      then err validation
      else ok (name, profile_avatar avatar)
]

-- What `updateProfile` returns: the row without its password, and the caller's permissions.
pub record Profile : Type 0 where
  pub id : ℕ
  pub email : ℕ
  pub username : ℕ
  pub user_type : UserType
  pub status : UserStatus
  pub avatar : Option ℕ
  pub workspace_id : ℕ
  pub permissions : List ℕ

abbrev pub profile_of : User → List ℕ → Profile
profile_of u permissions = record {
  id = u.id;
  email = u.email;
  username = u.username;
  user_type = u.user_type;
  status = u.status;
  avatar = u.avatar;
  workspace_id = u.workspace_id;
  permissions = to_graphql_permissions permissions;
}

abbrev pub set_validated_name : Field → User → User
set_validated_name (value s) u = record u { username = encode s }
set_validated_name _ u = u

unfoldable pub update_profile : ℕ → ℕ → ℕ → Field → Field → List ℕ → M Profile
unfolding read
update_profile client user workspace username avatar permissions = do
  updates ← lift (validate_profile_update username avatar)
  existing ← read (λ w. find? (is_member_row client workspace user) w.users)
  require (is_some existing) validation
  try_catch
      (do
        updated ←
            update_user_row client user []
              (λ u. set_avatar updates.1 (set_validated_name updates.0 u))
        invalidate_user user
        pure (profile_of updated.user permissions))
      (λ e. throw (mapped_or (map_prisma_error e) e))

pub update_profile-IsConsistent :
    (client user workspace : ℕ) (username avatar : Field) (permissions : List ℕ) (env : Env)
    (w : World)
    → IsConsistent w
    → IsConsistent (update_profile client user workspace username avatar permissions env w).1
unfolding update_profile invalidate_user
update_profile-IsConsistent client user workspace username avatar permissions env w h =
    elim (Result-cases (validate_profile_update username avatar)) [
      | inr (thrown, e) ↦ ground (arith, e)
      | inl ((name, picture), e) ↦ ground (
        arith,
        e,
        update_user_row-IsConsistent client user []
            (λ u. set_avatar picture (set_validated_name name u)) env (tick env w)
            (λ rows u c.
              IsCovered-of_route rows u (set_avatar picture (set_validated_name name u))
                (ground arith, ground arith, ground arith, ground arith) c)
            h,
      )
    ]
