-- ===== src/Users/Input.antt =====
-- The input of user management: modules/user-management/validation/user-management.schema.ts and
-- utils/email-normalize.util.ts, over code units.
use graphql_prisma_postgres.Prelude.{
  ℕ, Bool, ◌&&◌, ◌||◌, List, [], ◌∷◌, leb, ◌==◌, if◌then◌else◌, elem, length, encode,
}
use mathlib.Core.List.{reverse}
use graphql_prisma_postgres.Effects.{validation, M, ◌>>=◌, ◌>>◌, pure, lift, require}
use graphql_prisma_postgres.Access.Permissions.{to_permission_ids}

-- What `trim` takes away: the white space and line ends of ECMAScript.
abbrev pub is_space : ℕ → Bool
is_space c =
    (leb 9 c && leb c 13)
    || c == 32
    || c == 160
    || c == 5760
    || (leb 8192 c && leb c 8202)
    || c == 8232
    || c == 8233
    || c == 8239
    || c == 8287
    || c == 12288
    || c == 65279

unfoldable pub trim_start : List ℕ → List ℕ
trim_start [] = []
trim_start (c ∷ s) = let rest = trim_start s in if is_space c then rest else c ∷ s

unfoldable pub trim : List ℕ → List ℕ
unfolding trim_start
trim s = reverse (trim_start (reverse (trim_start s)))

-- `email.trim().toLowerCase()`
unfoldable pub normalize_email : (List ℕ → List ℕ) → List ℕ → List ℕ
unfolding trim
normalize_email to_lower email = to_lower (trim email)

pub record CreateUserData : Type 0 where
  pub email : List ℕ
  pub username : List ℕ
  pub password : List ℕ
  pub role_ids : List ℕ
  pub custom_permissions : List ℕ

-- What the validation returns, its texts numbered.
pub record CreateUserInput : Type 0 where
  pub email : ℕ
  pub username : ℕ
  pub password : ℕ
  pub custom_permissions : List ℕ

-- The texts' part of `validateCreateUserInput`: each failure is a `ValidationError`.
abbrev pub are_valid_texts : List ℕ → List ℕ → List ℕ → Bool
are_valid_texts email username password =
    elem 64 email && leb 2 (length username) && leb 8 (length password)

unfoldable pub validate_create_user_input : CreateUserData → M CreateUserInput
unfolding normalize_email
validate_create_user_input data' env w =
    let email = normalize_email env.to_lower data'.email in
    let username = trim data'.username in
    (do
      require (are_valid_texts email username data'.password) validation
      custom_permissions ← lift (to_permission_ids data'.custom_permissions)
      pure (record {
        email = encode email;
        username = encode username;
        password = encode data'.password;
        custom_permissions = custom_permissions;
      }))
      env w

-- `parseCustomPermissions` of a list
abbrev pub parse_custom_permissions : List ℕ → M (List ℕ)
parse_custom_permissions values = lift (to_permission_ids values)
