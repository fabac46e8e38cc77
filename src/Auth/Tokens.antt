-- ===== src/Auth/Tokens.antt =====
-- config/tokens.ts: the tokens of the API, and what a token is accepted as.
use graphql_prisma_postgres.Prelude.{
  ℕ, Bool, true, false, not, ◌&&◌, Option, none, some, List, [], ◌∷◌, if◌then◌else◌, some_truthy,
  codes, encode, after_prefix,
}
use graphql_prisma_postgres.Data.{User}
use graphql_prisma_postgres.Effects.{
  Payload, TokenType, access, storage_service, Secret, access_secret, refresh_secret,
  storage_secret, ok, M, pure, ◌>>=◌, next_uuid,
}

-- A body with no field.
abbrev pub no_claims : Payload
no_claims = record {
  id = none;
  email = none;
  user_type = none;
  workspace_id = none;
  is_2fa_pending = false;
  token_type = none;
  jti = none;
  sub = none;
}

abbrev pub is_access : TokenType → Bool
is_access access = true
is_access storage_service = false

-- `jwt.sign` and `jwt.verify` at the moment of the call.
abbrev pub sign : Secret → Payload → M ℕ
sign secret p env w = (ok (env.auth.sign secret w.clock p), w)

abbrev pub verify : Secret → ℕ → M (Option Payload)
verify secret token env w = (ok (env.auth.verify secret w.clock token), w)

unfoldable pub generate_access_token : Payload → M ℕ
generate_access_token p = sign access_secret (record p { token_type = some access })

unfoldable pub generate_refresh_token : ℕ → M (ℕ × ℕ)
generate_refresh_token user = do
  jti ← next_uuid
  token ← sign refresh_secret (record no_claims { jti = some jti; sub = some user })
  pure (token, jti)

unfoldable pub generate_storage_service_token : ℕ → Option ℕ → M ℕ
generate_storage_service_token id email =
    sign storage_secret
      (record no_claims { id = some id; email = email; token_type = some storage_service })

-- The tests on a verified access token: one of the storage service is no access token.
abbrev pub accepted_access : Option Payload → Option Payload
accepted_access none = none
accepted_access (some p) = elim p.token_type [
  | none ↦ some p
  | some t ↦ if is_access t then some p else none
]

unfoldable pub verify_access_token : ℕ → M (Option Payload)
verify_access_token token = do decoded ← verify access_secret token; pure (accepted_access decoded)

unfoldable pub verify_refresh_token : ℕ → M (Option Payload)
verify_refresh_token token = verify refresh_secret token

abbrev pub accepted_storage : Option Payload → Option Payload
accepted_storage none = none
accepted_storage (some p) = elim p.token_type [
  | none ↦ none
  | some t ↦ if not (is_access t) && some_truthy p.id then some p else none
]

unfoldable pub verify_storage_service_token : ℕ → M (Option Payload)
verify_storage_service_token token = do
  decoded ← verify storage_secret token
  pure (accepted_storage decoded)

-- The body of a user's access token.
abbrev pub claims_of : User → Bool → Payload
claims_of u pending = record no_claims {
  id = some u.id;
  email = some u.email;
  user_type = some u.user_type;
  workspace_id = some u.workspace_id;
  is_2fa_pending = pending;
}

-- The result of `generateTokenPair`.
pub record TokenPair : Type 0 where
  pub access_token : ℕ
  pub refresh_token : ℕ
  pub jti : ℕ

unfoldable pub generate_token_pair : User → M TokenPair
generate_token_pair u = do
  access_token ← generate_access_token (claims_of u false)
  refresh ← generate_refresh_token u.id
  pure (record { access_token = access_token; refresh_token = refresh.0; jti = refresh.1 })

-- `hashToken`
abbrev pub hash_token : ℕ → M ℕ
hash_token raw env w = (ok (env.auth.sha256 raw), w)

-- `s.replace(pattern, '')`: the first occurrence goes.
unfoldable pub remove_first : List ℕ → List ℕ → List ℕ
remove_first p [] = []
remove_first p (c ∷ s) =
    let rest = remove_first p s in
    elim (after_prefix p (c ∷ s)) [ some tail ↦ tail | none ↦ c ∷ rest ]

-- `token ? token.replace('Bearer ', '') : null`, as a text that is empty where there is none.
abbrev pub bearer_token : List ℕ → ℕ
bearer_token token = encode (remove_first (codes "Bearer ") token)
