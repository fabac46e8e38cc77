-- ===== src/Sessions.antt =====
-- cache/refreshToken.cache.ts: the refresh tokens of a user, a set in Redis. A key's expiry is not
-- modelled. A command of Redis that fails throws an error that is none of the database's.
pub mod Rotation
use graphql_prisma_postgres.Prelude.{
  ℕ, Bool, true, false, not, Option, none, some, List, [], ◌∷◌, ◌==◌, if◌then◌else◌, elem, keep,
  Dict, lookup, insert, erase,
}
use graphql_prisma_postgres.Effects.{
  World, Env, authentication, Result, ok, err, M, pure, throw, ◌>>=◌, ◌>>◌, read, write,
}

-- The members of a key; a missing key is the empty set.
abbrev pub members : Option (List ℕ) → List ℕ
members none = []
members (some jtis) = jtis

unfoldable pub tokens : ℕ → World → List ℕ
tokens user w = members (lookup user w.sessions)

-- `SADD`
abbrev pub sadd : ℕ → List ℕ → List ℕ
sadd jti jtis = if elem jti jtis then jtis else jti ∷ jtis

-- `SREM`
abbrev pub srem : ℕ → List ℕ → List ℕ
srem jti jtis = keep (λ j. not (j == jti)) jtis

abbrev pub set_tokens : ℕ → List ℕ → World → World
set_tokens user jtis w = record w { sessions = insert user jtis w.sessions }

unfoldable pub store_refresh_token : ℕ → ℕ → M (Unit {0})
unfolding write tokens
store_refresh_token user jti = write λ w. (ok tt, set_tokens user (sadd jti (tokens user w)) w)

unfoldable pub is_refresh_token_valid : ℕ → ℕ → M Bool
unfolding read tokens
is_refresh_token_valid user jti = read (λ w. elem jti (tokens user w))

unfoldable pub revoke_refresh_token : ℕ → ℕ → M (Unit {0})
unfolding write tokens
revoke_refresh_token user jti = write λ w. (ok tt, set_tokens user (srem jti (tokens user w)) w)

unfoldable pub revoke_all_refresh_tokens : ℕ → M (Unit {0})
unfolding write
revoke_all_refresh_tokens user = write λ w. (ok tt, record w { sessions = erase user w.sessions })

-- `ROTATE_SCRIPT`, which Redis runs as one command: it answers 1 where the old token was there.
unfoldable pub rotate_script : ℕ → ℕ → ℕ → M Bool
unfolding write tokens
rotate_script user old_jti new_jti = write λ w.
    if elem old_jti (tokens user w)
    then (ok true, set_tokens user (sadd new_jti (srem old_jti (tokens user w))) w)
    else (ok false, w)

pub data RotateResult : Type 0 where
  rotated reuse : RotateResult

unfoldable pub rotate_refresh_token : ℕ → ℕ → ℕ → M RotateResult
rotate_refresh_token user old_jti new_jti = do
  result ← rotate_script user old_jti new_jti
  if result then pure rotated else (revoke_all_refresh_tokens user >> pure reuse)

abbrev pub assert_outcome : RotateResult → M (Unit {0})
assert_outcome rotated = pure tt
assert_outcome reuse = throw authentication

unfoldable pub assert_rotated : ℕ → ℕ → ℕ → M (Unit {0})
assert_rotated user old_jti new_jti = do
  outcome ← rotate_refresh_token user old_jti new_jti
  assert_outcome outcome
