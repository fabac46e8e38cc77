-- ===== src/Sessions/Rotation.antt =====
-- The tokens of cache/refreshToken.cache.ts that are valid after a rotation.
use graphql_prisma_postgres.Prelude.{
  ℕ, ◌≡◌, ◌≢◌, ◌↔◌, inl, inr, refl, true, false, not, ◌&&◌, ◌||◌, List, [], ◌∷◌, arith, Bool-cases,
  ◌==◌, elem, lookup-insert, lookup-erase,
}
use graphql_prisma_postgres.Effects.{World, Env, done, authentication, ok, err, tick, write}
use graphql_prisma_postgres.Sessions.{
  tokens, sadd, srem, revoke_all_refresh_tokens, rotate_script, rotate_refresh_token,
  assert_rotated,
}

elem-srem : (j jti : ℕ) (jtis : List ℕ) → elem j (srem jti jtis) ≡ (not (j == jti) && elem j jtis)
elem-srem j jti [] = ground arith
elem-srem j jti (k ∷ jtis) = ground (arith, elem-srem j jti jtis)

module _ (user old_jti new_jti : ℕ) (env : Env) (w : World)
    (answered : (n : ℕ) → env.fate n ≡ done) where
  -- A rotation of a token of the user's.
  pub assert_rotated-held :
      elem old_jti (tokens user w) ≡ true
      → (j : ℕ)
      → ((assert_rotated user old_jti new_jti env w).0 ≡ ok tt)
        × (elem j (tokens user (assert_rotated user old_jti new_jti env w).1)
            ≡ (j == new_jti || (not (j == old_jti) && elem j (tokens user w))))
  unfolding assert_rotated rotate_refresh_token rotate_script write tokens
  assert_rotated-held held j =
      let jtis = tokens user w in
      (
        ground (arith, answered w.calls, held),
        ground (
          arith,
          answered w.calls,
          held,
          lookup-insert user user (sadd new_jti (srem old_jti jtis)) w.sessions,
          elem-srem j old_jti jtis,
          elem-srem new_jti old_jti jtis,
        ),
      )

  -- Where Redis answers, a rotation of a token that is not the user's throws an authentication error
  -- and leaves the user with no valid token at all.
  pub assert_rotated-reuse :
      elem old_jti (tokens user w) ≡ false
      → ((assert_rotated user old_jti new_jti env w).0 ≡ err authentication)
        × (tokens user (assert_rotated user old_jti new_jti env w).1 ≡ [])
  unfolding assert_rotated rotate_refresh_token rotate_script revoke_all_refresh_tokens write tokens
  assert_rotated-reuse gone = (
    ground (arith, answered w.calls, answered (tick env w).calls, gone),
    ground (
      arith,
      answered w.calls,
      answered (tick env w).calls,
      gone,
      lookup-erase user user w.sessions,
    ),
  )

  -- Where Redis answers, a rotation returns exactly if the old token is one of the user's. A token of
  -- the user is valid afterwards exactly if the old one was the user's, and it is the new one, or was
  -- valid before and is not the old one.
  pub assert_rotated-tokens :
      (j : ℕ)
      → (((assert_rotated user old_jti new_jti env w).0 ≡ ok tt)
          ↔ (elem old_jti (tokens user w) ≡ true))
        × (elem j (tokens user (assert_rotated user old_jti new_jti env w).1) ≡ (
            elem old_jti (tokens user w)
            && (j == new_jti || (not (j == old_jti) && elem j (tokens user w)))))
  assert_rotated-tokens j = elim (Bool-cases (elem old_jti (tokens user w))) [
    | inl held ↦
        let (returns, valid) = assert_rotated-held held j in
        ((λ _. held, λ _. returns), rw held valid)
    | inr gone ↦
        let (throws, none_left) = assert_rotated-reuse gone in
        (
          (λ e. absurd (ground (arith, e, throws)), λ held. absurd (ground (arith, held, gone))),
          rw (gone, none_left) refl,
        )
  ]

-- A refresh token is good for one rotation: where Redis answers, after a rotation to another token a
-- second rotation of it throws, whatever the first one did, and afterwards none of the user's tokens
-- is valid.
pub assert_rotated-twice :
    (user old_jti new_jti newer_jti : ℕ) (env : Env) (w : World)
    → ((n : ℕ) → env.fate n ≡ done)
    → old_jti ≢ new_jti
    → ((assert_rotated user old_jti newer_jti env (assert_rotated user old_jti new_jti env w).1).0
        ≡ err authentication)
      × (tokens user
            (assert_rotated user old_jti newer_jti env
              (assert_rotated user old_jti new_jti env w).1).1
          ≡ [])
assert_rotated-twice user old_jti new_jti newer_jti env w answered ne =
    let w1 = (assert_rotated user old_jti new_jti env w).1 in
    let spent : elem old_jti (tokens user w1) ≡ false =
      elim (Bool-cases (elem old_jti (tokens user w))) [
        | inl held ↦
            ground (arith, (assert_rotated-held user old_jti new_jti env w answered held old_jti).1)
        | inr gone ↦ rw ((assert_rotated-reuse user old_jti new_jti env w answered gone).1) refl
      ] in
    assert_rotated-reuse user old_jti newer_jti env w1 answered spent

-- However its calls end, a rotation leaves the tokens of every other user as they are.
pub assert_rotated-others :
    (user other old_jti new_jti : ℕ) (env : Env) (w : World)
    → other ≢ user
    → tokens other (assert_rotated user old_jti new_jti env w).1 ≡ tokens other w
unfolding assert_rotated rotate_refresh_token rotate_script revoke_all_refresh_tokens write tokens
assert_rotated-others user other old_jti new_jti env w ne = ground (
  arith,
  lookup-insert user other (sadd new_jti (srem old_jti (tokens user w))) w.sessions,
  lookup-erase user other w.sessions,
)
