-- ===== src/Auth/Recovery/Refresh.antt =====
-- What a renewal of tokens does, in `refreshTokens` of modules/auth/services/auth.service.ts.
use graphql_prisma_postgres.Prelude.{
  ℕ, ◌≡◌, ◌≢◌, inl, inr, refl, sym, ◌+◌, true, false, not, ◌&&◌, ◌||◌, Option, none, some, arith,
  Option-cases, Bool-cases, ◌==◌, elem,
}
use graphql_prisma_postgres.Data.{User, UserStatus}
use graphql_prisma_postgres.Effects.{
  World, Env, refresh_secret, done, ok, Result-cases, tick, next_uuid,
}
use graphql_prisma_postgres.Identity.Reservation.{get_db_for_workspace}
use graphql_prisma_postgres.Sessions.{tokens, assert_rotated}
use graphql_prisma_postgres.Sessions.Rotation.{assert_rotated-held, assert_rotated-reuse}
use graphql_prisma_postgres.Auth.Tokens.{
  generate_access_token, generate_refresh_token, generate_token_pair, TokenPair,
  verify_refresh_token,
}
use graphql_prisma_postgres.Auth.Login.{AuthPayload, is_open_row}
use graphql_prisma_postgres.Auth.Challenge.{FoundUser, find_with_workspace}
use graphql_prisma_postgres.Auth.Recovery.{refresh_claims, refresh_found, refresh_tokens}

-- A valid identifier of the user was exchanged between two states for a new one.
abbrev pub Exchanged : ℕ → ℕ → ℕ → World → World → Type 0
Exchanged sub jti new_jti w w' =
    (elem jti (tokens sub w) ≡ true)
    × ((j : ℕ)
        → elem j (tokens sub w') ≡ (j == new_jti || (not (j == jti) && elem j (tokens sub w))))

find_with_workspace-world :
    (id : ℕ) (env : Env) (w : World) → (find_with_workspace id env w).1 ≡ tick env w
unfolding find_with_workspace
find_with_workspace-world id env w = ground arith

same_tokens : (user : ℕ) (v w : World) → v.sessions ≡ w.sessions → tokens user v ≡ tokens user w
unfolding tokens
same_tokens user v w e = ground (arith, e)

Exchanged-moved :
    (sub jti n m : ℕ) (v w u u' : World)
    → v.sessions ≡ w.sessions
    → n ≡ m
    → u' ≡ u
    → Exchanged sub jti n v u
    → Exchanged sub jti m w u'
Exchanged-moved sub jti n m v w u u' kept same last (held, after) =
    let t : tokens sub v ≡ tokens sub w = same_tokens sub v w kept in
    (ground (arith, t, held), λ j. ground (arith, t, after j, same, last))

generate_token_pair-jti :
    (u : User) (p : TokenPair) (env : Env) (w : World)
    → (generate_token_pair u env w).0 ≡ ok p
    → (p.jti ≡ env.uuid w.calls) × ((generate_token_pair u env w).1.sessions ≡ w.sessions)
unfolding generate_token_pair generate_access_token generate_refresh_token next_uuid
generate_token_pair-jti u p env w e = (ground arith, ground arith)

assert_rotated-Exchanged :
    (sub jti new_jti : ℕ) (env : Env) (w : World)
    → ((n : ℕ) → env.fate n ≡ done)
    → (assert_rotated sub jti new_jti env w).0 ≡ ok tt
    → Exchanged sub jti new_jti w (assert_rotated sub jti new_jti env w).1
assert_rotated-Exchanged sub jti new_jti env w answered e =
    elim (Bool-cases (elem jti (tokens sub w))) [
      | inl held ↦ (held, λ j. (assert_rotated-held sub jti new_jti env w answered held j).1)
      | inr gone ↦
          absurd (ground (arith, (assert_rotated-reuse sub jti new_jti env w answered gone).0))
    ]

module _ (sub jti : ℕ) (found : FoundUser) (env : Env) (w : World) (payload : AuthPayload)
    (e : (refresh_found sub jti found env w).0 ≡ ok payload) where
  refresh_found-active :
      (found.user.status ≡ UserStatus.active) × (is_open_row found.workspace ≡ true)
  unfolding refresh_found get_db_for_workspace
  refresh_found-active = (ground arith, ground arith)

  refresh_found-Exchanged :
      ((n : ℕ) → env.fate n ≡ done)
      → Exchanged sub jti (env.uuid w.calls) w (refresh_found sub jti found env w).1
  unfolding refresh_found get_db_for_workspace
  refresh_found-Exchanged answered =
      let w1 = (generate_token_pair found.user env w).1 in
      elim (Result-cases (generate_token_pair found.user env w).0) [
        | inr (thrown, q) ↦ absurd (ground (arith, q))
        | inl (p, q) ↦
            let (new, kept) = generate_token_pair-jti found.user p env w q in
            let w2 = (assert_rotated sub jti p.jti env w1).1 in
            let rotated : (assert_rotated sub jti p.jti env w1).0 ≡ ok tt = ground (arith, q) in
            let last : (refresh_found sub jti found env w).1 ≡ w2 = ground (arith, q, rotated) in
            let (held, after) = assert_rotated-Exchanged sub jti p.jti env w1 answered rotated in
            let same : tokens sub w1 ≡ tokens sub w = same_tokens sub w1 w kept in
            let held' : elem jti (tokens sub w) ≡ true = rw (sym same) held in
            (held', λ j. rw last (ground (arith, after j, same, new)))
      ]

-- The user and the identifier of a refresh token, at a date.
abbrev pub claims_at : ℕ → Env → ℕ → Option (ℕ × ℕ)
claims_at token env date = refresh_claims (env.auth.verify refresh_secret date token)

-- Where Redis and the databases answer and a renewal of tokens returns, the refresh token names a
-- user and an identifier; the user, as it was found on the shards, is active in an active workspace;
-- the identifier was valid for the user, and is exchanged for a new one: afterwards an identifier is
-- valid if it is the new one, or was valid before and is not the old one.
pub refresh_tokens-Exchanged :
    (token : ℕ) (env : Env) (w : World) (payload : AuthPayload)
    → ((n : ℕ) → env.fate n ≡ done)
    → (refresh_tokens token env w).0 ≡ ok payload
    → (sub : ℕ) × (jti : ℕ) × (found : FoundUser) × (claims_at token env w.clock ≡ some (sub, jti))
      × ((find_with_workspace sub env w).0 ≡ ok (some found))
      × (found.user.status ≡ UserStatus.active)
      × (is_open_row found.workspace ≡ true)
      × Exchanged sub jti (env.uuid (w.calls + 1)) w (refresh_tokens token env w).1
unfolding refresh_tokens verify_refresh_token
refresh_tokens-Exchanged token env w payload answered e =
    elim (Option-cases (claims_at token env w.clock)) [
      | inl missing ↦ absurd (ground (arith, missing))
      | inr ((sub, jti), named) ↦ elim (Result-cases (find_with_workspace sub env w).0) [
        | inr (thrown, q) ↦ absurd (ground (arith, named, q))
        | inl (none, q) ↦ absurd (ground (arith, named, q))
        | inl (some found, q) ↦
            let w1 = (find_with_workspace sub env w).1 in
            let moved : w1 ≡ tick env w = find_with_workspace-world sub env w in
            let e' : (refresh_found sub jti found env w1).0 ≡ ok payload =
              ground (arith, named, q) in
            let last : (refresh_tokens token env w).1 ≡ (refresh_found sub jti found env w1).1 =
              ground (arith, named, q) in
            let (active, open_row) = refresh_found-active sub jti found env w1 payload e' in
            let exchanged = refresh_found-Exchanged sub jti found env w1 payload e' answered in
            let exchanged' =
              Exchanged-moved sub jti (env.uuid w1.calls) (env.uuid (w.calls + 1)) w1 w
                (refresh_found sub jti found env w1).1 (refresh_tokens token env w).1
                (rw moved refl) (rw moved refl) last exchanged in
            (sub, jti, found, named, q, active, open_row, exchanged')
      ]
    ]

-- A refresh token is good for one renewal: where Redis and the databases answer, where the token is
-- read as the same user and identifier whenever it is accepted, and where no identifier that is
-- generated is its own, no renewal with it returns after one that has returned.
pub refresh_tokens-once :
    (token sub jti : ℕ) (env : Env) (w : World) (payload again : AuthPayload)
    → ((n : ℕ) → env.fate n ≡ done)
    → ((n : ℕ) → env.uuid n ≢ jti)
    → ((date : ℕ) (claims : ℕ × ℕ) → claims_at token env date ≡ some claims → claims ≡ (sub, jti))
    → (refresh_tokens token env w).0 ≡ ok payload
    → (refresh_tokens token env (refresh_tokens token env w).1).0 ≢ ok again
refresh_tokens-once token sub jti env w payload again answered new stable e e' =
    let w1 = (refresh_tokens token env w).1 in
    let (sub1, jti1, _, named, _, _, _, (_, after)) =
      refresh_tokens-Exchanged token env w payload answered e in
    let (sub2, jti2, _, named', _, _, _, (held, _)) =
      refresh_tokens-Exchanged token env w1 again answered e' in
    let same : (sub1, jti1) ≡ (sub, jti) = stable w.clock (sub1, jti1) named in
    let same' : (sub2, jti2) ≡ (sub, jti) = stable w1.clock (sub2, jti2) named' in
    let spent : elem jti1 (tokens sub1 w1) ≡ false =
      ground (arith, after jti1, same, new (w.calls + 1)) in
    ground (arith, same, same', spent, held)
