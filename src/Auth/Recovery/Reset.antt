-- ===== src/Auth/Recovery/Reset.antt =====
-- What a reset of a password does, in `resetPassword` of modules/auth/services/auth.service.ts.
use graphql_prisma_postgres.Prelude.{
  ℕ, ◌≤◌, ◌≡◌, ◌≢◌, inl, inr, refl, Bool, true, false, Option, none, some, List, [], ◌∷◌, arith,
  Option-cases, Bool-cases, ◌==◌, length, find?, find?-some, find?-All, All, update_where, encode,
  lookup-erase,
}
use graphql_prisma_postgres.Data.{User}
use graphql_prisma_postgres.Effects.{World, Env, ok, Result-cases, tick, invalidate_user}
use graphql_prisma_postgres.Identity.Resolve.{find_user_across_shards}
use graphql_prisma_postgres.Identity.Resolve.Routing.{FindsFirst}
use graphql_prisma_postgres.Users.Members.{UserWithRoles, update_user_row, is_id_row}
use graphql_prisma_postgres.Sessions.{tokens, revoke_all_refresh_tokens}
use graphql_prisma_postgres.Auth.Recovery.{
  is_reset_row, is_live_reset, set_password, reset_password,
}

abbrev find_reset : ℕ → World → ℕ → Option User
find_reset hash w shard = find? (is_reset_row hash shard) w.users

found_row :
    (hash : ℕ) (u : User) (client : ℕ) (env : Env) (w : World)
    → FindsFirst env
    → (find_user_across_shards (find_reset hash) env w).0 ≡ ok (some (u, client))
    → find_reset hash w client ≡ some u
unfolding find_user_across_shards
found_row hash u client env w law e = elim (Option-cases (env.find_first (find_reset hash w))) [
  | inl missing ↦ absurd (ground (arith, missing))
  | inr ((shard, v), found) ↦
      let there : find? (is_reset_row hash shard) w.users ≡ some v =
        law (find_reset hash w) shard v found in
      ground (arith, found, there)
]

find_user_across_shards-world :
    (finder : World → ℕ → Option User) (env : Env) (w : World)
    → (find_user_across_shards finder env w).1 ≡ tick env w
unfolding find_user_across_shards
find_user_across_shards-world finder env w = ground arith

-- A password was reset between two states.
pub record HasReset (hash : ℕ) (password : List ℕ) (env : Env) (w w' : World) : Type 0 where
  pub user : User
  pub client : ℕ
  pub long : 8 ≤ length password
  pub found : find? (is_reset_row hash client) w.users ≡ some user
  pub live : is_live_reset (tick env w).clock user ≡ true
  pub changed :
      w'.users
      ≡ update_where
          (is_id_row client user.id)
          (set_password (env.bcrypt (encode password)))
          w.users
  pub signed_out : tokens user.id w' ≡ []

written :
    (client id : ℕ) (f : User → User) (env : Env) (w : World)
    → (m : UserWithRoles) × ((update_user_row client id [] f env w).0 ≡ ok m)
    → (update_user_row client id [] f env w).1.users ≡ update_where (is_id_row client id) f w.users
unfolding update_user_row
written client id f env w (m, e) = ground arith

-- Where a reset of a password returns, the password has at least eight characters, the token is the
-- one of a user's row on the shard that the sharding package named, and it has not expired. The rows
-- of that user there have the new password and no token any more, no other row is changed, and none
-- of the user's refresh tokens is left.
pub reset_password-HasReset :
    (raw_token : ℕ) (password : List ℕ) (env : Env) (w : World)
    → FindsFirst env
    → (reset_password raw_token password env w).0 ≡ ok true
    → HasReset
        (env.auth.sha256 raw_token)
        password
        env
        w
        (reset_password raw_token password env w).1
unfolding reset_password revoke_all_refresh_tokens invalidate_user tokens
reset_password-HasReset raw_token password env w law e =
    let hash = env.auth.sha256 raw_token in
    elim (Result-cases (find_user_across_shards (find_reset hash) env w).0) [
      | inr (thrown, q) ↦ absurd (ground (arith, q))
      | inl (none, q) ↦ absurd (ground (arith, q))
      | inl (some (u, client), q) ↦
          let w1 = (find_user_across_shards (find_reset hash) env w).1 in
          let f = set_password (env.bcrypt (encode password)) in
          let w2 = (update_user_row client u.id [] f env w1).1 in
          let moved : w1 ≡ tick env w = find_user_across_shards-world (find_reset hash) env w in
          elim (Result-cases (update_user_row client u.id [] f env w1).0) [
            | inr (thrown, r) ↦ absurd (ground (arith, q, r))
            | inl (m, r) ↦ record {
              user = u;
              client = client;
              long = ground (arith, q, r);
              found = found_row hash u client env w law q;
              live = ground (arith, q, r, moved);
              changed = ground (arith, q, r, moved, written client u.id f env w1 (m, r));
              signed_out = ground (arith, q, r, lookup-erase u.id u.id w2.sessions);
            }
          ]
    ]

-- The row holds the token.
abbrev holds : ℕ → User → Bool
holds hash u = elim u.password_reset [ none ↦ false | some r ↦ r.token_hash == hash ]

-- Nobody but one user holds the token.
abbrev pub IsOnlyHolder : ℕ → ℕ → ℕ → User → Type 0
IsOnlyHolder hash client id u = holds hash u ≡ true → is_id_row client id u ≡ true

abbrev IsWithout : ℕ → User → Type 0
IsWithout hash u = holds hash u ≡ false

nobody_holds :
    (hash client id password : ℕ) (us : List User)
    → All (IsOnlyHolder hash client id) us
    → All (IsWithout hash) (update_where (is_id_row client id) (set_password password) us)
nobody_holds hash client id password [] h = tt
nobody_holds hash client id password (u ∷ us) (p, h) = (
  elim (Bool-cases (is_id_row client id u)) [
    | inl own ↦ rw own refl
    | inr foreign ↦ elim (Bool-cases (holds hash u)) [
      | inl held ↦ absurd (ground (arith, p held, foreign))
      | inr free ↦ rw foreign free
    ]
  ],
  nobody_holds hash client id password us h,
)

nobody_found :
    (hash shard : ℕ) (us : List User)
    → All (IsWithout hash) us
    → find? (is_reset_row hash shard) us ≡ none
nobody_found hash shard [] h = refl
nobody_found hash shard (u ∷ us) (p, h) = ground (arith, p, nobody_found hash shard us h)

-- Without a holder of the token no reset returns.
reset_password-refused :
    (raw_token : ℕ) (password : List ℕ) (b : Bool) (env : Env) (w : World)
    → FindsFirst env
    → All (IsWithout (env.auth.sha256 raw_token)) w.users
    → (reset_password raw_token password env w).0 ≢ ok b
unfolding reset_password
reset_password-refused raw_token password b env w law free e =
    let hash = env.auth.sha256 raw_token in
    elim (Result-cases (find_user_across_shards (find_reset hash) env w).0) [
      | inr (thrown, q) ↦ ground (arith, q)
      | inl (none, q) ↦ ground (arith, q)
      | inl (some (u, client), q) ↦
          let found : find? (is_reset_row hash client) w.users ≡ some u =
            found_row hash u client env w law q in
          let missing : find? (is_reset_row hash client) w.users ≡ none =
            nobody_found hash client w.users free in
          cc
    ]

-- The token of a reset is good for one reset: where one user at most holds it, no reset with it
-- returns after one that has returned, whatever the passwords are.
pub reset_password-once :
    (raw_token client id : ℕ) (password another : List ℕ) (b : Bool) (env : Env) (w : World)
    → FindsFirst env
    → All (IsOnlyHolder (env.auth.sha256 raw_token) client id) w.users
    → (reset_password raw_token password env w).0 ≡ ok true
    → (reset_password raw_token another env (reset_password raw_token password env w).1).0 ≢ ok b
reset_password-once raw_token client id password another b env w law only e =
    let hash = env.auth.sha256 raw_token in
    let h = reset_password-HasReset raw_token password env w law e in
    let w1 = (reset_password raw_token password env w).1 in
    let named : is_reset_row hash h.client h.user ≡ true =
      find?-some (is_reset_row hash h.client) w.users h.user h.found in
    let own : is_id_row client id h.user ≡ true =
      find?-All (IsOnlyHolder hash client id) (is_reset_row hash h.client) w.users h.user only
        h.found (ground arith) in
    let same : (h.client ≡ client) × (h.user.id ≡ id) = (ground arith, ground arith) in
    let free = nobody_holds hash client id (env.bcrypt (encode password)) w.users only in
    let free' : All (IsWithout hash) w1.users = rw (h.changed, same.0, same.1) free in
    reset_password-refused raw_token another b env w1 law free'
