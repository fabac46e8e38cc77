-- ===== src/Identity/Coverage.antt =====
-- The invariant of the directory of identity/email-reservation.service.ts: every user's row is covered
-- by the reservation of its email, which names the user, the workspace and the shard.
pub mod Tables
pub mod Reserving
pub mod Releasing
use graphql_prisma_postgres.Prelude.{
  ℕ, ◌<◌, ◌≡◌, ◌≢◌, ◌⊎◌, refl, Bool, true, false, ◌&&◌, Option, none, some, List, [], ◌∷◌, arith,
  ◌==◌, All, All-map, All-both, Dict, lookup, insert, erase, lookup-insert, lookup-erase, find?,
  find?-none,
}
use graphql_prisma_postgres.Data.{Reservation, User}
use graphql_prisma_postgres.Effects.{World}
use graphql_prisma_postgres.Identity.Reservation.{route_of, is_user_row}

abbrev pub Covers : Option Reservation → User → Type 0
Covers none u = ⊥
Covers (some r) u =
    (r.user_id ≡ u.id) × (r.workspace_id ≡ some u.workspace_id) × (r.shard_id ≡ some u.shard)

abbrev pub IsCovered : Dict Reservation → User → Type 0
IsCovered rows u =
    Covers (lookup u.email rows) u × (0 < u.id) × (0 < u.workspace_id) × (0 < u.shard)

abbrev pub IsConsistent : World → Type 0
IsConsistent w = All (IsCovered w.reservations) w.users

-- No user's row has the identifier; none carries the email.
abbrev pub IsFresh : ℕ → World → Type 0
IsFresh id w = All (λ u. u.id ≢ id) w.users

abbrev pub IsUnused : ℕ → World → Type 0
IsUnused email w = All (λ u. u.email ≢ email) w.users

module _ (rows : Dict Reservation) (email : ℕ) where
  IsCovered-erase : (u : User) → IsCovered rows u → u.email ≢ email → IsCovered (erase email rows) u
  IsCovered-erase u h ne = ground (arith, lookup-erase email u.email rows)

  pub All-IsCovered-erase :
      (us : List User)
      → All (IsCovered rows) us
      → All (λ u. u.email ≢ email) us
      → All (IsCovered (erase email rows)) us
  All-IsCovered-erase us h g =
      All-both (IsCovered rows) (λ u. u.email ≢ email) (IsCovered (erase email rows)) us
        IsCovered-erase h g

  -- Without a reservation for the email no covered user carries it.
  pub unused_of_none :
      (us : List User)
      → lookup email rows ≡ none
      → All (IsCovered rows) us
      → All (λ u. u.email ≢ email) us
  unused_of_none us e h =
      All-map (IsCovered rows) (λ u. u.email ≢ email) us (λ u c same. ground (arith, same, c, e)) h

module _ (rows : Dict Reservation) (email : ℕ) (r : Reservation) where
  IsCovered-insert_unused :
      (u : User) → IsCovered rows u → u.email ≢ email → IsCovered (insert email r rows) u
  IsCovered-insert_unused u c ne = ground (arith, lookup-insert email u.email r rows)

  -- Any row may be written for an email that nobody uses.
  pub All-IsCovered-insert_unused :
      (us : List User)
      → All (IsCovered rows) us
      → All (λ u. u.email ≢ email) us
      → All (IsCovered (insert email r rows)) us
  All-IsCovered-insert_unused us h g =
      All-both (IsCovered rows) (λ u. u.email ≢ email) (IsCovered (insert email r rows)) us
        IsCovered-insert_unused h g

  fresh_covers_none :
      lookup email rows ≡ some r
      → (u : User) → IsCovered rows u
      → u.id ≢ r.user_id
      → u.email ≢ email
  fresh_covers_none e u c fresh same = ground arith

  -- A row of a user with no row of its own covers nobody.
  pub unused_of_fresh :
      (us : List User)
      → lookup email rows ≡ some r
      → All (IsCovered rows) us
      → All (λ u. u.id ≢ r.user_id) us
      → All (λ u. u.email ≢ email) us
  unused_of_fresh us e h g =
      All-both (IsCovered rows) (λ u. u.id ≢ r.user_id) (λ u. u.email ≢ email) us
        (fresh_covers_none e) h g

module _ (rows : Dict Reservation) (email : ℕ) (r r' : Reservation) where
  IsCovered-insert :
      lookup email rows ≡ some r
      → r'.user_id ≡ r.user_id
      → r'.workspace_id ≡ r.workspace_id
      → r'.shard_id ≡ r.shard_id
      → (u : User) → IsCovered rows u
      → IsCovered (insert email r' rows) u
  IsCovered-insert e h1 h2 h3 u c = ground (arith, lookup-insert email u.email r' rows)

  -- A row may be rewritten if its route stays.
  pub All-IsCovered-insert :
      (us : List User)
      → lookup email rows ≡ some r
      → r'.user_id ≡ r.user_id
      → r'.workspace_id ≡ r.workspace_id
      → r'.shard_id ≡ r.shard_id
      → All (IsCovered rows) us
      → All (IsCovered (insert email r' rows)) us
  All-IsCovered-insert us e h1 h2 h3 h =
      All-map (IsCovered rows) (IsCovered (insert email r' rows)) us (IsCovered-insert e h1 h2 h3) h

module _ (rows : Dict Reservation) (email : ℕ) (r : Reservation) where
  -- A row with no complete route covers nobody.
  unrouted_covers_none :
      lookup email rows ≡ some r
      → (route_of r ≡ none) ⊎ (r.user_id ≡ 0)
      → (u : User) → IsCovered rows u
      → u.email ≢ email
  unrouted_covers_none e h u c same = ground arith

  -- A row covers only the user that its route leads to.
  routed_covers_one :
      (shard workspace : ℕ)
      → lookup email rows ≡ some r
      → route_of r ≡ some (workspace, shard)
      → (u : User) → IsCovered rows u
      → is_user_row shard r.user_id email workspace u ≡ false
      → u.email ≢ email
  routed_covers_one shard workspace e h u c f same = ground arith

  -- Without a complete route, and where the routed lookup has found nobody, the email is unused.
  pub unused_of_unrouted :
      (us : List User)
      → lookup email rows ≡ some r
      → (route_of r ≡ none) ⊎ (r.user_id ≡ 0)
      → All (IsCovered rows) us
      → All (λ u. u.email ≢ email) us
  unused_of_unrouted us e h g =
      All-map (IsCovered rows) (λ u. u.email ≢ email) us (unrouted_covers_none e h) g

  pub unused_of_missing :
      (us : List User) (shard workspace : ℕ)
      → lookup email rows ≡ some r
      → route_of r ≡ some (workspace, shard)
      → All (IsCovered rows) us
      → find? (is_user_row shard r.user_id email workspace) us ≡ none
      → All (λ u. u.email ≢ email) us
  unused_of_missing us shard workspace e h g missing =
      All-both (IsCovered rows) (λ u. is_user_row shard r.user_id email workspace u ≡ false)
        (λ u. u.email ≢ email) us (routed_covers_one shard workspace e h) g
        (find?-none (is_user_row shard r.user_id email workspace) us missing)
