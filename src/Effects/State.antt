-- ===== src/Effects/State.antt =====
-- The databases as one state, and the environment. The control-plane table, the tables of the
-- shards, the cache and the refresh tokens in Redis are the state; how a call of a database ends,
-- how long it takes, and what the sharding package and Redis answer are the environment's choice.
use graphql_prisma_postgres.Prelude.{ℕ, Bool, true, false, Option, List, Dict}
use graphql_prisma_postgres.Data.{Reservation, User, Workspace, Role}
use graphql_prisma_postgres.Effects.Errors.{PrismaCode}
use graphql_prisma_postgres.Effects.Library.{AuthLibrary}

pub record World : Type 0 where
  pub reservations : Dict Reservation
  pub users : List User
  pub workspaces : List Workspace
  pub roles : List Role
  -- the cached users, each with its routing hint
  pub cache : Dict (Option ℕ)
  -- `refresh:<userId>`, a set of token identifiers
  pub sessions : Dict (List ℕ)
  pub clock : ℕ
  -- how many calls of a database were made
  pub calls : ℕ

-- How a call of a database ends: it is done and answered; it is refused, with nothing written; or
-- it is done and its answer is lost, so that the caller sees an error after a write.
pub data Fate : Type 0 where
  done : Fate
  refused lost : PrismaCode → Fate

abbrev pub is_lost : Fate → Bool
is_lost (lost _) = true
is_lost _ = false

-- The number of calls made so far picks what happens next.
pub record Env : Type 0 where
  pub fate : ℕ → Fate
  pub delay : ℕ → ℕ
  -- `sharding.getShardById` returns the shard's client, or throws
  pub reachable : ℕ → ℕ → Bool
  -- `sharding.getShard`: the shard of a workspace that has no assignment
  pub route : ℕ → ℕ
  -- `sharding.findFirst`: a shard and what the finder found there, or nothing
  pub find_first : (ℕ → Option User) → Option (ℕ × User)
  -- Redis is healthy and takes the command
  pub redis : ℕ → Bool
  -- `crypto.randomUUID`
  pub uuid : ℕ → ℕ
  -- `bcrypt.hash`
  pub bcrypt : ℕ → ℕ
  -- the libraries of the authentication
  pub auth : AuthLibrary
  -- `String.prototype.toLowerCase`
  pub to_lower : List ℕ → List ℕ
