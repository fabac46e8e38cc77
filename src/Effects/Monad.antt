-- ===== src/Effects/Monad.antt =====
-- An asynchronous function of the service: it reads the environment, changes the state, and returns
-- or throws. The state comes back after a throw too, since what was written stays written.
use graphql_prisma_postgres.Prelude.{ℕ, ◌+◌, Bool, Option, none, some, if◌then◌else◌}
use graphql_prisma_postgres.Prelude.{Dict, erase, List, [], ◌∷◌}
use graphql_prisma_postgres.Effects.Errors.{Error, prisma, Result, ok, err}
use graphql_prisma_postgres.Effects.State.{World, Env, done, refused, lost}

abbrev pub M : Type 0 → Type 0
M A = Env → World → Result A × World

abbrev pub pure : {A : Type 0} → A → M A
pure a env w = (ok a, w)

abbrev pub throw : {A : Type 0} → Error → M A
throw e env w = (err e, w)

infixl 5 ◌>>=◌ ◌>>◌
abbrev pub ◌>>=◌ : {A B : Type 0} → M A → (A → M B) → M B
◌>>=◌ m f env w = let (r, w') = m env w in elim r [ ok a ↦ f a env w' | err e ↦ (err e, w') ]

abbrev pub ◌>>◌ : {A B : Type 0} → M A → M B → M B
m >> k = m >>= λ _. k

-- `if (!test) throw e`
abbrev pub require : Bool → Error → M (Unit {0})
require test e env w = (if test then ok tt else err e, w)

-- `try { m } catch (e) { h(e) }`
abbrev pub try_catch : {A : Type 0} → M A → (Error → M A) → M A
try_catch m h env w = let (r, w') = m env w in elim r [ ok a ↦ (ok a, w') | err e ↦ h e env w' ]

abbrev pub or_throw : {A : Type 0} → Option A → Error → M A
or_throw none e = throw e
or_throw (some a) e = pure a

-- `new Date()`
abbrev pub now : M ℕ
now env w = (ok w.clock, w)

-- A call is under way: time passes.
abbrev pub tick : Env → World → World
tick env w = record w { clock = w.clock + env.delay w.calls; calls = w.calls + 1 }

-- A query; a lost answer of a query is a failure like any other.
unfoldable pub read : {A : Type 0} → (World → A) → M A
read f env w = elim (env.fate w.calls) [
  | done ↦ (ok (f (tick env w)), tick env w)
  | refused c ↦ (err (prisma c), tick env w)
  | lost c ↦ (err (prisma c), tick env w)
]

-- A statement or a transaction that writes: `f` gives its answer and the tables after it, and
-- leaves the tables as they are when it throws.
unfoldable pub write : {A : Type 0} → (World → Result A × World) → M A
write f env w = elim (env.fate w.calls) [
  | done ↦ f (tick env w)
  | refused c ↦ (err (prisma c), tick env w)
  | lost c ↦ (err (prisma c), (f (tick env w)).1)
]

-- `cache.invalidateUser`, which swallows every failure of Redis.
unfoldable pub invalidate_user : ℕ → M (Unit {0})
invalidate_user id env w =
    (ok tt, if env.redis w.calls then record w { cache = erase id w.cache } else w)

-- A call that only computes.
abbrev pub lift : {A : Type 0} → Result A → M A
lift r env w = (r, w)

-- `try { m } finally { k }` where `k` does not throw
abbrev pub finally : {A : Type 0} → M A → M (Unit {0}) → M A
finally m k env w = let (r, w') = m env w in (r, (k env w').1)

-- `crypto.randomUUID()`
abbrev pub uuid : M ℕ
uuid env w = (ok (env.uuid w.calls), w)

abbrev pub erase_all : {V : Type 0} → List ℕ → Dict V → Dict V
erase_all [] d = d
erase_all (k ∷ ks) d = erase_all ks (erase k d)

-- `cache.invalidateUsers`: one command for all keys, and every failure is swallowed.
unfoldable pub invalidate_users : List ℕ → M (Unit {0})
invalidate_users ids env w =
    (ok tt, if env.redis w.calls then record w { cache = erase_all ids w.cache } else w)

-- `crypto.randomUUID()` where another one follows: the counter moves on, so that the next may differ.
unfoldable pub next_uuid : M ℕ
next_uuid env w = (ok (env.uuid w.calls), record w { calls = w.calls + 1 })
