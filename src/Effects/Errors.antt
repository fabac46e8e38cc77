-- ===== src/Effects/Errors.antt =====
-- errors/index.ts: the error classes, and `mapPrismaError`.
use graphql_prisma_postgres.Prelude.{Option, none, some, ◌≡◌, ◌⊎◌, inl, inr, refl}

-- The codes of a `PrismaClientKnownRequestError`; `other` is any other thrown value.
pub data PrismaCode : Type 0 where
  p2002 p2003 p2025 p1001 p1002 p1017 other : PrismaCode

-- `extensions.code` where the code sets one.
pub data Detail : Type 0 where
  plain : Detail
  identity_activation_pending : Detail
  identity_release_mismatch : Detail
  identity_release_mark_failed : Detail
  identity_release_pending : Detail
  identity_route_incomplete : Detail
  identity_integrity_error : Detail

pub data Error : Type 0 where
  authentication authorization validation not_found : Error
  conflict : Detail → Error
  dependency_unavailable : Detail → Error
  prisma : PrismaCode → Error

pub data Result {ℓ} (A : Type ℓ) : Type ℓ where
  ok : A → Result A
  err : Error → Result A

-- `mapPrismaError`: null for what is no known database error.
unfoldable pub map_prisma_error : Error → Option Error
map_prisma_error (prisma p2002) = some (conflict plain)
map_prisma_error (prisma p2025) = some not_found
map_prisma_error (prisma p2003) = some validation
map_prisma_error (prisma p1001) = some (dependency_unavailable plain)
map_prisma_error (prisma p1002) = some (dependency_unavailable plain)
map_prisma_error (prisma p1017) = some (dependency_unavailable plain)
map_prisma_error _ = none

-- `if (mapped) throw mapped; throw error`
abbrev pub mapped_or : Option Error → Error → Error
mapped_or none e = e
mapped_or (some m) e = m

-- To split on how a call ended, with the equation kept.
pub Result-cases {ℓ} :
    {A : Type ℓ} (r : Result A) → ((a : A) × (r ≡ ok a)) ⊎ ((e : Error) × (r ≡ err e))
Result-cases (ok a) = inl (a, refl)
Result-cases (err e) = inr (e, refl)
