-- ===== src/Access/Permissions/Effective.antt =====
-- Proofs on authorization/effectivePermissions.ts.
use graphql_prisma_postgres.Prelude.{
  ℕ, ◌≡◌, refl, ap, false, ◌&&◌, ◌||◌, List, [], ◌∷◌, ◌++◌, arith, ◌==◌, elem, elem-append, any,
  Bool-cases, inl, inr,
}
use graphql_prisma_postgres.Data.{UserType, owner, member, is_owner_type}
use graphql_prisma_postgres.Access.Permissions.{
  is_permission_id, all_permissions, add, merge, merge_all, compute_effective_permissions,
}

elem-add : (q p : ℕ) (merged : List ℕ) → elem q (add merged p) ≡ (elem q merged || q == p)
unfolding add
elem-add q p merged = ground (arith, elem-append q merged (p ∷ []))

elem-merge :
    (q : ℕ) (ps merged : List ℕ)
    → elem q (merge merged ps) ≡ (elem q merged || (is_permission_id q && elem q ps))
unfolding merge
elem-merge q [] merged = ground arith
elem-merge q (p ∷ ps) merged = ground (
  arith,
  elem-merge q ps (add merged p),
  elem-merge q ps merged,
  elem-add q p merged,
  λ (e : q ≡ p). ap is_permission_id e,
)

elem-merge_all :
    (q : ℕ) (lists : List (List ℕ)) (merged : List ℕ)
    → elem q (merge_all merged lists)
      ≡ (elem q merged || (is_permission_id q && any (elem q) lists))
unfolding merge_all
elem-merge_all q [] merged = ground arith
elem-merge_all q (ps ∷ lists) merged =
    ground (arith, elem-merge_all q lists (merge merged ps), elem-merge q ps merged)

-- A permission is in effect exactly if it is in the catalog and the user is an owner, or one of
-- the user's roles lists it, or it is one of the user's custom permissions.
pub elem-compute_effective_permissions :
    (q : ℕ) (t : UserType) (role_permissions : List (List ℕ)) (custom : List ℕ)
    → elem q (compute_effective_permissions t role_permissions custom)
      ≡ (is_permission_id q && (is_owner_type t || any (elem q) role_permissions || elem q custom))
unfolding compute_effective_permissions is_permission_id
elem-compute_effective_permissions q owner role_permissions custom = ground arith
elem-compute_effective_permissions q member role_permissions custom = ground (
  arith,
  elem-merge q custom (merge_all [] role_permissions),
  elem-merge_all q role_permissions [],
)

abbrev pub IsDistinct : List ℕ → Type 0
IsDistinct [] = Unit
IsDistinct (x ∷ xs) = (elem x xs ≡ false) × IsDistinct xs

IsDistinct-concat :
    (xs : List ℕ) (p : ℕ) → IsDistinct xs → elem p xs ≡ false → IsDistinct (xs ++ p ∷ [])
IsDistinct-concat [] p h e = (refl, tt)
IsDistinct-concat (x ∷ xs) p h e =
    ground (arith, IsDistinct-concat xs p h.1, elem-append x xs (p ∷ []))

add-IsDistinct : (merged : List ℕ) (p : ℕ) → IsDistinct merged → IsDistinct (add merged p)
unfolding add
add-IsDistinct merged p h = ground (arith, IsDistinct-concat merged p h)

merge-IsDistinct : (merged ps : List ℕ) → IsDistinct merged → IsDistinct (merge merged ps)
unfolding merge
merge-IsDistinct merged [] h = h
merge-IsDistinct merged (p ∷ ps) h = elim (Bool-cases (is_permission_id p)) [
  | inl y ↦ rw y (merge-IsDistinct (add merged p) ps (add-IsDistinct merged p h))
  | inr n ↦ rw n (merge-IsDistinct merged ps h)
]

merge_all-IsDistinct :
    (lists : List (List ℕ)) (merged : List ℕ)
    → IsDistinct merged
    → IsDistinct (merge_all merged lists)
unfolding merge_all
merge_all-IsDistinct [] merged h = h
merge_all-IsDistinct (ps ∷ lists) merged h =
    merge_all-IsDistinct lists (merge merged ps) (merge-IsDistinct merged ps h)

all_permissions-IsDistinct : IsDistinct all_permissions
unfolding all_permissions
all_permissions-IsDistinct = ground arith

-- The permissions in effect are listed without repetition.
pub compute_effective_permissions-IsDistinct :
    (t : UserType) (role_permissions : List (List ℕ)) (custom : List ℕ)
    → IsDistinct (compute_effective_permissions t role_permissions custom)
unfolding compute_effective_permissions
compute_effective_permissions-IsDistinct owner role_permissions custom = all_permissions-IsDistinct
compute_effective_permissions-IsDistinct member role_permissions custom =
    merge-IsDistinct (merge_all [] role_permissions) custom
      (merge_all-IsDistinct role_permissions [] tt)
