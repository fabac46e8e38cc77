-- ===== src/Access/Permissions/Catalog.antt =====
-- The catalog: the two names of a permission, and the conversions of lists of them.
use graphql_prisma_postgres.Prelude.{
  ℕ, ◌≡◌, refl, Bool, true, false, ◌&&◌, some, List, [], ◌∷◌, arith, ◌==◌, elem, All, Option-cases,
  Bool-cases, inl, inr,
}
use graphql_prisma_postgres.Effects.{ok, err}
use graphql_prisma_postgres.Access.Permissions.{
  permissions, all_permissions, is_permission_id, to_id_in, to_name_in, to_permission_id,
  to_permission_ids, to_graphql_permission, to_graphql_permissions,
}

round_trips : List ℕ → Bool
round_trips [] = true
round_trips (id ∷ ids) =
    elim (to_permission_id (to_graphql_permission id)) [ ok i ↦ i == id | err _ ↦ false ]
    && round_trips ids

-- Each of the fifteen identifiers, by evaluation.
round_trips-all_permissions : round_trips all_permissions ≡ true
unfolding round_trips all_permissions to_permission_id to_graphql_permission to_id_in to_name_in
round_trips-all_permissions = refl

round_trips-elem :
    (ids : List ℕ) (id : ℕ)
    → round_trips ids ≡ true
    → elem id ids ≡ true
    → to_permission_id (to_graphql_permission id) ≡ ok id
unfolding round_trips
round_trips-elem [] id h e = cc
round_trips-elem (i ∷ ids) id h e = elim (Bool-cases (id == i)) [
  | inl same ↦ let s : id ≡ i = ground arith in rw s (ground arith)
  | inr other ↦ round_trips-elem ids id (ground arith) (ground arith)
]

-- The names that the API shows for permissions of the catalog are read back as the same permissions.
pub to_permission_ids-to_graphql_permissions :
    (ids : List ℕ)
    → All (λ id. is_permission_id id ≡ true) ids
    → to_permission_ids (to_graphql_permissions ids) ≡ ok ids
unfolding to_permission_ids to_graphql_permissions is_permission_id
to_permission_ids-to_graphql_permissions [] h = refl
to_permission_ids-to_graphql_permissions (id ∷ ids) (p, h) = ground (
  arith,
  to_permission_ids-to_graphql_permissions ids h,
  round_trips-elem all_permissions id round_trips-all_permissions p,
)

in_catalog : List (ℕ × ℕ) → Bool
in_catalog [] = true
in_catalog ((_, id) ∷ entries) = is_permission_id id && in_catalog entries

in_catalog-permissions : in_catalog permissions ≡ true
unfolding in_catalog is_permission_id all_permissions
in_catalog-permissions = refl

to_id_in-in_catalog :
    (entries : List (ℕ × ℕ)) (v id : ℕ)
    → in_catalog entries ≡ true
    → to_id_in entries v ≡ some id
    → is_permission_id id ≡ true
unfolding in_catalog to_id_in
to_id_in-in_catalog [] v id h e = cc
to_id_in-in_catalog ((key, i) ∷ entries) v id h e = ground (arith, to_id_in-in_catalog entries v id)

to_permission_id-in_catalog : (v id : ℕ) → to_permission_id v ≡ ok id → is_permission_id id ≡ true
unfolding to_permission_id
to_permission_id-in_catalog v id e = elim (Option-cases (to_id_in permissions v)) [
  | inl missing ↦ ground (arith, missing)
  | inr (i, found) ↦
      ground (arith, found, to_id_in-in_catalog permissions v i in_catalog-permissions found)
]

-- Whatever the conversion of the API's input accepts is in the catalog, where the maps are read in
-- their own entries.
pub to_permission_ids-in_catalog :
    (vs ids : List ℕ) → to_permission_ids vs ≡ ok ids → All (λ id. is_permission_id id ≡ true) ids
unfolding to_permission_ids
to_permission_ids-in_catalog [] [] e = tt
to_permission_ids-in_catalog [] (_ ∷ _) e = absurd (cc)
to_permission_ids-in_catalog (v ∷ vs) [] e = absurd (ground arith)
to_permission_ids-in_catalog (v ∷ vs) (id ∷ ids) e =
    ground (arith, to_permission_id-in_catalog v id, to_permission_ids-in_catalog vs ids)
