-- ===== src/Query/Order.antt =====
-- The order of utils/query.util.ts.
use graphql_prisma_postgres.Prelude.{
  ℕ, ◌≡◌, ◌⊎◌, inl, inr, refl, true, Option, none, some, List, [], ◌∷◌, arith, Option-cases,
  Bool-cases, ◌==◌, elem, All,
}
use graphql_prisma_postgres.Query.{
  SortOptions, SortDirection, sort_key, sort_field, id_field, order_by, get_safe_order_by,
}

-- The fields that a listing may be ordered by.
abbrev pub IsSafeKey : List ℕ → ℕ → ℕ × SortDirection → Type 0
IsSafeKey allowed default_field k =
    (elem k.0 allowed ≡ true) ⊎ (k.0 ≡ default_field) ⊎ (k.0 ≡ id_field)

abbrev last_key : List (ℕ × SortDirection) → Option ℕ
last_key [] = none
last_key ((f, d) ∷ []) = some f
last_key (j ∷ k ∷ ks) = last_key (k ∷ ks)

order_by-safe :
    (allowed : List ℕ) (default_field field : ℕ) (direction : SortDirection)
    → (elem field allowed ≡ true) ⊎ (field ≡ default_field)
    → All (IsSafeKey allowed default_field) (order_by field direction)
      × (last_key (order_by field direction) ≡ some id_field)
order_by-safe allowed default_field field direction h = elim (Bool-cases (field == id_field)) [
  | inl own ↦ rw own ((inr (inr refl), tt), refl)
  | inr other ↦ elim h [
    | inl listed ↦ rw other ((inl listed, (inr (inr refl), tt)), refl)
    | inr given ↦ rw other ((inr (inl given), (inr (inr refl), tt)), refl)
  ]
]

sort_key-safe :
    (sort : Option SortOptions) (allowed : List ℕ) (default_field : ℕ) (direction : SortDirection)
    → let key = sort_key sort allowed default_field direction in
      (elem key.0 allowed ≡ true) ⊎ (key.0 ≡ default_field)
unfolding sort_key
sort_key-safe sort allowed default_field direction = elim (Option-cases (sort_field sort)) [
  | inl missing ↦ ground (arith, missing)
  | inr (field, there) ↦ ground (arith, there)
]

-- A listing is only ever ordered by fields that are allowed, by the default field and by `id`, and
-- by `id` last, so that the order leaves no two rows equal.
pub get_safe_order_by-safe :
    (sort : Option SortOptions) (allowed : List ℕ) (default_field : ℕ) (direction : SortDirection)
    → All (IsSafeKey allowed default_field) (get_safe_order_by sort allowed default_field direction)
      × (last_key (get_safe_order_by sort allowed default_field direction) ≡ some id_field)
unfolding get_safe_order_by
get_safe_order_by-safe sort allowed default_field direction =
    let key = sort_key sort allowed default_field direction in
    order_by-safe allowed default_field key.0 key.1
      (sort_key-safe sort allowed default_field direction)
