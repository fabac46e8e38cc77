-- ===== src/Query/Pages.antt =====
-- The pages of utils/query.util.ts.
use graphql_prisma_postgres.Prelude.{
  ℕ, suc, ◌+◌, ◌-◌, ◌*◌, ◌≤◌, ◌<◌, ◌≡◌, ◌↔◌, inl, inr, refl, Option, arith, Bool-cases, ◌==◌,
}
use native.Mathlib.Nat.{suc-mul, le-div_iff_mul-le}
use graphql_prisma_postgres.Query.{
  PaginationOptions, Pagination, get_pagination, get_page_info, or_no_options, or_default,
  at_least_one, ℤ, pos, negsuc,
}

-- A page that exists: at least the first, of at least one item and of no more than is allowed, behind
-- the items of the pages before it.
pub record IsPage (max_limit : ℕ) (p : Pagination) : Type 0 where
  pub first : 1 ≤ p.page
  pub some_items : 1 ≤ p.limit
  pub few_items : p.limit ≤ max_limit
  pub behind : p.skip ≡ (p.page - 1) * p.limit

at_least_one-le : (z : ℤ) → 1 ≤ at_least_one z
at_least_one-le (pos n) = omega arith
at_least_one-le (negsuc n) = omega arith

-- Whatever is asked for, missing and negative numbers included, the page is at least the first, the
-- limit is at least one and at most the greatest that is allowed, where that is not zero, and exactly
-- the pages before the page are skipped.
pub get_pagination-IsPage :
    (pagination : Option PaginationOptions) (max_limit : ℕ)
    → 1 ≤ max_limit
    → IsPage max_limit (get_pagination pagination max_limit)
unfolding get_pagination
get_pagination-IsPage pagination max_limit h =
    let o = or_no_options pagination in
    let first = at_least_one-le (or_default 1 o.page) in
    let items = at_least_one-le (or_default 10 o.limit) in
    record { first = first; some_items = omega arith; few_items = omega arith; behind = refl }

page_starts :
    (total limit q : ℕ) → 1 ≤ limit → (suc q * limit ≤ total + (limit - 1)) ↔ (q * limit < total)
page_starts total limit q h =
    let e : suc q * limit ≡ q * limit + limit = suc-mul q limit in
    (λ a. omega arith, λ b. omega arith)

page_listed :
    (total limit page q : ℕ)
    → 1 ≤ limit
    → (suc q ≤ (get_page_info total limit page).total_pages) ↔ (q * limit < total)
unfolding get_page_info
page_listed total limit page q h = elim (Bool-cases (total == 0)) [
  | inl nothing ↦ ground (arith, nothing)
  | inr items ↦
      let a = le-div_iff_mul-le {k = limit} {x = suc q} {y = total + (limit - 1)} h in
      let b = page_starts total limit q h in rw items (λ k. b.0 (a.0 k), λ k. a.1 (b.1 k))
]

-- A page counts among the pages of a listing exactly if there is an item behind the ones that it
-- skips: no item is out of reach, and no page is empty.
pub get_pagination-listed :
    (pagination : Option PaginationOptions) (max_limit total : ℕ)
    → 1 ≤ max_limit
    → ((get_pagination pagination max_limit).page
        ≤ (get_page_info total
            (get_pagination pagination max_limit).limit
            (get_pagination pagination max_limit).page).total_pages)
      ↔ ((get_pagination pagination max_limit).skip < total)
get_pagination-listed pagination max_limit total h =
    let p = get_pagination pagination max_limit in
    let is : IsPage max_limit p = get_pagination-IsPage pagination max_limit h in
    let q = p.page - 1 in
    let whole : suc q ≡ p.page = ground (arith, is.first) in
    let listed = page_listed total p.limit p.page q is.some_items in
    rw (is.behind) (rw whole at listed)
