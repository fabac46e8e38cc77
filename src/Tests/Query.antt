-- ===== src/Tests/Query.antt =====
-- Pages, orders and slugs of concrete requests.
use graphql_prisma_postgres.Prelude.{same_text, ◌≤◌, ◌<◌, ◌≡◌, ◌↔◌, refl, some, arith, codes}
use graphql_prisma_postgres.Effects.{ok}
use graphql_prisma_postgres.Query.{PaginationOptions, pos, negsuc, get_pagination, get_page_info}
use graphql_prisma_postgres.Query.Pages.{get_pagination-listed}
use graphql_prisma_postgres.Workspaces.Slug.{
  validate_workspace_slug, is_reserved_slug, is_slug_after,
}
use graphql_prisma_postgres.Workspaces.Slug.Shape.{
  KeepsSlugs, IsValidSlug, validate_workspace_slug-fixed,
}
use graphql_prisma_postgres.Examples.{calm, office}

-- Page -5 of 1000 items a page.
abbrev odd_request : PaginationOptions
odd_request = record { page = some (negsuc 4); limit = some (pos 1000) }

get_pagination-listed_example :
    ((get_pagination (some odd_request) 100).page
      ≤ (get_page_info 250
          (get_pagination (some odd_request) 100).limit
          (get_pagination (some odd_request) 100).page).total_pages)
    ↔ ((get_pagination (some odd_request) 100).skip < 250)
get_pagination-listed_example = get_pagination-listed (some odd_request) 100 250 (omega arith)

calm-KeepsSlugs : KeepsSlugs calm
calm-KeepsSlugs s h = refl

acme-IsValidSlug : IsValidSlug (codes "acme-2")
unfolding is_slug_after is_reserved_slug same_text
acme-IsValidSlug = record { form = refl; long = omega arith; free = refl }

validate_workspace_slug-fixed_example :
    validate_workspace_slug (codes "acme-2") calm office ≡ (ok (codes "acme-2"), office)
validate_workspace_slug-fixed_example =
    validate_workspace_slug-fixed (codes "acme-2") calm office calm-KeepsSlugs acme-IsValidSlug
      (omega arith)
