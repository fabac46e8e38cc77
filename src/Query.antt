-- ===== src/Query.antt =====
-- utils/query.util.ts: the pages of a listing, and its order.
pub mod Pages
pub mod Order
use graphql_prisma_postgres.Prelude.{
  ℕ, suc, ◌+◌, ◌-◌, ◌*◌, ◌/◌, min, max, Bool, true, false, ◌&&◌, Option, none, some, List, [], ◌∷◌,
  ◌==◌, if◌then◌else◌, elem, text, truthy,
}

-- An integer of a query; `negsuc n` is -(n + 1).
pub data ℤ : Type 0 where
  pos negsuc : ℕ → ℤ

-- `Math.max(1, x)`
abbrev pub at_least_one : ℤ → ℕ
at_least_one (pos n) = max 1 n
at_least_one (negsuc n) = 1

pub record PaginationOptions : Type 0 where
  pub page : Option ℤ
  pub limit : Option ℤ

pub record Pagination : Type 0 where
  pub page : ℕ
  pub limit : ℕ
  pub skip : ℕ

abbrev pub default_limit : ℕ
default_limit = 10

abbrev pub or_default : ℕ → Option ℤ → ℤ
or_default n none = pos n
or_default n (some z) = z

abbrev pub no_options : PaginationOptions
no_options = record { page = none; limit = none }

abbrev pub or_no_options : Option PaginationOptions → PaginationOptions
or_no_options none = no_options
or_no_options (some o) = o

-- `getPagination`
unfoldable pub get_pagination : Option PaginationOptions → ℕ → Pagination
get_pagination pagination max_limit =
    let o = or_no_options pagination in
    let page = at_least_one (or_default 1 o.page) in
    let limit = min max_limit (at_least_one (or_default default_limit o.limit)) in
    record { page = page; limit = limit; skip = (page - 1) * limit }

pub record PageInfo : Type 0 where
  pub total_items : ℕ
  pub total_pages : ℕ
  pub current_page : ℕ

-- `Math.ceil(n / d)` of a positive `d`
abbrev pub ceil_div : ℕ → ℕ → ℕ
ceil_div n d = (n + (d - 1)) / d

-- `getPageInfo`, of a limit that is not zero.
unfoldable pub get_page_info : ℕ → ℕ → ℕ → PageInfo
get_page_info total limit page = record {
  total_items = total;
  total_pages = if total == 0 then 0 else ceil_div total limit;
  current_page = page;
}

pub data SortDirection : Type 0 where
  asc desc : SortDirection

-- The direction is a text; one that is neither `asc` nor `desc` is none.
pub record SortOptions : Type 0 where
  pub field : Option ℕ
  pub direction : Option SortDirection

abbrev pub sort_field : Option SortOptions → Option ℕ
sort_field none = none
sort_field (some s) = s.field

abbrev pub sort_direction : Option SortOptions → Option SortDirection
sort_direction none = none
sort_direction (some s) = s.direction

abbrev pub id_field : ℕ
id_field = text "id"

-- The field that is asked for, where it is allowed.
abbrev pub allowed_field : List ℕ → Option ℕ → Option ℕ
allowed_field allowed none = none
allowed_field allowed (some f) = if truthy f && elem f allowed then some f else none

abbrev pub or_direction : SortDirection → Option SortDirection → SortDirection
or_direction d none = d
or_direction d (some e) = e

-- By `id` alone, or by `id` last.
abbrev pub order_by : ℕ → SortDirection → List (ℕ × SortDirection)
order_by field direction =
    if field == id_field
    then (id_field, direction) ∷ []
    else (field, direction) ∷ (id_field, asc) ∷ []

-- The field and its direction: with the field, the direction that was asked for is discarded.
unfoldable pub sort_key : Option SortOptions → List ℕ → ℕ → SortDirection → ℕ × SortDirection
sort_key sort allowed default_field default_direction =
    elim (allowed_field allowed (sort_field sort)) [
      | some field ↦ (field, or_direction default_direction (sort_direction sort))
      | none ↦ (default_field, default_direction)
    ]

-- `getSafeOrderBy`
unfoldable pub get_safe_order_by :
    Option SortOptions → List ℕ → ℕ → SortDirection → List (ℕ × SortDirection)
get_safe_order_by sort allowed default_field default_direction =
    let key = sort_key sort allowed default_field default_direction in order_by key.0 key.1
