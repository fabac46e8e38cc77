-- ===== src/Workspaces/Slug.antt =====
-- utils/slug.util.ts, and `validateWorkspaceSlug` of modules/workspace/services/workspace.service.ts:
-- the part of a workspace in its address, over code units.
pub mod Shape
use graphql_prisma_postgres.Prelude.{
  ℕ, zero, suc, ◌+◌, ◌/◌, ◌%◌, Bool, true, false, not, ◌&&◌, ◌||◌, List, [], ◌∷◌, ◌++◌, ◌==◌, ltb,
  leb, if◌then◌else◌, length, any, codes, same_text, take,
}
use graphql_prisma_postgres.Effects.{World, Env, validation, M, pure, ok, ◌>>=◌, ◌>>◌, require}
use graphql_prisma_postgres.Users.Input.{trim}

-- `[a-z0-9]`
abbrev pub is_slug_char : ℕ → Bool
is_slug_char c = (leb 97 c && leb c 122) || (leb 48 c && leb c 57)

-- `replace(/[^a-z0-9]+/g, '-')`: each run of other characters becomes one dash.
unfoldable pub dash_runs : Bool → List ℕ → List ℕ
dash_runs in_run [] = []
dash_runs in_run (c ∷ s) =
    let rest = dash_runs (not (is_slug_char c)) s in
    if is_slug_char c then c ∷ rest else if in_run then rest else 45 ∷ rest

-- `replace(/^-+|-+$/g, '')`
unfoldable pub drop_leading : List ℕ → List ℕ
drop_leading [] = []
drop_leading (c ∷ s) = let rest = drop_leading s in if c == 45 then rest else c ∷ s

abbrev pub is_nil : List ℕ → Bool
is_nil [] = true
is_nil (_ ∷ _) = false

unfoldable pub drop_trailing : List ℕ → List ℕ
drop_trailing [] = []
drop_trailing (c ∷ s) =
    let rest = drop_trailing s in if c == 45 && is_nil rest then [] else c ∷ rest

abbrev pub digit36 : ℕ → ℕ
digit36 d = if ltb d 10 then 48 + d else 87 + d

-- `toString(36)`, on fuel.
unfoldable pub base36_within : ℕ → ℕ → List ℕ
base36_within zero n = []
base36_within (suc fuel) n = elim (ltb n 36) [
  | true ↦ digit36 n ∷ []
  | false ↦ base36_within fuel (n / 36) ++ (digit36 (n % 36) ∷ [])
]

abbrev pub base36 : ℕ → List ℕ
base36 n = base36_within (suc n) n

-- `slugify`
unfoldable pub slugify : List ℕ → M (List ℕ)
slugify input env w =
    let base =
      take 48 (drop_trailing (drop_leading (dash_runs false (env.to_lower (trim input))))) in
    (ok (if is_nil base then codes "workspace-" ++ base36 w.clock else base), w)

-- `uniqueSlug` without and with a suffix
unfoldable pub unique_slug : List ℕ → List ℕ → M (List ℕ)
unique_slug base suffix = do
  slug ← slugify base
  pure (if is_nil suffix then slug else take 64 (slug ++ codes "-" ++ suffix))

-- `RESERVED_SLUGS`
abbrev pub reserved_slugs : List (List ℕ)
reserved_slugs =
    codes "admin" ∷ codes "api" ∷ codes "www" ∷ codes "app" ∷ codes "null" ∷ codes "undefined" ∷ []

-- `/^[a-z0-9]+(?:-[a-z0-9]+)*$/`, the flag being whether a character has just been read.
unfoldable pub is_slug_after : Bool → List ℕ → Bool
is_slug_after read_one [] = read_one
is_slug_after read_one (c ∷ s) =
    let rest = is_slug_after (is_slug_char c) s in rest && (is_slug_char c || (c == 45 && read_one))

abbrev pub is_slug : List ℕ → Bool
is_slug s = is_slug_after false s

unfoldable pub is_reserved_slug : List ℕ → Bool
is_reserved_slug s = any (same_text s) reserved_slugs

-- `validateWorkspaceSlug`
unfoldable pub validate_workspace_slug : List ℕ → M (List ℕ)
validate_workspace_slug raw = do
  slug ← slugify raw
  require (leb 2 (length slug)) validation
  require (not (is_reserved_slug slug)) validation
  require (is_slug slug) validation
  pure slug
