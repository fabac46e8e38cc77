-- ===== src/Workspaces/Update.antt =====
-- modules/workspace/services/workspace.service.ts: `updateWorkspace`, and the check of
-- modules/workspace/policies/workspace.policy.ts.
use graphql_prisma_postgres.Prelude.{
  ℕ, ◌≡◌, inl, inr, Bool, true, false, not, ◌&&◌, ◌||◌, Option, none, some, List, arith, ◌==◌,
  if◌then◌else◌, any, find?, update_where, encode,
}
use graphql_prisma_postgres.Data.{Workspace, is_owner_type}
use graphql_prisma_postgres.Effects.{
  World, Env, authorization, validation, conflict, plain, prisma, p2002, p2025, ok, err,
  Result-cases, map_prisma_error, mapped_or, M, pure, throw, ◌>>=◌, ◌>>◌, require, try_catch, lift,
  read, write,
}
use graphql_prisma_postgres.Identity.Coverage.{IsConsistent}
use graphql_prisma_postgres.Access.Guards.{Context}
use graphql_prisma_postgres.Users.Members.{is_workspace_row}
use graphql_prisma_postgres.Workspaces.{validate_workspace_name}
use graphql_prisma_postgres.Workspaces.Slug.{validate_workspace_slug, slugify}
use graphql_prisma_postgres.Workspaces.Slug.Shape.{IsValidSlug, validate_workspace_slug-IsValidSlug}

-- `assertSameWorkspace` and `assertIsOwner`
unfoldable pub assert_same_workspace : Context → ℕ → M (Unit {0})
assert_same_workspace c workspace = require (c.workspace_id == workspace) authorization

unfoldable pub assert_is_owner : Context → M (Unit {0})
assert_is_owner c =
    require (elim c.user_type [ none ↦ false | some t ↦ is_owner_type t ]) authorization

-- `updates.name`
unfoldable pub next_name : Option (List ℕ) → M (Option ℕ)
next_name none = pure none
next_name (some name) = do valid ← lift (validate_workspace_name name); pure (some (encode valid))

-- Another workspace of the shard has the slug.
abbrev pub has_slug_of_other : ℕ → ℕ → ℕ → Workspace → Bool
has_slug_of_other client workspace slug k =
    k.shard == client && k.slug == slug && not (k.id == workspace)

-- `updates.slug`
unfoldable pub next_slug : ℕ → ℕ → Option (List ℕ) → M (Option ℕ)
unfolding read
next_slug client workspace none = pure none
next_slug client workspace (some slug) = do
  next ← validate_workspace_slug slug
  clash ← read (λ w. any (has_slug_of_other client workspace (encode next)) w.workspaces)
  require (not clash) (conflict plain)
  pure (some (encode next))

abbrev pub set_workspace_name : Option ℕ → Workspace → Workspace
set_workspace_name none k = k
set_workspace_name (some name) k = record k { name = name }

abbrev pub set_slug : Option ℕ → Workspace → Workspace
set_slug none k = k
set_slug (some slug) k = record k { slug = slug }

-- The slug is unique on a shard, whatever the query has found before.
abbrev pub slug_clashes : ℕ → ℕ → Option ℕ → Workspace → Bool
slug_clashes client workspace none k = false
slug_clashes client workspace (some slug) k = has_slug_of_other client workspace slug k

-- `client.workspace.update({ where: { id }, data: updates })`
unfoldable pub update_workspace_row : ℕ → ℕ → Option ℕ → Option ℕ → M Workspace
unfolding write
update_workspace_row client workspace name slug = write λ w.
    elim (find? (is_workspace_row client workspace) w.workspaces) [
      | none ↦ (err (prisma p2025), w)
      | some k ↦
          if any (slug_clashes client workspace slug) w.workspaces
          then (err (prisma p2002), w)
          else (
            ok (set_slug slug (set_workspace_name name k)),
            record w {
              workspaces =
                  update_where (is_workspace_row client workspace)
                    (λ j. set_slug slug (set_workspace_name name j)) w.workspaces;
            },
          )
    ]

abbrev pub is_given : Option ℕ → Bool
is_given none = false
is_given (some _) = true

unfoldable pub update_workspace : ℕ → ℕ → Option (List ℕ) → Option (List ℕ) → M Workspace
update_workspace client workspace name slug = do
  name' ← next_name name
  slug' ← next_slug client workspace slug
  require (is_given name' || is_given slug') validation
  try_catch (update_workspace_row client workspace name' slug')
      (λ e. throw (mapped_or (map_prisma_error e) e))

update_workspace_row-slug :
    (client workspace s : ℕ) (name : Option ℕ) (row : Workspace) (env : Env) (w : World)
    → (update_workspace_row client workspace name (some s) env w).0 ≡ ok row
    → row.slug ≡ s
unfolding update_workspace_row
update_workspace_row-slug client workspace s name row env w e = ground arith

next_slug-valid :
    (client workspace : ℕ) (raw : List ℕ) (o : Option ℕ) (env : Env) (w : World)
    → (next_slug client workspace (some raw) env w).0 ≡ ok o
    → (s : List ℕ) × (o ≡ some (encode s)) × IsValidSlug s
unfolding next_slug
next_slug-valid client workspace raw o env w e =
    elim (Result-cases (validate_workspace_slug raw env w).0) [
      | inr (thrown, q) ↦ absurd (ground (arith, q))
      | inl (s, q) ↦ (s, ground (arith, q), (validate_workspace_slug-IsValidSlug raw s env w q).0)
    ]

-- Where an update that gives a slug returns, the row that it returns has a valid slug.
pub update_workspace-IsValidSlug :
    (client workspace : ℕ) (name : Option (List ℕ)) (raw : List ℕ) (row : Workspace) (env : Env)
    (w : World)
    → (update_workspace client workspace name (some raw) env w).0 ≡ ok row
    → (s : List ℕ) × (row.slug ≡ encode s) × IsValidSlug s
unfolding update_workspace
update_workspace-IsValidSlug client workspace name raw row env w e =
    let w1 = (next_name name env w).1 in
    elim (Result-cases (next_name name env w).0) [
      | inr (thrown, q) ↦ absurd (ground (arith, q))
      | inl (name', q) ↦ elim (Result-cases (next_slug client workspace (some raw) env w1).0) [
        | inr (thrown, r) ↦ absurd (ground (arith, q, r))
        | inl (o, r) ↦
            let (s, made, valid) = next_slug-valid client workspace raw o env w1 r in
            let w2 = (next_slug client workspace (some raw) env w1).1 in
            let stored : (update_workspace_row client workspace name' (some (encode s)) env w2).0
                ≡ ok row =
              ground (arith, q, r, made) in
            (
              s,
              update_workspace_row-slug client workspace (encode s) name' row env w2 stored,
              valid,
            )
      ]
    ]

pub update_workspace-IsConsistent :
    (client workspace : ℕ) (name slug : Option (List ℕ)) (env : Env) (w : World)
    → IsConsistent w
    → IsConsistent (update_workspace client workspace name slug env w).1
unfolding update_workspace update_workspace_row next_name next_slug validate_workspace_slug slugify
update_workspace-IsConsistent client workspace name slug env w h = ground arith
